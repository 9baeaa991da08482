-- ===== src/Messaging/Stored.antt =====
-- A message that the message service sends and the repository saves, and its retry after a restart.
use neo_nect_desktop.Base.{
  true, false, ◌&&◌, List, [], ◌∷◌, ◌++◌, none, some, ◌≡◌, refl, ap, ◌∙◌, ◌⊎◌, ℤ, pos, ◌≤ℤ◌,
  Bool-cases, inl, inr,
}
use neo_nect_desktop.Base.Text.{◌==◌, is_empty, eq_refl}
use neo_nect_desktop.Base.Hash.{find, find-insert}
use neo_nect_desktop.Qt.{Qt}
use neo_nect_desktop.Storage.Message.{Message, sending, status_code}
use neo_nect_desktop.Storage.Table.{select_where, has_id}
use neo_nect_desktop.Storage.Repository.{
  SqlMessageRepositoryWorker, saved_timestamp, row_of, do_save_message,
}
use neo_nect_desktop.Storage.Saved.{
  Reads, IsInt, stored, do_get_message_by_id-do_save_message, select_where-saved,
}
use neo_nect_desktop.Messaging.{
  MessageService, Platform, Effect, of_message, save_message, get_message_by_id, transmit_message,
  message_updated, emit, is_saved_messages,
}
use neo_nect_desktop.Messaging.Transfers.{start_transfer, start_timer}
use neo_nect_desktop.Messaging.Statuses.{stop_transfer-IsStopped}
use neo_nect_desktop.Messaging.Send.{on_message_saved, fail_save}
use neo_nect_desktop.Messaging.Delivery.{
  execute_retry, resend, carries_file, with_status, on_message_fetched, retry_message,
}
use neo_nect_desktop.Messaging.Store.{App, Database, on_saved, perform}

-- What a failed save leaves: the failure is shown, and no transfer of the message is active.
fail_save-shown :
    (msg : Message) (s : MessageService)
    → ((fail_save msg s).log
        ≡ s.log ++ message_updated msg.conversation_id msg.id "failed" "Local DB Error" ∷ [])
      × (find msg.id (fail_save msg s).transfers.active ≡ none)
unfolding fail_save
fail_save-shown msg s =
    let k = stop_transfer-IsStopped msg.id s in
    let shown = message_updated msg.conversation_id msg.id "failed" "Local DB Error" in
    (ap (λ l. l ++ shown ∷ []) k.log, k.active msg.id ∙ rw (eq_refl msg.id) refl)

-- A message that is sent again is the last of the log, and kept among the outgoing ones.
resend-transmitted :
    (p : Platform) (msg : Message) (s : MessageService)
    → ((before : List Effect) × ((resend p msg s).log ≡ before ++ transmit_message msg ∷ []))
      × (find msg.id (resend p msg s).outgoing_messages ≡ some msg)
unfolding resend start_transfer start_timer
resend-transmitted p msg s = (
  (_, refl),
  elim (Bool-cases (msg.type == "media_request")) [
    | inl e ↦ elim (Bool-cases (carries_file msg.type)) [
      | inl f ↦ rw (f, e) (find-insert msg.id msg s.outgoing_messages)
      | inr f ↦ rw (f, e) (find-insert msg.id msg s.outgoing_messages)
    ]
    | inr e ↦ elim (Bool-cases (carries_file msg.type)) [
      | inl f ↦ rw (f, e) (find-insert msg.id msg s.outgoing_messages)
      | inr f ↦ rw (f, e) (find-insert msg.id msg s.outgoing_messages)
    ]
  ],
)

module _ (q : Qt) (p : Platform) where
  -- A message for a peer whose save the repository carries out is the only row with its id, and is
  -- handed to the relay, with nothing else for the service to do; if the database is closed, or the
  -- statement is not carried out, the table stays as it was, the message is shown as failed and not
  -- handed on, and no transfer of it is active any more.
  pub perform-save_message :
      (d : Database) (msg : Message) (a : App)
      → let after = perform q p d (save_message msg (of_message msg false)) a in
        (((a.worker.is_open && d.ok 0) ≡ true)
          × (after.service ≡ emit (transmit_message msg) a.service)
          × (select_where (has_id msg.id) after.worker.messages ≡ row_of q (d.clock 0) msg ∷ []))
        ⊎ (((a.worker.is_open && d.ok 0) ≡ false)
            × (after.worker ≡ a.worker)
            × (after.service.log
                ≡ a.service.log
                  ++ message_updated msg.conversation_id msg.id "failed" "Local DB Error" ∷ [])
            × (find msg.id after.service.transfers.active ≡ none))
  unfolding perform on_saved on_message_saved do_save_message
  perform-save_message d msg a =
      let shown = fail_save-shown msg a.service in
      elim (Bool-cases a.worker.is_open) [
        | inl o ↦ elim (Bool-cases (d.ok 0)) [
          | inl k ↦
              inl (rw (o, k) (refl, refl, select_where-saved q (d.clock 0) msg a.worker.messages))
          | inr k ↦ inr (rw (o, k) (refl, refl, shown.0, shown.1))
        ]
        | inr o ↦ inr (rw o (refl, refl, shown.0, shown.1))
      ]

  -- If a variant converts to the value of its own kind: a message that was saved in an open database can
  -- be sent again by a later run that holds no message, if it is not one of the saved messages, its saved
  -- timestamp is not below 10^11 and its duration and the number of its status have 32 bits. The retry
  -- asks the repository for it, and its answer hands it to the relay, as it was saved but for the status
  -- and an empty error, and keeps it among the outgoing messages.
  pub perform-retry_message :
      (d : Database) (now : ℤ) (msg : Message) (w : SqlMessageRepositoryWorker) (s : MessageService)
      → Reads q
      → w.is_open ≡ true
      → d.ok 0 ≡ true
      → IsInt msg.duration
      → IsInt (status_code msg.status)
      → pos 100000000000 ≤ℤ saved_timestamp now msg.timestamp
      → is_empty msg.id ≡ false
      → find msg.id s.outgoing_messages ≡ none
      → find msg.id s.pending_media_requests ≡ none
      → is_saved_messages (stored q now msg).conversation_id ≡ false
      → let saved = (do_save_message q true now msg w).1 in
        let asked = retry_message p msg.id s in
        let after =
          perform q p d (get_message_by_id msg.id) (record { service = asked; worker = saved }) in
        let again = with_status sending "" (stored q now msg) in
        (asked ≡ emit (get_message_by_id msg.id) s)
        × ((before : List Effect) × (after.service.log ≡ before ++ transmit_message again ∷ []))
        × (find msg.id after.service.outgoing_messages ≡ some again)
  unfolding perform retry_message on_message_fetched execute_retry
  perform-retry_message d now msg w s reads o k duration status late e f g peer =
      let read =
        do_get_message_by_id-do_save_message q now (d.clock 0) msg w reads o duration status late in
      let asked = retry_message p msg.id s in
      let sent_again = resend-transmitted p (with_status sending "" (stored q now msg)) asked in
      (
        rw (retry_message, e, f, g) refl,
        rw (k, read, peer) sent_again.0,
        rw (k, read, peer) sent_again.1,
      )
