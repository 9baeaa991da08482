-- ===== src/Messaging/Offers.antt =====
-- The two-phase transfer of a file in the message service: what becomes of a pending request.
use mathlib.Core.Option
use mathlib.Core.List.{append_assoc}
use neo_nect_desktop.Base.{
  ℤ, true, List, [], ◌∷◌, ◌++◌, none, some, ◌≡◌, refl, sym, ap, ◌∙◌, subst, arith, if◌then◌else◌,
  Bool-cases, Option-cases, inl, inr,
}
use neo_nect_desktop.Base.Text.{String, is_empty, eq_refl}
use neo_nect_desktop.Base.Hash.{find, insert, find-removed, find-insert, find-adjust, has_key-find}
use neo_nect_desktop.Qt.{Qt, Qreal}
use neo_nect_desktop.Storage.Message.{Message, accepted, sent}
use neo_nect_desktop.Messaging.{
  MessageService, Platform, Stamp, Effect, answer_request, message_removed, delete_message,
}
use neo_nect_desktop.Messaging.Transfers.{start_transfer, start_timer, show_progress}
use neo_nect_desktop.Messaging.Receive.{receive_accept, take_request, send_payload, payload_message}
use neo_nect_desktop.Messaging.Delivery.{handle_message_delivery_status, settle, with_status}

-- What every media_accept adds to the log.
abbrev pub answered : String → String → List Effect
answered conversation id =
    answer_request id accepted conversation
    ∷ message_removed conversation id
    ∷ delete_message id
    ∷ []

module _ (q : Qt) (p : Platform) where
  show_progress-outgoing :
      (conversation id request : String) (progress : Qreal) (bytes total : ℤ) (s : MessageService)
      → ((show_progress conversation id request progress bytes total s).outgoing_messages
          ≡ s.outgoing_messages)
        × ((show_progress conversation id request progress bytes total s).pending_media_requests
            ≡ s.pending_media_requests)
  show_progress-outgoing conversation id request progress bytes total s =
      elim (Bool-cases (is_empty request)) [ inl e ↦ rw e (refl, refl) | inr e ↦ rw e (refl, refl) ]

  -- What a payload leaves of the cached messages.
  send_payload-kept :
      (id : String) (msg : Message) (s : MessageService)
      → ((send_payload q p id msg s).outgoing_messages ≡ insert msg.id msg s.outgoing_messages)
        × ((send_payload q p id msg s).pending_media_requests ≡ s.pending_media_requests)
  unfolding send_payload start_transfer start_timer
  send_payload-kept id msg s = show_progress-outgoing _ _ _ _ _ _ _

  take_request-none :
      (stamp : Stamp) (id : String) (s : MessageService)
      → find id (take_request q p stamp id s).pending_media_requests ≡ none
  unfolding take_request
  take_request-none stamp id s = elim (Option-cases (find id s.pending_media_requests)) [
    | inl e ↦ rw (take_request, e) e
    | inr (original, e) ↦
        rw (take_request, e)
          (ap (find id) (send_payload-kept id _ _).1 ∙ find-removed id s.pending_media_requests)
  ]

  -- A media_accept for a pending request keeps a message with the request's file and caption among
  -- the outgoing ones, with the request's id for the peer and its kind, or else "file", as the type;
  -- the request is no longer pending.
  receive_accept-payload :
      (stamp : Stamp) (msg original : Message) (s : MessageService)
      → find (q.trimmed msg.text) s.pending_media_requests ≡ some original
      → ((payload : Message) × (find stamp.uuid (receive_accept q p stamp msg s).outgoing_messages
            ≡ some payload)
          × (payload.type ≡ (if is_empty original.error_text then "file" else original.error_text))
          × (payload.media_url ≡ original.media_url)
          × (payload.text ≡ original.text)
          × (payload.error_text ≡ q.trimmed msg.text))
        × (find (q.trimmed msg.text) (receive_accept q p stamp msg s).pending_media_requests ≡ none)
  unfolding receive_accept take_request payload_message
  receive_accept-payload stamp msg original s e =
      let id = q.trimmed msg.text in
      (
        rw (take_request, e)
            (
              payload_message q p stamp id original s,
              ap (find stamp.uuid) (send_payload-kept id _ _).0 ∙ find-insert stamp.uuid _ _,
              refl,
              refl,
              refl,
              refl,
            ),
        take_request-none stamp id _,
      )

  -- After a request was accepted, a second media_accept for it, from any message, changes nothing
  -- but the log, where it adds the answer, and no file.
  pub receive_accept-once :
      (stamp stamp' : Stamp) (msg msg' : Message) (s : MessageService)
      → q.trimmed msg'.text ≡ q.trimmed msg.text
      → let once = receive_accept q p stamp msg s in
        receive_accept q p stamp' msg' once
        ≡ record once { log = once.log ++ answered msg'.conversation_id (q.trimmed msg'.text) }
  unfolding receive_accept take_request
  receive_accept-once stamp stamp' msg msg' s e =
      let gone : find (q.trimmed msg'.text) (receive_accept q p stamp msg s).pending_media_requests
          ≡ none =
        subst (λ id. find id (receive_accept q p stamp msg s).pending_media_requests ≡ none) (sym e)
          (take_request-none stamp (q.trimmed msg.text) _) in
      rw (take_request, gone) (simp append_assoc)

  -- The settled message is looked for under its id.
  find-settle :
      (id : String) (original : Message) (s : MessageService)
      → find id s.pending_media_requests ≡ some original
      → find id s.transfers.active ≡ none
      → find id (handle_message_delivery_status id true "" s).pending_media_requests
        ≡ some (with_status sent "" original)
  unfolding handle_message_delivery_status settle
  find-settle id original s e idle =
      rw (handle_message_delivery_status, has_key-find id s.transfers.active idle)
        (find-adjust id id (with_status sent "") s.pending_media_requests
          ∙ ground (arith, e, eq_refl id))

  -- If the delivery of a request was confirmed before the peer's media_accept, the file is kept with
  -- the type "file", whatever kind the request named.
  pub receive_accept-delivered :
      (stamp : Stamp) (msg original : Message) (s : MessageService)
      → find (q.trimmed msg.text) s.pending_media_requests ≡ some original
      → find (q.trimmed msg.text) s.transfers.active ≡ none
      → Option.map
          (λ m. m.type)
          (find stamp.uuid
            (receive_accept q p stamp msg
              (handle_message_delivery_status (q.trimmed msg.text) true "" s)).outgoing_messages)
        ≡ some "file"
  receive_accept-delivered stamp msg original s e idle =
      let id = q.trimmed msg.text in
      let sent_request = find-settle id original s e idle in
      let payload =
        (receive_accept-payload stamp msg (with_status sent "" original) _ sent_request).0 in
      ap (Option.map (λ (m : Message). m.type)) payload.1 ∙ ap some payload.2
