-- ===== src/Relay/Keeps.antt =====
-- The calls of the relay service keep the identifiers of the items that it has seen.
use neo_nect_desktop.Base.{
  Bool, true, false, ◌||◌, not, ltb, [], ◌≡◌, refl, sym, subst, arith, if◌then◌else◌, Bool-cases,
  inl, inr, ℤ, eqb_ℤ, pos,
}
use neo_nect_desktop.Base.Text.{String, ◌<>◌, is_empty}
use neo_nect_desktop.Crypto.{Bytes, OpenSsl, encrypt_aes_gcm}
use neo_nect_desktop.Socket.State.{Network}
use neo_nect_desktop.Storage.Message.{Message}
use neo_nect_desktop.Relay.{ISettingsRepository, RelayService, Web}
use neo_nect_desktop.Relay.Session.{
  on_ws_connected, poll_pending_messages, acknowledge_message, open_socket, start_polling,
  stop_polling, handle_401_error, must_open, is_mock,
}
use neo_nect_desktop.Relay.Send.{
  Moment, send_domain_message, with_device_id, transmit, packet_of, on_sent, report, target_of,
}
use neo_nect_desktop.Relay.Receive.{is_processed, note_processed}

-- The item of an identifier was processed.
pub record Seen {S : Type 0} (id : ℤ) (s : RelayService S) : Type 0 where
  pub seen : is_processed id s.processed_message_ids ≡ true

module _ {S : Type 0} (id : ℤ) where
  -- A service with the same identifiers.
  pub Seen-same :
      (s t : RelayService S)
      → t.processed_message_ids ≡ s.processed_message_ids
      → Seen id s
      → Seen id t
  Seen-same s t e v = record { seen = subst (λ ids. is_processed id ids ≡ true) (sym e) v.seen }

  pub Seen-if :
      (x y : RelayService S) (b : Bool) → Seen id x → Seen id y → Seen id (if b then x else y)
  Seen-if x y true v w = v
  Seen-if x y false v w = w

  pub Seen-note : (other : ℤ) (s : RelayService S) → Seen id s → Seen id (note_processed other s)
  unfolding is_processed
  Seen-note other s v = record { seen = ground (arith, v.seen) }

module _ {S : Type 0} (i : ISettingsRepository S) (id : ℤ) where
  pub poll-Seen : (s : RelayService S) → Seen id s → Seen id (poll_pending_messages i s)
  unfolding poll_pending_messages
  poll-Seen s v =
      Seen-if id _ _
        (is_empty (i.auth_token s.settings)
          || is_empty (i.device_id s.settings)
          || s.is_polling_active)
        v (Seen-same id s _ refl v)

  pub acknowledge-Seen :
      (w : Web) (other : ℤ) (s : RelayService S)
      → Seen id s
      → Seen id (acknowledge_message i w other s)
  unfolding acknowledge_message
  acknowledge-Seen w other s v =
      Seen-if id _ _ (is_empty (i.auth_token s.settings) || is_empty (i.device_id s.settings)) v
        (Seen-same id s _ refl v)

  pub start-Seen : (n : Network) (s : RelayService S) → Seen id s → Seen id (start_polling i n s)
  unfolding start_polling open_socket on_ws_connected
  start-Seen n s v = poll-Seen _ (
      Seen-if id _ _ (is_mock s) (Seen-same id s _ refl v) (
        Seen-if id _ _
          (must_open i n (n.trimmed (i.device_id s.settings)) (n.trimmed (i.auth_token s.settings))
            s.ws_client)
          (Seen-same id s _ refl v) (Seen-same id s _ refl v)))

  pub handle_401-Seen :
      (n : Network) (s : RelayService S) → Seen id s → Seen id (handle_401_error i n s)
  unfolding handle_401_error stop_polling
  handle_401-Seen n s v =
      Seen-if id _ _ (ltb s.retry_401_count 2) (Seen-same id s _ refl v) (Seen-same id s _ refl v)

  report-Seen :
      (w : Web) (n : Network) (target message : String) (ok : Bool) (err : String)
      (s : RelayService S)
      → Seen id s
      → Seen id (report i w n target message ok err s)
  unfolding report
  report-Seen w n target message ok err s v = Seen-same id s _ refl v

  with_device_id-Seen :
      (w : Web) (n : Network) (now : Moment) (s : RelayService S)
      → Seen id s
      → Seen id (with_device_id i w n now s).1
  unfolding with_device_id
  with_device_id-Seen w n now s v =
      elim (Bool-cases (is_empty (n.trimmed (i.device_id s.settings)))) [
        | inl e ↦ rw e (Seen-same id s _ refl v)
        | inr e ↦ rw e v
      ]

  transmit-Seen :
      (w : Web) (n : Network) (o : OpenSsl) (now : Moment) (device_id target : String)
      (msg : Message) (s : RelayService S)
      → Seen id s
      → Seen id (transmit i w n o now device_id target msg s)
  unfolding transmit
  transmit-Seen w n o now device_id target msg s v =
      let sealed = encrypt_aes_gcm o s.master (w.to_json (packet_of i w n now msg s.settings)) [] in
      Seen-if id _ _ (not sealed.success)
        (report-Seen w n target msg.id false ("E2EE Encryption failed: " <> sealed.error_message) s
          v)
        (Seen-same id s _ refl v)

  pub send-Seen :
      (w : Web) (n : Network) (o : OpenSsl) (now : Moment) (msg : Message) (s : RelayService S)
      → Seen id s
      → Seen id (send_domain_message i w n o now msg s)
  unfolding send_domain_message
  send-Seen w n o now msg s v =
      let k = with_device_id-Seen w n now s v in
      let t = (with_device_id i w n now s).1 in
      let target = target_of msg.conversation_id in
      Seen-if id _ _ (n.same_ci target "saved-messages") (report-Seen w n target msg.id true "" t k)
        (Seen-if id _ _ (is_empty (i.auth_token s.settings) || is_empty target)
          (report-Seen w n target msg.id false "Missing session token or recipient" t k)
          (transmit-Seen w n o now _ target msg t k))

  pub on_sent-Seen :
      (w : Web) (n : Network) (target message : String) (status : ℤ) (body : Bytes)
      (no_error : Bool) (err : String) (s : RelayService S)
      → Seen id s
      → Seen id (on_sent i w n target message status body no_error err s)
  unfolding on_sent
  on_sent-Seen w n target message status body no_error err s v =
      Seen-if id _ _ (no_error || eqb_ℤ status (pos 200) || eqb_ℤ status (pos 201))
        (report-Seen w n target message true "" s v)
        (report-Seen w n target message false _ _
          (Seen-if id _ _ (eqb_ℤ status (pos 401)) (handle_401-Seen n s v) v))
