-- ===== src/Relay/Reports.antt =====
-- The reports of the relay service on the messages that it sends.
use neo_nect_desktop.Base.{
  Bool, true, false, ◌||◌, List, [], ◌∷◌, ◌++◌, ◌≡◌, refl, ap, sym, ◌∙◌, inl, arith, inr,
  if◌then◌else◌, Bool-cases, ℤ, pos, eqb_ℤ,
}
use mathlib.Core.List.{append_assoc}
use neo_nect_desktop.Base.Text.{String, is_empty, ◌<>◌}
use neo_nect_desktop.Crypto.{Bytes, OpenSsl, EncryptedPayload, encrypt_aes_gcm}
use neo_nect_desktop.Socket.State.{Network}
use neo_nect_desktop.Storage.Message.{Message}
use neo_nect_desktop.Relay.{
  ISettingsRepository, RelayService, Web, Effect, secure_message_transmitted,
  message_transmission_status, post, send_answer,
}
use neo_nect_desktop.Relay.Session.{ep_relay_send, handle_401_error}
use neo_nect_desktop.Relay.Send.{
  Moment, send_domain_message, with_device_id, transmit, packet_of, report, target_of, on_sent,
  body_error, envelope_members,
}

-- The two signals on the end of a transmission.
abbrev pub end_of : String → String → Bool → String → List Effect
end_of target id ok err =
    secure_message_transmitted target ok ∷ message_transmission_status target id ok err ∷ []

-- The packet of a message, encrypted with a key.
abbrev pub sealed_packet :
    {S : Type 0}
    → ISettingsRepository S
    → Web
    → Network
    → OpenSsl
    → Moment
    → Message
    → S
    → Bytes
    → EncryptedPayload
sealed_packet i w n o now msg settings key =
    encrypt_aes_gcm o key (w.to_json (packet_of i w n now msg settings)) []

-- What sending a message in the state `before` adds to the log, and when: the four cases exclude
-- each other.
pub data IsAnswered {S : Type 0} (i : ISettingsRepository S) (w : Web) (n : Network) (o : OpenSsl)
    (now : Moment) (msg : Message) (before : RelayService S) (after : List Effect) : Type 0 where
  own :
      n.same_ci (target_of msg.conversation_id) "saved-messages" ≡ true
      → after ≡ before.log ++ end_of (target_of msg.conversation_id) msg.id true ""
      → IsAnswered i w n o now msg before after
  refused :
      n.same_ci (target_of msg.conversation_id) "saved-messages" ≡ false
      → (is_empty (i.auth_token before.settings) || is_empty (target_of msg.conversation_id)) ≡ true
      → after
        ≡ before.log
          ++ end_of
              (target_of msg.conversation_id)
              msg.id
              false
              "Missing session token or recipient"
      → IsAnswered i w n o now msg before after
  unsealed :
      (settings : S)
      → n.same_ci (target_of msg.conversation_id) "saved-messages" ≡ false
      → is_empty (i.auth_token before.settings) ≡ false
      → is_empty (target_of msg.conversation_id) ≡ false
      → (sealed_packet i w n o now msg settings before.master).success ≡ false
      → after
        ≡ before.log
          ++ end_of (target_of msg.conversation_id) msg.id false (
              "E2EE Encryption failed: "
              <> (sealed_packet i w n o now msg settings before.master).error_message)
      → IsAnswered i w n o now msg before after
  requested :
      (settings : S) (device_id : String)
      → n.same_ci (target_of msg.conversation_id) "saved-messages" ≡ false
      → is_empty (i.auth_token before.settings) ≡ false
      → is_empty (target_of msg.conversation_id) ≡ false
      → (sealed_packet i w n o now msg settings before.master).success ≡ true
      → after
        ≡ before.log
          ++ post ep_relay_send
              (w.to_json (
                envelope_members device_id
                  (target_of msg.conversation_id)
                  (w.to_base64 (sealed_packet i w n o now msg settings before.master).envelope)
                  now.now_s))
              (send_answer (target_of msg.conversation_id) msg.id)
            ∷ []
      → IsAnswered i w n o now msg before after

module _ {S : Type 0} (i : ISettingsRepository S) (w : Web) (n : Network) where
  with_device_id-log :
      (now : Moment) (s : RelayService S) → (with_device_id i w n now s).1.log ≡ s.log
  unfolding with_device_id
  with_device_id-log now s = elim (Bool-cases (is_empty (n.trimmed (i.device_id s.settings)))) [
    | inl e ↦ rw e refl
    | inr e ↦ rw e refl
  ]

  with_device_id-master :
      (now : Moment) (s : RelayService S) → (with_device_id i w n now s).1.master ≡ s.master
  unfolding with_device_id
  with_device_id-master now s = elim (Bool-cases (is_empty (n.trimmed (i.device_id s.settings)))) [
    | inl e ↦ rw e refl
    | inr e ↦ rw e refl
  ]

  -- The log of `report`, on a state with the log of an earlier one.
  report-log :
      (target id : String) (ok : Bool) (err : String) (log : List Effect) (s : RelayService S)
      → s.log ≡ log
      → (report i w n target id ok err s).log ≡ log ++ end_of target id ok err
  unfolding report
  report-log target id ok err log s e =
      append_assoc s.log _ _ ∙ ap (λ l. l ++ end_of target id ok err) e

  transmit-IsAnswered :
      (o : OpenSsl) (now : Moment) (device_id : String) (msg : Message) (s t : RelayService S)
      → t.log ≡ s.log
      → t.master ≡ s.master
      → n.same_ci (target_of msg.conversation_id) "saved-messages" ≡ false
      → is_empty (i.auth_token s.settings) ≡ false
      → is_empty (target_of msg.conversation_id) ≡ false
      → IsAnswered i w n o now msg s
          (transmit i w n o now device_id (target_of msg.conversation_id) msg t).log
  unfolding transmit
  transmit-IsAnswered o now device_id msg s t same_log same_key other token peer =
      let target = target_of msg.conversation_id in
      let packet = w.to_json (packet_of i w n now msg t.settings) in
      let sealed = encrypt_aes_gcm o t.master packet [] in
      let same : encrypt_aes_gcm o s.master packet [] ≡ sealed =
        ap (λ k. encrypt_aes_gcm o k packet []) (sym same_key) in
      elim (Bool-cases sealed.success) [
        | inl e ↦ rw e (
            requested t.settings device_id other token peer (ap (λ x. x.success) same ∙ e) (
              ap
                (λ l.
                  l
                  ++ post ep_relay_send
                      (w.to_json
                        (envelope_members device_id target (w.to_base64 sealed.envelope) now.now_s))
                      (send_answer target msg.id)
                    ∷ [])
                same_log
              ∙ ap
                  (λ x.
                    s.log
                    ++ post ep_relay_send
                        (w.to_json
                          (envelope_members device_id target (w.to_base64 x.envelope) now.now_s))
                        (send_answer target msg.id)
                      ∷ [])
                  (sym same)))
        | inr e ↦ rw e (
            unsealed t.settings other token peer (ap (λ x. x.success) same ∙ e) (
              report-log target msg.id false ("E2EE Encryption failed: " <> sealed.error_message)
                s.log t same_log
              ∙ ap
                  (λ x.
                    s.log
                    ++ end_of target msg.id false ("E2EE Encryption failed: " <> x.error_message))
                  (sym same)))
      ]

  -- Sending a message to the saved messages reports success at once; otherwise, without a token or a
  -- recipient, or if the packet cannot be encrypted, it reports that at once; and otherwise it makes
  -- one request, with the sealed packet for the recipient, and reports nothing yet. The log has
  -- nothing else.
  pub send_domain_message-IsAnswered :
      (o : OpenSsl) (now : Moment) (msg : Message) (s : RelayService S)
      → IsAnswered i w n o now msg s (send_domain_message i w n o now msg s).log
  unfolding send_domain_message
  send_domain_message-IsAnswered o now msg s =
      let t = with_device_id i w n now s in
      let same = with_device_id-log now s in
      let target = target_of msg.conversation_id in
      elim (Bool-cases (n.same_ci target "saved-messages")) [
        | inl e ↦
            rw (send_domain_message, e) (own e (report-log target msg.id true "" s.log t.1 same))
        | inr e ↦ elim (Bool-cases (is_empty (i.auth_token s.settings) || is_empty target)) [
          | inl f ↦
              rw (send_domain_message, e, f)
                (refused e f (
                  report-log target msg.id false "Missing session token or recipient" s.log t.1
                    same))
          | inr f ↦
              rw (send_domain_message, e, f)
                (transmit-IsAnswered o now t.0 msg s t.1 same (with_device_id-master now s) e
                  (ground (arith, f)) (ground (arith, f)))
        ]
      ]

  -- The answer to that request ends with the two signals for the message, whatever its status, its
  -- body and the network's error, and they say success exactly if the network reports no error or the
  -- status is 200 or 201.
  on_sent-reported :
      (target id : String) (status : ℤ) (body : Bytes) (no_error : Bool) (err : String)
      (s : RelayService S)
      → (before : List Effect) × (shown : String) × ((on_sent i w n target id status body no_error
            err s).log
          ≡ before
            ++ end_of target id
                (no_error || eqb_ℤ status (pos 200) || eqb_ℤ status (pos 201))
                shown)
  unfolding on_sent report
  on_sent-reported target id status body no_error err s =
      elim (Bool-cases (no_error || eqb_ℤ status (pos 200) || eqb_ℤ status (pos 201))) [
        | inl e ↦ rw (on_sent, e) (s.log, "", append_assoc s.log _ _)
        | inr e ↦
            let t = if eqb_ℤ status (pos 401) then handle_401_error i n s else s in
            let otherwise = if is_empty err then "Network relay transmission failed" else err in
            rw (on_sent, e)
              (t.log, body_error i w n status otherwise (w.of_json body), append_assoc t.log _ _)
      ]
