-- ===== src/Relay/Send.antt =====
-- sendDomainMessage of src/services/relayservice.cpp, with its callback.
use neo_nect_desktop.Base.{
  Bool, true, false, ◌&&◌, ◌||◌, not, List, [], ◌∷◌, Option, none, some, ℤ, pos, ltb_ℤ, leb, length,
  if◌then◌else◌, eqb_ℤ,
}
use neo_nect_desktop.Base.Json.{
  Json, Members, no_members, member_and, of_integers, has_member, member, text_of,
}
use neo_nect_desktop.Base.Text
use neo_nect_desktop.Base.Text.{String, is_empty, starts_with, mid, ◌<>◌}
use neo_nect_desktop.Chat.Item.{row_timestamp}
use neo_nect_desktop.Crypto.{Bytes, OpenSsl, encrypt_aes_gcm}
use neo_nect_desktop.Messaging.Rows.{local_path}
use neo_nect_desktop.Socket.State.{Network}
use neo_nect_desktop.Storage.Message.{Message}
use neo_nect_desktop.Relay.{
  ISettingsRepository, RelayService, Web, emit, secure_message_transmitted,
  message_transmission_status, post, send_answer,
}
use neo_nect_desktop.Relay.Session.{ep_relay_send, handle_401_error}

abbrev pub normalize_local_file_path : Web → String → String
normalize_local_file_path w path = if is_empty path then "" else local_path w.platform path

-- Not a path of another host.
abbrev is_local : String → Bool
is_local path = not (starts_with path "//") && not (starts_with path "\\\\")

-- A member that is there if a test holds.
abbrev pub member_if : Bool → String → Json → Members → Members
member_if test key v m = if test then member_and key v m else m

-- What a call reads of QUuid and of the clock, in milliseconds and in seconds.
pub record Moment : Type 0 where
  pub uuid : String
  pub now_ms : ℤ
  pub now_s : ℤ

-- The bytes of a file, if there are any, and they pass a test.
abbrev member_of_file : Web → String → (Bytes → Bool) → Option Bytes → Members → Members
member_of_file w key test none m = m
member_of_file w key test (some []) m = m
member_of_file w key test (some (b ∷ bs)) m =
    if test (b ∷ bs) then member_and key (Json.text (w.to_base64 (b ∷ bs))) m else m

-- The size of the file is in order.
abbrev fits : Option ℤ → Bool
fits none = false
fits (some size) = ltb_ℤ (pos 0) size && ltb_ℤ size (pos 2800001)

abbrev read_local : Web → String → Option Bytes
read_local w path = if is_local path then w.read_file path else none

abbrev read_media : Web → String → Option Bytes
read_media w path = if is_local path && fits (w.file_size path) then w.read_file path else none

abbrev pub is_empty_list : List ℤ → Bool
is_empty_list [] = true
is_empty_list (z ∷ zs) = false

abbrev pub target_of : String → String
target_of conversation_id =
    if starts_with conversation_id "dms:" then mid 4 conversation_id else conversation_id

-- The object that is posted.
abbrev pub envelope_members : String → String → String → ℤ → Members
envelope_members device_id target ciphertext now_s =
    member_and "from_device_id" (Json.text device_id) (
      member_and "to_username" (Json.text target) (
        member_and "protocol_version" (Json.number (pos 1)) (
          member_and "ciphertext" (Json.text ciphertext)
            (member_and "timestamp" (Json.number now_s) no_members))))

module _ {S : Type 0} (i : ISettingsRepository S) (w : Web) where
  abbrev file_members : Message → Members → Members
  file_members msg m =
      if is_empty msg.media_url
      then m
      else member_and "mediaUrl" (Json.text msg.media_url) (
          if Text.◌==◌ msg.type "media_request"
          then m
          else member_of_file w "fileData" (λ b. true)
              (read_media w (normalize_local_file_path w msg.media_url)) m)

  abbrev avatar_members : String → Members → Members
  avatar_members url m =
      if is_empty url
      then m
      else member_of_file w "avatarData" (λ b. leb (length b) 1048576)
          (read_local w (normalize_local_file_path w url)) m

module _ {S : Type 0} (i : ISettingsRepository S) (w : Web) (n : Network) where
  -- The packet of a message.
  unfoldable pub packet_of : Moment → Message → S → Members
  packet_of now msg settings =
      let wave = w.array_of msg.waveform in
      let name = n.trimmed (i.display_name settings) in
      member_and "sender" (Json.text (i.username settings)) (
        member_and "target" (Json.text (target_of msg.conversation_id)) (
          member_and "messageId" (Json.text msg.id) (
            member_and "timestamp" (Json.number (row_timestamp now.now_ms msg.timestamp)) (
              member_and "type" (Json.text msg.type) (
                member_and "content" (Json.text msg.text) (
                  member_and "text" (Json.text msg.text) (
                    member_if (not (is_empty name)) "displayName" (Json.text name) (
                      member_if (not (is_empty msg.file_name)) "fileName" (Json.text msg.file_name)
                        (member_if (ltb_ℤ (pos 0) msg.file_size) "fileSize"
                          (Json.number msg.file_size)
                          (member_if (ltb_ℤ (pos 0) msg.duration) "duration"
                            (Json.number msg.duration)
                            (member_if (not (is_empty msg.error_text)) "mediaType"
                              (Json.text msg.error_text)
                              (member_if (not (is_empty_list wave)) "waveform"
                                (Json.array (of_integers wave))
                                (file_members i w msg (
                                  avatar_members i w (n.trimmed (i.avatar_url settings))
                                    no_members))))))))))))))

  -- The identifier of the device, made where there is none.
  abbrev pub device_prefix : S → String
  device_prefix settings =
      let user = n.to_lower (n.trimmed (i.username settings)) in
      let profile = i.profile settings in
      (if is_empty profile then "" else profile <> "-")
      <> (if is_empty user then "" else user <> "-")

  abbrev pub keep_device_id : String → RelayService S → String × RelayService S
  keep_device_id made s = (made, record s { settings = i.set_device_id made s.settings })

  unfoldable pub with_device_id : Moment → RelayService S → String × RelayService S
  with_device_id now s =
      let device_id = n.trimmed (i.device_id s.settings) in
      if is_empty device_id
      then keep_device_id ("neonect-dev-" <> device_prefix s.settings <> now.uuid) s
      else (device_id, s)

  -- Both signals on the end of a transmission.
  unfoldable pub report : String → String → Bool → String → RelayService S → RelayService S
  report target id ok error_message s =
      emit (message_transmission_status target id ok error_message)
        (emit (secure_message_transmitted target ok) s)

  -- The packet is sealed and posted.
  unfoldable pub transmit :
      OpenSsl → Moment → String → String → Message → RelayService S → RelayService S
  transmit o now device_id target msg s =
      let sealed = encrypt_aes_gcm o s.master (w.to_json (packet_of now msg s.settings)) [] in
      if not sealed.success
      then report target msg.id false ("E2EE Encryption failed: " <> sealed.error_message) s
      else emit
          (post ep_relay_send
            (w.to_json (envelope_members device_id target (w.to_base64 sealed.envelope) now.now_s))
            (send_answer target msg.id))
          s

  unfoldable pub send_domain_message : OpenSsl → Moment → Message → RelayService S → RelayService S
  send_domain_message o now msg s =
      let token = i.auth_token s.settings in
      let (device_id, s) = with_device_id now s in
      let target = target_of msg.conversation_id in
      if n.same_ci target "saved-messages"
      then report target msg.id true "" s
      else if is_empty token || is_empty target
      then report target msg.id false "Missing session token or recipient" s
      else transmit o now device_id target msg s

  -- The text of an error, by the answer's body and status.
  abbrev status_error : ℤ → String → String
  status_error status otherwise =
      if eqb_ℤ status (pos 422)
      then "Recipient has no active registered devices"
      else if eqb_ℤ status (pos 404)
      then "Recipient user not found"
      else if eqb_ℤ status (pos 401)
      then "Unauthorized: Session expired or invalid token"
      else if eqb_ℤ status (pos 403)
      then "Forbidden: Cannot message user without mutual friendship"
      else otherwise

  abbrev pub body_error : ℤ → String → Option Members → String
  body_error status otherwise none = status_error status otherwise
  body_error status otherwise (some m) =
      if has_member "error" m then text_of (member "error" m) else status_error status otherwise

  -- The callback: `no_error` is whether the network reports none.
  unfoldable pub on_sent :
      String → String → ℤ → Bytes → Bool → String → RelayService S → RelayService S
  on_sent target id status body no_error err s =
      let ok = no_error || eqb_ℤ status (pos 200) || eqb_ℤ status (pos 201) in
      let otherwise = if is_empty err then "Network relay transmission failed" else err in
      if ok
      then report target id true "" s
      else report target id false (body_error status otherwise (w.of_json body))
          (if eqb_ℤ status (pos 401) then handle_401_error i n s else s)
