-- ===== src/Relay/Receive.antt =====
-- pollPendingMessages' answer, onWebSocketMessageReceived and processIncomingRelayItem of
-- src/services/relayservice.cpp.
use neo_nect_desktop.Base.{
  ℕ, Bool, true, false, ◌&&◌, ◌||◌, not, leb, List, [], ◌∷◌, Option, none, some, ℤ, pos, ltb_ℤ,
  eqb_ℤ, length, if◌then◌else◌,
}
use neo_nect_desktop.Base.Json.{
  Json, Members, Values, no_values, value_and, member, has_member, text_of, integer_of, values_of,
}
use neo_nect_desktop.Base.Text.{String, ◌==◌, is_empty, ◌<>◌}
use neo_nect_desktop.Crypto.{Bytes, OpenSsl, decrypt_aes_gcm_envelope, is_empty_bytes}
use neo_nect_desktop.Messaging.{blank_message}
use neo_nect_desktop.Qt.{Qt}
use neo_nect_desktop.Socket.State.{Network}
use neo_nect_desktop.Storage.Message.{Message, pending, seen}
use neo_nect_desktop.Relay.{
  ISettingsRepository, RelayService, Web, emit, incoming_domain_message_received,
  incoming_domain_messages_received, incoming_friend_packet, peer_avatar_updated, write_file,
}
use neo_nect_desktop.Relay.Session.{acknowledge_message, handle_401_error}
use neo_nect_desktop.Relay.Packet.{Packet, read_packet, plain_packet, is_named, safe_name}
use neo_nect_desktop.Relay.Send.{is_empty_list}

-- m_processedMessageIds.find(id) != end()
unfoldable pub is_processed : ℤ → List ℤ → Bool
is_processed id [] = false
is_processed id (x ∷ xs) = if eqb_ℤ x id then true else is_processed id xs

-- What a call reads of QUuid and of the clock.
pub record Reading : Type 0 where
  pub uuid : String
  pub now : ℤ

abbrev starred : String → String → String
starred s tail = if is_empty s then "" else s <> tail

module _ {S : Type 0} where
  abbrev pub note_processed : ℤ → RelayService S → RelayService S
  note_processed id s = record s { processed_message_ids = id ∷ s.processed_message_ids }

module _ {S : Type 0} (i : ISettingsRepository S) (w : Web) (q : Qt) where
  abbrev pub media_path : Packet → S → String
  media_path packet settings =
      w.data_location
      <> "/media/"
      <> starred (i.profile settings) "/"
      <> starred (q.to_lower (q.trimmed (i.username settings))) "/"
      <> safe_name q w packet

  -- A file that comes with the packet is written, and its URL takes the place of the packet's.
  abbrev pub keep_bytes : Packet → Bytes → RelayService S → Packet × RelayService S
  keep_bytes packet bytes s =
      let path = media_path packet s.settings in
      if not (is_empty_bytes bytes) && w.can_write path
      then (record packet { media_url = w.url_of path }, emit (write_file path bytes) s)
      else (packet, s)

  unfoldable pub keep_file : Members → Packet → RelayService S → Packet × RelayService S
  keep_file m packet s =
      if has_member "fileData" m
      then keep_bytes packet (w.of_base64 (text_of (member "fileData" m))) s
      else (packet, s)

  abbrev pub avatar_path : String → S → String
  avatar_path sender settings =
      w.data_location
      <> "/avatars/peers/"
      <> starred (i.profile settings) "_"
      <> q.to_lower (q.trimmed sender)
      <> "_avatar.jpg"

  abbrev pub keep_avatar_bytes : String → Bytes → RelayService S → RelayService S
  keep_avatar_bytes sender bytes s =
      let path = avatar_path sender s.settings in
      let peer = q.to_lower (q.trimmed sender) in
      if not (is_empty_bytes bytes) && leb (length bytes) 1048576 && w.can_write path
      then emit (peer_avatar_updated peer (w.url_of path))
          (record (emit (write_file path bytes) s) {
            settings = i.set_peer_avatar_url peer (w.url_of path) s.settings;
          })
      else s

  unfoldable pub keep_avatar : Members → Packet → RelayService S → RelayService S
  keep_avatar m packet s =
      let base64 = q.trimmed (text_of (member "avatarData" m)) in
      if has_member "avatarData" m && not (is_empty base64) && is_named packet.sender
      then keep_avatar_bytes packet.sender (w.of_base64 base64) s
      else s

  -- The packet of the bytes, and the files that come with it.
  unfoldable pub open_packet : Reading → Bytes → RelayService S → Packet × RelayService S
  open_packet r bytes s = elim (w.of_json bytes) [
    | none ↦ (plain_packet r.uuid (w.from_utf8 bytes), s)
    | some m ↦
        let kept = keep_file m (read_packet q r.uuid (w.from_utf8 bytes) m) s in
        (kept.0, keep_avatar m kept.0 kept.1)
  ]

  abbrev pub keep_name : String → Packet → RelayService S → RelayService S
  keep_name name packet s =
      if not (is_empty name) && is_named packet.sender
      then record s {
        settings = i.set_peer_display_name (q.to_lower packet.sender) name s.settings;
      }
      else s

  -- The members that each message has.
  abbrev pub message_of : ℤ → ℤ → Packet → Message
  message_of id timestamp packet = record blank_message {
    id = packet.uuid;
    server_id = id;
    conversation_id = "dms:" <> q.to_lower packet.sender;
    sender_id = packet.sender;
    type = packet.type;
    timestamp = timestamp;
  }

  abbrev pub chat_message_of : ℤ → ℤ → Packet → Message
  chat_message_of id timestamp packet = record (message_of id timestamp packet) {
    text = packet.text;
    media_url = packet.media_url;
    file_name = packet.file_name;
    file_size = packet.file_size;
    duration = packet.duration;
    error_text = packet.category;
    waveform = if is_empty_list packet.waveform then [] else w.json_of packet.waveform;
    status = if packet.type == "media_request" then pending else seen;
  }

  abbrev pub is_profile : String → Bool
  is_profile type = type == "profile_update" || type == "display_name_update"

  abbrev pub is_friend : String → Bool
  is_friend type = type == "friend_request" || type == "friend_accept" || type == "friend_reject"

  abbrev pub is_typing : String → Bool
  is_typing type = type == "typing_start" || type == "typing_stop"

  -- What is done with a packet, by its type, before it is acknowledged.
  unfoldable pub dispatch : ℤ → ℤ → Packet → RelayService S → RelayService S
  dispatch id timestamp packet s =
      let msg = message_of id timestamp packet in
      let with_text = record msg { text = packet.text } in
      if packet.type == "avatar_update"
      then s
      else if is_profile packet.type
      then keep_name
          (if is_empty packet.display_name then q.trimmed packet.text else packet.display_name)
          packet s
      else if is_friend packet.type
      then emit (incoming_friend_packet with_text) s
      else if is_typing packet.type
      then emit (incoming_domain_messages_received (msg ∷ [])) s
      else if packet.type == "message_seen" || packet.type == "presence_status"
      then emit (incoming_domain_messages_received (with_text ∷ [])) s
      else let chat = chat_message_of id timestamp packet in
        emit (incoming_domain_messages_received (chat ∷ []))
          (emit (incoming_domain_message_received chat) s)

  unfoldable pub handle_bytes : Reading → ℤ → Bytes → RelayService S → RelayService S
  handle_bytes r id bytes s =
      let (packet, s) = open_packet r bytes s in
      let timestamp = if ltb_ℤ (pos 0) packet.timestamp then packet.timestamp else r.now in
      dispatch id timestamp packet (keep_name packet.display_name packet s)

  -- The bytes of an item, if it holds any that can be decrypted.
  abbrev pub opened : OpenSsl → String → RelayService S → Bytes
  opened o cipher s =
      if is_empty cipher then [] else decrypt_aes_gcm_envelope o s.master (w.of_base64 cipher) []

  unfoldable pub process_incoming_relay_item :
      OpenSsl → Reading → ℤ → String → RelayService S → RelayService S
  process_incoming_relay_item o r id cipher s =
      if is_processed id s.processed_message_ids
      then acknowledge_message i w id s
      else if is_empty_bytes (opened o cipher s)
      then acknowledge_message i w id (note_processed id s)
      else acknowledge_message i w id (handle_bytes r id (opened o cipher s) (note_processed id s))

  -- The loop over the messages of an answer; each has its own reading.
  unfoldable pub process_all :
      OpenSsl → (ℕ → Reading) → ℕ → Values → RelayService S → RelayService S
  process_all o readings k no_values s = s
  process_all o readings k (value_and (Json.object m) rest) s =
      process_all o readings (neo_nect_desktop.Base.suc k) rest (
        process_incoming_relay_item o (readings k) (integer_of (member "id" m))
          (text_of (member "ciphertext" m)) s)
  process_all o readings k (value_and _ rest) s =
      process_all o readings (neo_nect_desktop.Base.suc k) rest s

  unfoldable pub process_messages :
      OpenSsl → (ℕ → Reading) → Option Members → RelayService S → RelayService S
  process_messages o readings none s = s
  process_messages o readings (some root) s = elim (values_of (member "messages" root)) [
    | none ↦ s
    | some vs ↦ process_all o readings 0 vs s
  ]

  unfoldable pub on_websocket_message_received :
      OpenSsl → Reading → String → RelayService S → RelayService S
  on_websocket_message_received o r text s = elim (w.of_json (w.to_utf8 text)) [
    | none ↦ s
    | some m ↦
        process_incoming_relay_item o r (integer_of (member "id" m))
          (text_of (member "ciphertext" m)) s
  ]

  -- The callback of a poll.
  unfoldable pub on_polled :
      Network → OpenSsl → (ℕ → Reading) → ℤ → Bytes → Bool → RelayService S → RelayService S
  on_polled n o readings status body no_error s =
      let s = record s { is_polling_active = false } in
      if eqb_ℤ status (pos 401)
      then handle_401_error i n s
      else if not no_error || is_empty_bytes body
      then s
      else process_messages o readings (w.of_json body) (record s { retry_401_count = 0 })
