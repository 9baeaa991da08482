-- ===== src/Relay/Delivered.antt =====
-- A message from the relay service of one user to that of another one: the packet is made, sealed and
-- encoded, and decoded, opened and read.
use mathlib.Core.List.{append_assoc}
use neo_nect_desktop.Base.{
  Bool, true, false, ◌&&◌, ◌||◌, not, List, [], ◌∷◌, ◌++◌, ◌≡◌, refl, sym, ap, ◌∙◌, subst, arith,
  if◌then◌else◌, Bool-cases, inl, inr, some, ℤ, pos, ltb_ℤ,
}
use neo_nect_desktop.Base.Json.{Members, member, has_member, text_of}
use neo_nect_desktop.Base.Text.{String, ◌==◌, ◌<>◌, is_empty}
use neo_nect_desktop.Crypto.{
  Bytes, OpenSsl, encrypt_aes_gcm, decrypt_aes_gcm_envelope, is_empty_bytes,
}
use neo_nect_desktop.Crypto.Accepted.{encrypt_aes_gcm-some}
use neo_nect_desktop.Crypto.RoundTrip.{Ready, IsGcm, decrypt_aes_gcm-encrypt_aes_gcm}
use neo_nect_desktop.Qt.{Qt}
use neo_nect_desktop.Socket.State.{Network}
use neo_nect_desktop.Storage.Message.{Message}
use neo_nect_desktop.Relay.{
  ISettingsRepository, RelayService, Web, Effect, emit, incoming_domain_message_received,
  incoming_domain_messages_received,
}
use neo_nect_desktop.Relay.Session.{acknowledge_message}
use neo_nect_desktop.Relay.Send.{Moment, packet_of}
use neo_nect_desktop.Relay.Packet.{Packet, read_packet}
use neo_nect_desktop.Relay.Receive.{
  Reading, is_processed, keep_file, keep_name, open_packet, dispatch, handle_bytes, opened,
  process_incoming_relay_item, note_processed, chat_message_of, is_profile, is_friend, is_typing,
  media_path,
}

-- What is written is read back: a JSON object, which takes some bytes, by its members, and bytes in
-- Base64, where bytes give a text that is not empty.
pub record Codec (w : Web) (object : Members) : Type 0 where
  pub json :
      (read : Members) × (w.of_json (w.to_json object) ≡ some read)
      × ((key : String) → member key read ≡ member key object)
      × ((key : String) → has_member key read ≡ has_member key object)
  pub some_json : is_empty_bytes (w.to_json object) ≡ false
  pub base64 : (b : Bytes) → w.of_base64 (w.to_base64 b) ≡ b
  pub some_text : (b : Bytes) → is_empty_bytes b ≡ false → is_empty (w.to_base64 b) ≡ false

module _ {S : Type 0} (i : ISettingsRepository S) (w : Web) (q : Qt) where
  -- The types of packets that are no messages of a chat.
  abbrev pub is_special : String → Bool
  is_special type =
      type == "avatar_update"
      || is_profile i w q type
      || is_friend i w q type
      || is_typing i w q type
      || type == "message_seen"
      || type == "presence_status"

  -- What a packet keeps, whatever file comes with it.
  keep_file-kept :
      (m : Members) (packet : Packet) (s : RelayService S)
      → (url : String) × ((keep_file i w q m packet s).0 ≡ record packet { media_url = url })
  unfolding keep_file
  keep_file-kept m packet s = elim (Bool-cases (has_member "fileData" m)) [
    | inr e ↦ rw e (packet.media_url, refl)
    | inl e ↦
        let bytes = w.of_base64 (text_of (member "fileData" m)) in
        let path = media_path i w q packet s.settings in
        elim (Bool-cases (not (is_empty_bytes bytes) && w.can_write path)) [
          | inl f ↦ rw (e, f) (w.url_of path, refl)
          | inr f ↦ rw (e, f) (packet.media_url, refl)
        ]
  ]

  dispatch-chat :
      (id timestamp : ℤ) (packet : Packet) (s : RelayService S)
      → is_special packet.type ≡ false
      → let chat = chat_message_of i w q id timestamp packet in
        dispatch i w q id timestamp packet s
        ≡ emit
            (incoming_domain_messages_received (chat ∷ []))
            (emit (incoming_domain_message_received chat) s)
  unfolding dispatch
  dispatch-chat id timestamp packet s e = ground (arith, e)

  open_packet-kept :
      (r : Reading) (bytes : Bytes) (m : Members) (s : RelayService S)
      → w.of_json bytes ≡ some m
      → (url : String) × ((open_packet i w q r bytes s).0
          ≡ record (read_packet q r.uuid (w.from_utf8 bytes) m) { media_url = url })
  unfolding open_packet
  open_packet-kept r bytes m s e =
      rw (open_packet, e) (keep_file-kept m (read_packet q r.uuid (w.from_utf8 bytes) m) s)

-- A chat message with the sender's identifier, text, type and name was passed on, and then the item
-- acknowledged.
pub record IsDelivered {S : Type 0} (i : ISettingsRepository S) (w : Web) (q : Qt) (id : ℤ)
    (sender : String) (sent : Message) (after : RelayService S) : Type 0 where
  pub message : Message
  pub handled : RelayService S
  pub before : List Effect
  pub acknowledged : after ≡ acknowledge_message i w id handled
  pub passed_on :
      handled.log
      ≡ before
        ++ incoming_domain_message_received message
          ∷ incoming_domain_messages_received (message ∷ [])
          ∷ []
  pub same_id : message.id ≡ sent.id
  pub same_text : message.text ≡ sent.text
  pub same_type : message.type ≡ sent.type
  pub of_sender : message.sender_id ≡ sender
  pub in_conversation : message.conversation_id ≡ "dms:" <> q.to_lower sender
  pub numbered : message.server_id ≡ id

module _ {S T : Type 0} (i : ISettingsRepository S) (j : ISettingsRepository T) (w : Web) (q : Qt)
    (n : Network) where
  -- The members that a reader finds first.
  packet_of-members :
      (now : Moment) (msg : Message) (settings : S) (plain uuid : String) (m : Members)
      → ((key : String) → member key m ≡ member key (packet_of i w n now msg settings))
      → ((key : String) → has_member key m ≡ has_member key (packet_of i w n now msg settings))
      → let packet = read_packet q uuid plain m in
        (packet.uuid ≡ msg.id)
        × (packet.text ≡ msg.text)
        × (packet.type ≡ msg.type)
        × (packet.sender ≡ i.username settings)
  unfolding read_packet packet_of member has_member
  packet_of-members now msg settings plain uuid m f h = (
    rw (h "messageId", f "messageId") refl,
    rw (h "content", f "content") refl,
    rw (h "type", f "type") refl,
    rw (h "sender", f "sender") refl,
  )

  envelope-some :
      (d : OpenSsl) (master envelope : Bytes)
      → is_empty_bytes (decrypt_aes_gcm_envelope d master envelope []) ≡ false
      → is_empty_bytes envelope ≡ false
  unfolding decrypt_aes_gcm_envelope
  envelope-some d master [] h = h
  envelope-some d master (b ∷ bs) h = refl

  handle_bytes-IsDelivered :
      (r : Reading) (id : ℤ) (bytes : Bytes) (m : Members) (t : RelayService T) (msg : Message)
      (sender : String)
      → w.of_json bytes ≡ some m
      → (let packet = read_packet q r.uuid (w.from_utf8 bytes) m in
          (packet.uuid ≡ msg.id)
          × (packet.text ≡ msg.text)
          × (packet.type ≡ msg.type)
          × (packet.sender ≡ sender))
      → is_special j w q msg.type ≡ false
      → IsDelivered j w q id sender msg
          (acknowledge_message j w id (handle_bytes j w q r id bytes t))
  unfolding handle_bytes
  handle_bytes-IsDelivered r id bytes m t msg sender e (a, b, c, d) s =
      let kept = open_packet-kept j w q r bytes m t e in
      let packet = (open_packet j w q r bytes t).0 in
      let timestamp = if ltb_ℤ (pos 0) packet.timestamp then packet.timestamp else r.now in
      let named = keep_name j w q packet.display_name packet (open_packet j w q r bytes t).1 in
      let same_type : packet.type ≡ msg.type = ap (λ (p : Packet). p.type) kept.1 ∙ c in
      let chat =
        dispatch-chat j w q id timestamp packet named
          (subst (λ ty. is_special j w q ty ≡ false) (sym same_type) s) in
      record {
        message = chat_message_of j w q id timestamp packet;
        handled = handle_bytes j w q r id bytes t;
        before = named.log;
        acknowledged = refl;
        passed_on = ap (λ (x : RelayService T). x.log) chat ∙ append_assoc named.log _ _;
        same_id = ap (λ (p : Packet). p.uuid) kept.1 ∙ a;
        same_text = ap (λ (p : Packet). p.text) kept.1 ∙ b;
        same_type = same_type;
        of_sender = ap (λ (p : Packet). p.sender) kept.1 ∙ d;
        in_conversation =
            ap (λ (p : Packet). "dms:" <> q.to_lower p.sender) kept.1
            ∙ ap (λ x. "dms:" <> q.to_lower x) d;
        numbered = refl;
      }

  -- If bytes and the packet are read back as they were written, OpenSSL is AES-GCM between the two users and
  -- its calls succeed, then the ciphertext that one user's service makes of a message, which is of no
  -- special type, is passed on by another user's service with the same key as a chat message with the
  -- same identifier, text and type, from the first user, if its item is new; then it is acknowledged.
  pub process-packet_of-IsDelivered :
      (o d : OpenSsl) (now : Moment) (r : Reading) (id : ℤ) (msg : Message) (settings : S)
      (t : RelayService T)
      → Codec w (packet_of i w n now msg settings)
      → IsGcm o d
      → Ready d
      → let sealed = encrypt_aes_gcm o t.master (w.to_json (packet_of i w n now msg settings)) [] in
        sealed.success ≡ true
        → is_special j w q msg.type ≡ false
        → is_processed id t.processed_message_ids ≡ false
        → IsDelivered j w q id
            (i.username settings)
            msg
            (process_incoming_relay_item j w q d r id (w.to_base64 sealed.envelope) t)
  unfolding process_incoming_relay_item
  process-packet_of-IsDelivered o d now r id msg settings t codec gcm ready success special new =
      let bytes = w.to_json (packet_of i w n now msg settings) in
      let sealed = encrypt_aes_gcm o t.master bytes [] in
      let whole = (decrypt_aes_gcm-encrypt_aes_gcm o d t.master bytes [] gcm ready success).0 in
      let cipher = w.to_base64 sealed.envelope in
      let some_bytes = encrypt_aes_gcm-some o t.master bytes success in
      let some_cipher : is_empty cipher ≡ false = codec.some_text sealed.envelope (
        envelope-some d t.master sealed.envelope
          (subst (λ b. is_empty_bytes b ≡ false) (sym whole) some_bytes)) in
      let same_bytes : opened j w q d cipher t ≡ bytes =
        rw (some_cipher, codec.base64 sealed.envelope) whole in
      let noted = note_processed id t in
      let (read, parsed, f, h) = codec.json in
      let kept = packet_of-members now msg settings (w.from_utf8 bytes) r.uuid read f h in
      let delivered =
        handle_bytes-IsDelivered r id bytes read noted msg (i.username settings) parsed kept
          special in
      rw new (
        subst
          (λ b. IsDelivered j w q id (i.username settings) msg (
            if is_empty_bytes b
            then acknowledge_message j w id noted
            else acknowledge_message j w id (handle_bytes j w q r id b noted)))
          (sym same_bytes) (rw some_bytes delivered))
