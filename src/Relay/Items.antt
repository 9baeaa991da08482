-- ===== src/Relay/Items.antt =====
-- The items that the relay service handles are seen, and keep the other ones seen.
use neo_nect_desktop.Base.{
  ℕ, suc, Bool, false, ◌&&◌, ◌||◌, not, leb, length, Option, none, some, refl, arith, Bool-cases,
  Option-cases, inl, inr, ℤ, eqb_ℤ, pos,
}
use neo_nect_desktop.Base.Json.{
  Members, Values, no_values, value_and, values_of, member, has_member, text_of, undefined, flag,
  number, text, array, object,
}
use neo_nect_desktop.Base.Text.{String, ◌==◌, is_empty}
use neo_nect_desktop.Crypto.{Bytes, OpenSsl, is_empty_bytes}
use neo_nect_desktop.Qt.{Qt}
use neo_nect_desktop.Socket.State.{Network}
use neo_nect_desktop.Relay.{ISettingsRepository, RelayService, Web}
use neo_nect_desktop.Relay.Packet.{Packet, is_named}
use neo_nect_desktop.Relay.Receive.{
  Reading, is_processed, keep_file, keep_avatar, open_packet, keep_name, dispatch, handle_bytes,
  process_incoming_relay_item, process_all, process_messages, on_websocket_message_received,
  on_polled, opened, note_processed, media_path, avatar_path, is_profile, is_friend, is_typing,
}
use neo_nect_desktop.Relay.Keeps.{
  Seen, Seen-same, Seen-if, Seen-note, acknowledge-Seen, handle_401-Seen,
}

module _ {S : Type 0} (i : ISettingsRepository S) (w : Web) (q : Qt) (id : ℤ) where
  keep_file-Seen :
      (m : Members) (packet : Packet) (s : RelayService S)
      → Seen id s
      → Seen id (keep_file i w q m packet s).1
  unfolding keep_file
  keep_file-Seen m packet s v = elim (Bool-cases (has_member "fileData" m)) [
    | inr e ↦ rw e v
    | inl e ↦
        let bytes = w.of_base64 (text_of (member "fileData" m)) in
        elim (Bool-cases
          (not (is_empty_bytes bytes) && w.can_write (media_path i w q packet s.settings))) [
            | inl f ↦ rw (e, f) (Seen-same id s _ refl v)
            | inr f ↦ rw (e, f) v
          ]
  ]

  keep_avatar-Seen :
      (m : Members) (packet : Packet) (s : RelayService S)
      → Seen id s
      → Seen id (keep_avatar i w q m packet s)
  unfolding keep_avatar
  keep_avatar-Seen m packet s v =
      let base64 = q.trimmed (text_of (member "avatarData" m)) in
      let bytes = w.of_base64 base64 in
      Seen-if id _ _ (has_member "avatarData" m && not (is_empty base64) && is_named packet.sender)
        (Seen-if id _ _
          (not (is_empty_bytes bytes)
            && leb (length bytes) 1048576
            && w.can_write (avatar_path i w q packet.sender s.settings))
          (Seen-same id s _ refl v) v)
        v

  open_packet-Seen :
      (r : Reading) (bytes : Bytes) (s : RelayService S)
      → Seen id s
      → Seen id (open_packet i w q r bytes s).1
  unfolding open_packet
  open_packet-Seen r bytes s v = elim (Option-cases (w.of_json bytes)) [
    | inl e ↦ rw (open_packet, e) v
    | inr (m, e) ↦ rw (open_packet, e) (keep_avatar-Seen m _ _ (keep_file-Seen m _ s v))
  ]

  keep_name-Seen :
      (name : String) (packet : Packet) (s : RelayService S)
      → Seen id s
      → Seen id (keep_name i w q name packet s)
  keep_name-Seen name packet s v =
      Seen-if id _ _ (not (is_empty name) && is_named packet.sender) (Seen-same id s _ refl v) v

  dispatch-Seen :
      (item timestamp : ℤ) (packet : Packet) (s : RelayService S)
      → Seen id s
      → Seen id (dispatch i w q item timestamp packet s)
  unfolding dispatch
  dispatch-Seen item timestamp packet s v =
      let same = Seen-same id s in
      Seen-if id _ _ (packet.type == "avatar_update") v (
        Seen-if id _ _ (is_profile i w q packet.type) (keep_name-Seen _ packet s v) (
          Seen-if id _ _ (is_friend i w q packet.type) (same _ refl v) (
            Seen-if id _ _ (is_typing i w q packet.type) (same _ refl v) (
              Seen-if id _ _ (packet.type == "message_seen" || packet.type == "presence_status")
                (same _ refl v) (same _ refl v)))))

  handle_bytes-Seen :
      (r : Reading) (item : ℤ) (bytes : Bytes) (s : RelayService S)
      → Seen id s
      → Seen id (handle_bytes i w q r item bytes s)
  unfolding handle_bytes
  handle_bytes-Seen r item bytes s v =
      let packet = (open_packet i w q r bytes s).0 in
      dispatch-Seen item _ packet _
        (keep_name-Seen packet.display_name packet _ (open_packet-Seen r bytes s v))

  process-Seen :
      (o : OpenSsl) (r : Reading) (item : ℤ) (cipher : String) (s : RelayService S)
      → Seen id s
      → Seen id (process_incoming_relay_item i w q o r item cipher s)
  unfolding process_incoming_relay_item
  process-Seen o r item cipher s v =
      let noted = Seen-note id item s v in
      Seen-if id _ _ (is_processed item s.processed_message_ids) (acknowledge-Seen i id w item s v)
        (Seen-if id _ _ (is_empty_bytes (opened i w q o cipher s))
          (acknowledge-Seen i id w item _ noted)
          (acknowledge-Seen i id w item _ (handle_bytes-Seen r item _ _ noted)))

  pub process-noted :
      (o : OpenSsl) (r : Reading) (cipher : String) (s : RelayService S)
      → Seen id (process_incoming_relay_item i w q o r id cipher s)
  unfolding process_incoming_relay_item is_processed
  process-noted o r cipher s =
      let noted : Seen id (note_processed id s) = record { seen = ground arith } in
      elim (Bool-cases (is_processed id s.processed_message_ids)) [
        | inl e ↦ rw e (acknowledge-Seen i id w id s (record { seen = e }))
        | inr e ↦ rw e (
            Seen-if id _ _ (is_empty_bytes (opened i w q o cipher s))
              (acknowledge-Seen i id w id _ noted)
              (acknowledge-Seen i id w id _ (handle_bytes-Seen r id _ _ noted)))
      ]

  process_all-Seen :
      (o : OpenSsl) (readings : ℕ → Reading) (k : ℕ) (vs : Values) (s : RelayService S)
      → Seen id s
      → Seen id (process_all i w q o readings k vs s)
  unfolding process_all
  process_all-Seen o readings k no_values s v = v
  process_all-Seen o readings k (value_and (object m) rest) s v =
      process_all-Seen o readings (suc k) rest _ (process-Seen o (readings k) _ _ s v)
  process_all-Seen o readings k (value_and undefined rest) s v =
      process_all-Seen o readings (suc k) rest s v
  process_all-Seen o readings k (value_and (flag b) rest) s v =
      process_all-Seen o readings (suc k) rest s v
  process_all-Seen o readings k (value_and (number z) rest) s v =
      process_all-Seen o readings (suc k) rest s v
  process_all-Seen o readings k (value_and (text t) rest) s v =
      process_all-Seen o readings (suc k) rest s v
  process_all-Seen o readings k (value_and (array vs) rest) s v =
      process_all-Seen o readings (suc k) rest s v

  process_messages-Seen :
      (o : OpenSsl) (readings : ℕ → Reading) (root : Option Members) (s : RelayService S)
      → Seen id s
      → Seen id (process_messages i w q o readings root s)
  unfolding process_messages
  process_messages-Seen o readings none s v = v
  process_messages-Seen o readings (some root) s v =
      elim (Option-cases (values_of (member "messages" root))) [
        | inl e ↦ rw (process_messages, e) v
        | inr (vs, e) ↦ rw (process_messages, e) (process_all-Seen o readings 0 vs s v)
      ]

  pub on_websocket-Seen :
      (o : OpenSsl) (r : Reading) (message : String) (s : RelayService S)
      → Seen id s
      → Seen id (on_websocket_message_received i w q o r message s)
  unfolding on_websocket_message_received
  on_websocket-Seen o r message s v = elim (Option-cases (w.of_json (w.to_utf8 message))) [
    | inl e ↦ rw (on_websocket_message_received, e) v
    | inr (m, e) ↦ rw (on_websocket_message_received, e) (process-Seen o r _ _ s v)
  ]

  pub on_polled-Seen :
      (n : Network) (o : OpenSsl) (readings : ℕ → Reading) (status : ℤ) (body : Bytes)
      (no_error : Bool) (s : RelayService S)
      → Seen id s
      → Seen id (on_polled i w q n o readings status body no_error s)
  unfolding on_polled
  on_polled-Seen n o readings status body no_error s v =
      let idle = Seen-same id s (record s { is_polling_active = false }) refl v in
      Seen-if id _ _ (eqb_ℤ status (pos 401)) (handle_401-Seen i id n _ idle) (
        Seen-if id _ _ (not no_error || is_empty_bytes body) idle
          (process_messages-Seen o readings (w.of_json body) _ (Seen-same id s _ refl v)))
