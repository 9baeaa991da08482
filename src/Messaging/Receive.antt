-- ===== src/Messaging/Receive.antt =====
-- handleIncomingMessages of src/services/messageservice.cpp, with its callbacks.
use neo_nect_desktop.Base.{
  ℕ, suc, Bool, true, false, ◌&&◌, ◌||◌, not, List, [], ◌∷◌, none, some, if◌then◌else◌,
}
use neo_nect_desktop.Base.Text.{String, ◌==◌, is_empty, starts_with}
use neo_nect_desktop.Base.Hash.{insert, remove, find}
use neo_nect_desktop.Qt.{Qt}
use neo_nect_desktop.Storage.Message.{Message, pending, accepted, declined, seen, sending}
use neo_nect_desktop.Messaging.{
  MessageService, Platform, Stamp, emit, new_message, message_added, message_updated,
  message_removed, save_message, save_messages, transmit_message, of_payload, answer_request,
  delete_message, update_message_status, mark_messages_seen, peer_typing_status_changed,
  queued_message_added,
}
use neo_nect_desktop.Messaging.Rows.{determine_file_size, domain_to_variant_map}
use neo_nect_desktop.Messaging.Transfers.{start_transfer}
use neo_nect_desktop.Messaging.Send.{fail_save}

-- Whether a receipt names one message.
abbrev pub names_one : String → Bool
names_one target = not (is_empty target) && not (target == "all")

unfoldable pub on_marked_seen : String → String → MessageService → MessageService
on_marked_seen conv target s =
    let s = if names_one target then emit (message_updated conv target "seen" "") s else s in
    emit (message_updated conv "all" "seen" "") s

-- The callback for the payload of an accepted request.
unfoldable pub on_payload_saved : Message → Bool → MessageService → MessageService
on_payload_saved msg success s = if success then emit (transmit_message msg) s else fail_save msg s

-- The message after the parts for a request, before it is known to carry a file.
unfoldable pub normalized : Message → Message
normalized msg =
    if msg.type == "media_request"
    then record msg { status = pending }
    else record msg { error_text = "" }

unfoldable pub is_incoming_media : String → Bool
is_incoming_media type =
    not (type == "text")
    && not (type == "media_request")
    && not (type == "media_decline")
    && not (type == "media_accept")
    && not (type == "sticker")
    && not (starts_with type "typing_")
    && not (type == "seen")

-- The message as it is shown and saved.
unfoldable pub stored_message : Message → Message
stored_message msg =
    let current = normalized msg in
    if is_incoming_media current.type then record current { status = sending } else current

-- What an ordinary message does to the requests that were received.
unfoldable pub note_request : Message → MessageService → MessageService
note_request msg s =
    if msg.type == "media_request"
    then record s {
      received_media_requests = insert msg.id (normalized msg) s.received_media_requests;
    }
    else if is_empty msg.error_text
    then s
    else let s = emit (message_removed msg.conversation_id msg.error_text) s in
      let s = emit (delete_message msg.error_text) s in
      record s { received_media_requests = remove msg.error_text s.received_media_requests }

-- The kinds of messages that are not kept.
unfoldable pub is_ephemeral : String → Bool
is_ephemeral type =
    type == "presence_status"
    || type == "typing_start"
    || type == "typing_stop"
    || type == "message_seen"
    || type == "media_accept"
    || type == "media_decline"

abbrev pub save_batch : List Message × MessageService → MessageService
save_batch ([], s) = s
save_batch (msg ∷ msgs, s) = emit (save_messages (msg ∷ msgs)) s

module _ (q : Qt) where
  unfoldable pub receive_seen : Message → MessageService → MessageService
  receive_seen msg s =
      let target = q.trimmed msg.text in
      let s = if names_one target then emit (update_message_status target seen "") s else s in
      emit (mark_messages_seen msg.conversation_id s.current_user_id target) s

  unfoldable pub receive_decline : Message → MessageService → MessageService
  receive_decline msg s =
      let request_id = q.trimmed msg.text in
      let s = emit (answer_request request_id declined msg.conversation_id) s in
      record s { pending_media_requests = remove request_id s.pending_media_requests }

module _ (q : Qt) (p : Platform) where
  -- The payload of an accepted request, with the request's id as its error text.
  unfoldable pub payload_message : Stamp → String → Message → MessageService → Message
  payload_message stamp request_id original s =
      record (new_message stamp original.conversation_id
        (if is_empty original.error_text then "file" else original.error_text) s) {
          text = original.text;
          media_url = original.media_url;
          file_name = original.file_name;
          file_size = determine_file_size p original.media_url original.file_size;
          error_text = request_id;
          status = sending;
        }

  unfoldable pub send_payload : String → Message → MessageService → MessageService
  send_payload request_id msg s =
      let s = record s { outgoing_messages = insert msg.id msg s.outgoing_messages } in
      let s =
        emit (message_added msg.conversation_id (domain_to_variant_map q p s.current_user_id msg))
          s in
      let s = start_transfer p request_id 25 true msg s in
      emit (save_message msg (of_payload msg)) s

  -- The request, if it is pending, is taken, and its file sent.
  unfoldable pub take_request : Stamp → String → MessageService → MessageService
  take_request stamp request_id s = elim (find request_id s.pending_media_requests) [
    | none ↦ s
    | some original ↦
        let s = record s { pending_media_requests = remove request_id s.pending_media_requests } in
        let s = emit (message_removed original.conversation_id request_id) s in
        send_payload request_id (payload_message stamp request_id original s) s
  ]

  unfoldable pub receive_accept : Stamp → Message → MessageService → MessageService
  receive_accept stamp msg s =
      let request_id = q.trimmed msg.text in
      let s = emit (answer_request request_id accepted msg.conversation_id) s in
      let s = emit (message_removed msg.conversation_id request_id) s in
      let s = emit (delete_message request_id) s in take_request stamp request_id s

  unfoldable pub receive_ordinary : Message → MessageService → MessageService
  receive_ordinary msg s =
      let current = stored_message msg in
      let s = note_request msg s in
      let s = emit (peer_typing_status_changed current.conversation_id current.sender_id false) s in
      let s =
        emit
          (queued_message_added current.conversation_id
            (domain_to_variant_map q p s.current_user_id current))
          s in
      if is_incoming_media current.type then start_transfer p "" 16 false current s else s

  -- A message of such a kind.
  unfoldable pub receive_ephemeral : Stamp → Message → MessageService → MessageService
  receive_ephemeral stamp msg s =
      if msg.type == "presence_status"
      then s
      else if msg.type == "typing_start" || msg.type == "typing_stop"
      then emit
          (peer_typing_status_changed msg.conversation_id msg.sender_id
            (msg.type == "typing_start"))
          s
      else if msg.type == "message_seen"
      then receive_seen q msg s
      else if msg.type == "media_accept"
      then receive_accept stamp msg s
      else receive_decline q msg s

  -- The loop: the messages to save, and the service.
  unfoldable pub receive_all :
      (ℕ → Stamp) → ℕ → List Message → MessageService → List Message × MessageService
  receive_all stamps i [] s = ([], s)
  receive_all stamps i (msg ∷ msgs) s =
      if is_ephemeral msg.type
      then receive_all stamps (suc i) msgs (receive_ephemeral (stamps i) msg s)
      else let rest = receive_all stamps (suc i) msgs (receive_ordinary msg s) in
        (stored_message msg ∷ rest.0, rest.1)

  -- No message is an empty loop, with nothing to save.
  unfoldable pub handle_incoming_messages :
      (ℕ → Stamp) → List Message → MessageService → MessageService
  handle_incoming_messages stamps msgs s = save_batch (receive_all stamps 0 msgs s)

  -- The slot of the same service for one message.
  abbrev pub handle_incoming_message : Stamp → Message → MessageService → MessageService
  handle_incoming_message stamp msg s = handle_incoming_messages (λ i. stamp) (msg ∷ []) s
