-- ===== src/Messaging/Requests.antt =====
-- sendMediaRequest, acceptMediaRequest, declineMediaRequest, loadConversation and loadMoreMessages of
-- src/services/messageservice.cpp, with their callbacks.
use neo_nect_desktop.Base.{
  Bool, true, false, ◌&&◌, ◌||◌, not, List, [], ◌∷◌, ℤ, pos, ltb_ℤ, if◌then◌else◌,
}
use neo_nect_desktop.Base.Text.{String, ◌==◌, is_empty}
use neo_nect_desktop.Base.Hash.{insert, remove, find}
use neo_nect_desktop.Qt.{Qt, VariantMap}
use neo_nect_desktop.Storage.Message.{Message, MessageStatus, pending, accepted, declined}
use neo_nect_desktop.Messaging.{
  MessageService, Platform, Stamp, emit, new_message, is_saved_messages, message_added,
  message_updated, message_removed, save_message, transmit_message, of_request, answer_request,
  delete_message, get_messages, get_more_messages, conversation_loaded, more_messages_loaded,
}
use neo_nect_desktop.Messaging.Rows.{determine_file_size, domain_to_variant_map}
use neo_nect_desktop.Messaging.Transfers.{conversation_or}
use neo_nect_desktop.Messaging.Send.{send_message}

-- The request of a file, with the kind of the file as its error text.
unfoldable pub request_message :
    Platform → Stamp → String → String → String → String → String → ℤ → MessageService → Message
request_message p stamp conversation_id text media_type media_url file_name file_size s =
    record (new_message stamp conversation_id "media_request" s) {
      text = text;
      media_url = media_url;
      file_name = file_name;
      file_size = determine_file_size p media_url file_size;
      error_text = media_type;
      status = pending;
    }

module _ (q : Qt) (p : Platform) where
  abbrev pub offer : Message → MessageService → MessageService
  offer msg s =
      let s = record s {
        pending_media_requests = insert msg.id msg s.pending_media_requests;
        outgoing_messages = insert msg.id msg s.outgoing_messages;
      } in
      let s =
        emit (message_added msg.conversation_id (domain_to_variant_map q p s.current_user_id msg))
          s in
      emit (save_message msg (of_request msg)) s

  unfoldable pub send_media_request :
      Stamp → String → String → String → String → String → ℤ → MessageService → MessageService
  send_media_request stamp conversation_id text media_type media_url file_name file_size s =
      if is_saved_messages conversation_id
      then send_message q p stamp conversation_id text media_type media_url file_name
          (determine_file_size p media_url file_size) (pos 0) [] s
      else offer
          (request_message p stamp conversation_id text media_type media_url file_name file_size s)
          s

-- The callback of sendMediaRequest.
unfoldable pub on_request_saved : Message → Bool → MessageService → MessageService
on_request_saved msg success s =
    if success
    then emit (transmit_message msg) s
    else emit (message_updated msg.conversation_id msg.id "failed" "Local DB Error") s

abbrev names_none : String → Bool
names_none id = is_empty id || id == ":"

-- The conversation of a request, where the caller does not name it.
unfoldable pub request_conversation : String → String → MessageService → String
request_conversation conversation_id request_id s =
    let conv =
      if names_none conversation_id
      then conversation_or conversation_id (find request_id s.received_media_requests)
      else conversation_id in
    if names_none conv
    then conversation_or conv (find request_id s.pending_media_requests)
    else conv

unfoldable pub accept_media_request : Stamp → String → String → MessageService → MessageService
accept_media_request stamp conversation_id request_id s =
    let conv = request_conversation conversation_id request_id s in
    let s = emit (answer_request request_id accepted conv) s in
    let s = emit (message_removed conv request_id) s in
    let s = emit (delete_message request_id) s in
    let s = record s { received_media_requests = remove request_id s.received_media_requests } in
    emit (transmit_message (record (new_message stamp conv "media_accept" s) { text = request_id }))
      s

unfoldable pub decline_media_request : Stamp → String → String → MessageService → MessageService
decline_media_request stamp conversation_id request_id s =
    let conv = request_conversation conversation_id request_id s in
    let s = emit (answer_request request_id declined conv) s in
    emit
      (transmit_message (record (new_message stamp conv "media_decline" s) { text = request_id })) s

-- The callback of a status that is set for a request.
abbrev pub answer_text : MessageStatus → String
answer_text accepted = "accepted"
answer_text _ = "declined"

unfoldable pub on_request_answered :
    String → MessageStatus → String → MessageService → MessageService
on_request_answered request_id status conv s =
    emit (message_updated conv request_id (answer_text status) "") s

-- A page of history: the rows to show, and the accepted requests, which are deleted.

unfoldable pub load_conversation : String → MessageService → MessageService
load_conversation conversation_id s = emit (get_messages conversation_id (pos 40) (pos 0)) s

unfoldable pub load_more_messages : String → ℤ → ℤ → MessageService → MessageService
load_more_messages conversation_id before limit s =
    if is_empty conversation_id || not (ltb_ℤ (pos 0) before)
    then s
    else emit
        (get_more_messages conversation_id (if ltb_ℤ (pos 0) limit then limit else pos 30) before) s

abbrev pub is_accepted : MessageStatus → Bool
is_accepted accepted = true
is_accepted _ = false

abbrev pub is_done_request : Message → Bool
is_done_request msg = msg.type == "media_request" && is_accepted msg.status

module _ (q : Qt) (p : Platform) where
  -- The loop of the callbacks: the list for the view, and the service.
  unfoldable pub load_rows : List Message → MessageService → List VariantMap × MessageService
  load_rows [] s = ([], s)
  load_rows (msg ∷ msgs) s =
      if is_done_request msg
      then load_rows msgs (emit (delete_message msg.id) s)
      else let rest = load_rows msgs s in
        (domain_to_variant_map q p s.current_user_id msg ∷ rest.0, rest.1)

  unfoldable pub on_conversation_fetched : String → List Message → MessageService → MessageService
  on_conversation_fetched conversation_id msgs s =
      let loaded = load_rows msgs s in emit (conversation_loaded conversation_id loaded.0) loaded.1

  unfoldable pub on_more_messages_fetched : String → List Message → MessageService → MessageService
  on_more_messages_fetched conversation_id msgs s =
      let loaded = load_rows msgs s in emit (more_messages_loaded conversation_id loaded.0) loaded.1
