-- ===== src/Messaging/Delivery.antt =====
-- handleMessageDeliveryStatus and retryMessage of src/services/messageservice.cpp.
use neo_nect_desktop.Base.{Bool, true, ◌&&◌, not, Option, none, some, if◌then◌else◌}
use neo_nect_desktop.Base.Text.{String, ◌==◌, is_empty}
use neo_nect_desktop.Base.Hash.{insert, find, has_key, adjust}
use neo_nect_desktop.Storage.Message.{Message, MessageStatus, sending, sent, failed}
use neo_nect_desktop.Messaging.{
  MessageService, Platform, emit, is_saved_messages, message_updated, transmit_message,
  update_message_status, get_message_by_id,
}
use neo_nect_desktop.Messaging.Transfers.{start_transfer, stop_transfer}

abbrev pub with_status : MessageStatus → String → Message → Message
with_status status error_text msg = record msg { status = status; error_text = error_text }

-- The status of a message is shown, kept, and sent to the repository.
unfoldable pub settle : String → MessageStatus → String → String → MessageService → MessageService
settle id status shown error_text s =
    let s = emit (message_updated "" id shown error_text) s in
    let change = adjust id (with_status status error_text) in
    let s = record s {
      outgoing_messages = change s.outgoing_messages;
      pending_media_requests = change s.pending_media_requests;
    } in
    emit (update_message_status id status error_text) s

unfoldable pub handle_message_delivery_status :
    String → Bool → String → MessageService → MessageService
handle_message_delivery_status id success error_text s =
    if not success
    then settle id failed "failed" error_text (stop_transfer id s)
    else if has_key id s.transfers.active
    then s
    else settle id sent "sent" error_text s

-- A message of the user's own conversation is only marked as sent.
unfoldable pub retry_saved : Message → MessageService → MessageService
retry_saved msg s =
    let s = record s {
      outgoing_messages = insert msg.id (with_status sent "" msg) s.outgoing_messages;
    } in
    let s = emit (update_message_status msg.id sent "") s in
    emit (message_updated msg.conversation_id msg.id "sent" "") s

abbrev pub carries_file : String → Bool
carries_file type = not (type == "text") && not (type == "media_request")

-- The first of the two places that hold the message.
abbrev pub first_found : Option Message → Option Message → Option Message
first_found none other = other
first_found (some msg) other = some msg

module _ (p : Platform) where
  unfoldable pub resend : Message → MessageService → MessageService
  resend msg s =
      let s = record s { outgoing_messages = insert msg.id msg s.outgoing_messages } in
      let s = emit (message_updated msg.conversation_id msg.id "sending" "") s in
      let s = emit (update_message_status msg.id sending "") s in
      let s = if carries_file msg.type then start_transfer p "" 25 true msg s else s in
      let s =
        if msg.type == "media_request"
        then record s { pending_media_requests = insert msg.id msg s.pending_media_requests }
        else s in
      emit (transmit_message msg) s

  unfoldable pub execute_retry : Message → MessageService → MessageService
  execute_retry msg s =
      if is_saved_messages msg.conversation_id
      then retry_saved msg s
      else resend (with_status sending "" msg) s

  unfoldable pub retry_message : String → MessageService → MessageService
  retry_message id s =
      if is_empty id
      then s
      else elim (first_found (find id s.outgoing_messages) (find id s.pending_media_requests)) [
        | some msg ↦ execute_retry msg s
        | none ↦ emit (get_message_by_id id) s
      ]

  -- The callback of getMessageByIdAsync.
  unfoldable pub on_message_fetched : Option Message → MessageService → MessageService
  on_message_fetched none s = s
  on_message_fetched (some msg) s = execute_retry msg s
