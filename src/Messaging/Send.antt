-- ===== src/Messaging/Send.antt =====
-- sendMessage, sendTyping, sendSeenReceipt and sendPresenceStatus of src/services/messageservice.cpp.
use neo_nect_desktop.Base.{Bool, ◌&&◌, ◌||◌, not, List, map, ℤ, if◌then◌else◌}
use neo_nect_desktop.Base.Text.{String, ◌==◌, ◌<>◌, starts_with, is_empty}
use neo_nect_desktop.Base.Hash.{insert}
use neo_nect_desktop.Qt.{Qt, Variant}
use neo_nect_desktop.Storage.Message.{Message, sending, sent}
use neo_nect_desktop.Messaging.{
  MessageService, Platform, Stamp, emit, new_message, is_saved_messages, message_added,
  message_updated, save_message, transmit_message, of_message,
}
use neo_nect_desktop.Messaging.Rows.{determine_file_size, domain_to_variant_map}
use neo_nect_desktop.Messaging.Transfers.{start_transfer, stop_transfer}

module _ (q : Qt) (p : Platform) where
  -- The message that is sent.
  unfoldable pub outgoing_message :
      Stamp
      → String
      → String
      → String
      → String
      → String
      → ℤ
      → ℤ
      → List Variant
      → MessageService
      → Message
  outgoing_message stamp conversation_id text type media_url file_name file_size duration waveform
        s =
      record (new_message stamp conversation_id type s) {
        text = text;
        media_url = media_url;
        file_name = file_name;
        file_size = determine_file_size p media_url file_size;
        duration = duration;
        waveform = p.json_of (map q.to_int waveform);
        status = if is_saved_messages conversation_id && type == "text" then sent else sending;
      }

  -- The message is kept, shown, and a transfer of a file starts; then it is saved.
  unfoldable pub dispatch_message : Message → MessageService → MessageService
  dispatch_message msg s =
      let s = record s { outgoing_messages = insert msg.id msg s.outgoing_messages } in
      let s =
        emit (message_added msg.conversation_id (domain_to_variant_map q p s.current_user_id msg))
          s in
      let s = if msg.type == "text" then s else start_transfer p "" 25 Bool.true msg s in
      emit (save_message msg (of_message msg (is_saved_messages msg.conversation_id))) s

  unfoldable pub send_message :
      Stamp
      → String
      → String
      → String
      → String
      → String
      → ℤ
      → ℤ
      → List Variant
      → MessageService
      → MessageService
  send_message stamp conversation_id text type media_url file_name file_size duration waveform s =
      dispatch_message
        (outgoing_message stamp conversation_id text type media_url file_name file_size duration
          waveform s)
        s

-- A message that could not be saved: its transfer is stopped.
unfoldable pub fail_save : Message → MessageService → MessageService
fail_save msg s =
    emit (message_updated msg.conversation_id msg.id "failed" "Local DB Error")
      (stop_transfer msg.id s)

-- The callback of sendMessage.
unfoldable pub on_message_saved : Message → Bool → Bool → MessageService → MessageService
on_message_saved msg is_saved success s =
    if not success
    then fail_save msg s
    else if not is_saved
    then emit (transmit_message msg) s
    else if msg.type == "text"
    then emit (message_updated msg.conversation_id msg.id "sent" "") s
    else s

-- Whether the peer of a conversation is told nothing.
abbrev pub is_silent : String → Bool
is_silent conversation_id =
    is_empty conversation_id
    || not (starts_with conversation_id "dms:")
    || is_saved_messages conversation_id

unfoldable pub send_typing : Stamp → String → Bool → MessageService → MessageService
send_typing stamp conversation_id is_typing s =
    if s.is_invisible || is_silent conversation_id
    then s
    else emit
        (transmit_message (
          new_message stamp conversation_id (if is_typing then "typing_start" else "typing_stop")
            s))
        s

unfoldable pub send_seen_receipt : Stamp → String → String → MessageService → MessageService
send_seen_receipt stamp conversation_id message_id s =
    if s.is_invisible || is_silent conversation_id
    then s
    else emit
        (transmit_message (record (new_message stamp conversation_id "message_seen" s) {
          text = if is_empty message_id then "all" else message_id;
        }))
        s

unfoldable pub send_presence_status : Qt → Stamp → String → String → MessageService → MessageService
send_presence_status q stamp target_user status s =
    let target = q.to_lower (q.trimmed target_user) in
    if s.is_invisible && not (status == "offline")
    then s
    else if is_empty target || target == "saved-messages" || target == "friends"
    then s
    else emit
        (transmit_message
          (record (new_message stamp
            (if starts_with target "dms:" then target else "dms:" <> target) "presence_status" s) {
              text = status;
            }))
        s
