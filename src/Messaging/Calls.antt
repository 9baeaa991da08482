-- ===== src/Messaging/Calls.antt =====
-- The calls of the message service keep what `Pointers` states of its timers.
use neo_nect_desktop.Base.{
  ℕ, suc, Bool, not, ◌||◌, List, [], ◌∷◌, refl, Bool-cases, Option-cases, inl, inr, ℤ,
}
use neo_nect_desktop.Base.Text.{String, is_empty, ◌==◌}
use neo_nect_desktop.Base.Hash.{find, has_key}
use neo_nect_desktop.Qt.{Qt, Variant}
use neo_nect_desktop.Storage.Message.{Message}
use neo_nect_desktop.Messaging.{MessageService, Platform, Stamp, is_saved_messages}
use neo_nect_desktop.Messaging.Send.{fail_save, on_message_saved, dispatch_message, send_message}
use neo_nect_desktop.Messaging.Requests.{send_media_request, load_rows, is_done_request}
use neo_nect_desktop.Messaging.Receive.{
  note_request, receive_seen, take_request, send_payload, receive_accept, receive_decline,
  receive_ordinary, is_ephemeral, receive_ephemeral, receive_all, save_batch, stored_message,
  is_incoming_media, names_one,
}
use neo_nect_desktop.Messaging.Delivery.{
  handle_message_delivery_status, settle, execute_retry, retry_saved, resend, carries_file,
}
use neo_nect_desktop.Messaging.Pointers.{Inv}
use neo_nect_desktop.Messaging.Keeps.{choose-Inv, start_transfer-Inv, stop_transfer-Inv}

dispatch_message-Inv :
    (q : Qt) (p : Platform) (msg : Message) (s : MessageService)
    → Inv s.transfers
    → Inv (dispatch_message q p msg s).transfers
unfolding dispatch_message
dispatch_message-Inv q p msg s v =
    choose-Inv _ _ (msg.type == "text") v (start_transfer-Inv p "" 25 Bool.true msg _ refl v)

pub fail_save-Inv :
    (msg : Message) (s : MessageService) → Inv s.transfers → Inv (fail_save msg s).transfers
unfolding fail_save
fail_save-Inv msg s v = stop_transfer-Inv msg.id s v

pub on_message_saved-Inv :
    (msg : Message) (is_saved success : Bool) (s : MessageService)
    → Inv s.transfers
    → Inv (on_message_saved msg is_saved success s).transfers
unfolding on_message_saved
on_message_saved-Inv msg is_saved success s v =
    choose-Inv _ _ (not success) (fail_save-Inv msg s v)
      (choose-Inv _ _ (not is_saved) v (choose-Inv _ _ (msg.type == "text") v v))

pub send_message-Inv :
    (q : Qt) (p : Platform) (stamp : Stamp) (conversation_id text type media_url file_name : String)
    (file_size duration : ℤ) (waveform : List Variant) (s : MessageService)
    → Inv s.transfers
    → Inv
        (send_message q p stamp conversation_id text type media_url file_name file_size duration
          waveform s).transfers
unfolding send_message
send_message-Inv q p stamp conversation_id text type media_url file_name file_size duration waveform
      s v =
    dispatch_message-Inv q p _ s v

pub send_media_request-Inv :
    (q : Qt) (p : Platform) (stamp : Stamp)
    (conversation_id text media_type media_url file_name : String) (file_size : ℤ)
    (s : MessageService)
    → Inv s.transfers
    → Inv
        (send_media_request q p stamp conversation_id text media_type media_url file_name file_size
          s).transfers
unfolding send_media_request
send_media_request-Inv q p stamp conversation_id text media_type media_url file_name file_size s v =
    choose-Inv _ _ (is_saved_messages conversation_id)
      (send_message-Inv q p stamp conversation_id text media_type media_url file_name _ _ [] s v) v

pub load_rows-Inv :
    (q : Qt) (p : Platform) (msgs : List Message) (s : MessageService)
    → Inv s.transfers
    → Inv (load_rows q p msgs s).1.transfers
unfolding load_rows
load_rows-Inv q p [] s v = v
load_rows-Inv q p (msg ∷ msgs) s v = elim (Bool-cases (is_done_request msg)) [
  | inl e ↦ rw (load_rows, e) (load_rows-Inv q p msgs _ v)
  | inr e ↦ rw (load_rows, e) (load_rows-Inv q p msgs s v)
]

take_request-Inv :
    (q : Qt) (p : Platform) (stamp : Stamp) (id : String) (s : MessageService)
    → Inv s.transfers
    → Inv (take_request q p stamp id s).transfers
unfolding take_request send_payload
take_request-Inv q p stamp id s v = elim (Option-cases (find id s.pending_media_requests)) [
  | inl e ↦ rw (take_request, e) v
  | inr (original, e) ↦ rw (take_request, e) (start_transfer-Inv p id 25 Bool.true _ _ refl v)
]

receive_seen-Inv :
    (q : Qt) (msg : Message) (s : MessageService)
    → Inv s.transfers
    → Inv (receive_seen q msg s).transfers
unfolding receive_seen
receive_seen-Inv q msg s v = choose-Inv _ _ (names_one (q.trimmed msg.text)) v v

receive_ephemeral-Inv :
    (q : Qt) (p : Platform) (stamp : Stamp) (msg : Message) (s : MessageService)
    → Inv s.transfers
    → Inv (receive_ephemeral q p stamp msg s).transfers
unfolding receive_ephemeral receive_accept receive_decline
receive_ephemeral-Inv q p stamp msg s v = choose-Inv _ _ (msg.type == "presence_status") v (
    choose-Inv _ _ (msg.type == "typing_start" || msg.type == "typing_stop") v (
      choose-Inv _ _ (msg.type == "message_seen") (receive_seen-Inv q msg s v)
        (choose-Inv _ _ (msg.type == "media_accept") (take_request-Inv q p stamp _ _ v) v)))

note_request-Inv :
    (msg : Message) (s : MessageService) → Inv s.transfers → Inv (note_request msg s).transfers
unfolding note_request
note_request-Inv msg s v =
    choose-Inv _ _ (msg.type == "media_request") v (choose-Inv _ _ (is_empty msg.error_text) v v)

receive_ordinary-Inv :
    (q : Qt) (p : Platform) (msg : Message) (s : MessageService)
    → Inv s.transfers
    → Inv (receive_ordinary q p msg s).transfers
unfolding receive_ordinary
receive_ordinary-Inv q p msg s v =
    let w = note_request-Inv msg s v in
    choose-Inv _ _ (is_incoming_media (stored_message msg).type)
      (start_transfer-Inv p "" 16 Bool.false (stored_message msg) _ refl w) w

pub receive_all-Inv :
    (q : Qt) (p : Platform) (stamps : ℕ → Stamp) (i : ℕ) (msgs : List Message) (s : MessageService)
    → Inv s.transfers
    → Inv (receive_all q p stamps i msgs s).1.transfers
unfolding receive_all
receive_all-Inv q p stamps i [] s v = v
receive_all-Inv q p stamps i (msg ∷ msgs) s v = elim (Bool-cases (is_ephemeral msg.type)) [
  | inl e ↦
      rw (receive_all, e)
        (receive_all-Inv q p stamps (suc i) msgs _ (receive_ephemeral-Inv q p (stamps i) msg s v))
  | inr e ↦
      rw (receive_all, e)
        (receive_all-Inv q p stamps (suc i) msgs _ (receive_ordinary-Inv q p msg s v))
]

pub save_batch-Inv :
    (saved : List Message) (s : MessageService)
    → Inv s.transfers
    → Inv (save_batch (saved, s)).transfers
save_batch-Inv [] s v = v
save_batch-Inv (msg ∷ msgs) s v = v

pub delivery-Inv :
    (id : String) (success : Bool) (error_text : String) (s : MessageService)
    → Inv s.transfers
    → Inv (handle_message_delivery_status id success error_text s).transfers
unfolding handle_message_delivery_status settle
delivery-Inv id success error_text s v =
    choose-Inv _ _ (not success) (stop_transfer-Inv id s v)
      (choose-Inv _ _ (has_key id s.transfers.active) v v)

pub execute_retry-Inv :
    (p : Platform) (msg : Message) (s : MessageService)
    → Inv s.transfers
    → Inv (execute_retry p msg s).transfers
unfolding execute_retry retry_saved resend
execute_retry-Inv p msg s v =
    let w =
      choose-Inv _ _ (carries_file msg.type) (start_transfer-Inv p "" 25 Bool.true _ _ refl v) v in
    choose-Inv _ _ (is_saved_messages msg.conversation_id) v
      (choose-Inv _ _ (msg.type == "media_request") w w)
