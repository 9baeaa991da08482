-- ===== src/Messaging/Reach.antt =====
-- What holds of the message service's timers after any calls, answers and timeouts, in any order.
use neo_nect_desktop.Base.{
  ℕ, Bool, ◌&&◌, ◌||◌, not, List, Option, ℤ, none, Option-cases, inl, inr, some,
}
use neo_nect_desktop.Base.Text.{String, is_empty, ◌==◌}
use neo_nect_desktop.Base.Hash.{find}
use neo_nect_desktop.Qt.{Qt, Variant}
use neo_nect_desktop.Storage.Message.{Message, MessageStatus}
use neo_nect_desktop.Messaging.{
  MessageService, Platform, Stamp, set_current_user_id, set_is_invisible,
}
use neo_nect_desktop.Messaging.Transfers.{tick, cancel_media_transfer}
use neo_nect_desktop.Messaging.Send.{
  on_message_saved, send_message, send_typing, send_seen_receipt, send_presence_status,
}
use neo_nect_desktop.Messaging.Requests.{
  send_media_request, on_request_saved, accept_media_request, decline_media_request,
  on_request_answered, load_conversation, load_more_messages, on_conversation_fetched,
  on_more_messages_fetched,
}
use neo_nect_desktop.Messaging.Receive.{
  on_marked_seen, on_payload_saved, handle_incoming_messages, names_one, receive_all,
}
use neo_nect_desktop.Messaging.Delivery.{
  handle_message_delivery_status, retry_message, on_message_fetched, first_found,
}
use neo_nect_desktop.Messaging.Pointers.{Inv}
use neo_nect_desktop.Messaging.Keeps.{choose-Inv, cancel_media_transfer-Inv, tick-Inv}
use neo_nect_desktop.Messaging.Calls.{
  fail_save-Inv, on_message_saved-Inv, send_message-Inv, send_media_request-Inv, load_rows-Inv,
  receive_all-Inv, save_batch-Inv, delivery-Inv, execute_retry-Inv,
}

-- A call of the service, an answer of the repository to a callback, or a timeout.
pub data Step (q : Qt) (p : Platform) (s : MessageService) : MessageService → Type 0 where
  signs_in : (user : String) → Step q p s (set_current_user_id user s)
  hides : (b : Bool) → Step q p s (set_is_invisible b s)
  sends :
      (stamp : Stamp) (conversation text type media_url file_name : String) (size duration : ℤ)
      (waveform : List Variant)
      → Step q p s (
          send_message q p stamp conversation text type media_url file_name size duration waveform
            s)
  saves :
      (msg : Message) (is_saved success : Bool)
      → Step q p s (on_message_saved msg is_saved success s)
  types :
      (stamp : Stamp) (conversation : String) (b : Bool)
      → Step q p s (send_typing stamp conversation b s)
  reads :
      (stamp : Stamp) (conversation id : String)
      → Step q p s (send_seen_receipt stamp conversation id s)
  appears :
      (stamp : Stamp) (user status : String)
      → Step q p s (send_presence_status q stamp user status s)
  offers :
      (stamp : Stamp) (conversation text type media_url file_name : String) (size : ℤ)
      → Step q p s (send_media_request q p stamp conversation text type media_url file_name size s)
  saves_request : (msg : Message) (success : Bool) → Step q p s (on_request_saved msg success s)
  accepts :
      (stamp : Stamp) (conversation id : String)
      → Step q p s (accept_media_request stamp conversation id s)
  declines :
      (stamp : Stamp) (conversation id : String)
      → Step q p s (decline_media_request stamp conversation id s)
  answers :
      (id : String) (status : MessageStatus) (conversation : String)
      → Step q p s (on_request_answered id status conversation s)
  loads : (conversation : String) → Step q p s (load_conversation conversation s)
  loads_more :
      (conversation : String) (before limit : ℤ)
      → Step q p s (load_more_messages conversation before limit s)
  shows :
      (conversation : String) (msgs : List Message)
      → Step q p s (on_conversation_fetched q p conversation msgs s)
  shows_more :
      (conversation : String) (msgs : List Message)
      → Step q p s (on_more_messages_fetched q p conversation msgs s)
  receives :
      (stamps : ℕ → Stamp) (msgs : List Message)
      → Step q p s (handle_incoming_messages q p stamps msgs s)
  marks : (conversation id : String) → Step q p s (on_marked_seen conversation id s)
  saves_payload : (msg : Message) (success : Bool) → Step q p s (on_payload_saved msg success s)
  delivers :
      (id : String) (success : Bool) (error_text : String)
      → Step q p s (handle_message_delivery_status id success error_text s)
  retries : (id : String) → Step q p s (retry_message p id s)
  fetches : (msg : Option Message) → Step q p s (on_message_fetched p msg s)
  cancels : (conversation id : String) → Step q p s (cancel_media_transfer conversation id s)
  ticks : (a : ℕ) → Step q p s (tick p a s)

pub data Reach (q : Qt) (p : Platform) (start : MessageService) : MessageService → Type 0 where
  here : Reach q p start start
  next : {s s' : MessageService} → Reach q p start s → Step q p s s' → Reach q p start s'

retry_message-Inv :
    (p : Platform) (id : String) (s : MessageService)
    → Inv s.transfers
    → Inv (retry_message p id s).transfers
unfolding retry_message
retry_message-Inv p id s v =
    choose-Inv _ _ (is_empty id) v
      (elim (Option-cases
        (first_found (find id s.outgoing_messages) (find id s.pending_media_requests))) [
          | inl e ↦ rw e v
          | inr (msg, e) ↦ rw e (execute_retry-Inv p msg s v)
        ])

Step-Inv :
    (q : Qt) (p : Platform) {s s' : MessageService}
    → Step q p s s'
    → Inv s.transfers
    → Inv s'.transfers
unfolding set_current_user_id send_typing send_seen_receipt send_presence_status on_request_saved
    accept_media_request decline_media_request on_request_answered load_conversation
    load_more_messages on_conversation_fetched on_more_messages_fetched handle_incoming_messages
    on_marked_seen on_payload_saved on_message_fetched
Step-Inv q p {s} (signs_in user) v = choose-Inv _ _ (s.current_user_id == user) v v
Step-Inv q p (hides b) v = v
Step-Inv q p {s} (sends stamp conversation text type media_url file_name size duration waveform) v =
    send_message-Inv q p stamp conversation text type media_url file_name size duration waveform s v
Step-Inv q p {s} (saves msg is_saved success) v = on_message_saved-Inv msg is_saved success s v
Step-Inv q p {s} (types stamp conversation b) v = choose-Inv _ _ _ v v
Step-Inv q p {s} (reads stamp conversation id) v = choose-Inv _ _ _ v v
Step-Inv q p {s} (appears stamp user status) v =
    let target = q.to_lower (q.trimmed user) in
    choose-Inv _ _ (s.is_invisible && not (status == "offline")) v
      (choose-Inv _ _ (is_empty target || target == "saved-messages" || target == "friends") v v)
Step-Inv q p {s} (offers stamp conversation text type media_url file_name size) v =
    send_media_request-Inv q p stamp conversation text type media_url file_name size s v
Step-Inv q p (saves_request msg success) v = choose-Inv _ _ success v v
Step-Inv q p (accepts stamp conversation id) v = v
Step-Inv q p (declines stamp conversation id) v = v
Step-Inv q p (answers id status conversation) v = v
Step-Inv q p (loads conversation) v = v
Step-Inv q p (loads_more conversation before limit) v = choose-Inv _ _ _ v v
Step-Inv q p {s} (shows conversation msgs) v = load_rows-Inv q p msgs s v
Step-Inv q p {s} (shows_more conversation msgs) v = load_rows-Inv q p msgs s v
Step-Inv q p {s} (receives stamps msgs) v =
    save_batch-Inv (receive_all q p stamps 0 msgs s).0 _ (receive_all-Inv q p stamps 0 msgs s v)
Step-Inv q p (marks conversation id) v = choose-Inv _ _ (names_one id) v v
Step-Inv q p {s} (saves_payload msg success) v = choose-Inv _ _ success v (fail_save-Inv msg s v)
Step-Inv q p {s} (delivers id success error_text) v = delivery-Inv id success error_text s v
Step-Inv q p {s} (retries id) v = retry_message-Inv p id s v
Step-Inv q p (fetches none) v = v
Step-Inv q p {s} (fetches (some msg)) v = execute_retry-Inv p msg s v
Step-Inv q p {s} (cancels conversation id) v = cancel_media_transfer-Inv conversation id s v
Step-Inv q p {s} (ticks a) v = tick-Inv p a s v

-- After any calls, answers of the repository and timeouts, each entry of m_activeTransfers points to
-- a timer that runs, for the entry's message, and each running timer has steps left, if this held
-- before.
pub Reach-live :
    (q : Qt) (p : Platform) (start s : MessageService)
    → Inv start.transfers
    → Reach q p start s
    → Inv s.transfers
Reach-live q p start s v here = v
Reach-live q p start s v (next r step) = Step-Inv q p step (Reach-live q p start _ v r)
