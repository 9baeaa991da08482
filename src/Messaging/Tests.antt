-- ===== src/Messaging/Tests.antt =====
-- Runs and instances of the theorems about the message service.
use mathlib.Core.Option
use neo_nect_desktop.Base.{◌≡◌, refl, true, false, List, [], ◌∷◌, ◌++◌, pos, some, none, arith, ◌⊎◌}
use neo_nect_desktop.Qt.Samples.{plain_qt}
use neo_nect_desktop.Base.Hash.{find}
use neo_nect_desktop.Storage.Repository.{
  saved_timestamp, SqlMessageRepositoryWorker, do_save_message,
}
use neo_nect_desktop.Messaging.{
  transmit_message, more_messages_loaded, Timer, conversation_loaded, MessageService, emit,
  get_message_by_id, save_message, of_message,
}
use neo_nect_desktop.Messaging.Samples.{
  plain_platform, signed_in, first_stamp, second_stamp, request, acceptance, picture,
}
use neo_nect_desktop.Messaging.Send.{send_message}
use neo_nect_desktop.Messaging.Transfers.{tick, start_transfer, start_timer, timer_at}
use neo_nect_desktop.Messaging.Receive.{save_batch, handle_incoming_messages, receive_accept}
use neo_nect_desktop.Messaging.Delivery.{handle_message_delivery_status, retry_message}
use neo_nect_desktop.Messaging.Pointers.{Inv}
use neo_nect_desktop.Messaging.Reach.{here, next, sends, ticks, Reach-live}
use neo_nect_desktop.Messaging.Finish
use neo_nect_desktop.Messaging.Finish.{completed, ticks-completed}
use neo_nect_desktop.Messaging.Batches.{IsQuiet, kept, keep_if, handle_incoming_messages-kept}
use neo_nect_desktop.Messaging.Offers.{receive_accept-once, receive_accept-delivered, answered}
use neo_nect_desktop.Messaging.Statuses.{handle_message_delivery_status-reported}
use neo_nect_desktop.Messaging.ChatRows.{Converts, row_for, parse_variant_map-domain_to_variant_map}
use neo_nect_desktop.Messaging.Store.{Database, perform}
use neo_nect_desktop.Storage.Table.{select_where, has_id}
use neo_nect_desktop.Storage.Repository.{row_of}
use neo_nect_desktop.Storage.Saved.{Reads, IsInt, stored}
use neo_nect_desktop.Storage.Message.{status_code, sending}
use neo_nect_desktop.Messaging.Delivery.{with_status}
use neo_nect_desktop.Messaging.{Effect, message_updated}
use neo_nect_desktop.Messaging.Stored.{perform-save_message, perform-retry_message}
use neo_nect_desktop.Messaging.History.{on_conversation_fetched-split}
use neo_nect_desktop.Messaging.Log.{Adds}
use neo_nect_desktop.Chat.Item.{to_millis, parse_variant_map}
use neo_nect_desktop.Messaging.Rows.{domain_to_variant_map}
use neo_nect_desktop.Messaging.Requests.{on_more_messages_fetched, on_conversation_fetched}

signed_in-Inv : Inv signed_in.transfers
unfolding find timer_at
signed_in-Inv = record { live = λ id a h. ground (arith, h); fresh = λ a h. refl; ends = tt }

-- A picture is sent, and its timer ticks once.
abbrev with_picture : MessageService
with_picture =
    send_message plain_qt plain_platform first_stamp "dms:bob" "" "image" "" "cat.png" (pos 900)
      (pos 0) [] signed_in

Reach-live_example : Inv (tick plain_platform 0 with_picture).transfers
Reach-live_example =
    Reach-live plain_qt plain_platform signed_in (tick plain_platform 0 with_picture) signed_in-Inv
      (next (next here (sends first_stamp "dms:bob" "" "image" "" "cat.png" (pos 900) (pos 0) []))
        (ticks 0))

-- A transfer of three steps.
abbrev transferring : MessageService
transferring = start_transfer plain_platform "" 3 true picture signed_in

abbrev picture_timer : Timer
picture_timer = record {
  address = 0;
  step = 1;
  total_steps = 3;
  message_id = "m1";
  request = "";
  conversation = "dms:bob";
  total = pos 900;
  updates = true;
}

ticks-completed_example :
    Finish.ticks plain_platform 0 2 transferring
    ≡ completed plain_platform 0 picture_timer 2 transferring
unfolding start_transfer start_timer timer_at
ticks-completed_example = ticks-completed plain_platform 0 picture_timer 1 transferring refl refl

abbrev with_request : MessageService
with_request = record signed_in { pending_media_requests = ("r1", request) ∷ [] }

receive_accept-delivered_example :
    Option.map
      (λ m. m.type)
      (find "u1"
        (receive_accept plain_qt plain_platform first_stamp acceptance
          (handle_message_delivery_status "r1" true "" with_request)).outgoing_messages)
    ≡ some "file"
unfolding find
receive_accept-delivered_example =
    receive_accept-delivered plain_qt plain_platform first_stamp acceptance request with_request
      refl refl

receive_accept-once_example :
    let once = receive_accept plain_qt plain_platform first_stamp acceptance with_request in
    receive_accept plain_qt plain_platform second_stamp acceptance once
    ≡ record once { log = once.log ++ answered "dms:bob" "r1" }
receive_accept-once_example =
    receive_accept-once plain_qt plain_platform first_stamp second_stamp acceptance acceptance
      with_request refl

handle_incoming_messages-kept_example :
    (handled : MessageService) × Adds IsQuiet with_request handled
    × (handle_incoming_messages plain_qt plain_platform
          (λ i. first_stamp)
          (acceptance ∷ picture ∷ [])
          with_request
        ≡ save_batch (kept (acceptance ∷ picture ∷ []), handled))
handle_incoming_messages-kept_example =
    handle_incoming_messages-kept plain_qt plain_platform (λ i. first_stamp)
      (acceptance ∷ picture ∷ []) with_request

handle_message_delivery_status-reported_example :
    let s' = handle_message_delivery_status "m1" false "no route" transferring in
    (find "m1" s'.outgoing_messages ≡ none)
    × (find "m1" s'.pending_media_requests ≡ none)
    × (find "m1" s'.transfers.active ≡ none)
unfolding find start_transfer start_timer
handle_message_delivery_status-reported_example =
    handle_message_delivery_status-reported "m1" false "no route" "m1" transferring

plain_qt-Converts : Converts plain_qt
plain_qt-Converts = record {
  texts = λ s. refl;
  flags = λ b. refl;
  integers = λ z. refl;
  ints = λ z. refl;
  reals = λ x. refl;
  lists = λ l. refl;
  missing = refl;
}

parse_variant_map-domain_to_variant_map_example :
    parse_variant_map plain_qt (pos 7) (domain_to_variant_map plain_qt plain_platform "ann" picture)
    ≡ row_for plain_qt plain_platform (pos 7) "ann" picture
parse_variant_map-domain_to_variant_map_example =
    parse_variant_map-domain_to_variant_map plain_qt plain_platform (pos 7) "ann" picture
      plain_qt-Converts

abbrev database : Database
database = record {
  ok = λ i. true;
  ordered = λ rows. rows;
  lower = λ s. s;
  clock = λ i. pos 5;
  transaction = record { begins = true; commits = true; rolls_back = true };
}

abbrev empty_table : SqlMessageRepositoryWorker
empty_table = record { is_open = true; messages = []; before = none }

perform-save_message_example :
    let after =
      perform plain_qt plain_platform database
        (save_message picture (of_message picture false))
        (record { service = signed_in; worker = empty_table }) in
    ((true ≡ true)
      × (after.service ≡ emit (transmit_message picture) signed_in)
      × (select_where (has_id "m1") after.worker.messages ≡ row_of plain_qt (pos 5) picture ∷ []))
    ⊎ ((true ≡ false)
        × (after.worker ≡ empty_table)
        × (after.service.log ≡ message_updated "dms:bob" "m1" "failed" "Local DB Error" ∷ [])
        × (find "m1" after.service.transfers.active ≡ none))
perform-save_message_example =
    perform-save_message plain_qt plain_platform database picture
      (record { service = signed_in; worker = empty_table })

plain_qt-Reads : Reads plain_qt
plain_qt-Reads = record {
  texts = λ s. refl;
  integers = λ z. refl;
  ints = λ z h. refl;
  blobs = λ b. refl;
}

status_bounds : IsInt (status_code picture.status)
unfolding status_code
status_bounds = (omega arith, omega arith)

perform-retry_message_example :
    let saved = (do_save_message plain_qt true (pos 100000000000) picture empty_table).1 in
    let asked = retry_message plain_platform "m1" signed_in in
    let after =
      perform plain_qt plain_platform database
        (get_message_by_id "m1")
        (record { service = asked; worker = saved }) in
    let again = with_status sending "" (stored plain_qt (pos 100000000000) picture) in
    (asked ≡ emit (get_message_by_id "m1") signed_in)
    × ((before : List Effect) × (after.service.log ≡ before ++ transmit_message again ∷ []))
    × (find "m1" after.service.outgoing_messages ≡ some again)
unfolding find saved_timestamp to_millis
perform-retry_message_example =
    perform-retry_message plain_qt plain_platform database (pos 100000000000) picture empty_table
      signed_in plain_qt-Reads refl refl (omega arith, omega arith) status_bounds (omega arith) refl
      refl refl refl

on_conversation_fetched-split_example :
    (on_conversation_fetched plain_qt plain_platform "dms:bob" (picture ∷ []) signed_in
      ≡ record signed_in {
        log =
            conversation_loaded "dms:bob"
              (domain_to_variant_map plain_qt plain_platform "ann" picture ∷ [])
            ∷ [];
      })
    × (on_more_messages_fetched plain_qt plain_platform "dms:bob" (picture ∷ []) signed_in
        ≡ record signed_in {
          log =
              more_messages_loaded "dms:bob"
                (domain_to_variant_map plain_qt plain_platform "ann" picture ∷ [])
              ∷ [];
        })
unfolding keep_if
on_conversation_fetched-split_example =
    on_conversation_fetched-split plain_qt plain_platform "dms:bob" (picture ∷ []) signed_in
