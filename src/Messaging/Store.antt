-- ===== src/Messaging/Store.antt =====
-- The message service together with the repository: SqlMessageRepository of
-- src/storage/sqlmessagerepository.cpp hands each request to its worker, in order, and the worker's
-- answer to the callback that the service gave with the request.
use neo_nect_desktop.Base.{ℕ, Bool, List, ℤ}
use neo_nect_desktop.Base.Text.{String}
use neo_nect_desktop.Qt.{Qt}
use neo_nect_desktop.Storage.Table.{Row}
use neo_nect_desktop.Storage.Repository.{
  SqlMessageRepositoryWorker, Transaction, do_save_message, do_save_messages, do_update_status,
  do_mark_messages_seen, do_delete_message, do_get_messages, do_get_message_by_id,
}
use neo_nect_desktop.Messaging.{
  MessageService, Platform, Effect, SaveCallback, of_message, of_request, of_payload, save_message,
  save_messages, update_message_status, answer_request, mark_messages_seen, delete_message,
  get_messages, get_more_messages, get_message_by_id,
}
use neo_nect_desktop.Messaging.Send.{on_message_saved}
use neo_nect_desktop.Messaging.Requests.{
  on_request_saved, on_request_answered, on_conversation_fetched, on_more_messages_fetched,
}
use neo_nect_desktop.Messaging.Receive.{on_marked_seen, on_payload_saved}
use neo_nect_desktop.Messaging.Delivery.{on_message_fetched}

-- How the database answers a request: whether each statement is carried out, the order of the rows,
-- its LOWER, and what the worker reads of the clock.
pub record Database : Type 0 where
  pub ok : ℕ → Bool
  pub ordered : List Row → List Row
  pub lower : String → String
  pub clock : ℕ → ℤ
  pub transaction : Transaction

pub record App : Type 0 where
  pub service : MessageService
  pub worker : SqlMessageRepositoryWorker

-- The callback of a save.
unfoldable pub on_saved : SaveCallback → Bool → MessageService → MessageService
on_saved (of_message msg is_saved) success s = on_message_saved msg is_saved success s
on_saved (of_request msg) success s = on_request_saved msg success s
on_saved (of_payload msg) success s = on_payload_saved msg success s

module _ (q : Qt) (p : Platform) where
  -- A request of the log is carried out, and answered; a signal is not the repository's.
  unfoldable pub perform : Database → Effect → App → App
  perform d (save_message msg callback) a =
      let (success, worker) = do_save_message q (d.ok 0) (d.clock 0) msg a.worker in
      record { service = on_saved callback success a.service; worker = worker }
  perform d (save_messages msgs) a = record a {
    worker = (do_save_messages q d.transaction d.ok d.clock msgs a.worker).1;
  }
  perform d (update_message_status id status error_text) a = record a {
    worker = (do_update_status (d.ok 0) id status error_text a.worker).1;
  }
  perform d (answer_request id status conversation) a = record {
    service = on_request_answered id status conversation a.service;
    worker = (do_update_status (d.ok 0) id status "" a.worker).1;
  }
  perform d (mark_messages_seen conversation sender target) a = record {
    service = on_marked_seen conversation target a.service;
    worker = (do_mark_messages_seen q d.lower (d.ok 0) conversation sender a.worker).1;
  }
  perform d (delete_message id) a = record a { worker = (do_delete_message (d.ok 0) id a.worker).1 }
  perform d (get_messages conversation limit before) a = record a {
    service =
        on_conversation_fetched q p conversation
          (do_get_messages q d.lower (d.ok 0) d.ordered d.clock conversation limit before a.worker)
          a.service;
  }
  perform d (get_more_messages conversation limit before) a = record a {
    service =
        on_more_messages_fetched q p conversation
          (do_get_messages q d.lower (d.ok 0) d.ordered d.clock conversation limit before a.worker)
          a.service;
  }
  perform d (get_message_by_id id) a = record a {
    service =
        on_message_fetched p (do_get_message_by_id q (d.ok 0) (d.clock 0) id a.worker) a.service;
  }
  perform d _ a = a
