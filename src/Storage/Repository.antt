-- ===== src/Storage/Repository.antt =====
-- The worker of src/storage/sqlmessagerepository.cpp. SQLite is a parameter where the statements leave
-- it a choice: `ok` says whether a statement is carried out, and `ordered` arranges the rows as
-- ORDER BY asks.
use neo_nect_desktop.Base.{
  ℕ, suc, Bool, true, false, ◌&&◌, ◌||◌, not, List, [], ◌∷◌, ◌++◌, Option, none, some, ℤ, pos,
  negsuc, ◌*ℤ◌, ltb_ℤ, if◌then◌else◌, take,
}
use neo_nect_desktop.Base.Text
use neo_nect_desktop.Base.Text.{String, is_empty}
use neo_nect_desktop.Qt.{Qt, text, int, bytes}
use neo_nect_desktop.Storage.Table.{
  Row, cell, bind_columns, select_columns, value_at, same_cell, text_cell, timestamp_cell, set_cell,
  insert_or_replace, update_where, select_where, has_id,
}
use neo_nect_desktop.Chat.Item.{to_millis}
use neo_nect_desktop.Storage.Message.{Message, MessageStatus, seen, status_code, status_of_code}

-- `before` holds the rows that a rollback restores, while a transaction is open.
pub record SqlMessageRepositoryWorker : Type 0 where
  pub is_open : Bool
  pub messages : List Row
  pub before : Option (List Row)

-- Whether transaction(), commit() and rollback() succeed.
pub record Transaction : Type 0 where
  pub begins : Bool
  pub commits : Bool
  pub rolls_back : Bool

-- The timestamp that a row is saved with.
unfoldable pub saved_timestamp : ℤ → ℤ → ℤ
saved_timestamp now t = let ms = to_millis t in if ltb_ℤ (pos 0) ms then ms else now

-- CASE WHEN timestamp < 100000000000 THEN timestamp * 1000 ELSE timestamp END
unfoldable pub sort_key : Row → ℤ
sort_key r =
    if ltb_ℤ (timestamp_cell r) (pos 100000000000)
    then timestamp_cell r *ℤ pos 1000
    else timestamp_cell r

-- The columns of the INSERT, of the SELECT of a page and of the SELECT by an id.
abbrev pub insert_columns : List String
insert_columns =
    "id" ∷ "server_id" ∷ "conversation_id" ∷ "sender_id" ∷ "type" ∷ "text" ∷ "media_url"
    ∷ "file_name" ∷ "file_size" ∷ "duration" ∷ "waveform" ∷ "status" ∷ "error_text" ∷ "timestamp"
    ∷ []

abbrev pub page_columns : List String
page_columns =
    "id" ∷ "server_id" ∷ "sender_id" ∷ "type" ∷ "text" ∷ "media_url" ∷ "file_name" ∷ "file_size"
    ∷ "duration" ∷ "waveform" ∷ "status" ∷ "error_text" ∷ "timestamp" ∷ []

abbrev pub message_columns : List String
message_columns =
    "id" ∷ "server_id" ∷ "conversation_id" ∷ "sender_id" ∷ "type" ∷ "text" ∷ "media_url"
    ∷ "file_name" ∷ "file_size" ∷ "duration" ∷ "waveform" ∷ "status" ∷ "error_text" ∷ "timestamp"
    ∷ []

-- std::reverse
unfoldable pub reverse : List Message → List Message
reverse [] = []
reverse (m ∷ ms) = reverse ms ++ m ∷ []

-- LIMIT ?: no limit below 0.
abbrev pub limited : ℤ → List Row → List Row
limited (pos n) rows = take n rows
limited (negsuc n) rows = rows

module _ (q : Qt) where
  abbrev pub conversation_key : String → String
  conversation_key id = q.to_lower (q.trimmed id)

  -- The calls of addBindValue, in order.
  unfoldable pub row_of : ℤ → Message → Row
  row_of now msg = bind_columns insert_columns (
      text msg.id
      ∷ int msg.server_id
      ∷ text (conversation_key msg.conversation_id)
      ∷ text msg.sender_id
      ∷ text msg.type
      ∷ text msg.text
      ∷ text msg.media_url
      ∷ text msg.file_name
      ∷ int msg.file_size
      ∷ int msg.duration
      ∷ bytes msg.waveform
      ∷ int (status_code msg.status)
      ∷ text msg.error_text
      ∷ int (saved_timestamp now msg.timestamp)
      ∷ [])

  -- The calls of bindValue in the loop of a batch, by their positions.
  unfoldable pub batch_row_of : ℤ → Message → Row
  batch_row_of now msg =
      let id = text msg.id in
      let server_id = int msg.server_id in
      let conversation_id = text (conversation_key msg.conversation_id) in
      let file_size = int msg.file_size in
      let duration = int msg.duration in
      let waveform = bytes msg.waveform in
      let status = int (status_code msg.status) in
      let ts = int (saved_timestamp now msg.timestamp) in
      bind_columns insert_columns (
        id
        ∷ server_id
        ∷ conversation_id
        ∷ text msg.sender_id
        ∷ text msg.type
        ∷ text msg.text
        ∷ text msg.media_url
        ∷ text msg.file_name
        ∷ file_size
        ∷ duration
        ∷ waveform
        ∷ status
        ∷ text msg.error_text
        ∷ ts
        ∷ [])

  -- The message that the values of a row are read as, by their positions.
  unfoldable pub read_row : ℤ → Row → Message
  read_row now r =
      let v = select_columns message_columns r in
      record {
        id = q.to_string (value_at 0 v);
        server_id = q.to_integer (value_at 1 v);
        conversation_id = q.to_string (value_at 2 v);
        sender_id = q.to_string (value_at 3 v);
        type = q.to_string (value_at 4 v);
        text = q.to_string (value_at 5 v);
        media_url = q.to_string (value_at 6 v);
        file_name = q.to_string (value_at 7 v);
        file_size = q.to_integer (value_at 8 v);
        duration = q.to_int (value_at 9 v);
        waveform = q.to_bytes (value_at 10 v);
        status = status_of_code (q.to_int (value_at 11 v));
        error_text = q.to_string (value_at 12 v);
        timestamp = saved_timestamp now (q.to_integer (value_at 13 v));
      }

  unfoldable pub read_page_row : ℤ → String → Row → Message
  read_page_row now conversation_id r =
      let v = select_columns page_columns r in
      record {
        id = q.to_string (value_at 0 v);
        server_id = q.to_integer (value_at 1 v);
        conversation_id = conversation_id;
        sender_id = q.to_string (value_at 2 v);
        type = q.to_string (value_at 3 v);
        text = q.to_string (value_at 4 v);
        media_url = q.to_string (value_at 5 v);
        file_name = q.to_string (value_at 6 v);
        file_size = q.to_integer (value_at 7 v);
        duration = q.to_int (value_at 8 v);
        waveform = q.to_bytes (value_at 9 v);
        status = status_of_code (q.to_int (value_at 10 v));
        error_text = q.to_string (value_at 11 v);
        timestamp = saved_timestamp now (q.to_integer (value_at 12 v));
      }

  -- The rows of a fetch, each with its own reading of the clock.
  unfoldable pub read_rows : (ℕ → ℤ) → ℕ → String → List Row → List Message
  read_rows clock i conversation_id [] = []
  read_rows clock i conversation_id (r ∷ rs) =
      read_page_row (clock i) conversation_id r ∷ read_rows clock (suc i) conversation_id rs

  -- The answer for the callback, and the worker.
  unfoldable pub do_save_message :
      Bool → ℤ → Message → SqlMessageRepositoryWorker → Bool × SqlMessageRepositoryWorker
  do_save_message ok now msg w =
      if not w.is_open
      then (false, w)
      else if ok
      then (true, record w { messages = insert_or_replace (row_of now msg) w.messages })
      else (false, w)

  -- transaction() and rollback(): a rollback gives back the rows at the beginning, if it succeeds.
  abbrev pub begin_transaction :
      Transaction → SqlMessageRepositoryWorker → SqlMessageRepositoryWorker
  begin_transaction t w = elim w.before [
    | some rows ↦ w
    | none ↦ if t.begins then record w { before = some w.messages } else w
  ]

  abbrev pub commit : Transaction → SqlMessageRepositoryWorker → SqlMessageRepositoryWorker
  commit t w = if t.commits then record w { before = none } else w

  abbrev pub rollback : Transaction → SqlMessageRepositoryWorker → SqlMessageRepositoryWorker
  rollback t w = elim w.before [
    | none ↦ w
    | some rows ↦ if t.rolls_back then record w { messages = rows; before = none } else w
  ]

  -- The loop of a batch, up to the first statement that fails.
  unfoldable pub save_all :
      (ℕ → Bool)
      → (ℕ → ℤ)
      → ℕ
      → List Message
      → SqlMessageRepositoryWorker
      → Bool × SqlMessageRepositoryWorker
  save_all ok clock i [] w = (true, w)
  save_all ok clock i (msg ∷ msgs) w =
      let rest =
        save_all ok clock (suc i) msgs
          (record w { messages = insert_or_replace (batch_row_of (clock i) msg) w.messages }) in
      if ok i then rest else (false, w)

  abbrev pub is_empty_batch : List Message → Bool
  is_empty_batch [] = true
  is_empty_batch (m ∷ ms) = false

  -- The answer does not depend on transaction(), commit() and rollback().
  unfoldable pub do_save_messages :
      Transaction
      → (ℕ → Bool)
      → (ℕ → ℤ)
      → List Message
      → SqlMessageRepositoryWorker
      → Bool × SqlMessageRepositoryWorker
  do_save_messages t ok clock msgs w =
      let (success, saved) = save_all ok clock 0 msgs (begin_transaction t w) in
      if not w.is_open || is_empty_batch msgs
      then (false, w)
      else if success
      then (true, commit t saved)
      else (false, rollback t saved)

  abbrev first_row : ℤ → List Row → Option Message
  first_row now [] = none
  first_row now (r ∷ rs) = some (read_row now r)

  unfoldable pub do_get_message_by_id :
      Bool → ℤ → String → SqlMessageRepositoryWorker → Option Message
  do_get_message_by_id ok now id w =
      if not w.is_open || not ok then none else first_row now (select_where (has_id id) w.messages)

-- `lower` is SQLite's LOWER.
module _ (q : Qt) (lower : String → String) where
  abbrev pub is_in_conversation : String → Row → Bool
  is_in_conversation id r =
      Text.◌==◌ (lower (text_cell (cell "conversation_id" r))) (lower (conversation_key q id))

  abbrev pub seen_by : String → String → Row → Bool
  seen_by conversation_id sender_id r =
      is_in_conversation conversation_id r
      && (is_empty sender_id || same_cell (cell "sender_id" r) (text sender_id))
      && not (same_cell (cell "status" r) (int (status_code seen)))

  unfoldable pub do_mark_messages_seen :
      Bool → String → String → SqlMessageRepositoryWorker → Bool × SqlMessageRepositoryWorker
  do_mark_messages_seen ok conversation_id sender_id w =
      if not w.is_open
      then (false, w)
      else if ok
      then (
        true,
        record w {
          messages =
              update_where (seen_by conversation_id sender_id)
                (set_cell "status" (int (status_code seen))) w.messages;
        },
      )
      else (false, w)

  abbrev pub is_before : ℤ → Row → Bool
  is_before before r = not (ltb_ℤ (pos 0) before) || ltb_ℤ (sort_key r) before

  unfoldable pub do_get_messages :
      Bool
      → (List Row → List Row)
      → (ℕ → ℤ)
      → String
      → ℤ
      → ℤ
      → SqlMessageRepositoryWorker
      → List Message
  do_get_messages ok ordered clock conversation_id limit before w =
      if not w.is_open || not ok
      then []
      else let wanted =
          select_where (λ r. is_in_conversation conversation_id r && is_before (to_millis before) r)
            w.messages in
        reverse (read_rows q clock 0 conversation_id (limited limit (ordered wanted)))

abbrev pub set_status : MessageStatus → String → Row → Row
set_status status error_text r =
    set_cell "error_text" (text error_text) (set_cell "status" (int (status_code status)) r)

unfoldable pub do_update_status :
    Bool
    → String
    → MessageStatus
    → String
    → SqlMessageRepositoryWorker
    → Bool × SqlMessageRepositoryWorker
do_update_status ok id status error_text w =
    if not w.is_open
    then (false, w)
    else if ok
    then (
      true,
      record w { messages = update_where (has_id id) (set_status status error_text) w.messages },
    )
    else (false, w)

unfoldable pub do_delete_message :
    Bool → String → SqlMessageRepositoryWorker → Bool × SqlMessageRepositoryWorker
do_delete_message ok id w =
    if not w.is_open
    then (false, w)
    else if ok
    then (true, record w { messages = select_where (λ r. not (has_id id r)) w.messages })
    else (false, w)

-- The last statement of initialize: timestamps in seconds are made milliseconds.
unfoldable pub upgrade : List Row → List Row
upgrade rows =
    update_where
      (λ r. ltb_ℤ (pos 0) (timestamp_cell r) && ltb_ℤ (timestamp_cell r) (pos 100000000000))
      (λ r. set_cell "timestamp" (int (timestamp_cell r *ℤ pos 1000)) r) rows

-- The rows of the file, if it can be opened.
unfoldable pub initialize : Bool → List Row → SqlMessageRepositoryWorker
initialize opened rows =
    if opened
    then record { is_open = true; messages = upgrade rows; before = none }
    else record { is_open = false; messages = rows; before = none }
