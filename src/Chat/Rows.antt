-- ===== src/Chat/Rows.antt =====
-- The invokable operations of src/core/chatmessagemodel.cpp on the rows.
use neo_nect_desktop.Base.{
  ℕ, suc, ◌-◌, Bool, true, false, ◌&&◌, ◌||◌, not, List, [], ◌∷◌, ◌++◌, none, some, ℤ, pos, ltb_ℤ,
  leb_ℤ, eqb_ℤ, if◌then◌else◌, length, take, drop,
}
use neo_nect_desktop.Base.Text.{String, ◌==◌, is_empty}
use neo_nect_desktop.Qt.{Qt, Qreal, Variant, VariantMap, value, value_or, contains}
use neo_nect_desktop.Chat.Item.{
  MessageItem, no_progress, resolve_type, resolve_error, row_timestamp,
}
use neo_nect_desktop.Chat.Blocks.{recalculate_blocks}
use neo_nect_desktop.Chat.Model.{
  Role, begin_insert_rows, end_insert_rows, begin_remove_rows, end_remove_rows, begin_reset_model,
  end_reset_model, data_changed, count_changed, can_fetch_more_changed, is_loading_more_changed,
  ChatMessageModel, emit, find_row, change_row, change_rows,
}

-- The arguments of insertMessage after its first, in its order.
pub record NewMessage : Type 0 where
  pub text : String
  pub from_me : Bool
  pub sender_name : String
  pub sender_avatar : String
  pub message_type : String
  pub media_url : String
  pub file_name : String
  pub file_size : ℤ
  pub duration : ℤ
  pub waveform : List ℤ
  pub status : String
  pub id : String
  pub timestamp : ℤ
  pub error_text : String

-- m_items.back() is by the same sender.
unfoldable pub continues : Bool → String → List MessageItem → Bool
continues from_me sender [] = false
continues from_me sender (x ∷ []) =
    (not x.from_me || from_me) && (x.from_me || not from_me) && x.sender_name == sender
continues from_me sender (x ∷ y ∷ ys) = continues from_me sender (y ∷ ys)

module _ (q : Qt) where
  -- The row of insertMessage; `uuid` is the id that QUuid gives, and `now` the clock.
  unfoldable pub new_row : String → ℤ → Bool → NewMessage → MessageItem
  unfolding resolve_type row_timestamp
  new_row uuid now is_first a =
      let resolved = resolve_type q a.message_type a.media_url a.file_name in
      let type = if is_empty resolved then "text" else resolved in
      record {
        id = if is_empty a.id then uuid else a.id;
        text = a.text;
        from_me = a.from_me;
        sender_name = a.sender_name;
        sender_avatar = a.sender_avatar;
        message_type = type;
        media_url = a.media_url;
        file_name = a.file_name;
        file_size = a.file_size;
        duration = a.duration;
        waveform = a.waveform;
        status = if is_empty a.status then "sent" else a.status;
        error_text = resolve_error q a.error_text type a.media_url a.file_name;
        timestamp = row_timestamp now a.timestamp;
        is_first_in_block = is_first;
        is_last_in_block = true;
        is_first_unread = false;
        transfer_progress = no_progress;
        transfer_bytes = pos 0;
      }

  -- The block of the last row goes on.
  unfoldable pub continue_block : Bool → ChatMessageModel → ChatMessageModel
  continue_block same m =
      if same
      then change_row (length m.items - 1) (λ x. record x { is_last_in_block = false })
          (Role.last_in_block ∷ []) m
      else m

  unfoldable pub insert_message : String → ℤ → NewMessage → ChatMessageModel → ChatMessageModel
  unfolding continues continue_block
  insert_message uuid now a m =
      let i = length m.items in
      let same = continues a.from_me a.sender_name m.items in
      let m = continue_block same (emit (begin_insert_rows i i) m) in
      let m = record m { items = m.items ++ new_row uuid now (not same) a ∷ [] } in
      emit count_changed (emit (end_insert_rows i i) m)

  unfoldable pub insert_outgoing_message : String → ℤ → String → ChatMessageModel → ChatMessageModel
  unfolding insert_message
  insert_outgoing_message uuid now text m =
      if is_empty (q.trimmed text)
      then m
      else insert_message uuid now
          (record {
            text = q.trimmed text;
            from_me = true;
            sender_name = "Me";
            sender_avatar = "";
            message_type = "text";
            media_url = "";
            file_name = "";
            file_size = pos 0;
            duration = pos 0;
            waveform = [];
            status = "sent";
            id = "";
            timestamp = pos 0;
            error_text = "";
          })
          m

  unfoldable pub item_of_map : VariantMap → NewMessage
  unfolding resolve_type resolve_error
  item_of_map map =
      let from_me = q.to_bool (value_or (Variant.flag false) "fromMe" map) in
      let media_url = q.to_string (value_or (Variant.text "") "mediaUrl" map) in
      let file_name = q.to_string (value_or (Variant.text "") "fileName" map) in
      let given_type =
        if contains "messageType" map
        then q.to_string (value "messageType" map)
        else q.to_string (value_or (Variant.text "text") "type" map) in
      let type = resolve_type q given_type media_url file_name in
      record {
        text = q.to_string (value "text" map);
        from_me = from_me;
        sender_name =
            q.to_string
              (value_or (Variant.text (if from_me then "Me" else "Anonymous")) "senderName" map);
        sender_avatar = q.to_string (value_or (Variant.text "") "senderAvatar" map);
        message_type = type;
        media_url = media_url;
        file_name = file_name;
        file_size = q.to_integer (value_or (Variant.int (pos 0)) "fileSize" map);
        duration = q.to_int (value_or (Variant.int (pos 0)) "duration" map);
        waveform = q.to_list (value "waveform" map);
        status = q.to_string (value_or (Variant.text "sent") "status" map);
        id =
            if contains "messageId" map && not (is_empty (q.to_string (value "messageId" map)))
            then q.to_string (value "messageId" map)
            else q.to_string (value "id" map);
        timestamp = q.to_integer (value_or (Variant.int (pos 0)) "timestamp" map);
        error_text =
            resolve_error q (q.to_string (value_or (Variant.text "") "errorText" map)) type
              media_url file_name;
      }

  unfoldable pub insert_message_item : String → ℤ → VariantMap → ChatMessageModel → ChatMessageModel
  unfolding item_of_map insert_message
  insert_message_item uuid now map = insert_message uuid now (item_of_map map)

-- The assignments of updateMessageStatus and onMessageUpdated.
abbrev pub set_status : String → String → MessageItem → MessageItem
set_status status error_text x = record x { status = status; error_text = error_text }

unfoldable pub update_message_status :
    String → String → String → ChatMessageModel → ChatMessageModel
update_message_status id status error_text m = if is_empty id then m else elim (find_row id m) [
  | none ↦ m
  | some i ↦ change_row i (set_status status error_text) (Role.status ∷ Role.error_text ∷ []) m
]

abbrev pub all_marks : List Role
all_marks = Role.first_in_block ∷ Role.last_in_block ∷ []

-- dataChanged for all the rows, if there are any.
abbrev pub emit_marks : ChatMessageModel → ChatMessageModel
emit_marks m = elim m.items [
  | [] ↦ m
  | x ∷ xs ↦ emit (data_changed 0 (length m.items - 1) all_marks) m
]

abbrev pub remove_row : ℕ → ChatMessageModel → ChatMessageModel
remove_row i m =
    let m = emit (begin_remove_rows i i) m in
    let m = record m { items = take i m.items ++ drop (suc i) m.items } in
    let m = emit (end_remove_rows i i) m in
    let m = record m { items = recalculate_blocks m.items } in emit count_changed (emit_marks m)

unfoldable pub remove_message : String → ChatMessageModel → ChatMessageModel
remove_message id m =
    if is_empty id then m else elim (find_row id m) [ none ↦ m | some i ↦ remove_row i m ]

unfoldable pub add_message : MessageItem → ChatMessageModel → ChatMessageModel
add_message x m =
    let i = length m.items in
    let m = emit (begin_insert_rows i i) m in
    let m = record m { items = m.items ++ x ∷ [] } in
    emit count_changed (emit (end_insert_rows i i) m)

unfoldable pub clear_active_viewport_store : ChatMessageModel → ChatMessageModel
clear_active_viewport_store m =
    let m = emit begin_reset_model m in
    let m = record m { items = []; can_fetch_more = false; is_loading_more = false } in
    emit count_changed
      (emit is_loading_more_changed (emit can_fetch_more_changed (emit end_reset_model m)))

unfoldable pub oldest_timestamp : ChatMessageModel → ℤ
oldest_timestamp m = elim m.items [ [] ↦ pos 0 | x ∷ xs ↦ x.timestamp ]

abbrev pub unread_role : List Role
unread_role = Role.first_unread ∷ []

abbrev pub set_unread : Bool → MessageItem → MessageItem
set_unread b x = record x { is_first_unread = b }

unfoldable pub clear_first_unread : ChatMessageModel → ChatMessageModel
unfolding change_rows
clear_first_unread m =
    change_rows (λ i x. x.is_first_unread) (λ i. set_unread false) unread_role 0 m.items m

-- Some row is the first unread one.
unfoldable pub any_unread : List MessageItem → Bool
any_unread [] = false
any_unread (x ∷ xs) = x.is_first_unread || any_unread xs

unfoldable pub set_first_unread_message_id : String → ChatMessageModel → ChatMessageModel
set_first_unread_message_id id m =
    if is_empty id
    then clear_first_unread m
    else if any_unread m.items
    then m
    else elim (find_row id m) [ none ↦ m | some i ↦ change_row i (set_unread true) unread_role m ]

abbrev pub is_unread_row : ℤ → ℕ → Bool
is_unread_row index i = eqb_ℤ (pos i) index

abbrev pub differs : Bool → Bool → Bool
differs a b = if a then not b else b

unfoldable pub set_first_unread_index : ℤ → ChatMessageModel → ChatMessageModel
unfolding change_rows
set_first_unread_index index m =
    change_rows (λ i x. differs x.is_first_unread (is_unread_row index i))
      (λ i. set_unread (is_unread_row index i)) unread_role 0 m.items m

-- Whether the total corrects the size of the file.
abbrev pub corrects_size : ℤ → MessageItem → Bool
corrects_size total x =
    ltb_ℤ (pos 0) total && (leb_ℤ x.file_size (pos 0) || not (eqb_ℤ x.file_size total))

-- The first row with the id, and its number.
unfoldable pub update_transfer_from :
    Qreal → ℤ → ℤ → String → ℕ → List MessageItem → ChatMessageModel → ChatMessageModel
update_transfer_from progress bytes total id i [] m = m
update_transfer_from progress bytes total id i (x ∷ xs) m =
    let rest = update_transfer_from progress bytes total id (suc i) xs m in
    if x.id == id
    then if corrects_size total x
      then change_row i
          (λ y. record y {
            transfer_progress = progress;
            transfer_bytes = bytes;
            file_size = total;
          })
          (Role.transfer_progress ∷ Role.transfer_bytes ∷ Role.file_size ∷ []) m
      else change_row i (λ y. record y { transfer_progress = progress; transfer_bytes = bytes })
          (Role.transfer_progress ∷ Role.transfer_bytes ∷ []) m
    else rest

unfoldable pub update_transfer_progress :
    String → Qreal → ℤ → ℤ → ChatMessageModel → ChatMessageModel
unfolding update_transfer_from
update_transfer_progress id progress bytes total m =
    if is_empty id then m else update_transfer_from progress bytes total id 0 m.items m
