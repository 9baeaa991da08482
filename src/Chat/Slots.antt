-- ===== src/Chat/Slots.antt =====
-- The slots of src/core/chatmessagemodel.cpp, which the message service's signals call.
use neo_nect_desktop.Base.{
  ℕ, suc, ◌+◌, ◌-◌, min, Bool, false, ◌&&◌, ◌||◌, not, List, [], ◌∷◌, ◌++◌, none, some,
  if◌then◌else◌, length, take, ltb, leb, modify, ℤ,
}
use neo_nect_desktop.Base.Text.{String, ◌==◌, is_empty}
use neo_nect_desktop.Qt.{Qt, Qreal, VariantMap, value}
use neo_nect_desktop.Chat.Item.{MessageItem, parse_variant_map}
use neo_nect_desktop.Chat.Blocks.{recalculate_blocks}
use neo_nect_desktop.Chat.Order.{stable_sort, upper_bound, insert_at}
use neo_nect_desktop.Chat.Model.{
  Role, begin_insert_rows, end_insert_rows, begin_remove_rows, end_remove_rows, begin_reset_model,
  end_reset_model, data_changed, count_changed, can_fetch_more_changed, is_loading_more_changed,
  ChatMessageModel, emit, find_row, change_row, change_rows,
}
use neo_nect_desktop.Chat.Rows.{
  all_marks, set_status, remove_message, clear_active_viewport_store, update_transfer_progress,
}

unfoldable pub set_active_conversation : String → ChatMessageModel → ChatMessageModel
set_active_conversation id m =
    clear_active_viewport_store (record m { active_conversation_id = id })

-- The window of rows that a page of older messages may fill.
abbrev pub max_window_size : ℕ
max_window_size = 150

module _ (q : Qt) where
  -- One row per message; each reads the clock for itself, the i-th time at `clock i`.
  unfoldable pub parse_all : (ℕ → ℤ) → ℕ → List VariantMap → List MessageItem
  parse_all clock i [] = []
  parse_all clock i (map ∷ maps) = parse_variant_map q (clock i) map ∷ parse_all clock (suc i) maps

  unfoldable pub on_conversation_loaded :
      (ℕ → ℤ) → String → List VariantMap → ChatMessageModel → ChatMessageModel
  on_conversation_loaded clock id messages m =
      if not (q.same_ci id m.active_conversation_id)
      then m
      else let m = record m {
        can_fetch_more = leb 40 (length messages);
        is_loading_more = false;
      } in
        let m = emit begin_reset_model m in
        let m = record m {
          items = recalculate_blocks (stable_sort (parse_all clock 0 messages));
        } in
        emit count_changed
          (emit is_loading_more_changed (emit can_fetch_more_changed (emit end_reset_model m)))

  -- The rows past the window are dropped.
  abbrev pub cut_window : ChatMessageModel → ChatMessageModel
  cut_window m =
      let last = length m.items - 1 in
      let m = emit (begin_remove_rows max_window_size last) m in
      let m = record m { items = recalculate_blocks (take max_window_size m.items) } in
      emit count_changed (emit (end_remove_rows max_window_size last) m)

  unfoldable pub drop_overflow : ChatMessageModel → ChatMessageModel
  drop_overflow m = if ltb max_window_size (length m.items) then cut_window m else m

  -- The older rows, before the ones there are.
  abbrev pub insert_older : List MessageItem → ChatMessageModel → ChatMessageModel
  insert_older older m =
      let last = length older - 1 in
      let m = emit (begin_insert_rows 0 last) m in
      let m = record m { items = recalculate_blocks (older ++ m.items) } in
      emit count_changed (emit (end_insert_rows 0 last) m)

  unfoldable pub prepend_messages :
      (ℕ → ℤ) → String → List VariantMap → ChatMessageModel → ChatMessageModel
  prepend_messages clock id messages m =
      if not (q.same_ci id m.active_conversation_id)
      then m
      else let m = emit is_loading_more_changed (record m { is_loading_more = false }) in
        elim messages [
          | [] ↦ emit can_fetch_more_changed (record m { can_fetch_more = false })
          | x ∷ xs ↦
              let m = record m { can_fetch_more = leb 30 (length (x ∷ xs)) } in
              let m = emit can_fetch_more_changed m in
              drop_overflow (insert_older (parse_all clock 0 (x ∷ xs)) m)
        ]

  unfoldable pub on_more_messages_loaded :
      (ℕ → ℤ) → String → List VariantMap → ChatMessageModel → ChatMessageModel
  unfolding prepend_messages
  on_more_messages_loaded clock id messages m =
      if not (q.same_ci id m.active_conversation_id)
      then m
      else prepend_messages clock id messages m

  -- dataChanged for the new row and the ones beside it, if there are any.
  abbrev pub emit_around : ℕ → ChatMessageModel → ChatMessageModel
  emit_around i m =
      if ltb 1 (length m.items)
      then emit (data_changed (i - 1) (min (length m.items - 1) (i + 1)) all_marks) m
      else m

  abbrev pub insert_row : MessageItem → ChatMessageModel → ChatMessageModel
  insert_row x m =
      let i = upper_bound x m.items in
      let m = emit (begin_insert_rows i i) m in
      let m = record m { items = recalculate_blocks (insert_at i x m.items) } in
      emit_around i (emit count_changed (emit (end_insert_rows i i) m))

  -- A message with the id of a row takes its place.
  abbrev pub replace_row : ℕ → MessageItem → ChatMessageModel → ChatMessageModel
  replace_row i x m =
      let m = record m { items = recalculate_blocks (modify i (λ y. x) m.items) } in
      emit (data_changed i i []) m

  unfoldable pub on_message_added : ℤ → String → VariantMap → ChatMessageModel → ChatMessageModel
  on_message_added now id message m =
      if not (q.same_ci id m.active_conversation_id)
      then m
      else elim (find_row (q.to_string (value "id" message)) m) [
        | some i ↦ replace_row i (parse_variant_map q now message) m
        | none ↦ insert_row (parse_variant_map q now message) m
      ]

  -- A signal names another conversation than the active one.
  abbrev pub is_other : String → ChatMessageModel → Bool
  is_other id m = not (is_empty id) && not (q.same_ci id m.active_conversation_id)

  unfoldable pub on_message_updated :
      String → String → String → String → ChatMessageModel → ChatMessageModel
  on_message_updated id message_id status error_text m =
      if is_other id m
      then m
      else if is_empty message_id || message_id == "all"
      then change_rows (λ i x. x.from_me && not (x.status == status))
          (λ i. set_status status error_text) (Role.status ∷ Role.error_text ∷ []) 0 m.items m
      else elim (find_row message_id m) [
        | none ↦ m
        | some i ↦
            change_row i (set_status status error_text) (Role.status ∷ Role.error_text ∷ []) m
      ]

  unfoldable pub on_message_removed : String → String → ChatMessageModel → ChatMessageModel
  on_message_removed id message_id m = if is_other id m then m else remove_message message_id m

  unfoldable pub on_media_transfer_progress :
      String → String → Qreal → ℤ → ℤ → ChatMessageModel → ChatMessageModel
  on_media_transfer_progress id message_id progress bytes total m =
      if is_other id m then m else update_transfer_progress message_id progress bytes total m
