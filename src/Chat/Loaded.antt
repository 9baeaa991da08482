-- ===== src/Chat/Loaded.antt =====
-- The rows of the chat model after its slots: their order, their blocks and their number.
use mathlib.Core.List.{Perm}
use mathlib.Core.List.Perm
use neo_nect_desktop.Base.{
  ℕ, ◌≤◌, true, false, List, ◌∷◌, ◌≡◌, refl, arith, Bool-cases, inl, inr, ℤ, none, length, take,
  ltb, leb, length-take,
}
use neo_nect_desktop.Base.Text.{String}
use neo_nect_desktop.Qt.{Qt, VariantMap, value}
use neo_nect_desktop.Chat.Item.{MessageItem, parse_variant_map}
use neo_nect_desktop.Chat.Blocks.{
  recalculate_blocks, AreDivided, IsPartition, recalculate_blocks-AreDivided,
  length-recalculate_from,
}
use neo_nect_desktop.Chat.Order.{
  IsSorted, ids, stable_sort, stable_sort-IsSorted, stable_sort-perm, recalculate_blocks-IsSorted,
  recalculate_blocks-ids, upper_bound, insert_at,
}
use neo_nect_desktop.Chat.Order.Bound.{insert_at-IsSorted}
use neo_nect_desktop.Chat.Model.{ChatMessageModel, find_row}
use neo_nect_desktop.Chat.Slots.{
  parse_all, on_conversation_loaded, on_message_added, prepend_messages, drop_overflow, insert_row,
  max_window_size, on_more_messages_loaded,
}

-- The rows are sorted by time, each is marked by its block, and the blocks part the rows.
abbrev pub IsArranged : List MessageItem → Type 0
IsArranged xs = IsSorted xs × AreDivided none xs × IsPartition true xs

recalculate_blocks-IsArranged :
    (xs : List MessageItem) → IsSorted xs → IsArranged (recalculate_blocks xs)
recalculate_blocks-IsArranged xs s =
    let b = recalculate_blocks-AreDivided xs in (recalculate_blocks-IsSorted xs s, b.0, b.1)

module _ (q : Qt) where
  -- After the active conversation is loaded, the rows are one for each message, sorted by time and
  -- arranged in blocks; nothing is loading, and more can be fetched exactly after forty messages.
  pub on_conversation_loaded-IsArranged :
      (clock : ℕ → ℤ) (id : String) (messages : List VariantMap) (m : ChatMessageModel)
      → q.same_ci id m.active_conversation_id ≡ true
      → let loaded = on_conversation_loaded q clock id messages m in
        IsArranged loaded.items
        × Perm (ids loaded.items) (ids (parse_all q clock 0 messages))
        × (loaded.is_loading_more ≡ false)
        × (loaded.can_fetch_more ≡ leb 40 (length messages))
  unfolding on_conversation_loaded
  on_conversation_loaded-IsArranged clock id messages m e =
      let rows = parse_all q clock 0 messages in
      rw (on_conversation_loaded, e, recalculate_blocks-ids (stable_sort rows))
        (
          recalculate_blocks-IsArranged (stable_sort rows) (stable_sort-IsSorted rows),
          Perm.map (λ x. x.id) (stable_sort-perm rows),
          refl,
          refl,
        )

  pub items-insert_row :
      (x : MessageItem) (m : ChatMessageModel)
      → (insert_row q x m).items ≡ recalculate_blocks (insert_at (upper_bound x m.items) x m.items)
  items-insert_row x m =
      let rows = recalculate_blocks (insert_at (upper_bound x m.items) x m.items) in
      elim (Bool-cases (ltb 1 (length rows))) [ inl e ↦ rw e refl | inr e ↦ rw e refl ]

  -- A message whose id no row has leaves arranged rows arranged.
  pub on_message_added-IsArranged :
      (now : ℤ) (id : String) (message : VariantMap) (m : ChatMessageModel)
      → find_row (q.to_string (value "id" message)) m ≡ none
      → IsArranged m.items
      → IsArranged (on_message_added q now id message m).items
  unfolding on_message_added
  on_message_added-IsArranged now id message m f a =
      let x = parse_variant_map q now message in
      elim (Bool-cases (q.same_ci id m.active_conversation_id)) [
        | inl same ↦
            rw (on_message_added, same, f, items-insert_row x m)
              (recalculate_blocks-IsArranged (insert_at (upper_bound x m.items) x m.items)
                (insert_at-IsSorted x m.items a.0))
        | inr other ↦ rw (on_message_added, other) a
      ]

  length-drop_overflow : (m : ChatMessageModel) → length (drop_overflow q m).items ≤ max_window_size
  unfolding drop_overflow recalculate_blocks
  length-drop_overflow m = elim (Bool-cases (ltb max_window_size (length m.items))) [
    | inl e ↦ rw e (
        omega (
          arith,
          length-take max_window_size m.items,
          length-recalculate_from none (take max_window_size m.items),
        ))
    | inr e ↦ rw e (ground arith)
  ]

  -- After a page of older messages of the active conversation, which holds one at least, there are 150
  -- rows at most.
  length-on_more_messages_loaded :
      (clock : ℕ → ℤ) (id : String) (message : VariantMap) (messages : List VariantMap)
      (m : ChatMessageModel)
      → q.same_ci id m.active_conversation_id ≡ true
      → length (on_more_messages_loaded q clock id (message ∷ messages) m).items ≤ 150
  unfolding on_more_messages_loaded prepend_messages
  length-on_more_messages_loaded clock id message messages m e = rw e (length-drop_overflow _)
