-- ===== src/Chat/View/Moves.antt =====
-- What a view shows after the operations of the chat model that add a row at the end or take one out.
use mathlib.Core.List.{append-nil}
use neo_nect_desktop.Base.{
  ℕ, zero, suc, ◌+◌, ◌-◌, Bool, true, false, List, [], ◌∷◌, ◌++◌, ◌≡◌, refl, ap, arith, Bool-cases,
  inl, inr, Option-cases, modify, ℤ, none, some, Option, not, length, take, drop, subst,
  drop-length-append, take_of_length-le, drop_of_length-le,
}
use neo_nect_desktop.Base.Text.{String, is_empty}
use neo_nect_desktop.Qt.{Qt, VariantMap}
use neo_nect_desktop.Chat.Item.{MessageItem}
use neo_nect_desktop.Chat.Blocks.{
  recalculate_from, recalculate_blocks, mark, joins_before, joins_after, length-recalculate_from,
}
use neo_nect_desktop.Chat.Model.{
  Role, ChatMessageModel, find_row, emit, begin_insert_rows, end_insert_rows, begin_remove_rows,
  end_remove_rows, count_changed,
}
use neo_nect_desktop.Chat.Rows.{
  insert_message, new_row, continues, continue_block, all_marks, remove_row, remove_message,
  emit_marks, insert_message_item, item_of_map,
}
use neo_nect_desktop.Chat.Slots.{on_message_removed, is_other}
use neo_nect_desktop.Chat.View.{read_rows, replay, Mirrors}
use neo_nect_desktop.Chat.View.Single.{change_row-Mirrors}

read_rows-recalculate_from :
    (p : Option MessageItem) (xs : List MessageItem)
    → read_rows 0 (length xs) all_marks (recalculate_from p xs) xs ≡ recalculate_from p xs
unfolding recalculate_from
read_rows-recalculate_from p [] = refl
read_rows-recalculate_from p (x ∷ xs) =
    ap (λ ys. mark (not (joins_before p x)) (not (joins_after x xs)) x ∷ ys)
      (read_rows-recalculate_from (some x) xs)

module _ (start : List MessageItem) where
  emit_marks-Mirrors :
      (ys : List MessageItem) (m : ChatMessageModel)
      → replay start m.trace ≡ ys
      → Mirrors start (emit_marks (record m { items = recalculate_blocks ys }))
  unfolding recalculate_blocks recalculate_from
  emit_marks-Mirrors [] m s = s
  emit_marks-Mirrors (y ∷ ys) m s =
      let n : suc (length (recalculate_from (some y) ys)) - 1 + 1 - 0 ≡ suc (length ys) =
        omega (arith, length-recalculate_from (some y) ys) in
      rw (n, s) (read_rows-recalculate_from none (y ∷ ys))

  remove_row-Mirrors :
      (i : ℕ) (m : ChatMessageModel) → Mirrors start m → Mirrors start (remove_row i m)
  remove_row-Mirrors i m s =
      emit_marks-Mirrors (take i m.items ++ drop (suc i) m.items)
        (emit (end_remove_rows i i) (record (emit (begin_remove_rows i i) m) {
          items = take i m.items ++ drop (suc i) m.items;
        }))
        (ap (λ v. take i v ++ drop (suc i) v) s)

  push-Mirrors :
      (x : MessageItem) (m : ChatMessageModel)
      → Mirrors start m
      → Mirrors start (
          emit count_changed (
            emit
              (end_insert_rows (length m.items) (length m.items))
              (record m { items = m.items ++ x ∷ [] })))
  push-Mirrors x m s =
      let one : length m.items + 1 - length m.items ≡ 1 = omega arith in
      rw
        (
          s,
          one,
          take_of_length-le (length m.items) m.items (omega arith),
          drop-length-append m.items (x ∷ []),
          drop_of_length-le (length m.items) m.items (omega arith),
        )
        (append-nil (m.items ++ x ∷ []))

  continue_block-Mirrors :
      (q : Qt) (same : Bool) (m : ChatMessageModel)
      → Mirrors start m
      → Mirrors start (continue_block q same m)
  unfolding continue_block
  continue_block-Mirrors q true m s =
      change_row-Mirrors start (λ x. record x { is_last_in_block = false })
        (Role.last_in_block ∷ []) (λ x. refl) (length m.items - 1) m s
  continue_block-Mirrors q false m s = s

  length-modify :
      (i : ℕ) (f : MessageItem → MessageItem) (xs : List MessageItem)
      → length (modify i f xs) ≡ length xs
  length-modify i f [] = refl
  length-modify zero f (x ∷ xs) = refl
  length-modify (suc i) f (x ∷ xs) = ap suc (length-modify i f xs)

  length-continue_block :
      (q : Qt) (same : Bool) (m : ChatMessageModel)
      → length (continue_block q same m).items ≡ length m.items
  unfolding continue_block
  length-continue_block q true m =
      length-modify (length m.items - 1) (λ x. record x { is_last_in_block = false }) m.items
  length-continue_block q false m = refl

  -- After a new message, by hand, is put at the end, a view that showed the rows shows the new ones:
  -- the end of the block before it, signalled while the row is being put in, is seen too.
  pub insert_message_item-Mirrors :
      (q : Qt) (uuid : String) (now : ℤ) (map : VariantMap) (m : ChatMessageModel)
      → Mirrors start m
      → Mirrors start (insert_message_item q uuid now map m)
  unfolding insert_message_item insert_message
  insert_message_item-Mirrors q uuid now map m s =
      let a = item_of_map q map in
      let same = continues a.from_me a.sender_name m.items in
      let i = length m.items in
      let d = continue_block q same (emit (begin_insert_rows i i) m) in
      let e : length d.items ≡ i = length-continue_block q same (emit (begin_insert_rows i i) m) in
      subst
        (λ k. Mirrors start (
          emit count_changed (
            emit (end_insert_rows k k)
              (record d { items = d.items ++ new_row q uuid now (not same) a ∷ [] }))))
        e
        (push-Mirrors (new_row q uuid now (not same) a) d
          (continue_block-Mirrors q same (emit (begin_insert_rows i i) m) s))

  -- After a message is removed, on every branch, a view that showed the rows shows the new ones, with
  -- the blocks that the removal joined or parted.
  pub on_message_removed-Mirrors :
      (q : Qt) (id message_id : String) (m : ChatMessageModel)
      → Mirrors start m
      → Mirrors start (on_message_removed q id message_id m)
  unfolding on_message_removed remove_message
  on_message_removed-Mirrors q id message_id m s = elim (Bool-cases (is_other q id m)) [
    | inl other ↦ rw other s
    | inr same ↦ elim (Bool-cases (is_empty message_id)) [
      | inl e ↦ rw (same, e) s
      | inr e ↦ elim (Option-cases (find_row message_id m)) [
        | inl none_found ↦ rw (same, e, none_found) s
        | inr found ↦ rw (same, e, found.1) (remove_row-Mirrors found.0 m s)
      ]
    ]
  ]
