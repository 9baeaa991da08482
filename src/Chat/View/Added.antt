-- ===== src/Chat/View/Added.antt =====
-- What a view shows after a message is put in order among the rows of the chat model.
use neo_nect_desktop.Base.{
  ℕ, zero, suc, ◌+◌, ◌-◌, ◌≤◌, min, true, List, [], ◌∷◌, ◌++◌, ◌≡◌, refl, ap, arith, Bool-cases,
  inl, inr, ◌⊎◌, ℤ, ap₂, none, some, Option, not, length, take, drop, sym, ltb, length-append,
  length-take, length-drop,
}
use neo_nect_desktop.Base.Text.{String}
use neo_nect_desktop.Qt.{Qt, VariantMap, value}
use neo_nect_desktop.Chat.Item.{MessageItem, parse_variant_map}
use neo_nect_desktop.Chat.Blocks.{
  recalculate_from, recalculate_blocks, mark, joins_before, joins_after, AreBlocks,
  recalculate_from_of_AreBlocks, length-recalculate_from,
}
use neo_nect_desktop.Chat.Order.{insert_at, upper_bound, IsSorted}
use neo_nect_desktop.Chat.Order.Bound.{upper_bound-linear}
use neo_nect_desktop.Chat.Model.{Role, ChatMessageModel, find_row}
use neo_nect_desktop.Chat.Rows.{all_marks}
use neo_nect_desktop.Chat.Slots.{on_message_added, insert_row}
use neo_nect_desktop.Chat.View.{read_rows, Mirrors}

read_rows-zero : (roles : List Role) (rows xs : List MessageItem) → read_rows 0 0 roles rows xs ≡ xs
read_rows-zero roles rows [] = refl
read_rows-zero roles [] (x ∷ xs) = refl
read_rows-zero roles (r ∷ rs) (x ∷ xs) = refl

-- Another row before them changes the first of the rows at most.
read_rows-rest :
    (k : ℕ) (p q : Option MessageItem) (ys : List MessageItem)
    → AreBlocks p ys
    → (k ≡ 1) ⊎ (length ys ≡ 0)
    → read_rows 0 k all_marks (recalculate_from q ys) ys ≡ recalculate_from q ys
unfolding recalculate_from
read_rows-rest k p q [] b e = refl
read_rows-rest k p q (y ∷ ys) b (inl e) =
    rw (e, read_rows-zero all_marks (recalculate_from (some y) ys) ys)
      (ap (◌∷◌ (mark (not (joins_before q y)) (not (joins_after y ys)) y))
        (sym (recalculate_from_of_AreBlocks (some y) ys b.2)))
read_rows-rest k p q (y ∷ ys) b (inr e) = absurd (omega arith)

-- The rows after `x` is put in, with the new marks.
abbrev with_row : Option MessageItem → ℕ → MessageItem → List MessageItem → List MessageItem
with_row p i x xs = recalculate_from p (insert_at i x xs)

-- What a view shows once it read the new row.
abbrev inserted : ℕ → List MessageItem → List MessageItem → List MessageItem
inserted i rows xs = take i xs ++ take 1 (drop i rows) ++ drop i xs

read_rows-inserted :
    (p : Option MessageItem) (j : ℕ) (x : MessageItem) (xs : List MessageItem) (k : ℕ)
    → AreBlocks p xs
    → suc j ≤ length xs
    → (k ≡ 1) ⊎ (length xs ≡ suc j)
    → read_rows j
        (suc (suc k))
        all_marks
        (with_row p (suc j) x xs)
        (inserted (suc j) (with_row p (suc j) x xs) xs)
      ≡ with_row p (suc j) x xs
unfolding recalculate_from insert_at
read_rows-inserted p j x [] k b h e = absurd (omega arith)
read_rows-inserted p zero x (y ∷ ys) k b h e =
    ap
      (λ zs.
        mark (not (joins_before p y)) (not (joins_after y (x ∷ ys))) y
        ∷ mark (not (joins_before (some y) x)) (not (joins_after x ys)) x
        ∷ zs)
      (read_rows-rest k (some y) (some x) ys b.2 (ground arith))
read_rows-inserted p (suc j) x (y ∷ []) k b h e = absurd (omega arith)
read_rows-inserted p (suc j) x (y ∷ z ∷ zs) k b h e =
    ap₂ ◌∷◌ (λ i. mark (b.0 i) (b.1 i) y)
      (read_rows-inserted (some y) j x (z ∷ zs) k b.2 (omega arith) (ground arith))

-- The signal for the rows beside the new one is read.
beside :
    (i : ℕ) (x : MessageItem) (xs : List MessageItem)
    → AreBlocks none xs
    → i ≤ length xs
    → 1 ≤ length xs
    → read_rows
        (i - 1)
        (min (length xs) (i + 1) + 1 - (i - 1))
        all_marks
        (with_row none i x xs)
        (inserted i (with_row none i x xs) xs)
      ≡ with_row none i x xs
unfolding recalculate_from insert_at
beside zero x xs b h k =
    let n : min (length xs) (zero + 1) + 1 - (zero - 1) ≡ 2 = omega arith in
    rw n (
      ap (◌∷◌ (mark true (not (joins_after x xs)) x))
        (read_rows-rest 1 none (some x) xs b (inl refl)))
beside (suc j) x xs b h k =
    let cases : ((min (length xs) (suc j + 1) + 1 - (suc j - 1) ≡ 3) × (suc j ≤ length xs))
        ⊎ ((min (length xs) (suc j + 1) + 1 - (suc j - 1) ≡ 2) × (length xs ≡ suc j)) =
      ground arith in
    let f : suc j - 1 ≡ j = omega arith in
    elim cases [
      | inl c ↦ rw (c.0, f) (read_rows-inserted none j x xs 1 b h (inl refl))
      | inr c ↦ rw (c.0, f) (read_rows-inserted none j x xs 0 b h (inr c.1))
    ]

length-with_row :
    (p : Option MessageItem) (i : ℕ) (x : MessageItem) (xs : List MessageItem)
    → length (with_row p i x xs) ≡ length xs + 1
unfolding insert_at
length-with_row p i x xs = omega (
  arith,
  length-recalculate_from p (take i xs ++ x ∷ drop i xs),
  length-append (take i xs) (x ∷ drop i xs),
  length-take i xs,
  length-drop i xs,
)

-- A row put in before there was any is read with the signal for it.
alone :
    (i : ℕ) (x : MessageItem) (xs : List MessageItem)
    → i ≤ length xs
    → length xs ≡ 0
    → inserted i (with_row none i x xs) xs ≡ with_row none i x xs
unfolding recalculate_from insert_at
alone zero x [] h e = refl
alone (suc i) x [] h e = absurd (omega arith)
alone i x (y ∷ ys) h e = absurd (omega arith)

insert_row-Mirrors :
    (q : Qt) (start : List MessageItem) (x : MessageItem) (m : ChatMessageModel)
    → AreBlocks none m.items
    → upper_bound x m.items ≤ length m.items
    → Mirrors start m
    → Mirrors start (insert_row q x m)
unfolding recalculate_blocks
insert_row-Mirrors q start x m b h s =
    let i = upper_bound x m.items in
    let n = length-with_row none i x m.items in
    let one : i + 1 - i ≡ 1 = omega arith in
    elim (Bool-cases (ltb 1 (length (with_row none i x m.items)))) [
      | inl e ↦
          let last : length (with_row none i x m.items) - 1 ≡ length m.items = omega (arith, n) in
          rw (e, s, one, last) (beside i x m.items b h (ground (arith, n)))
      | inr e ↦ rw (e, s, one) (alone i x m.items h (ground (arith, n)))
    ]

-- If no row has the new message's id, the rows are sorted and their marks are those of their blocks,
-- then after a message is added, a view that showed the rows shows the new ones.
pub on_message_added-Mirrors :
    (q : Qt) (start : List MessageItem) (now : ℤ) (id : String) (message : VariantMap)
    (m : ChatMessageModel)
    → find_row (q.to_string (value "id" message)) m ≡ none
    → IsSorted m.items
    → AreBlocks none m.items
    → Mirrors start m
    → Mirrors start (on_message_added q now id message m)
unfolding on_message_added
on_message_added-Mirrors q start now id message m f sorted b s =
    let x = parse_variant_map q now message in
    elim (Bool-cases (q.same_ci id m.active_conversation_id)) [
      | inl same ↦
          rw (same, f)
            (insert_row-Mirrors q start x m b ((upper_bound-linear x m.items sorted).1) s)
      | inr other ↦ rw other s
    ]
