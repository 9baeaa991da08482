-- ===== src/Chat/Order.antt =====
-- The order of the rows: `std::stable_sort` and `std::upper_bound` of the standard library as
-- src/core/chatmessagemodel.cpp calls them, by timestamp.
pub mod Bound
use mathlib.Core.List.{Perm}
use mathlib.Core.List.Perm
use neo_nect_desktop.Base.{
  ℕ, zero, suc, ◌+◌, ◌-◌, ◌/◌, ◌≤◌, ◌<◌, Bool, true, false, List, [], ◌∷◌, ◌++◌, map, Option, none,
  some, ◌≡◌, ◌↔◌, refl, ℤ, ltb_ℤ, ◌≤ℤ◌, if◌then◌else◌, length, get_elem?, take, drop, arith, All,
  Bool-cases, Option-cases, inl, inr, ◌==◌, subst, sym,
}
use neo_nect_desktop.Base.Text.{String}
use neo_nect_desktop.Chat.Item.{MessageItem}
use neo_nect_desktop.Chat.Blocks.{recalculate_from, recalculate_blocks}

-- The comparison that the calls pass.
abbrev pub earlier : MessageItem → MessageItem → Bool
earlier a b = ltb_ℤ a.timestamp b.timestamp

-- std::stable_sort: the only stable order. A row is put before all that are not earlier.
insert_stable : MessageItem → List MessageItem → List MessageItem
insert_stable x [] = x ∷ []
insert_stable x (y ∷ ys) = if earlier y x then y ∷ insert_stable x ys else x ∷ y ∷ ys

unfoldable pub stable_sort : List MessageItem → List MessageItem
unfolding insert_stable
stable_sort [] = []
stable_sort (x ∷ xs) = insert_stable x (stable_sort xs)

-- std::upper_bound: the halving loop over `count` rows from `first`, on fuel.
unfoldable pub upper_bound_loop : ℕ → MessageItem → List MessageItem → ℕ → ℕ → ℕ
upper_bound_loop zero x xs first count = first
upper_bound_loop (suc fuel) x xs first count = elim (count == 0) [
  | true ↦ first
  | false ↦ elim (get_elem? xs (first + count / 2)) [
    | none ↦ first
    | some y ↦ elim (earlier x y) [
      | true ↦ upper_bound_loop fuel x xs first (count / 2)
      | false ↦ upper_bound_loop fuel x xs (first + count / 2 + 1) (count - (count / 2 + 1))
    ]
  ]
]

unfoldable pub upper_bound : MessageItem → List MessageItem → ℕ
unfolding upper_bound_loop
upper_bound x xs = upper_bound_loop (length xs) x xs 0 (length xs)

-- items.insert(begin + i, x)
unfoldable pub insert_at : ℕ → MessageItem → List MessageItem → List MessageItem
insert_at i x xs = take i xs ++ x ∷ drop i xs

abbrev pub timestamps : List MessageItem → List ℤ
timestamps = map (λ x. x.timestamp)

abbrev pub ids : List MessageItem → List String
ids = map (λ x. x.id)

abbrev pub Ascending : List ℤ → Type 0
Ascending [] = Unit {0}
Ascending (t ∷ ts) = All (λ u. t ≤ℤ u) ts × Ascending ts

-- No row is earlier than one before it.
abbrev pub IsSorted : List MessageItem → Type 0
IsSorted xs = Ascending (timestamps xs)

pub All-le_trans : (a b : ℤ) (ts : List ℤ) → a ≤ℤ b → All (λ u. b ≤ℤ u) ts → All (λ u. a ≤ℤ u) ts
All-le_trans a b [] h k = tt
All-le_trans a b (t ∷ ts) h k = (omega arith, All-le_trans a b ts h k.1)

All-insert_stable :
    (a : ℤ) (x : MessageItem) (xs : List MessageItem)
    → a ≤ℤ x.timestamp
    → All (λ u. a ≤ℤ u) (timestamps xs)
    → All (λ u. a ≤ℤ u) (timestamps (insert_stable x xs))
unfolding insert_stable
All-insert_stable a x [] h k = (h, tt)
All-insert_stable a x (y ∷ ys) h k = ground (arith, All-insert_stable a x ys h k.1)

insert_stable-IsSorted :
    (x : MessageItem) (xs : List MessageItem) → IsSorted xs → IsSorted (insert_stable x xs)
unfolding insert_stable
insert_stable-IsSorted x [] s = (tt, tt)
insert_stable-IsSorted x (y ∷ ys) s = elim (Bool-cases (earlier y x)) [
  | inl before ↦
      rw before
        (All-insert_stable y.timestamp x ys (ground arith) s.0, insert_stable-IsSorted x ys s.1)
  | inr after ↦
      let le : x.timestamp ≤ℤ y.timestamp = ground arith in
      rw after ((le, All-le_trans x.timestamp y.timestamp (timestamps ys) le s.0), s)
]

pub stable_sort-IsSorted : (xs : List MessageItem) → IsSorted (stable_sort xs)
unfolding stable_sort
stable_sort-IsSorted [] = tt
stable_sort-IsSorted (x ∷ xs) = insert_stable-IsSorted x (stable_sort xs) (stable_sort-IsSorted xs)

insert_stable-perm : (x : MessageItem) (xs : List MessageItem) → Perm (insert_stable x xs) (x ∷ xs)
unfolding insert_stable
insert_stable-perm x [] = Perm.refl (x ∷ [])
insert_stable-perm x (y ∷ ys) = elim (Bool-cases (earlier y x)) [
  | inl before ↦ rw before (Perm.trans (Perm.cons y (insert_stable-perm x ys)) (Perm.swap x y ys))
  | inr after ↦ rw after (Perm.refl (x ∷ y ∷ ys))
]

pub stable_sort-perm : (xs : List MessageItem) → Perm (stable_sort xs) xs
unfolding stable_sort
stable_sort-perm [] = Perm.nil
stable_sort-perm (x ∷ xs) =
    Perm.trans (insert_stable-perm x (stable_sort xs)) (Perm.cons x (stable_sort-perm xs))

recalculate_from-timestamps :
    (p : Option MessageItem) (xs : List MessageItem)
    → timestamps (recalculate_from p xs) ≡ timestamps xs
unfolding recalculate_from
recalculate_from-timestamps p [] = refl
recalculate_from-timestamps p (x ∷ xs) = rw (recalculate_from-timestamps (some x) xs)

pub recalculate_blocks-IsSorted :
    (xs : List MessageItem) → IsSorted xs → IsSorted (recalculate_blocks xs)
unfolding recalculate_blocks
recalculate_blocks-IsSorted xs s = subst Ascending (sym (recalculate_from-timestamps none xs)) s

recalculate_from-ids :
    (p : Option MessageItem) (xs : List MessageItem) → ids (recalculate_from p xs) ≡ ids xs
unfolding recalculate_from
recalculate_from-ids p [] = refl
recalculate_from-ids p (x ∷ xs) = rw (recalculate_from-ids (some x) xs)

pub recalculate_blocks-ids : (xs : List MessageItem) → ids (recalculate_blocks xs) ≡ ids xs
unfolding recalculate_blocks
recalculate_blocks-ids = recalculate_from-ids none
