-- ===== src/Chat/Order/Bound.antt =====
-- `std::upper_bound` as src/core/chatmessagemodel.cpp calls it, against a count of the rows.
use neo_nect_desktop.Base.{
  ℕ, zero, suc, ◌+◌, ◌-◌, ◌/◌, ◌≤◌, true, false, List, [], ◌∷◌, ◌≡◌, arith, Bool-cases, inl, inr,
  Option-cases, ℤ, ◌≤ℤ◌, none, some, length, get_elem?, All, if◌then◌else◌, ◌==◌,
}
use neo_nect_desktop.Chat.Item.{MessageItem}
use neo_nect_desktop.Chat.Order.{
  earlier, upper_bound_loop, upper_bound, insert_at, IsSorted, timestamps, All-le_trans,
}

-- How many rows come before the first that is later than `x`.
unfoldable pub upper_linear : MessageItem → List MessageItem → ℕ
upper_linear x [] = 0
upper_linear x (y ∷ ys) = if earlier x y then 0 else suc (upper_linear x ys)

upper_linear-le_length : (x : MessageItem) (xs : List MessageItem) → upper_linear x xs ≤ length xs
unfolding upper_linear
upper_linear-le_length x [] = omega arith
upper_linear-le_length x (y ∷ ys) = ground (arith, upper_linear-le_length x ys)

All-get_elem? :
    (a : ℤ) (xs : List MessageItem) (i : ℕ) (y : MessageItem)
    → All (λ u. a ≤ℤ u) (timestamps xs)
    → get_elem? xs i ≡ some y
    → a ≤ℤ y.timestamp
All-get_elem? a [] i y h e = absurd (ground arith)
All-get_elem? a (x ∷ xs) zero y h e = ground arith
All-get_elem? a (x ∷ xs) (suc i) y h e = All-get_elem? a xs i y h.1 e

upper_linear_le :
    (x : MessageItem) (xs : List MessageItem) (i : ℕ) (y : MessageItem)
    → get_elem? xs i ≡ some y
    → earlier x y ≡ true
    → upper_linear x xs ≤ i
unfolding upper_linear
upper_linear_le x [] i y e t = absurd (ground arith)
upper_linear_le x (z ∷ zs) zero y e t = ground arith
upper_linear_le x (z ∷ zs) (suc i) y e t = ground (arith, upper_linear_le x zs i y e t)

lt_upper_linear :
    (x : MessageItem) (xs : List MessageItem) (i : ℕ) (y : MessageItem)
    → IsSorted xs
    → get_elem? xs i ≡ some y
    → earlier x y ≡ false
    → suc i ≤ upper_linear x xs
unfolding upper_linear
lt_upper_linear x [] i y s e f = absurd (ground arith)
lt_upper_linear x (z ∷ zs) zero y s e f = ground arith
lt_upper_linear x (z ∷ zs) (suc i) y s e f =
    ground (arith, lt_upper_linear x zs i y s.1 e f, All-get_elem? z.timestamp zs i y s.0 e)

get_elem?-none : (xs : List MessageItem) (i : ℕ) → get_elem? xs i ≡ none → length xs ≤ i
get_elem?-none [] i e = omega arith
get_elem?-none (x ∷ xs) zero e = absurd (ground arith)
get_elem?-none (x ∷ xs) (suc i) e = omega (arith, get_elem?-none xs i e)

upper_bound_loop_lem :
    (fuel : ℕ) (x : MessageItem) (xs : List MessageItem) (first count : ℕ)
    → IsSorted xs
    → count ≤ fuel
    → first ≤ upper_linear x xs
    → upper_linear x xs ≤ first + count
    → first + count ≤ length xs
    → upper_bound_loop fuel x xs first count ≡ upper_linear x xs
unfolding upper_bound_loop
upper_bound_loop_lem zero x xs first count s f lo hi l = omega arith
upper_bound_loop_lem (suc fuel) x xs first count s f lo hi l = elim (Bool-cases (count == 0)) [
  | inl e ↦ rw (upper_bound_loop, e) (ground arith)
  | inr e ↦ elim (Option-cases (get_elem? xs (first + count / 2))) [
    | inl n ↦ absurd (ground (arith, get_elem?-none xs (first + count / 2) n))
    | inr found ↦ elim (Bool-cases (earlier x found.0)) [
      | inl t ↦
          let bound = upper_linear_le x xs (first + count / 2) found.0 found.1 t in
          rw (upper_bound_loop, e, found.1, t)
            (upper_bound_loop_lem fuel x xs first (count / 2) s (ground arith) lo bound
              (ground arith))
      | inr t ↦
          let bound = lt_upper_linear x xs (first + count / 2) found.0 s found.1 t in
          rw (upper_bound_loop, e, found.1, t)
            (upper_bound_loop_lem fuel x xs (first + count / 2 + 1) (count - (count / 2 + 1)) s
              (ground arith) (ground arith) (ground arith) (ground arith))
    ]
  ]
]

-- Among sorted rows the halving search ends at the number of rows before the first later one, which is
-- the number of all rows at most.
pub upper_bound-linear :
    (x : MessageItem) (xs : List MessageItem)
    → IsSorted xs
    → (upper_bound x xs ≡ upper_linear x xs) × (upper_bound x xs ≤ length xs)
unfolding upper_bound
upper_bound-linear x xs s =
    let e =
      upper_bound_loop_lem (length xs) x xs 0 (length xs) s (omega arith) (omega arith)
        (omega (arith, upper_linear-le_length x xs)) (omega arith) in
    (e, omega (arith, e, upper_linear-le_length x xs))

All-insert_linear :
    (a : ℤ) (x : MessageItem) (xs : List MessageItem)
    → a ≤ℤ x.timestamp
    → All (λ u. a ≤ℤ u) (timestamps xs)
    → All (λ u. a ≤ℤ u) (timestamps (insert_at (upper_linear x xs) x xs))
unfolding upper_linear insert_at
All-insert_linear a x [] h k = (h, tt)
All-insert_linear a x (y ∷ ys) h k = ground (arith, All-insert_linear a x ys h k.1)

insert_linear-IsSorted :
    (x : MessageItem) (xs : List MessageItem)
    → IsSorted xs
    → IsSorted (insert_at (upper_linear x xs) x xs)
unfolding upper_linear insert_at
insert_linear-IsSorted x [] s = (tt, tt)
insert_linear-IsSorted x (y ∷ ys) s = elim (Bool-cases (earlier x y)) [
  | inl before ↦
      let le : x.timestamp ≤ℤ y.timestamp = ground arith in
      rw before ((le, All-le_trans x.timestamp y.timestamp (timestamps ys) le s.0), s)
  | inr after ↦
      rw after
        (All-insert_linear y.timestamp x ys (ground arith) s.0, insert_linear-IsSorted x ys s.1)
]

pub insert_at-IsSorted :
    (x : MessageItem) (xs : List MessageItem)
    → IsSorted xs
    → IsSorted (insert_at (upper_bound x xs) x xs)
insert_at-IsSorted x xs s = rw ((upper_bound-linear x xs s).0) (insert_linear-IsSorted x xs s)
