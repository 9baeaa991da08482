-- ===== src/Chat/Unread.antt =====
-- The divider of the unread messages in the chat model.
use neo_nect_desktop.Base.{
  ℕ, zero, suc, ◌+◌, ◌≤◌, Bool, true, false, List, [], ◌∷◌, ◌++◌, ◌≡◌, refl, arith, Bool-cases,
  Option-cases, inl, inr, ℤ, subst, sym, ap, ◌∙◌, modify, if◌then◌else◌, length, length-append,
}
use neo_nect_desktop.Base.Text.{String, is_empty}
use neo_nect_desktop.Chat.Item.{MessageItem}
use neo_nect_desktop.Chat.Model.{Role, ChatMessageModel, find_row, change_row, change_rows}
use neo_nect_desktop.Chat.Rows.{
  set_unread, any_unread, is_unread_row, differs, unread_role, clear_first_unread,
  set_first_unread_index, set_first_unread_message_id,
}

-- How many rows are the first unread one.
abbrev pub count_unread : List MessageItem → ℕ
count_unread [] = 0
count_unread (x ∷ xs) = (if x.is_first_unread then 1 else 0) + count_unread xs

-- The rows that a loop leaves, by each row and its number.
abbrev pub changed_rows :
    (ℕ → MessageItem → Bool)
    → (ℕ → MessageItem → MessageItem)
    → ℕ
    → List MessageItem
    → List MessageItem
changed_rows test f i [] = []
changed_rows test f i (x ∷ xs) = (if test i x then f i x else x) ∷ changed_rows test f (suc i) xs

modify-length-append :
    (f : MessageItem → MessageItem) (before : List MessageItem) (x : MessageItem)
    (rest : List MessageItem)
    → modify (length before) f (before ++ x ∷ rest) ≡ before ++ f x ∷ rest
modify-length-append f [] x rest = refl
modify-length-append f (y ∷ ys) x rest = ap (◌∷◌ y) (modify-length-append f ys x rest)

append-cons :
    (before : List MessageItem) (x : MessageItem) (rest : List MessageItem)
    → before ++ x ∷ rest ≡ (before ++ x ∷ []) ++ rest
append-cons [] x rest = refl
append-cons (y ∷ ys) x rest = ap (◌∷◌ y) (append-cons ys x rest)

-- The loop leaves the rows before it, and changes each of the others by itself.
items-change_rows :
    (test : ℕ → MessageItem → Bool) (f : ℕ → MessageItem → MessageItem) (roles : List Role) (i : ℕ)
    (before rest : List MessageItem) (m : ChatMessageModel)
    → length before ≡ i
    → m.items ≡ before ++ rest
    → (change_rows test f roles i rest m).items ≡ before ++ changed_rows test f i rest
unfolding change_rows
items-change_rows test f roles i before [] m n e = e
items-change_rows test f roles i before (x ∷ rest) m n e =
    let y = if test i x then f i x else x in
    let next : ChatMessageModel = if test i x then change_row i (f i) roles m else m in
    let longer : length (before ++ y ∷ []) ≡ suc i =
      omega (arith, n, length-append before (y ∷ [])) in
    let now : next.items ≡ before ++ y ∷ rest = elim (Bool-cases (test i x)) [
      | inl t ↦ rw (t, e, sym n) (modify-length-append (f (length before)) before x rest)
      | inr t ↦ rw (t, e) refl
    ] in
    items-change_rows test f roles (suc i) (before ++ y ∷ []) rest next longer
      (now ∙ append-cons before y rest)
    ∙ sym (append-cons before y (changed_rows test f (suc i) rest))

-- Every row is marked unread exactly if its number is the index.
abbrev pub MarkedAt : ℤ → ℕ → List MessageItem → Type 0
MarkedAt index i [] = Unit {0}
MarkedAt index i (x ∷ xs) = (x.is_first_unread ≡ is_unread_row index i) × MarkedAt index (suc i) xs

marked :
    (b : Bool) (x : MessageItem)
    → (if differs x.is_first_unread b then set_unread b x else x).is_first_unread ≡ b
marked true x = elim (Bool-cases x.is_first_unread) [ inl e ↦ rw e refl | inr e ↦ rw e refl ]
marked false x = elim (Bool-cases x.is_first_unread) [ inl e ↦ rw e refl | inr e ↦ rw e refl ]

changed_rows-MarkedAt :
    (index : ℤ) (i : ℕ) (xs : List MessageItem)
    → MarkedAt index i (
        changed_rows
          (λ i x. differs x.is_first_unread (is_unread_row index i))
          (λ i. set_unread (is_unread_row index i))
          i
          xs)
changed_rows-MarkedAt index i [] = tt
changed_rows-MarkedAt index i (x ∷ xs) =
    (marked (is_unread_row index i) x, changed_rows-MarkedAt index (suc i) xs)

count_unread-later :
    (index : ℤ) (k i : ℕ) (xs : List MessageItem)
    → is_unread_row index k ≡ true
    → suc k ≤ i
    → MarkedAt index i xs
    → count_unread xs ≡ 0
count_unread-later index k i [] t h a = refl
count_unread-later index k i (x ∷ xs) t h a =
    let other : is_unread_row index i ≡ false = ground arith in
    rw (a.0, other) (omega (arith, count_unread-later index k (suc i) xs t (omega arith) a.1))

count_unread-MarkedAt :
    (index : ℤ) (i : ℕ) (xs : List MessageItem) → MarkedAt index i xs → count_unread xs ≤ 1
count_unread-MarkedAt index i [] a = omega arith
count_unread-MarkedAt index i (x ∷ xs) a = elim (Bool-cases (is_unread_row index i)) [
  | inl t ↦ rw (a.0, t) (omega (arith, count_unread-later index i (suc i) xs t (omega arith) a.1))
  | inr t ↦ rw (a.0, t) (omega (arith, count_unread-MarkedAt index (suc i) xs a.1))
]

-- After the divider is set at an index, the row of that number is the first unread one, no other is,
-- and where there is no row of that number, none is.
set_first_unread_index-MarkedAt :
    (index : ℤ) (m : ChatMessageModel)
    → MarkedAt index 0 (set_first_unread_index index m).items
      × (count_unread (set_first_unread_index index m).items ≤ 1)
unfolding set_first_unread_index
set_first_unread_index-MarkedAt index m =
    let test = λ (i : ℕ) (x : MessageItem). differs x.is_first_unread (is_unread_row index i) in
    let f = λ (i : ℕ). set_unread (is_unread_row index i) in
    let e = items-change_rows test f unread_role 0 [] m.items m refl refl in
    let a = subst (MarkedAt index 0) (sym e) (changed_rows-MarkedAt index 0 m.items) in
    (a, count_unread-MarkedAt index 0 (set_first_unread_index index m).items a)

count_unread-cleared :
    (i : ℕ) (xs : List MessageItem)
    → count_unread (changed_rows (λ i x. x.is_first_unread) (λ i. set_unread false) i xs) ≡ 0
count_unread-cleared i [] = refl
count_unread-cleared i (x ∷ xs) = elim (Bool-cases x.is_first_unread) [
  | inl e ↦ rw e (ground (arith, count_unread-cleared (suc i) xs))
  | inr e ↦ rw e (ground (arith, count_unread-cleared (suc i) xs))
]

clear_first_unread-cleared : (m : ChatMessageModel) → count_unread (clear_first_unread m).items ≡ 0
unfolding clear_first_unread
clear_first_unread-cleared m =
    let e =
      items-change_rows (λ i x. x.is_first_unread) (λ i. set_unread false) unread_role 0 [] m.items
        m refl refl in
    ap count_unread e ∙ count_unread-cleared 0 m.items

count_unread-none : (xs : List MessageItem) → any_unread xs ≡ false → count_unread xs ≡ 0
unfolding any_unread
count_unread-none [] h = refl
count_unread-none (x ∷ xs) h = ground (arith, count_unread-none xs)

count_unread-modify :
    (i : ℕ) (xs : List MessageItem)
    → any_unread xs ≡ false
    → count_unread (modify i (set_unread true) xs) ≤ 1
unfolding any_unread
count_unread-modify i [] h = omega arith
count_unread-modify zero (x ∷ xs) h = ground (arith, count_unread-none xs)
count_unread-modify (suc i) (x ∷ xs) h = ground (arith, count_unread-modify i xs)

-- If one row at most is the first unread one, then after the divider is set at a message, or taken
-- away, one row at most is; it is taken away from every row if no message is named.
set_first_unread_message_id-count :
    (id : String) (m : ChatMessageModel)
    → count_unread m.items ≤ 1
    → (count_unread (set_first_unread_message_id id m).items ≤ 1)
      × (is_empty id ≡ true → count_unread (set_first_unread_message_id id m).items ≡ 0)
unfolding set_first_unread_message_id
set_first_unread_message_id-count id m h = elim (Bool-cases (is_empty id)) [
  | inl e ↦
      let cleared = clear_first_unread-cleared m in
      rw (set_first_unread_message_id, e) (omega (arith, cleared), λ t. cleared)
  | inr e ↦ elim (Bool-cases (any_unread m.items)) [
    | inl marked ↦ rw (set_first_unread_message_id, e, marked) (h, λ t. absurd (ground (arith, t)))
    | inr unmarked ↦ elim (Option-cases (find_row id m)) [
      | inl f ↦
          rw (set_first_unread_message_id, e, unmarked, f) (h, λ t. absurd (ground (arith, t)))
      | inr f ↦
          rw (set_first_unread_message_id, e, unmarked, f.1)
            (count_unread-modify f.0 m.items unmarked, λ t. absurd (ground (arith, t)))
    ]
  ]
]
