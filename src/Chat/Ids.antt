-- ===== src/Chat/Ids.antt =====
-- The ids of the chat model's rows, by which a slot finds a message.
use neo_nect_desktop.Base.{
  ℕ, zero, suc, ◌-◌, ◌≤◌, true, false, List, [], ◌∷◌, ◌≡◌, refl, arith, Bool-cases, Option-cases,
  inl, inr, ℤ, none, some, subst, sym, ap, All, modify,
}
use neo_nect_desktop.Base.Text.{String, ◌==◌, eq_iff, is_empty, ==-sym}
use neo_nect_desktop.Qt.{Qt, VariantMap, value, contains}
use neo_nect_desktop.Chat.Item.{MessageItem, parse_variant_map}
use neo_nect_desktop.Chat.Order.{ids, recalculate_blocks-ids, upper_bound, insert_at}
use neo_nect_desktop.Chat.Model.{ChatMessageModel, find_row, find_from}
use neo_nect_desktop.Chat.Slots.{on_message_added}
use neo_nect_desktop.Chat.Loaded.{items-insert_row}

abbrev pub IsNew : String → List String → Type 0
IsNew id = All (λ i. (i == id) ≡ false)

abbrev pub Distinct : List String → Type 0
Distinct [] = Unit {0}
Distinct (i ∷ is) = IsNew i is × Distinct is

find_from-none :
    (k : ℕ) (id : String) (xs : List MessageItem) → find_from k id xs ≡ none → IsNew id (ids xs)
unfolding find_from
find_from-none k id [] e = tt
find_from-none k id (x ∷ xs) e = elim (Bool-cases (x.id == id)) [
  | inl t ↦ absurd (ground arith)
  | inr t ↦ (t, find_from-none (suc k) id xs (ground arith))
]

find_from-some :
    (k i : ℕ) (x : MessageItem) (xs : List MessageItem)
    → find_from k x.id xs ≡ some i
    → (k ≤ i) × (ids (modify (i - k) (λ y. x) xs) ≡ ids xs)
unfolding find_from
find_from-some k i x [] e = absurd (ground arith)
find_from-some k i x (y ∷ ys) e = elim (Bool-cases (y.id == x.id)) [
  | inl t ↦
      let here : i ≡ k = ground arith in
      let none_before : i - k ≡ 0 = omega (arith, here) in
      rw none_before (omega (arith, here), ap (λ j. j ∷ ids ys) (sym ((eq_iff y.id x.id).0 t)))
  | inr t ↦
      let rest = find_from-some (suc k) i x ys (ground arith) in
      let later : i - k ≡ suc (i - suc k) = omega (arith, rest.0) in
      rw later (omega (arith, rest.0), ap (λ is. y.id ∷ is) rest.1)
]

IsNew-insert_at :
    (n : ℕ) (id : String) (x : MessageItem) (xs : List MessageItem)
    → (x.id == id) ≡ false
    → IsNew id (ids xs)
    → IsNew id (ids (insert_at n x xs))
unfolding insert_at
IsNew-insert_at zero id x xs h k = (h, k)
IsNew-insert_at (suc n) id x [] h k = (h, tt)
IsNew-insert_at (suc n) id x (y ∷ ys) h k = (k.0, IsNew-insert_at n id x ys h k.1)

insert_at-Distinct :
    (n : ℕ) (x : MessageItem) (xs : List MessageItem)
    → IsNew x.id (ids xs)
    → Distinct (ids xs)
    → Distinct (ids (insert_at n x xs))
unfolding insert_at
insert_at-Distinct zero x xs h k = (h, k)
insert_at-Distinct (suc n) x [] h k = (tt, tt)
insert_at-Distinct (suc n) x (y ∷ ys) h k =
    (IsNew-insert_at n y.id x ys (==-sym y.id x.id h.0) k.0, insert_at-Distinct n x ys h.1 k.1)

parse_variant_map-id :
    (q : Qt) (now : ℤ) (message : VariantMap)
    → contains "id" message ≡ true
    → is_empty (q.to_string (value "id" message)) ≡ false
    → (parse_variant_map q now message).id ≡ q.to_string (value "id" message)
unfolding parse_variant_map
parse_variant_map-id q now message has filled = rw (has, filled) refl

-- If the message has an id of its own that is not empty, and the ids of the rows are distinct, they are
-- distinct after the message is added, to whatever conversation.
pub on_message_added-Distinct :
    (q : Qt) (now : ℤ) (id : String) (message : VariantMap) (m : ChatMessageModel)
    → contains "id" message ≡ true
    → is_empty (q.to_string (value "id" message)) ≡ false
    → Distinct (ids m.items)
    → Distinct (ids (on_message_added q now id message m).items)
unfolding on_message_added
on_message_added-Distinct q now id message m has filled d =
    let x = parse_variant_map q now message in
    let own : x.id ≡ q.to_string (value "id" message) =
      parse_variant_map-id q now message has filled in
    elim (Bool-cases (q.same_ci id m.active_conversation_id)) [
      | inl same ↦ elim (Option-cases (find_row (q.to_string (value "id" message)) m)) [
        | inl f ↦
            rw
              (
                on_message_added,
                same,
                f,
                items-insert_row q x m,
                recalculate_blocks-ids (insert_at (upper_bound x m.items) x m.items),
              )
              (insert_at-Distinct (upper_bound x m.items) x m.items
                (find_from-none 0 x.id m.items
                  (subst (λ i. find_from 0 i m.items ≡ none) (sym own) f))
                d)
        | inr f ↦
            let all_before : f.0 - 0 ≡ f.0 = omega arith in
            let kept =
              (find_from-some 0 f.0 x m.items
                (subst (λ i. find_from 0 i m.items ≡ some f.0) (sym own) f.1)).1 in
            let same_ids =
              subst (λ n. ids (modify n (λ y. x) m.items) ≡ ids m.items) all_before kept in
            rw (on_message_added, same, f.1, recalculate_blocks-ids (modify f.0 (λ y. x) m.items))
              (subst Distinct (sym same_ids) d)
      ]
      | inr other ↦ rw (on_message_added, other) d
    ]
