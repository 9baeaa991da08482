-- ===== src/Notify/Removal.antt =====
-- The removals of src/core/notificationmanager.cpp, against a filter of the list.
use neo_nect_desktop.Base.{
  ℕ, zero, suc, ◌≤◌, min, Bool, false, List, [], ◌∷◌, ◌++◌, ◌≡◌, refl, sym, ap, ap₂, ◌∙◌, arith,
  Bool-cases, Option-cases, inl, inr, none, some, length, take, drop, get_elem?, if◌then◌else◌,
  take_of_length-le, drop_of_length-le,
}
use mathlib.Core.List.{append-nil, append_assoc}
use neo_nect_desktop.Base.Text.{String, is_empty}
use neo_nect_desktop.Qt.{Qt}
use neo_nect_desktop.Notify.{
  Notification, NotificationManager, remove_down, remove_at, remove_matching, finish_removal,
  emit_dismissed, is_past, lock, unlock, dismiss_by_sender, mark_channel_as_read, is_of_sender,
  is_of_channel,
}

-- The notifications that do not pass the test, and those that do, in order.
abbrev pub without : (Notification → Bool) → List Notification → List Notification
without test [] = []
without test (n ∷ ns) = if test n then without test ns else n ∷ without test ns

without-append :
    (test : Notification → Bool) (xs ys : List Notification)
    → without test (xs ++ ys) ≡ without test xs ++ without test ys
without-append test [] ys = refl
without-append test (x ∷ xs) ys = elim (Bool-cases (test x)) [
  | inl e ↦ rw e (without-append test xs ys)
  | inr e ↦ rw e (ap (◌∷◌ x) (without-append test xs ys))
]

get_elem?-split :
    (i : ℕ) (xs : List Notification) (x : Notification)
    → get_elem? xs i ≡ some x
    → xs ≡ take i xs ++ x ∷ drop (suc i) xs
get_elem?-split i [] x e = absurd (ground arith)
get_elem?-split zero (y ∷ ys) x e = ap (λ z. z ∷ ys) (ground arith)
get_elem?-split (suc i) (y ∷ ys) x e = ap (◌∷◌ y) (get_elem?-split i ys x e)

get_elem?-none : (i : ℕ) (xs : List Notification) → get_elem? xs i ≡ none → length xs ≤ i
get_elem?-none i [] e = omega arith
get_elem?-none zero (x ∷ xs) e = absurd (ground arith)
get_elem?-none (suc i) (x ∷ xs) e = omega (arith, get_elem?-none i xs e)

take-suc :
    (i : ℕ) (xs : List Notification) (x : Notification)
    → get_elem? xs i ≡ some x
    → (take (suc i) xs ≡ take i xs ++ x ∷ [])
      × (drop i xs ≡ x ∷ drop (suc i) xs)
      × (take i (remove_at i xs) ≡ take i xs)
      × (drop i (remove_at i xs) ≡ drop (suc i) xs)
take-suc i [] x e = absurd (ground arith)
take-suc zero (y ∷ ys) x e =
    let same : y ≡ x = ground arith in (ap (λ z. z ∷ []) same, ap (λ z. z ∷ ys) same, refl, refl)
take-suc (suc i) (y ∷ ys) x e =
    let (a, b, c, d) = take-suc i ys x e in (ap (◌∷◌ y) a, b, ap (◌∷◌ y) c, d)

without-take-suc :
    (test : Notification → Bool) (i : ℕ) (xs : List Notification) (x : Notification)
    → get_elem? xs i ≡ some x
    → without test (take (suc i) xs) ≡ without test (take i xs) ++ without test (x ∷ [])
without-take-suc test i xs x e =
    ap (without test) (take-suc i xs x e).0 ∙ without-append test (take i xs) (x ∷ [])

remove_down-without :
    (test : Notification → Bool) (i : ℕ) (xs : List Notification)
    → (remove_down test i xs).0 ≡ without test (take i xs) ++ drop i xs
unfolding remove_down
remove_down-without test zero xs = refl
remove_down-without test (suc i) xs = elim (Option-cases (get_elem? xs i)) [
  | inl e ↦
      let n = get_elem?-none i xs e in
      let same =
        ap₂ (λ a b. without test a ++ b)
          (take_of_length-le i xs n ∙ sym (take_of_length-le (suc i) xs (omega (arith, n))))
          (drop_of_length-le i xs n ∙ sym (drop_of_length-le (suc i) xs (omega (arith, n)))) in
      rw (remove_down, e) (remove_down-without test i xs ∙ same)
  | inr x ↦
      let (longer, rest, before, after) = take-suc i xs x.0 x.1 in
      let kept = without-take-suc test i xs x.0 x.1 in
      elim (Bool-cases (test x.0)) [
        | inl t ↦
            let none_kept : without test (take (suc i) xs) ≡ without test (take i xs) =
              kept ∙ rw t (append-nil (without test (take i xs))) in
            rw (remove_down, x.1, t)
              (remove_down-without test i (remove_at i xs)
                ∙ ap₂ (λ a b. without test a ++ b) before after
                ∙ ap (λ a. a ++ drop (suc i) xs) (sym none_kept))
        | inr t ↦
            let one_kept : without test (take (suc i) xs) ≡ without test (take i xs) ++ x.0 ∷ [] =
              kept ∙ rw t refl in
            rw (remove_down, x.1, t)
              (remove_down-without test i xs
                ∙ ap (λ b. without test (take i xs) ++ b) rest
                ∙ sym (append_assoc (without test (take i xs)) (x.0 ∷ []) (drop (suc i) xs))
                ∙ ap (λ a. a ++ drop (suc i) xs) (sym one_kept))
      ]
]

pub remove_down-all :
    (test : Notification → Bool) (xs : List Notification)
    → (remove_down test (length xs) xs).0 ≡ without test xs
remove_down-all test xs =
    remove_down-without test (length xs) xs
    ∙ ap₂ (λ a b. without test a ++ b) (take_of_length-le (length xs) xs (omega arith))
        (drop_of_length-le (length xs) xs (omega arith))
    ∙ append-nil (without test xs)

emit_dismissed-kept :
    (ids : List String) (m : NotificationManager)
    → ((emit_dismissed ids m).active ≡ m.active)
      × ((emit_dismissed ids m).unread_count ≡ m.unread_count)
emit_dismissed-kept [] m = (refl, refl)
emit_dismissed-kept (id ∷ ids) m = emit_dismissed-kept ids _

-- A removal leaves the list that it is given, and a count that is not past it.
finish_removal-kept :
    (ids : List String) (m : NotificationManager)
    → ((finish_removal ids m).active ≡ m.active)
      × ((finish_removal ids m).unread_count ≡ min m.unread_count (length m.active))
finish_removal-kept ids m = elim (Bool-cases (is_past m)) [
  | inl e ↦
      let k = emit_dismissed-kept ids (unlock (record m { unread_count = length m.active })) in
      rw e (k.0, k.1 ∙ ground arith)
  | inr e ↦ let k = emit_dismissed-kept ids (unlock m) in rw e (k.0, k.1 ∙ ground arith)
]

remove_matching-without :
    (test : Notification → Bool) (m : NotificationManager)
    → ((remove_matching test m).active ≡ without test m.active)
      × ((remove_matching test m).unread_count
          ≡ min m.unread_count (length (without test m.active)))
remove_matching-without test m =
    let removed = remove_down test (length m.active) m.active in
    let k = finish_removal-kept removed.1 (record (lock m) { active = removed.0 }) in
    let e = remove_down-all test m.active in
    (k.0 ∙ e, k.1 ∙ ap (λ xs. min m.unread_count (length xs)) e)

module _ (q : Qt) where
  -- To dismiss by a sender that is not empty keeps exactly the notifications that are not of that
  -- sender and type, in their order, and cuts the count down to them.
  pub dismiss_by_sender-without :
      (sender type : String) (m : NotificationManager)
      → is_empty sender ≡ false
      → let kept = without (is_of_sender q sender type) m.active in
        ((dismiss_by_sender q sender type m).active ≡ kept)
        × ((dismiss_by_sender q sender type m).unread_count ≡ min m.unread_count (length kept))
  unfolding dismiss_by_sender
  dismiss_by_sender-without sender type m h =
      rw (dismiss_by_sender, h) (remove_matching-without (is_of_sender q sender type) m)

  -- To mark a channel that is not empty as read keeps exactly the notifications of other channels and
  -- senders, in their order, and cuts the count down to them.
  mark_channel_as_read-without :
      (channel : String) (m : NotificationManager)
      → is_empty channel ≡ false
      → let kept = without (is_of_channel q channel) m.active in
        ((mark_channel_as_read q channel m).active ≡ kept)
        × ((mark_channel_as_read q channel m).unread_count ≡ min m.unread_count (length kept))
  unfolding mark_channel_as_read
  mark_channel_as_read-without channel m h =
      rw (mark_channel_as_read, h) (remove_matching-without (is_of_channel q channel) m)
