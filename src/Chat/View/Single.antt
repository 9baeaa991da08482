-- ===== src/Chat/View/Single.antt =====
-- What a view shows after the operations of the chat model that change rows in place.
use neo_nect_desktop.Base.{
  ℕ, zero, suc, ◌+◌, ◌-◌, Bool, true, false, List, [], ◌∷◌, ◌≡◌, refl, ap, arith, Bool-cases, inl,
  inr, Option-cases, modify, ℤ, ◌&&◌, ◌||◌, not,
}
use neo_nect_desktop.Base.Text.{String, is_empty, ◌==◌}
use neo_nect_desktop.Qt.{Qt, Qreal}
use neo_nect_desktop.Chat.Item.{MessageItem}
use neo_nect_desktop.Chat.Model.{Role, ChatMessageModel, change_row, change_rows, find_row}
use neo_nect_desktop.Chat.Rows.{
  update_message_status, set_first_unread_message_id, set_first_unread_index, clear_first_unread,
  update_transfer_from, update_transfer_progress, set_status, set_unread, is_unread_row, differs,
  unread_role, any_unread,
}
use neo_nect_desktop.Chat.Slots.{on_message_updated, on_media_transfer_progress, is_other}
use neo_nect_desktop.Chat.View.{read_row, read_rows, Mirrors}

read_rows-modify :
    (f : MessageItem → MessageItem) (roles : List Role)
    → ((x : MessageItem) → read_row roles (f x) x ≡ f x)
    → (i : ℕ) (xs : List MessageItem) → read_rows i 1 roles (modify i f xs) xs ≡ modify i f xs
read_rows-modify f roles h i [] = refl
read_rows-modify f roles h zero (x ∷ []) = ap (λ y. y ∷ []) (h x)
read_rows-modify f roles h zero (x ∷ y ∷ ys) = ap (λ z. z ∷ y ∷ ys) (h x)
read_rows-modify f roles h (suc i) (x ∷ xs) = ap (◌∷◌ x) (read_rows-modify f roles h i xs)

module _ (start : List MessageItem) where
  -- One row changed in the roles that its signal names.
  pub change_row-Mirrors :
      (f : MessageItem → MessageItem) (roles : List Role)
      → ((x : MessageItem) → read_row roles (f x) x ≡ f x)
      → (i : ℕ) (m : ChatMessageModel) → Mirrors start m
      → Mirrors start (change_row i f roles m)
  change_row-Mirrors f roles h i m s =
      let one : i + 1 - i ≡ 1 = omega arith in rw (one, s) (read_rows-modify f roles h i m.items)

  change_rows-Mirrors :
      (test : ℕ → MessageItem → Bool) (f : ℕ → MessageItem → MessageItem) (roles : List Role)
      → ((i : ℕ) (x : MessageItem) → read_row roles (f i x) x ≡ f i x)
      → (i : ℕ) (rest : List MessageItem) (m : ChatMessageModel) → Mirrors start m
      → Mirrors start (change_rows test f roles i rest m)
  unfolding change_rows
  change_rows-Mirrors test f roles h i [] m s = s
  change_rows-Mirrors test f roles h i (x ∷ rest) m s = elim (Bool-cases (test i x)) [
    | inl e ↦
        rw (change_rows, e)
          (change_rows-Mirrors test f roles h (suc i) rest (change_row i (f i) roles m)
            (change_row-Mirrors (f i) roles (h i) i m s))
    | inr e ↦ rw (change_rows, e) (change_rows-Mirrors test f roles h (suc i) rest m s)
  ]

  pub update_message_status-Mirrors :
      (id status error_text : String) (m : ChatMessageModel)
      → Mirrors start m
      → Mirrors start (update_message_status id status error_text m)
  unfolding update_message_status
  update_message_status-Mirrors id status error_text m s = elim (Bool-cases (is_empty id)) [
    | inl e ↦ rw e s
    | inr e ↦ elim (Option-cases (find_row id m)) [
      | inl none_found ↦ rw (e, none_found) s
      | inr found ↦
          rw (e, found.1)
            (change_row-Mirrors (set_status status error_text) (Role.status ∷ Role.error_text ∷ [])
              (λ x. refl) found.0 m s)
    ]
  ]

  update_transfer_from-Mirrors :
      (progress : Qreal) (bytes total : ℤ) (id : String) (i : ℕ) (xs : List MessageItem)
      (m : ChatMessageModel)
      → Mirrors start m
      → Mirrors start (update_transfer_from progress bytes total id i xs m)
  unfolding update_transfer_from
  update_transfer_from-Mirrors progress bytes total id i [] m s = s
  update_transfer_from-Mirrors progress bytes total id i (x ∷ xs) m s = ground (
    arith,
    update_transfer_from-Mirrors progress bytes total id (suc i) xs m s,
    change_row-Mirrors
        (λ y. record y { transfer_progress = progress; transfer_bytes = bytes; file_size = total })
        (Role.transfer_progress ∷ Role.transfer_bytes ∷ Role.file_size ∷ []) (λ x. refl) i m s,
    change_row-Mirrors (λ y. record y { transfer_progress = progress; transfer_bytes = bytes })
        (Role.transfer_progress ∷ Role.transfer_bytes ∷ []) (λ x. refl) i m s,
  )

  -- After a report of the progress of a transfer, on every branch, a view that showed the rows shows the new ones.
  pub on_media_transfer_progress-Mirrors :
      (q : Qt) (id message_id : String) (progress : Qreal) (bytes total : ℤ) (m : ChatMessageModel)
      → Mirrors start m
      → Mirrors start (on_media_transfer_progress q id message_id progress bytes total m)
  unfolding on_media_transfer_progress update_transfer_progress
  on_media_transfer_progress-Mirrors q id message_id progress bytes total m s =
      let changed = update_transfer_from-Mirrors progress bytes total message_id 0 m.items m s in
      elim (Bool-cases (is_other q id m)) [
        | inl e ↦ rw e s
        | inr e ↦ elim (Bool-cases (is_empty message_id)) [
          | inl d ↦ rw (e, d) s
          | inr d ↦ rw (e, d) changed
        ]
      ]

  -- After an update of the status of one message or of all own ones, on every branch, a view that
  -- showed the rows shows the new ones.
  pub on_message_updated-Mirrors :
      (q : Qt) (id message_id status error_text : String) (m : ChatMessageModel)
      → Mirrors start m
      → Mirrors start (on_message_updated q id message_id status error_text m)
  unfolding on_message_updated
  on_message_updated-Mirrors q id message_id status error_text m s =
      let set = set_status status error_text in
      let roles = Role.status ∷ Role.error_text ∷ [] in
      elim (Bool-cases (is_other q id m)) [
        | inl other ↦ rw other s
        | inr same ↦ elim (Bool-cases (is_empty message_id || message_id == "all")) [
          | inl all ↦
              rw (same, all)
                (change_rows-Mirrors (λ i x. x.from_me && not (x.status == status)) (λ i. set) roles
                  (λ i x. refl) 0 m.items m s)
          | inr one ↦ elim (Option-cases (find_row message_id m)) [
            | inl none_found ↦ rw (same, one, none_found) s
            | inr found ↦
                rw (same, one, found.1) (change_row-Mirrors set roles (λ x. refl) found.0 m s)
          ]
        ]
      ]

  clear_first_unread-Mirrors :
      (m : ChatMessageModel) → Mirrors start m → Mirrors start (clear_first_unread m)
  unfolding clear_first_unread
  clear_first_unread-Mirrors m s =
      change_rows-Mirrors (λ i x. x.is_first_unread) (λ i. set_unread false) unread_role
        (λ i x. refl) 0 m.items m s

  pub set_first_unread_index-Mirrors :
      (index : ℤ) (m : ChatMessageModel)
      → Mirrors start m
      → Mirrors start (set_first_unread_index index m)
  unfolding set_first_unread_index
  set_first_unread_index-Mirrors index m s =
      change_rows-Mirrors (λ i x. differs x.is_first_unread (is_unread_row index i))
        (λ i. set_unread (is_unread_row index i)) unread_role (λ i x. refl) 0 m.items m s

  pub set_first_unread_message_id-Mirrors :
      (id : String) (m : ChatMessageModel)
      → Mirrors start m
      → Mirrors start (set_first_unread_message_id id m)
  unfolding set_first_unread_message_id
  set_first_unread_message_id-Mirrors id m s = elim (Bool-cases (is_empty id)) [
    | inl e ↦ rw e (clear_first_unread-Mirrors m s)
    | inr e ↦ elim (Bool-cases (any_unread m.items)) [
      | inl marked ↦ rw (e, marked) s
      | inr unmarked ↦ elim (Option-cases (find_row id m)) [
        | inl none_found ↦ rw (e, unmarked, none_found) s
        | inr found ↦
            rw (e, unmarked, found.1)
              (change_row-Mirrors (set_unread true) unread_role (λ x. refl) found.0 m s)
      ]
    ]
  ]
