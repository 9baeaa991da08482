-- ===== src/Storage/Fetch.antt =====
-- The calls of src/storage/sqlmessagerepository.cpp that work on many messages: fetches and batches.
use neo_nect_desktop.Base.{
  ℕ, suc, ◌≤◌, Bool, true, false, ◌&&◌, ◌||◌, not, List, [], ◌∷◌, ◌++◌, ◌≡◌, refl, ap,
  if◌then◌else◌, arith, Bool-cases, inl, inr, ℤ, pos, length, take, length-append, length-take, All,
}
use neo_nect_desktop.Base.Text.{String}
use neo_nect_desktop.Qt.{Qt}
use neo_nect_desktop.Chat.Item.{to_millis}
use neo_nect_desktop.Storage.Message.{Message}
use neo_nect_desktop.Storage.Table.{Row, select_where}
use neo_nect_desktop.Storage.Repository.{
  SqlMessageRepositoryWorker, Transaction, read_rows, read_page_row, reverse, commit, rollback,
  do_save_message, is_in_conversation, is_before, do_get_messages, save_all,
}

length-reverse : (ms : List Message) → length (reverse ms) ≡ length ms
unfolding reverse
length-reverse [] = refl
length-reverse (m ∷ ms) = omega (arith, length-append (reverse ms) (m ∷ []), length-reverse ms)

length-read_rows :
    (q : Qt) (clock : ℕ → ℤ) (i : ℕ) (id : String) (rows : List Row)
    → length (read_rows q clock i id rows) ≡ length rows
unfolding read_rows
length-read_rows q clock i id [] = refl
length-read_rows q clock i id (r ∷ rs) = ap suc (length-read_rows q clock (suc i) id rs)

-- Each row of the list passes the test.
All-select_where :
    (test : Row → Bool) (rows : List Row) → All (λ r. test r ≡ true) (select_where test rows)
unfolding select_where
All-select_where test [] = tt
All-select_where test (r ∷ rs) = elim (Bool-cases (test r)) [
  | inl e ↦ rw e (e, All-select_where test rs)
  | inr e ↦ rw e (All-select_where test rs)
]

All-read_rows :
    (q : Qt) (clock : ℕ → ℤ) (i : ℕ) (id : String) (rows : List Row)
    → All (λ m. m.conversation_id ≡ id) (read_rows q clock i id rows)
unfolding read_rows read_page_row
All-read_rows q clock i id [] = tt
All-read_rows q clock i id (r ∷ rs) = (refl, All-read_rows q clock (suc i) id rs)

All-append : (P : Message → Type 0) (xs ys : List Message) → All P xs → All P ys → All P (xs ++ ys)
All-append P [] ys h k = k
All-append P (x ∷ xs) ys h k = (h.0, All-append P xs ys h.1 k)

All-reverse : (P : Message → Type 0) (xs : List Message) → All P xs → All P (reverse xs)
unfolding reverse
All-reverse P [] h = tt
All-reverse P (x ∷ xs) h = All-append P (reverse xs) (x ∷ []) (All-reverse P xs h.1) (h.0, tt)

-- A fetch with a limit gives that many messages at most, each with the conversation it was asked for,
-- whatever order SQLite chooses; and none from a file that is not open.
do_get_messages-bounds :
    (q : Qt) (lower : String → String) (ok : Bool) (ordered : List Row → List Row) (clock : ℕ → ℤ)
    (id : String) (limit : ℕ) (before : ℤ) (w : SqlMessageRepositoryWorker)
    → let fetched = do_get_messages q lower ok ordered clock id (pos limit) before w in
      (length fetched ≤ limit)
      × All (λ m. m.conversation_id ≡ id) fetched
      × (w.is_open ≡ false → fetched ≡ [])
unfolding do_get_messages
do_get_messages-bounds q lower ok ordered clock id limit before w =
    let rows = take limit (
      ordered (
        select_where
          (λ r. is_in_conversation q lower id r && is_before q lower (to_millis before) r)
          w.messages)) in
    elim (Bool-cases (not w.is_open || not ok)) [
      | inl e ↦ rw (do_get_messages, e) (omega arith, tt, λ h. refl)
      | inr e ↦
          rw (do_get_messages, e)
            (
              omega (
                arith,
                length-reverse (read_rows q clock 0 id rows),
                length-read_rows q clock 0 id rows,
                length-take limit (
                    ordered (
                      select_where
                        (λ r.
                          is_in_conversation q lower id r && is_before q lower (to_millis before) r)
                        w.messages)),
              ),
              All-reverse (λ m. m.conversation_id ≡ id) (read_rows q clock 0 id rows)
                  (All-read_rows q clock 0 id rows),
              λ h. absurd (ground (arith, h)),
            )
    ]

-- The worker after the messages were saved one at a time, each with success.
unfoldable pub saved_singly :
    Qt → (ℕ → ℤ) → ℕ → List Message → SqlMessageRepositoryWorker → SqlMessageRepositoryWorker
saved_singly q clock i [] w = w
saved_singly q clock i (msg ∷ msgs) w =
    saved_singly q clock (suc i) msgs (do_save_message q true (clock i) msg w).1

-- The answer of a batch whose transaction left the worker `v`, by whether it is turned down.
abbrev batch_answer :
    Qt
    → Transaction
    → (ℕ → Bool)
    → (ℕ → ℤ)
    → List Message
    → SqlMessageRepositoryWorker
    → SqlMessageRepositoryWorker
    → Bool
    → Bool × SqlMessageRepositoryWorker
batch_answer q t ok clock msgs w v turned_down =
    let saved = save_all q ok clock 0 msgs v in
    if turned_down
    then (false, w)
    else if saved.0
    then (true, commit q t saved.1)
    else (false, rollback q t saved.1)
