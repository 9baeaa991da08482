-- ===== src/Storage/Saved.antt =====
-- A message saved by src/storage/sqlmessagerepository.cpp and read again.
use neo_nect_desktop.Base.{
  ℕ, Bool, true, false, List, [], ◌∷◌, ◌++◌, some, ◌≡◌, refl, ap, sym, ◌∙◌, arith, ℤ, pos, negsuc,
  ltb_ℤ, All, ◌≤ℤ◌, Bool-cases, inl, inr,
}
use neo_nect_desktop.Base.Hash.{find}
use neo_nect_desktop.Base.Text.{String, eq_refl, ==-sym}
use neo_nect_desktop.Qt.{Qt, Variant, invalid, flag, int, real, list, bytes}
use neo_nect_desktop.Chat.Item.{to_millis}
use neo_nect_desktop.Storage.Message.{
  Message, MessageStatus, sending, sent, failed, seen, pending, accepted, declined, other, below,
  status_code, status_of_code,
}
use neo_nect_desktop.Storage.Table.{
  Row, cell, same_cell, clashes, remove_clashes, insert_or_replace, select_where, has_id,
  bind_columns, select_columns, value_at,
}
use neo_nect_desktop.Storage.Repository.{
  SqlMessageRepositoryWorker, saved_timestamp, read_row, conversation_key, row_of, do_save_message,
  do_get_message_by_id,
}

-- A number of 32 bits.
abbrev pub IsInt : ℤ → Type 0
IsInt z = (negsuc 2147483647 ≤ℤ z) × (z ≤ℤ pos 2147483647)

-- A variant converts to the value of its own kind, to an int if that has 32 bits.
pub record Reads (q : Qt) : Type 0 where
  pub texts : (s : String) → q.to_string (Variant.text s) ≡ s
  pub integers : (z : ℤ) → q.to_integer (int z) ≡ z
  pub ints : (z : ℤ) → IsInt z → q.to_int (int z) ≡ z
  pub blobs : (b : List ℕ) → q.to_bytes (bytes b) ≡ b

status_of_code-status_code : (s : MessageStatus) → status_of_code (status_code s) ≡ s
unfolding status_of_code status_code
status_of_code-status_code sending = refl
status_of_code-status_code sent = refl
status_of_code-status_code failed = refl
status_of_code-status_code seen = refl
status_of_code-status_code pending = refl
status_of_code-status_code accepted = refl
status_of_code-status_code declined = refl
status_of_code-status_code (other n) = refl
status_of_code-status_code (below n) = refl

select_where-snoc :
    (test : Row → Bool) (rows : List Row) (row : Row)
    → All (λ r. test r ≡ false) rows
    → test row ≡ true
    → select_where test (rows ++ row ∷ []) ≡ row ∷ []
unfolding select_where
select_where-snoc test [] row h k = rw k refl
select_where-snoc test (r ∷ rs) row h k = rw h.0 (select_where-snoc test rs row h.1 k)

same_cell-sym :
    (id : String) (v : Variant)
    → same_cell (Variant.text id) v ≡ false
    → same_cell v (Variant.text id) ≡ false
same_cell-sym id (Variant.text b) h = ==-sym id b h
same_cell-sym id invalid h = refl
same_cell-sym id (flag b) h = refl
same_cell-sym id (int z) h = refl
same_cell-sym id (real x) h = refl
same_cell-sym id (list l) h = refl
same_cell-sym id (bytes b) h = refl

-- A row that replaces others leaves none with its id.
remove_clashes-has_id :
    (id : String) (row : Row) (rows : List Row)
    → cell "id" row ≡ Variant.text id
    → All (λ r. has_id id r ≡ false) (remove_clashes row rows)
unfolding remove_clashes clashes
remove_clashes-has_id id row [] e = tt
remove_clashes-has_id id row (r ∷ rs) e = elim (Bool-cases (clashes row r)) [
  | inl c ↦ rw c (remove_clashes-has_id id row rs e)
  | inr c ↦
      let apart : same_cell (cell "id" row) (cell "id" r) ≡ false = ground (arith, c) in
      rw c (
        same_cell-sym id (cell "id" r) (ap (λ v. same_cell v (cell "id" r)) (sym e) ∙ apart),
        remove_clashes-has_id id row rs e,
      )
]

scaled : (t later : ℤ) → pos 100000000000 ≤ℤ t → saved_timestamp later t ≡ t
unfolding saved_timestamp to_millis
scaled t later h =
    let big : ltb_ℤ t (pos 100000000000) ≡ false = ground arith in
    let positive : ltb_ℤ (pos 0) t ≡ true = ground arith in rw (positive, big, positive) refl

-- The message that a later call reads of a row.
abbrev pub stored : Qt → ℤ → Message → Message
stored q now msg = record msg {
  conversation_id = conversation_key q msg.conversation_id;
  timestamp = saved_timestamp now msg.timestamp;
}

-- The columns that the values are bound to are those that they are read from.
read_row-row_of :
    (q : Qt) (now later : ℤ) (msg : Message)
    → Reads q
    → IsInt msg.duration
    → IsInt (status_code msg.status)
    → pos 100000000000 ≤ℤ saved_timestamp now msg.timestamp
    → read_row q later (row_of q now msg) ≡ stored q now msg
unfolding read_row row_of bind_columns select_columns value_at find
read_row-row_of q now later msg r duration status late = simp (
  r.texts,
  r.integers,
  r.blobs,
  r.ints msg.duration duration,
  r.ints (status_code msg.status) status,
  status_of_code-status_code msg.status,
  scaled (saved_timestamp now msg.timestamp) later late,
)

-- The only row with the id of a message that was saved is the message's.
pub select_where-saved :
    (q : Qt) (now : ℤ) (msg : Message) (rows : List Row)
    → select_where (has_id msg.id) (insert_or_replace (row_of q now msg) rows)
      ≡ row_of q now msg ∷ []
select_where-saved q now msg rows =
    let row = row_of q now msg in
    let id : cell "id" row ≡ Variant.text msg.id = unfold row_of bind_columns find in refl in
    select_where-snoc (has_id msg.id) (remove_clashes row rows) row
      (remove_clashes-has_id msg.id row rows id)
      (ap (λ v. same_cell v (Variant.text msg.id)) id ∙ eq_refl msg.id)

-- If a variant converts to the value of its own kind, then in an open database a message that was saved
-- is found by its id, with each of its fields as it was but its conversation's key for the conversation
-- and the saved timestamp for its own, if that is not below 10^11 and the duration and the number of the
-- status have 32 bits.
pub do_get_message_by_id-do_save_message :
    (q : Qt) (now later : ℤ) (msg : Message) (w : SqlMessageRepositoryWorker)
    → Reads q
    → w.is_open ≡ true
    → IsInt msg.duration
    → IsInt (status_code msg.status)
    → pos 100000000000 ≤ℤ saved_timestamp now msg.timestamp
    → do_get_message_by_id q true later msg.id (do_save_message q true now msg w).1
      ≡ some (stored q now msg)
unfolding do_save_message do_get_message_by_id
do_get_message_by_id-do_save_message q now later msg w reads o duration status late =
    rw (o, select_where-saved q now msg w.messages)
      (ap some (read_row-row_of q now later msg reads duration status late))
