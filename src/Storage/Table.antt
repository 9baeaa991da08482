-- ===== src/Storage/Table.antt =====
-- The table of messages, as the statements of src/storage/sqlmessagerepository.cpp see it: a row is the
-- list of its columns, and the values of a column are of the kind it is declared with.
use neo_nect_desktop.Base.{
  ℕ, zero, suc, Bool, false, ◌||◌, ◌&&◌, List, [], ◌∷◌, ◌++◌, Option, none, some, ℤ, pos, ltb_ℤ,
  eqb_ℤ, if◌then◌else◌,
}
use neo_nect_desktop.Base.Hash.{Hash, find, adjust}
use neo_nect_desktop.Base.Text
use neo_nect_desktop.Base.Text.{String}
use neo_nect_desktop.Qt.{Variant, invalid, text, int}

abbrev pub Row : Type 0
Row = Hash Variant

abbrev cell_or_invalid : Option Variant → Variant
cell_or_invalid none = invalid
cell_or_invalid (some v) = v

-- The value of a column.
abbrev pub cell : String → Row → Variant
cell name row = cell_or_invalid (find name row)

-- (columns) VALUES (?, …, ?): the first bound value for the first column, and so on.
unfoldable pub bind_columns : List String → List Variant → Row
bind_columns [] vs = []
bind_columns (name ∷ names) [] = []
bind_columns (name ∷ names) (v ∷ vs) = (name, v) ∷ bind_columns names vs

-- SELECT columns: the values in that order.
unfoldable pub select_columns : List String → Row → List Variant
select_columns [] row = []
select_columns (name ∷ names) row = cell name row ∷ select_columns names row

-- query.value(i)
unfoldable pub value_at : ℕ → List Variant → Variant
value_at i [] = invalid
value_at zero (v ∷ vs) = v
value_at (suc i) (v ∷ vs) = value_at i vs

-- a = b of SQL, on values of one kind, and the value of a column of texts or of integers.
abbrev pub same_cell : Variant → Variant → Bool
same_cell (text a) (text b) = Text.◌==◌ a b
same_cell (int a) (int b) = eqb_ℤ a b
same_cell _ _ = false

abbrev pub text_cell : Variant → String
text_cell (text s) = s
text_cell _ = ""

abbrev pub integer_cell : Variant → ℤ
integer_cell (int z) = z
integer_cell _ = pos 0

-- SET name = ?
abbrev pub set_cell : String → Variant → Row → Row
set_cell name v = adjust name (λ old. v)

-- Two rows that the keys of the table do not let stand together: of one id, or of one server id above 0.
unfoldable pub clashes : Row → Row → Bool
clashes a b =
    same_cell (cell "id" a) (cell "id" b)
    || (ltb_ℤ (pos 0) (integer_cell (cell "server_id" a))
        && same_cell (cell "server_id" a) (cell "server_id" b))

-- INSERT OR REPLACE: the rows that clash with the new one are deleted.
unfoldable pub remove_clashes : Row → List Row → List Row
remove_clashes row [] = []
remove_clashes row (r ∷ rs) =
    let rest = remove_clashes row rs in if clashes row r then rest else r ∷ rest

abbrev pub insert_or_replace : Row → List Row → List Row
insert_or_replace row rows = remove_clashes row rows ++ row ∷ []

-- UPDATE messages SET … WHERE …
unfoldable pub update_where : (Row → Bool) → (Row → Row) → List Row → List Row
update_where test f [] = []
update_where test f (r ∷ rs) = (if test r then f r else r) ∷ update_where test f rs

-- SELECT … WHERE …, and the rows that a DELETE leaves.
unfoldable pub select_where : (Row → Bool) → List Row → List Row
select_where test [] = []
select_where test (r ∷ rs) = let rest = select_where test rs in if test r then r ∷ rest else rest

-- WHERE id = ?
abbrev pub has_id : String → Row → Bool
has_id id r = same_cell (cell "id" r) (text id)

-- CASE WHEN timestamp < 100000000000 THEN timestamp * 1000 ELSE timestamp END
abbrev pub timestamp_cell : Row → ℤ
timestamp_cell r = integer_cell (cell "timestamp" r)
