-- ===== src/Qt/Samples.antt =====
-- A concrete `Qt` for tests: the text functions of the identity, and conversions that give a value of
-- its own kind back, and otherwise the default.
use neo_nect_desktop.Base.{ℕ, Bool, false, ℤ, pos, List, []}
use neo_nect_desktop.Base.Text.{String, ◌==◌}
use neo_nect_desktop.Qt.{Qt, Qreal, Variant, text, flag, int, real, list, bytes}

abbrev string_of : Variant → String
string_of (text s) = s
string_of _ = ""

abbrev bool_of : Variant → Bool
bool_of (flag b) = b
bool_of _ = false

abbrev int_of : Variant → ℤ
int_of (int z) = z
int_of _ = pos 0

abbrev real_of : Variant → Qreal
real_of (real r) = r
real_of _ = record { num = pos 0; den = 1 }

abbrev list_of : Variant → List ℤ
list_of (list l) = l
list_of _ = []

abbrev bytes_of : Variant → List ℕ
bytes_of (bytes b) = b
bytes_of _ = []

abbrev pub plain_qt : Qt
plain_qt = record {
  to_lower = λ s. s;
  to_upper = λ s. s;
  trimmed = λ s. s;
  same_ci = λ a b. a == b;
  number = λ z. "0";
  to_string = string_of;
  to_bool = bool_of;
  to_integer = int_of;
  to_int = int_of;
  to_real = real_of;
  to_list = list_of;
  to_bytes = bytes_of;
}
