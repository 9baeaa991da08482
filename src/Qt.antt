-- ===== src/Qt.antt =====
-- What the program uses of Qt's text functions and variants, which are not part of the repository.
-- `Qt` is a parameter of the modules that need it, and its documented laws are named hypotheses.
pub mod Samples
use neo_nect_desktop.Base.{ℕ, Bool, true, ◌≡◌, ℤ, List, [], ◌∷◌, Option, none, some, if◌then◌else◌}
use neo_nect_desktop.Base.Text.{String, ◌==◌}

-- A qreal, by the fraction that it stands for.
pub record Qreal : Type 0 where
  pub num : ℤ
  pub den : ℕ

-- A QVariant of the kinds that the program stores, and an invalid one.
pub data Variant : Type 0 where
  invalid : Variant
  text : String → Variant
  flag : Bool → Variant
  int : ℤ → Variant
  real : Qreal → Variant
  list : List ℤ → Variant
  bytes : List ℕ → Variant

-- A QVariantMap.
abbrev pub VariantMap : Type 0
VariantMap = List (String × Variant)

-- map.value(key, missing)
unfoldable pub value_or : Variant → String → VariantMap → Variant
value_or missing key [] = missing
value_or missing key ((k, v) ∷ map) = if k == key then v else value_or missing key map

-- map.value(key)
abbrev pub value : String → VariantMap → Variant
value = value_or invalid

-- map.contains(key)
unfoldable pub contains : String → VariantMap → Bool
contains key [] = Bool.false
contains key ((k, v) ∷ map) = if k == key then true else contains key map

pub record Qt : Type 0 where
  -- QString::toLower, toUpper and trimmed
  pub to_lower : String → String
  pub to_upper : String → String
  pub trimmed : String → String
  -- a.compare(b, Qt::CaseInsensitive) == 0
  pub same_ci : String → String → Bool
  -- QString::number and arg of an integer
  pub number : ℤ → String
  -- QVariant::toString, toBool, toLongLong, toInt, toReal, toList and toByteArray
  pub to_string : Variant → String
  pub to_bool : Variant → Bool
  pub to_integer : Variant → ℤ
  pub to_int : Variant → ℤ
  pub to_real : Variant → Qreal
  pub to_list : Variant → List ℤ
  pub to_bytes : Variant → List ℕ
