-- ===== src/Base/Json.antt =====
-- Values of QJsonDocument, with whole numbers.
use mathlib.Core.Bool.{Bool, true, false}
use mathlib.Core.List.{List, [], ◌∷◌}
use mathlib.Core.Option.{Option, none, some}
use neo_nect_desktop.Base.Tests.{if◌then◌else◌}
use neo_nect_desktop.Base.Int.{ℤ, pos}
use neo_nect_desktop.Base.Text.{String, ◌==◌}

mutual
  pub data Json : Type 0 where
    undefined : Json
    flag : Bool → Json
    number : ℤ → Json
    text : String → Json
    array : Values → Json
    object : Members → Json

  pub data Values : Type 0 where
    no_values : Values
    value_and : Json → Values → Values

  pub data Members : Type 0 where
    no_members : Members
    member_and : String → Json → Members → Members

-- object.value(key)
unfoldable pub member : String → Members → Json
member key no_members = undefined
member key (member_and k v rest) = if k == key then v else member key rest

-- object.contains(key)
unfoldable pub has_member : String → Members → Bool
has_member key no_members = false
has_member key (member_and k v rest) = if k == key then true else has_member key rest

-- toString() and toInteger()
abbrev pub text_of : Json → String
text_of (text s) = s
text_of _ = ""

abbrev pub integer_of : Json → ℤ
integer_of (number z) = z
integer_of _ = pos 0

-- toArray() and toObject(), where they are of that kind
abbrev pub values_of : Json → Option Values
values_of (array vs) = some vs
values_of _ = none

abbrev pub members_of : Json → Option Members
members_of (object m) = some m
members_of _ = none

-- An array of whole numbers, and the numbers of one.
unfoldable pub of_integers : List ℤ → Values
of_integers [] = no_values
of_integers (z ∷ zs) = value_and (number z) (of_integers zs)

unfoldable pub integers_of : Values → List ℤ
integers_of no_values = []
integers_of (value_and v vs) = integer_of v ∷ integers_of vs

-- object.remove(key), and object[key] = v
unfoldable pub remove_member : String → Members → Members
remove_member key no_members = no_members
remove_member key (member_and k v rest) =
    let others = remove_member key rest in if k == key then others else member_and k v others

abbrev pub set_member : String → Json → Members → Members
set_member key v m = member_and key v (remove_member key m)
