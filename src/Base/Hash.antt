-- ===== src/Base/Hash.antt =====
-- A QHash with texts for keys, as the list of its entries.
use mathlib.Core.Path.{◌≡◌, refl}
use mathlib.Core.Bool.{Bool, true, false}
use mathlib.Core.Option
use mathlib.Core.Option.{Option, none, some}
use mathlib.Core.List.{List, [], ◌∷◌}
use native.Mathlib.Omega.{arith}
use neo_nect_desktop.Base.Tests.{if◌then◌else◌}
use neo_nect_desktop.Base.Text.{String, ◌==◌, eq_iff, eq_refl}

abbrev pub Hash {ℓ} : Type ℓ → Type ℓ
Hash V = List (String × V)

module _ {ℓ} {V : Type ℓ} where
  -- value(key) of a key that is there, as take(key) gives it
  unfoldable pub find : String → Hash V → Option V
  find key [] = none
  find key ((k, v) ∷ rest) = if k == key then some v else find key rest

  -- contains(key)
  unfoldable pub has_key : String → Hash V → Bool
  has_key key [] = false
  has_key key ((k, v) ∷ rest) = if k == key then true else has_key key rest

  -- remove(key)
  unfoldable pub remove : String → Hash V → Hash V
  remove key [] = []
  remove key ((k, v) ∷ rest) =
      let others = remove key rest in if k == key then others else (k, v) ∷ others

  -- insert(key, v)
  abbrev pub insert : String → V → Hash V → Hash V
  insert key v h = (key, v) ∷ remove key h

  -- An assignment through operator[] to the value of a key that is there.
  unfoldable pub adjust : String → (V → V) → Hash V → Hash V
  adjust key f [] = []
  adjust key f ((k, v) ∷ rest) = if k == key then (k, f v) ∷ rest else (k, v) ∷ adjust key f rest

  pub find-remove :
      (a b : String) (h : Hash V) → find b (remove a h) ≡ (if a == b then none else find b h)
  unfolding find remove
  find-remove a b [] = ground arith
  find-remove a b ((k, v) ∷ rest) =
      ground (arith, find-remove a b rest, eq_iff k a, eq_iff k b, eq_iff a b)

  pub find-insert : (a : String) (v : V) (h : Hash V) → find a (insert a v h) ≡ some v
  unfolding find
  find-insert a v h = ground (arith, eq_refl a)

  pub find-past :
      (a b : String) (v : V) (h : Hash V) → (a == b) ≡ false → find b (insert a v h) ≡ find b h
  unfolding find
  find-past a b v h e = ground (arith, e, find-remove a b h)

  pub find-adjust :
      (a b : String) (f : V → V) (h : Hash V)
      → find b (adjust a f h) ≡ (if a == b then Option.map f (find b h) else find b h)
  unfolding find adjust
  find-adjust a b f [] = ground arith
  find-adjust a b f ((k, v) ∷ rest) =
      ground (arith, find-adjust a b f rest, eq_iff k a, eq_iff k b, eq_iff a b)

  pub has_key-find : (a : String) (h : Hash V) → find a h ≡ none → has_key a h ≡ false
  unfolding find has_key
  has_key-find a [] e = refl
  has_key-find a ((k, v) ∷ rest) e = ground (arith, has_key-find a rest, e)

  pub find-removed : (a : String) (h : Hash V) → find a (remove a h) ≡ none
  find-removed a h = ground (arith, find-remove a a h, eq_refl a)
