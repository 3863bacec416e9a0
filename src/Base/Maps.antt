-- ===== src/Base/Maps.antt =====
-- Keys with a test of equality, and the plain objects and `Map`s of JavaScript as association
-- lists in the order in which their keys were first set.
use mathlib.Core.Path.{◌≡◌, refl}
use mathlib.Core.Logic.{◌↔◌}
use mathlib.Core.Bool.{Bool, true, false}
use mathlib.Core.Option.{Option, none, some}
use mathlib.Core.List.{List, [], ◌∷◌}
use native.Mathlib.Omega.{arith}
use pairline.Base.Tests.{if◌then◌else◌}
use pairline.Base.Strings.{Text, text_eq, text_eq_iff}

pub record Eq (K : Type 0) : Type 0 where
  pub beq : K → K → Bool
  pub beq_iff : (a b : K) → (beq a b ≡ true) ↔ (a ≡ b)

instance abbrev pub text_keys : Eq Text
text_keys = record { beq = text_eq; beq_iff = text_eq_iff }

module _ {K : Type 0} ⦃e : Eq K⦄ where
  -- `xs.includes(a)`, and `has` of a `Set` that holds `xs`.
  unfoldable pub has : List K → K → Bool
  has [] a = false
  has (x ∷ xs) a = if e.beq x a then true else has xs a

  module _ {ℓ} {V : Type ℓ} where
    unfoldable pub lookup : K → List (K × V) → Option V
    lookup k [] = none
    lookup k ((j, v) ∷ m) = if e.beq j k then some v else lookup k m

    -- `m[k] = v`: in place, or behind the others.
    unfoldable pub insert : K → V → List (K × V) → List (K × V)
    insert k v [] = (k, v) ∷ []
    insert k v ((j, w) ∷ m) = if e.beq j k then (j, v) ∷ m else (j, w) ∷ insert k v m

    -- `delete m[k]`.
    unfoldable pub remove : K → List (K × V) → List (K × V)
    remove k [] = []
    remove k ((j, w) ∷ m) = if e.beq j k then remove k m else (j, w) ∷ remove k m

    pub lookup-insert :
        (k j : K) (v : V) (m : List (K × V))
        → lookup j (insert k v m) ≡ (if e.beq k j then some v else lookup j m)
    unfolding lookup insert
    lookup-insert k j v [] = refl
    lookup-insert k j v ((i, w) ∷ m) =
        ground (arith, e.beq_iff k j, e.beq_iff i k, e.beq_iff i j, lookup-insert k j v m)

    pub lookup-remove :
        (k j : K) (m : List (K × V))
        → lookup j (remove k m) ≡ (if e.beq k j then none else lookup j m)
    unfolding lookup remove
    lookup-remove k j [] = ground arith
    lookup-remove k j ((i, w) ∷ m) =
        ground (arith, e.beq_iff k j, e.beq_iff i k, e.beq_iff i j, lookup-remove k j m)
