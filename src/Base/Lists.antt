-- ===== src/Base/Lists.antt =====
-- Lists measured by native numbers, and the array methods that the program uses:
-- `filter`, `some`, `every`, `slice(-n)`.
use Prim.Native.Nat.{ℕ, zero, suc, ◌+◌, ◌-◌, ◌≤◌}
use mathlib.Core.Path.{◌≡◌, refl, sym, ap, ◌∙◌}
use mathlib.Core.Logic.{◌↔◌, ◌⊎◌, inl, inr}
use mathlib.Core.Bool.{Bool, true, false, ◌||◌}
use mathlib.Core.List.{List, [], ◌∷◌, ◌++◌}
use native.Mathlib.Omega.{arith}
use pairline.Base.Tests.{Bool-cases, if◌then◌else◌}

module _ {ℓ} {A : Type ℓ} where
  abbrev pub length : List A → ℕ
  length [] = 0
  length (x ∷ xs) = suc (length xs)

  abbrev pub drop : ℕ → List A → List A
  drop zero xs = xs
  drop (suc n) [] = []
  drop (suc n) (x ∷ xs) = drop n xs

  abbrev pub take : ℕ → List A → List A
  take zero xs = []
  take (suc n) [] = []
  take (suc n) (x ∷ xs) = x ∷ take n xs

  -- `xs.filter(p)`.
  abbrev pub keep : (A → Bool) → List A → List A
  keep p [] = []
  keep p (x ∷ xs) = if p x then x ∷ keep p xs else keep p xs

  -- `xs.some(p)`.
  abbrev pub any : (A → Bool) → List A → Bool
  any p [] = false
  any p (x ∷ xs) = p x || any p xs

  abbrev pub is_empty : List A → Bool
  is_empty [] = true
  is_empty (x ∷ xs) = false

  -- `xs.slice(-n)`: the last `n` elements.
  abbrev pub last_n : ℕ → List A → List A
  last_n n xs = drop (length xs - n) xs

  pub length-append : (xs ys : List A) → length (xs ++ ys) ≡ length xs + length ys
  length-append [] ys = omega arith
  length-append (x ∷ xs) ys = omega (arith, length-append xs ys)

  pub length-drop : (n : ℕ) (xs : List A) → length (drop n xs) ≡ length xs - n
  length-drop zero xs = omega arith
  length-drop (suc n) [] = omega arith
  length-drop (suc n) (x ∷ xs) = omega (arith, length-drop n xs)

  pub length-keep : (p : A → Bool) (xs : List A) → length (keep p xs) ≤ length xs
  length-keep p [] = omega arith
  length-keep p (x ∷ xs) = ground (arith, length-keep p xs)

  pub keep-append : (p : A → Bool) (xs ys : List A) → keep p (xs ++ ys) ≡ keep p xs ++ keep p ys
  keep-append p [] ys = refl
  keep-append p (x ∷ xs) ys = ground (arith, keep-append p xs ys)

-- Membership, and a property of all the elements, by recursion: they compute to sums and tuples.
abbrev pub In : {A : Type 0} → A → List A → Type 0
In a [] = ⊥
In a (x ∷ xs) = (a ≡ x) ⊎ In a xs

abbrev pub All {ℓ κ} : {A : Type ℓ} → (A → Type κ) → List A → Type κ
All P [] = Unit
All P (x ∷ xs) = P x × All P xs

-- No element occurs twice.
abbrev pub Distinct : {A : Type 0} → List A → Type 0
Distinct [] = Unit
Distinct (x ∷ xs) = ¬ In x xs × Distinct xs

module _ {A : Type 0} (p : A → Bool) where
  pub any_sound : (xs : List A) → any p xs ≡ true → (x : A) × In x xs × (p x ≡ true)
  any_sound [] h = cc
  any_sound (x ∷ xs) h = elim (Bool-cases (p x)) [
    | inl here ↦ (x, inl refl, here)
    | inr there ↦ let (y, i, e) = any_sound xs (ground arith) in (y, inr i, e)
  ]

  pub any_complete : (xs : List A) (x : A) → In x xs → p x ≡ true → any p xs ≡ true
  any_complete [] x i h = elim i [ ]
  any_complete (y ∷ xs) x (inl e) h = ground arith
  any_complete (y ∷ xs) x (inr i) h = ground (arith, any_complete xs x i h)

  -- Lists with the same elements pass the same `some` test.
  pub any_congr : (xs ys : List A) → ((x : A) → In x xs ↔ In x ys) → any p xs ≡ any p ys
  any_congr xs ys same = elim (Bool-cases (any p xs)) [
    | inl h ↦ let (x, i, e) = any_sound xs h in h ∙ sym (any_complete ys x ((same x).0 i) e)
    | inr h ↦ elim (Bool-cases (any p ys)) [
      | inl k ↦ let (x, i, e) = any_sound ys k in any_complete xs x ((same x).1 i) e ∙ sym k
      | inr k ↦ h ∙ sym k
    ]
  ]

  pub in-keep : (xs : List A) (x : A) → In x (keep p xs) ↔ (In x xs × (p x ≡ true))
  in-keep [] x = (λ i. elim i [ ], λ h. elim h.0 [ ])
  in-keep (y ∷ xs) x = ground (arith, in-keep xs x)

pub in-append : {A : Type 0} (xs ys : List A) (x : A) → In x (xs ++ ys) ↔ (In x xs ⊎ In x ys)
in-append [] ys x = (λ i. inr i, λ h. elim h [ inl i ↦ elim i [ ] | inr i ↦ i ])
in-append (y ∷ xs) ys x = ground (arith, in-append xs ys x)

module _ {A : Type 0} (p : A → Bool) where
  pub keep_id : (xs : List A) → ((x : A) → In x xs → p x ≡ true) → keep p xs ≡ xs
  keep_id [] h = refl
  keep_id (x ∷ xs) h =
      rw (h x (inl refl)) (ap (λ (ys : List A). x ∷ ys) (keep_id xs (λ y i. h y (inr i))))

  pub keep_none : (xs : List A) → ((x : A) → In x xs → p x ≡ false) → keep p xs ≡ []
  keep_none [] h = refl
  keep_none (x ∷ xs) h = rw (h x (inl refl)) (keep_none xs (λ y i. h y (inr i)))

  pub Distinct-keep : (xs : List A) → Distinct xs → Distinct (keep p xs)
  Distinct-keep [] d = tt
  Distinct-keep (x ∷ xs) d = elim (Bool-cases (p x)) [
    | inl h ↦ rw h (λ i. d.0 ((in-keep p xs x).0 i).0, Distinct-keep xs d.1)
    | inr h ↦ rw h (Distinct-keep xs d.1)
  ]

pub Distinct-append :
    {A : Type 0} (xs ys : List A)
    → Distinct xs
    → Distinct ys
    → ((x : A) → In x xs → ¬ In x ys)
    → Distinct (xs ++ ys)
Distinct-append [] ys d e apart = e
Distinct-append (x ∷ xs) ys d e apart = (
  λ i. elim ((in-append xs ys x).0 i) [ inl j ↦ d.0 j | inr j ↦ apart x (inl refl) j ],
  Distinct-append xs ys d.1 e (λ y i. apart y (inr i)),
)

pub All-of_in {κ} :
    {A : Type 0} (P : A → Type κ) (xs : List A) → ((x : A) → In x xs → P x) → All P xs
All-of_in P [] h = tt
All-of_in P (x ∷ xs) h = (h x (inl refl), All-of_in P xs (λ y i. h y (inr i)))
