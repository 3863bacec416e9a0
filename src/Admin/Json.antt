-- ===== src/Admin/Json.antt =====
-- The values of JSON that frontend/admin/src/types/index.ts leaves open (`Record<string, unknown>`), and
-- JavaScript's numbers as far as the panel reads and prints them.
use pairline.Base.{
  ℕ, zero, suc, ◌+◌, ◌*◌, ◌^◌, ◌-◌, Text, lit, text_eq, List, [], ◌∷◌, Option, none, some, Bool,
  true, false, ◌&&◌, leb, ltb, ◌==◌, if◌then◌else◌, trim, ◌≡◌, refl,
}
use Prim.Native.Nat.{◌/◌, ◌%◌}

-- The number (-1)^negative * digits / 10^scale.
pub record Number : Type 0 where
  pub negative : Bool
  pub digits : ℕ
  pub scale : ℕ

abbrev pub whole : ℕ → Number
whole n = record { negative = false; digits = n; scale = 0 }

-- `Math.max(1, n)`.
unfoldable pub at_least_one : Number → Number
at_least_one n = if n.negative then whole 1 else if ltb n.digits (10 ^ n.scale) then whole 1 else n

-- `n || d`: zero is falsy.
unfoldable pub or_number : Option Number → Number → Number
or_number none d = d
or_number (some n) d = if n.digits == 0 then d else n

abbrev is_digit : ℕ → Bool
is_digit c = leb b'0' c && leb c b'9'

-- The digits behind the point, with what is read already.
unfoldable read_fraction : ℕ → ℕ → Text → Option Number
read_fraction n k [] = some (record { negative = false; digits = n; scale = k })
read_fraction n k (c ∷ s) =
    let rest = read_fraction (10 * n + (c - b'0')) (suc k) s in if is_digit c then rest else none

unfoldable read_digits : ℕ → Text → Option Number
unfolding read_fraction
read_digits n [] = some (whole n)
read_digits n (c ∷ s) =
    let rest = read_digits (10 * n + (c - b'0')) s in
    if is_digit c then rest else if c == b'.' then read_fraction n 0 s else none

-- A point alone is no number.
unfoldable read_unsigned : Text → Option Number
unfolding read_digits
read_unsigned [] = none
read_unsigned (c ∷ []) = if is_digit c then some (whole (c - b'0')) else none
read_unsigned (c ∷ d ∷ s) = read_digits 0 (c ∷ d ∷ s)

unfoldable read_signed : Text → Option Number
unfolding read_unsigned
read_signed [] = some (whole 0)
read_signed (c ∷ s) =
    if c == b'-'
    then elim (read_unsigned s) [ none ↦ none | some n ↦ some (record n { negative = true }) ]
    else if c == b'+'
    then read_unsigned s
    else read_unsigned (c ∷ s)

-- `Number(s)`: NaN is `none`. Exponents, other bases and `Infinity` are not read.
unfoldable pub to_number : Text → Option Number
unfolding read_signed
to_number s = read_signed (trim s)

-- The decimal digits of `n`, in front of `s`; `n + 1` steps are enough.
unfoldable digits_before : ℕ → ℕ → Text → Text
digits_before zero n s = s
digits_before (suc f) n s = elim (n / 10) [
  | zero ↦ (b'0' + n % 10) ∷ s
  | suc m ↦ digits_before f (suc m) ((b'0' + n % 10) ∷ s)
]

-- `k` digits of `n`, with leading zeros, in front of `s`.
unfoldable padded : ℕ → ℕ → Text → Text
padded zero n s = s
padded (suc k) n s = padded k (n / 10) ((b'0' + n % 10) ∷ s)

-- `String(n)`, of a number whose last digit behind the point is not zero. Exponents are not written.
unfoldable pub print : Number → Text
unfolding digits_before padded
print n =
    let above = n.digits / (10 ^ n.scale) in
    let fraction =
      if n.scale == 0 then [] else b'.' ∷ padded n.scale (n.digits % (10 ^ n.scale)) [] in
    let absolute = digits_before (suc above) above fraction in
    if n.negative then b'-' ∷ absolute else absolute

mutual
  pub data Json : Type 0 where
    null : Json
    boolean : Bool → Json
    number : Number → Json
    string : Text → Json
    array : Items → Json
    object : Fields → Json

  pub data Items : Type 0 where
    end : Items
    item : Json → Items → Items

  pub data Fields : Type 0 where
    no_fields : Fields
    field : Text → Json → Fields → Fields

-- `o[key]`: a key that is missing is `none`.
unfoldable pub get_field : Text → Fields → Option Json
get_field key no_fields = none
get_field key (field k v fs) = if text_eq k key then some v else get_field key fs

-- The elements that are strings.
unfoldable pub strings_of : Items → List Text
strings_of end = []
strings_of (item (string s) rest) = s ∷ strings_of rest
strings_of (item v rest) = strings_of rest

print_test : print (record { negative = false; digits = 705; scale = 2 }) ≡ lit "7.05"
unfolding print
print_test = refl

to_number_test :
    to_number (lit " 7.05 ") ≡ some (record { negative = false; digits = 705; scale = 2 })
unfolding to_number trim
to_number_test = refl
