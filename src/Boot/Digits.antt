-- ===== src/Boot/Digits.antt =====
-- Numbers in digits, as `str_to_usize` of src/main.rs reads them.
use mini_visor.Base.{
  ℕ, ◌+◌, ◌-◌, ◌*◌, ◌^◌, ◌<◌, ◌≤◌, ◌≡◌, refl, ◌∙◌, none, some, List, [], ◌∷◌, ◌++◌, map, ◌==◌, ltb,
  ◌&&◌, true, false, if◌then◌else◌, arith, Bool-cases, inl, inr,
}
use native.Mathlib.Nat.{le-mul_of_pos_right}
use mini_visor.Boot.Numbers.{digit_value, digits_from, str_to_usize, from_str_radix}

-- The digit as a character, small letters from 10 on.
abbrev pub character : ℕ → ℕ
character d = if ltb d 10 then b'0' + d else b'a' + (d - 10)

-- The number that the digits mean, the highest first.
abbrev pub value_from : ℕ → ℕ → List ℕ → ℕ
value_from radix n [] = n
value_from radix n (d ∷ ds) = value_from radix (n * radix + d) ds

abbrev pub AreDigits : ℕ → List ℕ → Type 0
AreDigits radix [] = Unit
AreDigits radix (d ∷ ds) = (d < radix) × AreDigits radix ds

digit_value-character : (d : ℕ) → d < 36 → digit_value (character d) ≡ some d
unfolding digit_value
digit_value-character d lt = ground arith

value_from-le : (radix n : ℕ) (ds : List ℕ) → 0 < radix → n ≤ value_from radix n ds
value_from-le radix n [] pos = omega arith
value_from-le radix n (d ∷ ds) pos =
    omega (arith, le-mul_of_pos_right n pos, value_from-le radix (n * radix + d) ds pos)

digits_from-character :
    (radix n : ℕ) (ds : List ℕ)
    → 0 < radix
    → radix ≤ 36
    → n < 2 ^ 64
    → AreDigits radix ds
    → digits_from radix n (map character ds)
      ≡ (if ltb (value_from radix n ds) (2 ^ 64) then some (value_from radix n ds) else none)
unfolding digits_from
digits_from-character radix n [] pos le fits are = ground arith
digits_from-character radix n (d ∷ ds) pos le fits are =
    elim (Bool-cases (ltb (n * radix + d) (2 ^ 64))) [
      | inl small ↦
          let next : (ltb d radix && ltb (n * radix + d) (2 ^ 64)) ≡ true = ground arith in
          rw (digit_value-character d (omega arith), next, digits_from)
            (digits_from-character radix (n * radix + d) ds pos le (ground arith) are.1)
      | inr large ↦
          let next : (ltb d radix && ltb (n * radix + d) (2 ^ 64)) ≡ false = ground arith in
          let beyond : ltb (value_from radix (n * radix + d) ds) (2 ^ 64) ≡ false =
            ground (arith, value_from-le radix (n * radix + d) ds pos) in
          rw (digit_value-character d (omega arith), next, beyond, digits_from) refl
    ]

from_str_radix-character :
    (radix d : ℕ) (ds : List ℕ)
    → radix ≤ 36
    → d < radix
    → from_str_radix radix (map character (d ∷ ds)) ≡ digits_from radix 0 (map character (d ∷ ds))
unfolding from_str_radix
from_str_radix-character radix d [] le lt = refl
from_str_radix-character radix d (e ∷ ds) le lt =
    let no_plus : (character d == b'+') ≡ false = ground arith in rw (no_plus, from_str_radix) refl

pub data Notation : Type 0 where
  hexadecimal : Notation
  octal : Notation
  binary : Notation
  decimal : Notation

abbrev pub radix_of : Notation → ℕ
radix_of hexadecimal = 16
radix_of octal = 8
radix_of binary = 2
radix_of decimal = 10

abbrev pub prefix_of : Notation → List ℕ
prefix_of hexadecimal = b'0' ∷ b'x' ∷ []
prefix_of octal = b'0' ∷ b'o' ∷ []
prefix_of binary = b'0' ∷ b'b' ∷ []
prefix_of decimal = []

-- Behind its prefix.
str_to_usize-prefix :
    (kind : Notation) (d : ℕ) (ds : List ℕ)
    → AreDigits (radix_of kind) (d ∷ ds)
    → str_to_usize (prefix_of kind ++ map character (d ∷ ds))
      ≡ from_str_radix (radix_of kind) (map character (d ∷ ds))
unfolding str_to_usize
str_to_usize-prefix hexadecimal d ds are = refl
str_to_usize-prefix octal d ds are = refl
str_to_usize-prefix binary d ds are = refl
str_to_usize-prefix decimal d [] are = refl
str_to_usize-prefix decimal d (e ∷ ds) are =
    let no_x : (character e == b'x') ≡ false = ground arith in
    let no_o : (character e == b'o') ≡ false = ground arith in
    let no_b : (character e == b'b') ≡ false = ground arith in
    elim (Bool-cases (character d == b'0')) [
      | inl zeroth ↦ rw (zeroth, no_x, no_o, no_b, str_to_usize) refl
      | inr other ↦ rw (other, str_to_usize) refl
    ]

radix_of-bounds : (kind : Notation) → (0 < radix_of kind) × (radix_of kind ≤ 36)
radix_of-bounds hexadecimal = (omega arith, omega arith)
radix_of-bounds octal = (omega arith, omega arith)
radix_of-bounds binary = (omega arith, omega arith)
radix_of-bounds decimal = (omega arith, omega arith)

-- A hexadecimal, octal or binary number with its prefix and a decimal number without one are read
-- as what their digits mean if that is below 2 ^ 64, and as no number otherwise. There is at
-- least one digit, and letters are small.
pub str_to_usize_lem :
    (kind : Notation) (d : ℕ) (ds : List ℕ)
    → AreDigits (radix_of kind) (d ∷ ds)
    → str_to_usize (prefix_of kind ++ map character (d ∷ ds)) ≡ (
        if ltb (value_from (radix_of kind) 0 (d ∷ ds)) (2 ^ 64)
        then some (value_from (radix_of kind) 0 (d ∷ ds))
        else none)
str_to_usize_lem kind d ds are =
    let radix : (0 < radix_of kind) × (radix_of kind ≤ 36) = radix_of-bounds kind in
    str_to_usize-prefix kind d ds are
    ∙ from_str_radix-character (radix_of kind) d ds radix.1 are.0
    ∙ digits_from-character (radix_of kind) 0 (d ∷ ds) radix.0 radix.1 (omega arith) are
