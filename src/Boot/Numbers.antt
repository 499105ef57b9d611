-- ===== src/Boot/Numbers.antt =====
-- `str_to_usize` of src/main.rs. A text is the list of its bytes; the prefix is of ASCII characters,
-- so that it ends at a character.
use mini_visor.Base.{
  ℕ, ◌+◌, ◌-◌, ◌*◌, ◌^◌, ◌&&◌, Option, none, some, List, [], ◌∷◌, ◌==◌, leb, ltb, if◌then◌else◌,
}

-- `char::to_digit`, without the test of the radix: digits and letters.
unfoldable pub digit_value : ℕ → Option ℕ
digit_value c =
    if leb b'0' c && leb c b'9'
    then some (c - b'0')
    else if leb b'a' c && leb c b'z'
    then some (c - b'a' + 10)
    else if leb b'A' c && leb c b'Z'
    then some (c - b'A' + 10)
    else none

-- The loop of `usize::from_str_radix`, which stops at no digit of the radix and at an overflow.
unfoldable pub digits_from : ℕ → ℕ → List ℕ → Option ℕ
unfolding digit_value
digits_from radix n [] = some n
digits_from radix n (c ∷ cs) = elim (digit_value c) [
  | none ↦ none
  | some d ↦
      if ltb d radix && ltb (n * radix + d) (2 ^ 64)
      then digits_from radix (n * radix + d) cs
      else none
]

-- A text has a digit, and may have a plus before it.
unfoldable pub from_str_radix : ℕ → List ℕ → Option ℕ
unfolding digits_from
from_str_radix radix [] = none
from_str_radix radix (c ∷ []) = digits_from radix 0 (c ∷ [])
from_str_radix radix (c ∷ d ∷ cs) =
    if c == b'+' then digits_from radix 0 (d ∷ cs) else digits_from radix 0 (c ∷ d ∷ cs)

unfoldable pub str_to_usize : List ℕ → Option ℕ
unfolding from_str_radix
str_to_usize [] = from_str_radix 10 []
str_to_usize (c ∷ []) = from_str_radix 10 (c ∷ [])
str_to_usize (c ∷ d ∷ cs) =
    if c == b'0' && d == b'x'
    then from_str_radix 16 cs
    else if c == b'0' && d == b'o'
    then from_str_radix 8 cs
    else if c == b'0' && d == b'b'
    then from_str_radix 2 cs
    else from_str_radix 10 (c ∷ d ∷ cs)
