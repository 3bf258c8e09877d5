-- ===== src/Safety/Digits.antt =====
-- The integer parsing that safety.py takes from Python: `str.isdecimal` and `int`.
use Prim.Native.Char.{code}
use mathlib.Core.Option
use x402_conformance.Prelude.{
  ℕ, ◌+◌, ◌-◌, ◌*◌, String, Bool, true, false, Option, none, some, ◌==◌, nat_eq, leb, ◌&&◌, not,
  ◌≡◌, is_none, if◌then◌else◌, is_blank, is_space, ltb,
}
use x402_conformance.Prelude.Int.{ℤ, sub_ℕ}

-- The decimal value of a code point in the Unicode database that Python carries, if it has one.
abbrev pub Unicode : Type 0
Unicode = ℕ → Option ℕ

-- What the models rely on: the ASCII digits have their values.
pub record HasAscii (unicode : Unicode) : Type 0 where
  pub at : (d : ℕ) → leb d 9 ≡ true → unicode (48 + d) ≡ some d

abbrev pub ascii : Unicode
ascii c = if leb 48 c && leb c 57 then some (c - 48) else none

-- s.partition(":"): what stands before the first colon, and behind it if there is one
unfoldable pub partition_colon : String → String × Option String
partition_colon String.[] = ("", none)
partition_colon (String.◌∷◌ c s) =
    let (before, behind) = partition_colon s in
    if code c == b':' then ("", some s) else (String.◌∷◌ c before, behind)

-- The digits that Python's `int` reads from a text at most, by default.
abbrev pub max_str_digits : ℕ
max_str_digits = 4300

module _ (unicode : Unicode) where
  all_digits : String → Bool
  all_digits String.[] = true
  all_digits (String.◌∷◌ c s) = not (is_none (unicode (code c))) && all_digits s

  -- s.isdecimal()
  unfoldable pub is_decimal : String → Bool
  unfolding all_digits
  is_decimal String.[] = false
  is_decimal (String.◌∷◌ c s) = all_digits (String.◌∷◌ c s)

  abbrev value_of : Option ℕ → ℕ
  value_of none = 0
  value_of (some d) = d

  int_from : ℕ → String → ℕ
  int_from acc String.[] = acc
  int_from acc (String.◌∷◌ c s) = int_from (acc * 10 + value_of (unicode (code c))) s

  -- int(s), for a text with s.isdecimal()
  unfoldable pub int_of : String → ℕ
  unfolding int_from
  int_of s = int_from 0 s

  -- The value of a digit to base 16.
  hex_digit : ℕ → Option ℕ
  hex_digit c =
      if leb b'a' c && leb c b'f'
      then some (c - 87)
      else if leb b'A' c && leb c b'F'
      then some (c - 55)
      else unicode c

  -- The digits of `int(s, base)` behind sign and prefix. One underscore may stand between two
  -- digits, or before the first one behind `0x`, and white space at the end.
  digits_from : (ℕ → Option ℕ) → ℕ → ℕ → Bool → Bool → String → Option ℕ
  digits_from digit base acc digit_last underscore_ok String.[] =
      if digit_last then some acc else none
  digits_from digit base acc digit_last underscore_ok (String.◌∷◌ c s) = elim (digit (code c)) [
    | some d ↦ digits_from digit base (acc * base + d) true true s
    | none ↦
        if code c == b'_' && underscore_ok
        then digits_from digit base acc false false s
        else if digit_last && is_blank (String.◌∷◌ c s)
        then some acc
        else none
  ]

  -- int(s, 16) for a text that starts with `0x`; `none` is the ValueError
  unfoldable pub int_base16 : String → Option ℕ
  unfolding hex_digit digits_from
  int_base16 (String.◌∷◌ zero_digit (String.◌∷◌ x s)) = digits_from hex_digit 16 0 false true s
  int_base16 _ = none

  count_digits : String → ℕ
  count_digits String.[] = 0
  count_digits (String.◌∷◌ c s) = (if is_none (unicode (code c)) then 0 else 1) + count_digits s

  unsigned : String → Option ℕ
  unfolding digits_from
  unsigned s = digits_from unicode 10 0 false false s

  signed : String → Option ℤ
  unfolding unsigned
  signed String.[] = none
  signed (String.◌∷◌ c s) =
      if code c == b'-'
      then Option.map (sub_ℕ 0) (unsigned s)
      else if code c == b'+'
      then Option.map ℤ.pos (unsigned s)
      else Option.map ℤ.pos (unsigned (String.◌∷◌ c s))

  strip_left : String → String
  strip_left String.[] = String.[]
  strip_left (String.◌∷◌ c s) =
      let rest = strip_left s in if is_space (code c) then rest else String.◌∷◌ c s

  -- int(s); `none` is the ValueError
  unfoldable pub int_text : String → Option ℤ
  unfolding signed strip_left count_digits
  int_text s = if ltb max_str_digits (count_digits s) then none else signed (strip_left s)
