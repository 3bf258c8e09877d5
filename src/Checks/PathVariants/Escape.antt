-- ===== src/Checks/PathVariants/Escape.antt =====
-- checks/path_variants.py: the percent-encoding of the last unreserved character.
use Prim.Native.Char.{Char, code}
use Prim.Native.String.{[], ◌∷◌}
use x402_conformance.Prelude.{
  ℕ, suc, zero, ◌+◌, ◌-◌, ◌*◌, ◌/◌, ◌%◌, ◌<◌, String, true, Option, none, some, ◌≡◌, ◌↔◌, ◌⊎◌, ◌≢◌,
  subst, arith, leb, ◌&&◌, ◌==◌, nat_eq, if◌then◌else◌, not, is_none, Option-cases, Bool-cases, inl,
  inr, refl, ap, ◌∙◌, sym,
}
use x402_conformance.Checks.PathVariants.Paths.{is_alnum}
use mathlib.Core.List.{List}

-- A digit of `f"{n:X}"`, for n below 16.
abbrev pub hex_digit : ℕ → Char
hex_digit zero = "0"
hex_digit (suc zero) = "1"
hex_digit (suc (suc zero)) = "2"
hex_digit (suc (suc (suc zero))) = "3"
hex_digit (suc (suc (suc (suc zero)))) = "4"
hex_digit (suc (suc (suc (suc (suc zero))))) = "5"
hex_digit (suc (suc (suc (suc (suc (suc zero)))))) = "6"
hex_digit (suc (suc (suc (suc (suc (suc (suc zero))))))) = "7"
hex_digit (suc (suc (suc (suc (suc (suc (suc (suc zero)))))))) = "8"
hex_digit (suc (suc (suc (suc (suc (suc (suc (suc (suc zero))))))))) = "9"
hex_digit (suc (suc (suc (suc (suc (suc (suc (suc (suc (suc zero)))))))))) = "A"
hex_digit (suc (suc (suc (suc (suc (suc (suc (suc (suc (suc (suc zero))))))))))) = "B"
hex_digit (suc (suc (suc (suc (suc (suc (suc (suc (suc (suc (suc (suc zero)))))))))))) = "C"
hex_digit (suc (suc (suc (suc (suc (suc (suc (suc (suc (suc (suc (suc (suc zero))))))))))))) = "D"
hex_digit (suc (suc (suc (suc (suc (suc (suc (suc (suc (suc (suc (suc (suc (suc zero)))))))))))))) =
    "E"
hex_digit _ = "F"

-- A character below 128 has two digits.
unfoldable pub encode_last_unreserved : String → Option String
encode_last_unreserved [] = none
encode_last_unreserved (c ∷ s) = elim (encode_last_unreserved s) [
  | some t ↦ some (c ∷ t)
  | none ↦
      if is_alnum (code c)
      then some ("%" ∷ hex_digit (code c / 16) ∷ hex_digit (code c % 16) ∷ s)
      else none
]

-- The code points of a text.
abbrev pub codes : String → List ℕ
codes [] = List.[]
codes (c ∷ s) = List.◌∷◌ (code c) (codes s)

-- The value of a hexadecimal digit in an escape.
unfoldable pub hex_value : ℕ → Option ℕ
hex_value c =
    if leb 48 c && leb c 57
    then some (c - 48)
    else if leb 65 c && leb c 70
    then some (c - 55)
    else if leb 97 c && leb c 102
    then some (c - 87)
    else none

abbrev pub value_or_zero : Option ℕ → ℕ
value_or_zero none = 0
value_or_zero (some n) = n

-- The decoding of RFC 3986, section 2.1: an escape is a percent sign with two hexadecimal digits.
unfoldable pub percent_decode : String → List ℕ
unfolding hex_value
percent_decode [] = List.[]
percent_decode (c ∷ []) = List.◌∷◌ (code c) List.[]
percent_decode (c ∷ d ∷ []) = List.◌∷◌ (code c) (List.◌∷◌ (code d) List.[])
percent_decode (c ∷ d ∷ e ∷ s) =
    let plain = percent_decode (d ∷ e ∷ s) in
    let behind = percent_decode s in
    let high = hex_value (code d) in
    let low = hex_value (code e) in
    if code c == b'%' && not (is_none high) && not (is_none low)
    then List.◌∷◌ (16 * value_or_zero high + value_or_zero low) behind
    else List.◌∷◌ (code c) plain

abbrev pub NoPercent : String → Type 0
NoPercent [] = Unit
NoPercent (c ∷ s) = (code c ≡ b'%' → ⊥) × NoPercent s

abbrev pub HasUnreserved : String → Type 0
HasUnreserved [] = ⊥
HasUnreserved (c ∷ s) = (is_alnum (code c) ≡ true) ⊎ HasUnreserved s

hex_value-hex_digit : (n : ℕ) → n < 16 → hex_value (code (hex_digit n)) ≡ some n
unfolding hex_value
hex_value-hex_digit zero h = refl
hex_value-hex_digit (suc zero) h = refl
hex_value-hex_digit (suc (suc zero)) h = refl
hex_value-hex_digit (suc (suc (suc zero))) h = refl
hex_value-hex_digit (suc (suc (suc (suc zero)))) h = refl
hex_value-hex_digit (suc (suc (suc (suc (suc zero))))) h = refl
hex_value-hex_digit (suc (suc (suc (suc (suc (suc zero)))))) h = refl
hex_value-hex_digit (suc (suc (suc (suc (suc (suc (suc zero))))))) h = refl
hex_value-hex_digit (suc (suc (suc (suc (suc (suc (suc (suc zero)))))))) h = refl
hex_value-hex_digit (suc (suc (suc (suc (suc (suc (suc (suc (suc zero))))))))) h = refl
hex_value-hex_digit (suc (suc (suc (suc (suc (suc (suc (suc (suc (suc zero)))))))))) h = refl
hex_value-hex_digit (suc (suc (suc (suc (suc (suc (suc (suc (suc (suc (suc zero))))))))))) h = refl
hex_value-hex_digit (suc (suc (suc (suc (suc (suc (suc (suc (suc (suc (suc (suc zero)))))))))))) h =
    refl
hex_value-hex_digit
      (suc (suc (suc (suc (suc (suc (suc (suc (suc (suc (suc (suc (suc zero))))))))))))) h =
    refl
hex_value-hex_digit
      (suc (suc (suc (suc (suc (suc (suc (suc (suc (suc (suc (suc (suc (suc zero)))))))))))))) h =
    refl
hex_value-hex_digit
      (suc (suc (suc (suc (suc (suc (suc (suc (suc (suc (suc (suc (suc (suc (suc zero)))))))))))))))
      h =
    refl
hex_value-hex_digit
      (suc
        (suc (suc (suc (suc (suc (suc (suc (suc (suc (suc (suc (suc (suc (suc (suc n))))))))))))))))
      h =
    absurd (omega (arith, h))

percent_decode-plain :
    (c : Char) (s : String)
    → (code c ≡ b'%' → ⊥)
    → percent_decode (c ∷ s) ≡ List.◌∷◌ (code c) (percent_decode s)
unfolding percent_decode
percent_decode-plain c [] h = refl
percent_decode-plain c (d ∷ []) h = refl
percent_decode-plain c (d ∷ e ∷ s) h = ground (arith, h)

percent_decode-escape :
    (n : ℕ) (s : String)
    → n < 256
    → percent_decode ("%" ∷ hex_digit (n / 16) ∷ hex_digit (n % 16) ∷ s)
      ≡ List.◌∷◌ n (percent_decode s)
unfolding percent_decode
percent_decode-escape n s h =
    let high = hex_value-hex_digit (n / 16) (omega (arith, h)) in
    let low = hex_value-hex_digit (n % 16) (omega arith) in ground (arith, high, low, h)

percent_decode-NoPercent : (s : String) → NoPercent s → percent_decode s ≡ codes s
unfolding percent_decode
percent_decode-NoPercent [] h = refl
percent_decode-NoPercent (c ∷ s) h =
    percent_decode-plain c s h.0 ∙ ap (List.◌∷◌ (code c)) (percent_decode-NoPercent s h.1)

encode_last-none_iff : (s : String) → (encode_last_unreserved s ≡ none) ↔ (HasUnreserved s → ⊥)
unfolding encode_last_unreserved
encode_last-none_iff [] = ground arith
encode_last-none_iff (c ∷ s) = ground (arith, encode_last-none_iff s)

encode_last-decodes :
    (path encoded : String)
    → NoPercent path
    → encode_last_unreserved path ≡ some encoded
    → (percent_decode encoded ≡ codes path) × (NoPercent encoded → ⊥)
unfolding encode_last_unreserved
encode_last-decodes [] encoded h e = absurd (ground (arith, e))
encode_last-decodes (c ∷ s) encoded h e = elim (Option-cases (encode_last_unreserved s)) [
  | inr (t, found) ↦
      let shape : c ∷ t ≡ encoded = cc (rw (found, encode_last_unreserved) at e) in
      let (decoded, marked) = encode_last-decodes s t h.1 found in
      (
        ap percent_decode (sym shape)
            ∙ percent_decode-plain c t h.0
            ∙ ap (List.◌∷◌ (code c)) decoded,
        λ plain. marked (subst NoPercent (sym shape) plain).1,
      )
  | inl none_behind ↦ elim (Bool-cases (is_alnum (code c))) [
    | inl alnum ↦
        let shape : "%" ∷ hex_digit (code c / 16) ∷ hex_digit (code c % 16) ∷ s ≡ encoded =
          cc (rw (none_behind, alnum, encode_last_unreserved) at e) in
        let small : code c < 256 = ground (arith, alnum) in
        (
          ap percent_decode (sym shape)
              ∙ percent_decode-escape (code c) s small
              ∙ ap (List.◌∷◌ (code c)) (percent_decode-NoPercent s h.1),
          λ plain. (subst NoPercent (sym shape) plain).0 refl,
        )
    | inr other ↦
        let e' : ◌≡◌ {A = Option String} none (some encoded) =
          (rw (none_behind, other, encode_last_unreserved) at e) in
        absurd (cc)
  ]
]

-- For a path without a percent sign, the variant exists exactly if the path has an ASCII letter or
-- digit; it is another text, and both decode to the same path.
pub encode_last_unreserved_lem :
    (path : String)
    → NoPercent path
    → ((encode_last_unreserved path ≡ none) ↔ (HasUnreserved path → ⊥))
      × ((encoded : String)
          → encode_last_unreserved path ≡ some encoded
          → (percent_decode encoded ≡ percent_decode path) × (encoded ≢ path))
encode_last_unreserved_lem path h = (
  encode_last-none_iff path,
  λ encoded e.
      let (decoded, marked) = encode_last-decodes path encoded h e in
      (
        decoded ∙ sym (percent_decode-NoPercent path h),
        λ same. marked (subst NoPercent (sym same) h),
      ),
)
