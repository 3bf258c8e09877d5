-- ===== src/Checks/PaymentRequired/Patterns.antt =====
-- The regular expressions of checks/payment_required.py. In each `match`, the dollar sign also
-- matches before a line feed that ends the text.
pub mod Bounds
pub mod Lines
pub mod Forms
use Prim.Native.Char.{code}
use x402_conformance.Prelude.{
  ℕ, String, Bool, true, false, none, some, ◌==◌, nat_eq, string_eq, leb, ◌&&◌, ◌||◌, not,
  if◌then◌else◌,
}
use x402_conformance.Probe.{size}
use x402_conformance.Safety.Digits.{partition_colon}

-- The text without the line feed that ends it.
unfoldable pub chomp : String → String
chomp String.[] = ""
chomp (String.◌∷◌ c s) =
    let rest = chomp s in if code c == 10 && s == "" then "" else String.◌∷◌ c rest

unfoldable pub all_in : (ℕ → Bool) → String → Bool
all_in p String.[] = true
all_in p (String.◌∷◌ c s) = p (code c) && all_in p s

-- `^[p]{lo,hi}$`, for a class without the line feed
unfoldable pub matches : (ℕ → Bool) → ℕ → ℕ → String → Bool
unfolding chomp all_in
matches p lo hi s = let text = chomp s in all_in p text && leb lo (size text) && leb (size text) hi

abbrev pub is_ascii_digit : ℕ → Bool
is_ascii_digit c = leb b'0' c && leb c b'9'

abbrev pub is_ascii_lower : ℕ → Bool
is_ascii_lower c = leb b'a' c && leb c b'z'

abbrev pub is_namespace_char : ℕ → Bool
is_namespace_char c = is_ascii_lower c || is_ascii_digit c || c == b'-'

abbrev pub is_reference_char : ℕ → Bool
is_reference_char c =
    c == b'-' || c == b'_' || is_ascii_lower c || (leb b'A' c && leb c b'Z') || is_ascii_digit c

abbrev pub is_hex_char : ℕ → Bool
is_hex_char c = is_ascii_digit c || (leb b'a' c && leb c b'f') || (leb b'A' c && leb c b'F')

abbrev pub is_builder_char : ℕ → Bool
is_builder_char c = is_ascii_lower c || is_ascii_digit c || c == b'_'

-- `_CAIP2_RE`: no class of it holds the colon, so the first colon is the one that matches.
unfoldable pub is_caip2 : String → Bool
unfolding partition_colon matches all_in
is_caip2 s =
    let (namespace, behind) = partition_colon s in
    elim behind [
      | none ↦ false
      | some reference ↦
          all_in is_namespace_char namespace
          && leb 3 (size namespace)
          && leb (size namespace) 8
          && matches is_reference_char 1 32 reference
    ]

-- `_ATOMIC_AMOUNT_RE`
unfoldable pub is_atomic_amount : String → Bool
unfolding chomp all_in
is_atomic_amount s = let text = chomp s in all_in is_ascii_digit text && not (text == "")

-- `_EVM_ADDRESS_RE`
unfoldable pub is_evm_address : String → Bool
unfolding matches
is_evm_address (String.◌∷◌ c (String.◌∷◌ d s)) =
    code c == b'0' && code d == b'x' && matches is_hex_char 40 40 s
is_evm_address _ = false

-- `_PRINTABLE_ASCII_RE`
unfoldable pub is_printable_ascii : String → Bool
unfolding chomp all_in
is_printable_ascii s = all_in (λ c. leb 32 c && leb c 126) (chomp s)

-- `_BUILDER_CODE_PATTERN`
unfoldable pub is_builder_code : String → Bool
unfolding matches
is_builder_code s = matches is_builder_char 1 32 s
