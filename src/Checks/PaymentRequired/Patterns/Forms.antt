-- ===== src/Checks/PaymentRequired/Patterns/Forms.antt =====
-- The networks, amounts and EVM addresses that the patterns accept.
use Prim.Native.Char.{Char, code}
use x402_conformance.Prelude.{
  ℕ, ◌≤◌, String, refl, sym, ap, subst, true, ◌≡◌, ◌≢◌, ◌↔◌, ◌⊎◌, inl, inr, arith, string_eq,
  nat_eq, Option-cases,
}
use x402_conformance.Probe.{size}
use x402_conformance.Safety.Digits.{partition_colon}
use x402_conformance.Checks.PaymentRequired.Patterns.{
  chomp, all_in, matches, is_caip2, is_atomic_amount, is_evm_address, is_ascii_digit,
  is_namespace_char, is_reference_char, is_hex_char,
}
use x402_conformance.Checks.PaymentRequired.Patterns.Lines.{
  Every, glue, Line, Matched, chomp-Line, Line-chomp, all_in_iff, matches_iff, partition_colon-glue,
  glue-partition_colon,
}

abbrev Between : ℕ → ℕ → ℕ → Type 0
Between lo hi c = (lo ≤ c) × (c ≤ hi)

abbrev pub Digit : ℕ → Type 0
Digit = Between b'0' b'9'

abbrev pub NamespaceChar : ℕ → Type 0
NamespaceChar c = Between b'a' b'z' c ⊎ (Digit c ⊎ (c ≡ b'-'))

abbrev pub ReferenceChar : ℕ → Type 0
ReferenceChar c =
    (c ≡ b'-') ⊎ ((c ≡ b'_') ⊎ (Between b'a' b'z' c ⊎ (Between b'A' b'Z' c ⊎ Digit c)))

abbrev pub HexChar : ℕ → Type 0
HexChar c = Digit c ⊎ (Between b'a' b'f' c ⊎ Between b'A' b'F' c)

-- A CAIP-2 identifier: a namespace of three to eight characters, a colon, and a reference of one to 32
-- characters, behind which there may be a line feed.
abbrev pub Caip2 : String → Type 0
Caip2 s =
    (namespace : String) × (colon : Char) × (reference : String) × (s
      ≡ glue namespace colon reference)
    × (code colon ≡ b':')
    × Every NamespaceChar namespace
    × (3 ≤ size namespace)
    × (size namespace ≤ 8)
    × Matched ReferenceChar 1 32 reference

-- One or more decimal digits, behind which there may be a line feed.
abbrev pub Amount : String → Type 0
Amount s = (t : String) × Line t s × Every Digit t × (t ≢ "")

-- The text 0x and 40 hexadecimal digits, behind which there may be a line feed.
abbrev pub Address : String → Type 0
Address s =
    (c : Char) × (d : Char) × (digits : String) × (s ≡ String.◌∷◌ c (String.◌∷◌ d digits))
    × (code c ≡ b'0')
    × (code d ≡ b'x')
    × Matched HexChar 40 40 digits

pub is_atomic_amount_iff : (s : String) → (is_atomic_amount s ≡ true) ↔ Amount s
unfolding is_atomic_amount
is_atomic_amount_iff s =
    let digits = all_in_iff is_ascii_digit Digit (λ c. ground arith) in
    (
      λ h. (
        chomp s,
        chomp-Line s,
        ground (arith, digits (chomp s)),
        λ e. ground (arith, e, string_eq.beq_iff (chomp s) ""),
      ),
      λ (t, line, a, n).
          rw (Line-chomp Digit (λ f. omega (arith, f)) t s line a, is_atomic_amount)
            (ground (arith, digits t, string_eq.beq_iff t "", n)),
    )

pub is_evm_address_iff : (s : String) → (is_evm_address s ≡ true) ↔ Address s
unfolding is_evm_address
is_evm_address_iff String.[] = ((λ h. cc), λ (c, d, r, e, k, l, m). cc)
is_evm_address_iff (String.◌∷◌ c String.[]) = ((λ h. cc), λ (x, d, r, e, k, l, m). cc)
is_evm_address_iff (String.◌∷◌ c (String.◌∷◌ d s)) =
    let hex = matches_iff is_hex_char HexChar (λ x. ground arith) (λ f. ground (arith, f)) 40 40 in
    (
      (λ h. (c, d, s, refl, ground arith, ground arith, (hex s).0 (ground arith))),
      λ (x, y, r, e, zero, ex, m).
          subst (λ u. is_evm_address u ≡ true) (sym e) (ground (arith, (hex r).1 m, zero, ex)),
    )

reference_iff :
    (r : String) → (matches is_reference_char 1 32 r ≡ true) ↔ Matched ReferenceChar 1 32 r
reference_iff =
    matches_iff is_reference_char ReferenceChar (λ x. ground arith) (λ f. ground (arith, f)) 1 32

namespace_iff : (n : String) → (all_in is_namespace_char n ≡ true) ↔ Every NamespaceChar n
namespace_iff = all_in_iff is_namespace_char NamespaceChar (λ x. ground arith)

pub is_caip2_iff : (s : String) → (is_caip2 s ≡ true) ↔ Caip2 s
unfolding is_caip2
is_caip2_iff s = (
  (λ h. elim (Option-cases (partition_colon s).1) [
    | inl alone ↦ ground arith
    | inr (r, found) ↦
        let (colon, k, e) = partition_colon-glue s r found in
        (
          (partition_colon s).0,
          colon,
          r,
          e,
          k,
          (namespace_iff (partition_colon s).0).0 (ground (arith, found)),
          ground (arith, found),
          ground (arith, found),
          (reference_iff r).0 (ground (arith, found)),
        )
  ]),
  λ (n, colon, r, e, k, a, lo, hi, m).
      subst (λ u. is_caip2 u ≡ true) (sym e)
        (let parts = glue-partition_colon NamespaceChar (λ f. ground (arith, f)) n colon r a k in
          rw (ap (λ x. x.1) parts, ap (λ x. x.0) parts, is_caip2)
            (ground (arith, (namespace_iff n).1 a, (reference_iff r).1 m, lo, hi))),
)
