-- ===== src/Tests/Paths.antt =====
-- checks/path_variants.py on one URL.
use Prim.Native.Char.{Char}
use mathlib.Core.List.{List, [], ◌∷◌}
use x402_conformance.Prelude.{
  ℕ, String, ◌≡◌, ◌≢◌, ◌↔◌, ◌⊎◌, refl, Bool, true, false, Option, none, some, string_eq, arith,
}
use x402_conformance.Checks.Base.{pass, fail, skip}
use x402_conformance.Checks.PathVariants.{Url, Outcome, classify_variants, is_served, control_label}
use x402_conformance.Checks.PathVariants.Verdict.{Catchall, Bypass, classify_variants_iff}
use x402_conformance.Checks.PathVariants.Escape.{
  encode_last_unreserved, percent_decode, HasUnreserved, encode_last_unreserved_lem, hex_value,
}

abbrev paid : Url
paid = record {
  scheme = "https";
  netloc = "shop.example";
  path = "/paid";
  query = "";
  fragment = "";
}

abbrev probe : String → Option ℕ → Outcome
probe label code = record {
  variant = record {
    label = label;
    url = "https://shop.example/paid";
    rationale = "";
    absolute_form = false;
  };
  code = code;
  has_body = true;
}

abbrev outcomes : List Outcome
outcomes = probe "raw backslash" (some 200) ∷ probe control_label (some 404) ∷ []

bypass_found : (classify_variants outcomes none).0 ≡ fail
unfolding classify_variants is_served
bypass_found = refl

classify_variants_iff_example :
    (((classify_variants outcomes none).0 ≡ skip) ↔ (outcomes ≡ []) ⊎ Catchall none outcomes)
    × (((classify_variants outcomes none).0 ≡ fail)
        ↔ (Catchall none outcomes → ⊥) × Bypass none outcomes)
    × (((classify_variants outcomes none).0 ≡ pass)
        ↔ (outcomes ≢ []) × (Catchall none outcomes → ⊥) × (Bypass none outcomes → ⊥))
classify_variants_iff_example = classify_variants_iff none outcomes

abbrev isalnum : Char → Bool
isalnum c = true

last_encoded : encode_last_unreserved "/paid" ≡ some "/pai%64"
unfolding encode_last_unreserved
last_encoded = refl

encode_last_unreserved_lem_example :
    ((encode_last_unreserved "/paid" ≡ none) ↔ (HasUnreserved "/paid" → ⊥))
    × ((encoded : String)
        → encode_last_unreserved "/paid" ≡ some encoded
        → (percent_decode encoded ≡ percent_decode "/paid") × (encoded ≢ "/paid"))
encode_last_unreserved_lem_example = encode_last_unreserved_lem "/paid" (
  λ h. omega (arith, h),
  (
    λ h. omega (arith, h),
    (λ h. omega (arith, h), (λ h. omega (arith, h), (λ h. omega (arith, h), tt))),
  ),
)

-- Behind an escape the encoded character is a digit of that escape, and the path is another one.
escape_broken : encode_last_unreserved "/caf%C3%A9" ≡ some "/caf%C3%A%39"
unfolding encode_last_unreserved
escape_broken = refl

abbrev last_two : List ℕ → List ℕ
last_two (a ∷ b ∷ c ∷ d) = last_two (b ∷ c ∷ d)
last_two l = l

escape_decoded :
    (last_two (percent_decode "/caf%C3%A9") ≡ 195 ∷ 169 ∷ [])
    × (last_two (percent_decode "/caf%C3%A%39") ≡ 65 ∷ 57 ∷ [])
unfolding percent_decode hex_value
escape_decoded = (refl, refl)
