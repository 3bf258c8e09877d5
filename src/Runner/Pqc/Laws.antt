-- ===== src/Runner/Pqc/Laws.antt =====
-- What the two probes of the PQC verifier change in the receipt.
use x402_conformance.Prelude.{
  String, ◌≡◌, ◌≢◌, refl, ap, ◌∙◌, subst, true, false, Option, none, some, arith, Bool-cases, inl,
  inr, ◌==◌, string_eq,
}
use x402_conformance.Json.{Json, Fields, get, set_field, as_dict}
use x402_conformance.Json.Laws.{get-set_field, get-set_field_other}
use x402_conformance.Runner.Pqc.{
  Receipt, starts_with_a, rest_of, flip_first, pop_field, tampered, stripped,
}

-- No key of the object stands twice.
abbrev pub Absent : String → Fields → Type 0
Absent key fs = get fs key ≡ none

abbrev pub Distinct : Fields → Type 0
Distinct Fields.end = Unit
Distinct (Fields.field k v fs) = Absent k fs × Distinct fs

flip_first-differs : (s : String) → flip_first s ≢ s
unfolding flip_first
flip_first-differs s h = elim (Bool-cases (starts_with_a s)) [
  | inl a ↦
      let e : String.◌∷◌ "B" (rest_of s) ≡ s = rw (a, flip_first) at h in
      let f : starts_with_a (String.◌∷◌ "B" (rest_of s)) ≡ true = ap starts_with_a e ∙ a in
      absurd (cc f)
  | inr b ↦
      let e : String.◌∷◌ "A" (rest_of s) ≡ s = rw (b, flip_first) at h in
      let f : starts_with_a (String.◌∷◌ "A" (rest_of s)) ≡ false = ap starts_with_a e ∙ b in
      absurd (cc f)
]

flip_first-rest : (s : String) → rest_of (flip_first s) ≡ rest_of s
unfolding flip_first
flip_first-rest s = refl

get-pop_field : (fs : Fields) (key : String) → Distinct fs → get (pop_field fs key) key ≡ none
unfolding get pop_field
get-pop_field Fields.end key d = refl
get-pop_field (Fields.field k v fs) key d = elim (Bool-cases (k == key)) [
  | inl same ↦
      let e = (string_eq.beq_iff k key).0 same in
      rw (same, pop_field) (subst (λ n. get fs n ≡ none) e d.0)
  | inr other ↦ ground (arith, other, get-pop_field fs key d.1)
]

get-pop_field_other :
    (fs : Fields) (key other : String) → key ≢ other → get (pop_field fs key) other ≡ get fs other
unfolding get pop_field
get-pop_field_other Fields.end key other h = refl
get-pop_field_other (Fields.field k v fs) key other h =
    ground (
      arith,
      string_eq.beq_iff k key,
      string_eq.beq_iff k other,
      get-pop_field_other fs key other h,
    )

abbrev sig_v2_of : Fields → Option Fields
sig_v2_of receipt = as_dict (get receipt "sig_v2")

-- The receipt that is sent first.
pub record Tampered (r : Receipt) (sent : Fields) : Type 0 where
  pub sig_v2 : Fields
  pub pqc : Fields
  pub holds_sig_v2 : as_dict (get sent "sig_v2") ≡ some sig_v2
  pub holds_pqc : as_dict (get sig_v2 "pqc") ≡ some pqc
  pub flipped : String
  pub holds_signature : get pqc "signature" ≡ some (Json.str flipped)
  pub first_only : rest_of flipped ≡ rest_of r.signature
  pub differs : flipped ≢ r.signature
  pub receipt_kept : (key : String) → "sig_v2" ≢ key → get sent key ≡ get r.receipt key
  pub sig_v2_kept : (key : String) → "pqc" ≢ key → get sig_v2 key ≡ get r.sig_v2 key
  pub pqc_kept : (key : String) → "signature" ≢ key → get pqc key ≡ get r.pqc key

-- The first probe differs from the receipt in the first character of the PQC signature and in
-- nothing else; the second, of a receipt without a repeated key, lacks `sig_v2` and nothing else.
pub pqc_probes_lem :
    (r : Receipt)
    → Tampered r (tampered r)
      × (Distinct r.receipt → get (stripped r) "sig_v2" ≡ none)
      × ((key : String) → "sig_v2" ≢ key → get (stripped r) key ≡ get r.receipt key)
unfolding tampered stripped
pqc_probes_lem r =
    let flipped = flip_first r.signature in
    let pqc = set_field r.pqc "signature" (Json.str flipped) in
    let sig_v2 = set_field r.sig_v2 "pqc" (Json.obj pqc) in
    (
      record {
        sig_v2 = sig_v2;
        pqc = pqc;
        holds_sig_v2 = ap as_dict (get-set_field r.receipt "sig_v2" (Json.obj sig_v2));
        holds_pqc = ap as_dict (get-set_field r.sig_v2 "pqc" (Json.obj pqc));
        flipped = flipped;
        holds_signature = get-set_field r.pqc "signature" (Json.str flipped);
        first_only = flip_first-rest r.signature;
        differs = flip_first-differs r.signature;
        receipt_kept = λ key h. get-set_field_other r.receipt "sig_v2" key (Json.obj sig_v2) h;
        sig_v2_kept = λ key h. get-set_field_other r.sig_v2 "pqc" key (Json.obj pqc) h;
        pqc_kept = λ key h. get-set_field_other r.pqc "signature" key (Json.str flipped) h;
      },
      λ d. get-pop_field r.receipt "sig_v2" d,
      λ key h. get-pop_field_other r.receipt "sig_v2" key h,
    )
