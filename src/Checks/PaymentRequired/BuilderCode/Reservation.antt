-- ===== src/Checks/PaymentRequired/BuilderCode/Reservation.antt =====
-- The verdict of RS-PR-024 on the service codes of the server.
use x402_conformance.Prelude.{
  some-inj, ◌≤◌, String, refl, sym, subst, true, ◌≡◌, ◌↔◌, not, keep, map, length, Option, none,
  some, List, [], ◌∷◌, arith, All,
}
use x402_conformance.Json.{Json, Fields, get}
use x402_conformance.Probe.{Probe, size}
use x402_conformance.Checks.Base.{pass}
use x402_conformance.Checks.PaymentRequired.Patterns.Bounds.{is_builder_code_bounds}
use x402_conformance.Checks.PaymentRequired.BuilderCode.{
  builder_code_info, codes_of, is_code, grade_list, grade_if_list, grade_codes, pr_024,
  max_server_service_codes,
}

-- A text of one to 33 characters, the line feed that may end it included.
abbrev pub IsShort : Json → Type 0
IsShort c = (s : String) × (c ≡ Json.str s) × (1 ≤ size s) × (size s ≤ 33)

is_code-IsShort : (c : Json) → is_code c ≡ true → IsShort c
is_code-IsShort Json.null h = cc
is_code-IsShort (Json.bool b) h = cc
is_code-IsShort (Json.int z) h = cc
is_code-IsShort (Json.float s) h = cc
is_code-IsShort (Json.str s) h = let (lo, hi) = is_builder_code_bounds s h in (s, refl, lo, hi)
is_code-IsShort (Json.arr vs) h = cc
is_code-IsShort (Json.obj fs) h = cc

-- What the server may declare: at most five codes, each of which is well formed.
abbrev pub Reserved : List Json → Type 0
Reserved codes = All (λ c. is_code c ≡ true) codes × (length codes ≤ max_server_service_codes)

bad_codes_iff :
    (repr : Json → String) (codes : List Json)
    → (map repr (keep (λ c. not (is_code c)) codes) ≡ []) ↔ All (λ c. is_code c ≡ true) codes
bad_codes_iff repr [] = ground arith
bad_codes_iff repr (c ∷ cs) = ground (arith, bad_codes_iff repr cs)

All-IsShort : (codes : List Json) → All (λ c. is_code c ≡ true) codes → All IsShort codes
All-IsShort [] h = tt
All-IsShort (c ∷ cs) (k, ks) = (is_code-IsShort c k, All-IsShort cs ks)

module _ (repr : Json → String) where
  grade_list_iff : (codes : List Json) → ((grade_list repr codes).0 ≡ pass) ↔ Reserved codes
  grade_list_iff codes = ground (arith, bad_codes_iff repr codes)

  codes_iff :
      (o : Option (List Json)) (declared : Json)
      → ((grade_if_list repr declared o).0 ≡ pass)
        ↔ ((codes : List Json) × (o ≡ some codes) × Reserved codes)
  codes_iff none declared = ((λ h. cc), λ (cs, q, r). cc)
  codes_iff (some cs) declared = (
    (λ h. (cs, refl, (grade_list_iff cs).0 h)),
    λ (ds, q, r). (grade_list_iff cs).1 (subst Reserved (sym (some-inj q)) r),
  )

  -- Where the challenge declares service codes, RS-PR-024 passes exactly if they are a text or a list
  -- of at most five entries, and each is a well-formed code; a well-formed code is a text of one to
  -- 33 characters, the line feed that may end it included.
  pub pr_024_iff :
      (p : Probe) (info : Fields) (declared : Json)
      → builder_code_info p ≡ some info
      → get info "s" ≡ some declared
      → (((pr_024 repr p).0 ≡ pass)
          ↔ ((codes : List Json) × (codes_of declared ≡ some codes) × Reserved codes))
        × ((codes : List Json) → Reserved codes → All IsShort codes)
  unfolding pr_024 grade_codes
  pr_024_iff p info declared b g =
      rw (b, g, pr_024, grade_codes)
        (codes_iff (codes_of declared) declared, λ codes r. All-IsShort codes r.0)
