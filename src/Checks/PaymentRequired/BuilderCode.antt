-- ===== src/Checks/PaymentRequired/BuilderCode.antt =====
-- The builder codes that the challenge declares: RS-PR-023 and RS-PR-024.
pub mod Reservation
use x402_conformance.Prelude.{
  ℕ, suc, String, Bool, false, Option, none, some, List, [], ◌∷◌, ltb, keep, length, not,
  if◌then◌else◌, fstring, decimal, join, map,
}
use x402_conformance.Json.{Json, Fields, get, items, as_dict}
use x402_conformance.Probe.{Probe, type_name}
use x402_conformance.Checks.Base.{Status, pass, fail, skip}
use x402_conformance.Checks.PaymentRequired.{fail_if, passed}
use x402_conformance.Checks.PaymentRequired.Patterns.{is_builder_code}

abbrev pub max_server_service_codes : ℕ
max_server_service_codes = 5

-- `value.get(key)` where both are objects
abbrev dict_in : Option Fields → String → Option Fields
dict_in none key = none
dict_in (some fs) key = as_dict (get fs key)

unfoldable pub builder_code_info : Probe → Option Fields
unfolding get
builder_code_info p = dict_in (dict_in (dict_in p.raw "extensions") "builder-code") "info"

abbrev pub is_code : Json → Bool
is_code (Json.str s) = is_builder_code s
is_code _ = false

-- xs[:n]
abbrev take {ℓ} : {A : Type ℓ} → ℕ → List A → List A
take n [] = []
take ℕ.zero (x ∷ xs) = []
take (suc n) (x ∷ xs) = x ∷ take n xs

-- `[declared] if isinstance(declared, str) else declared`, if that is a list
abbrev pub codes_of : Json → Option (List Json)
codes_of (Json.str s) = some (Json.str s ∷ [])
codes_of (Json.arr vs) = some (items vs)
codes_of _ = none

module _ (repr : Json → String) where
  unfoldable pub pr_023 : Probe → Status × String
  unfolding builder_code_info is_builder_code get
  pr_023 p = elim (builder_code_info p) [
    | none ↦ (skip, "no builder-code extension declared")
    | some info ↦ elim (get info "a") [
      | none ↦ (pass, "builder-code declared without an app code")
      | some app_code ↦ if is_code app_code then passed else (
        fail,
        fstring (
            "builder-code app code "
            ∷ repr app_code
            ∷ " does not match ^[a-z0-9_]{1,32}$ — the facilitator must reject invalid codes at construction time, so attribution silently drops"
            ∷ []),
      )
    ]
  ]

  -- The verdict on the list.
  abbrev pub grade_list : List Json → Status × String
  grade_list codes =
      let problems = map repr (keep (λ c. not (is_code c)) codes) in
      fail_if problems
        (fstring (
          "builder-code service code(s) "
          ∷ join ", " (take 4 problems)
          ∷ " do not match ^[a-z0-9_]{1,32}$"
          ∷ []))
        (if ltb max_server_service_codes (length codes)
          then (
            fail,
            fstring (
                decimal (length codes)
                ∷ " server service codes declared, over the MAX_SERVER_SERVICE_CODES reservation of "
                ∷ decimal max_server_service_codes
                ∷ ". The per-party budgets exist so no participant can crowd out another; entries past the reservation are rejected or truncated downstream, so the attribution declared here is not the attribution that settles"
                ∷ []),
          )
          else (
            pass,
            fstring (decimal (length codes) ∷ " server service code(s), within reservation" ∷ []),
          ))

  abbrev pub not_codes : Json → Status × String
  not_codes declared = (
    fail,
    fstring ("builder-code `s` must be a string or an array, got " ∷ type_name declared ∷ []),
  )

  abbrev pub grade_if_list : Json → Option (List Json) → Status × String
  grade_if_list declared none = not_codes declared
  grade_if_list declared (some codes) = grade_list codes

  unfoldable pub grade_codes : Json → Status × String
  unfolding is_builder_code
  grade_codes declared = grade_if_list declared (codes_of declared)

  unfoldable pub pr_024 : Probe → Status × String
  unfolding builder_code_info grade_codes get
  pr_024 p = elim (builder_code_info p) [
    | none ↦ (skip, "no builder-code extension declared")
    | some info ↦ elim (get info "s") [
      | none ↦ (pass, "no server service codes declared")
      | some declared ↦ grade_codes declared
    ]
  ]
