-- ===== src/Checks/Negative/Echo/Laws.antt =====
-- What the builder-code probe changes, and when it passes.
use x402_conformance.Prelude.{
  String, ◌≡◌, ◌≢◌, ◌↔◌, ◌⊎◌, inl, inr, refl, sym, subst, Option, none, some, [], ◌∷◌, string_eq,
  arith, Option-cases,
}
use x402_conformance.Json.{Json, Fields, get, set_field, as_dict}
use x402_conformance.Json.Laws.{is_text_iff, get-set_field, get-set_field_other}
use x402_conformance.Active.Response.{ActiveResponse}
use x402_conformance.Checks.Base.{pass, fail, skip, status_eq}
use x402_conformance.Checks.Negative.Verdict.{Rejected, assert_rejected_iff}
use x402_conformance.Checks.Negative.Echo.{
  mismatched_builder_code_echo, set_in_entry, set_code, probe_code, echo_probe_code, echo_mismatch,
  stated_reason, echo_verdict, neg_016,
}

-- The app code of a builder-code entry: `info.a`, or `a` in the flat form.
abbrev pub app_code_of : Fields → Option Fields → Option Json
app_code_of entry (some info) = get info "a"
app_code_of entry none = get entry "a"

abbrev pub app_code : Fields → Option Json
app_code entry = app_code_of entry (as_dict (get entry "info"))

codes≢ : ◌≢◌ {A = String} echo_probe_code "x402_conformance_probe_2"
codes≢ h = ground (arith, string_eq.beq_iff echo_probe_code "x402_conformance_probe_2")

a≢info : ◌≢◌ {A = String} "a" "info"
a≢info h = ground (arith, string_eq.beq_iff "a" "info")

probe_code-differs : (declared : Option Json) → declared ≢ some (Json.str (probe_code declared))
probe_code-differs declared h = ground (
  arith,
  codes≢,
  is_text_iff declared echo_probe_code,
  is_text_iff declared "x402_conformance_probe_2",
)

set_in_entry-app_code :
    (entry : Fields) (shape : Option Fields)
    → as_dict (get entry "info") ≡ shape
    → (app_code (set_in_entry entry shape).0 ≡ some (Json.str (set_in_entry entry shape).1))
      × (app_code_of entry shape ≢ some (Json.str (set_in_entry entry shape).1))
set_in_entry-app_code entry (some info) h =
    let probe = probe_code (get info "a") in
    let stored = get-set_field entry "info" (Json.obj (set_code info probe)) in
    (rw (stored, get-set_field info "a" (Json.str probe)), probe_code-differs (get info "a"))
set_in_entry-app_code entry none h =
    let probe = probe_code (get entry "a") in
    let kept = get-set_field_other entry "a" "info" (Json.str probe) a≢info in
    (rw (kept, h, get-set_field entry "a" (Json.str probe)), probe_code-differs (get entry "a"))

-- An echo that differs from the declaration in the app code alone, as far as a reader of the keys
-- and of the code sees.
pub record Mismatched (extensions echoed : Fields) (probe : String) : Type 0 where
  pub declared : Fields
  pub changed : Fields
  pub was_declared : as_dict (get extensions "builder-code") ≡ some declared
  pub is_changed : as_dict (get echoed "builder-code") ≡ some changed
  pub carries_probe : app_code changed ≡ some (Json.str probe)
  pub differs : app_code declared ≢ some (Json.str probe)
  pub others_kept : (key : String) → "builder-code" ≢ key → get echoed key ≡ get extensions key

-- An echo is built exactly when the extensions declare `builder-code` as an object. It carries the
-- returned code as its app code, which is not the declared one, and the other keys are as declared.
pub mismatched_builder_code_echo-Mismatched :
    (extensions : Fields)
    → ((mismatched_builder_code_echo extensions ≡ none)
        ↔ (as_dict (get extensions "builder-code") ≡ none))
      × ((echoed : Fields) (probe : String)
          → mismatched_builder_code_echo extensions ≡ some (echoed, probe)
          → Mismatched extensions echoed probe)
unfolding mismatched_builder_code_echo
mismatched_builder_code_echo-Mismatched extensions =
    elim (Option-cases (as_dict (get extensions "builder-code"))) [
      | inl undeclared ↦
          (ground (arith, undeclared), λ echoed probe h. absurd (ground (arith, undeclared)))
      | inr (entry, declared) ↦ (
        ground (arith, declared),
        λ echoed probe h.
            let shape = as_dict (get entry "info") in
            let (carries, differs) = set_in_entry-app_code entry shape refl in
            let changed = (set_in_entry entry shape).0 in
            let same : ◌≡◌ {A = Option (Fields × String)}
                (some (
                  set_field extensions "builder-code" (Json.obj changed),
                  (set_in_entry entry shape).1,
                ))
                (some (echoed, probe)) =
              (rw (declared, mismatched_builder_code_echo) at h) in
            let echo : set_field extensions "builder-code" (Json.obj changed) ≡ echoed = cc in
            let code : (set_in_entry entry shape).1 ≡ probe = cc in
            record {
              declared = entry;
              changed = changed;
              was_declared = declared;
              is_changed =
                  rw (sym echo, get-set_field extensions "builder-code" (Json.obj changed));
              carries_probe = subst (λ c. app_code changed ≡ some (Json.str c)) code carries;
              differs = subst (λ c. app_code entry ≢ some (Json.str c)) code differs;
              others_kept = λ key other. rw (
                sym echo,
                get-set_field_other extensions "builder-code" key (Json.obj changed) other,
              );
            },
      )
    ]

module _ (decode loads : String → Option Json) (repr : String → String) where
  -- Without a declaration the check is a SKIP. With one it passes exactly if the mismatched echo is
  -- rejected cleanly with 400 or 402, either for the reason `extension_echo_mismatch` or with neither
  -- a reason nor a settlement header; every other answer is a FAIL.
  pub neg_016_iff :
      (extensions : Fields) (submit : Fields → ActiveResponse)
      → (mismatched_builder_code_echo extensions ≡ none
          → (neg_016 decode loads repr extensions submit).0 ≡ skip)
        × ((echoed : Fields) (probe : String)
            → mismatched_builder_code_echo extensions ≡ some (echoed, probe)
            → (((neg_016 decode loads repr extensions submit).0 ≡ pass)
                ↔ Rejected (submit echoed) (400 ∷ 402 ∷ [])
                  × ((stated_reason decode loads (submit echoed) ≡ some echo_mismatch)
                      ⊎ (stated_reason decode loads (submit echoed) ≡ none)
                        × ((submit echoed).settlement ≡ none)))
              × (((neg_016 decode loads repr extensions submit).0 ≡ pass)
                  ⊎ ((neg_016 decode loads repr extensions submit).0 ≡ fail)))
  unfolding neg_016 echo_verdict
  neg_016_iff extensions submit = (
    λ h. rw (h, neg_016) refl,
    λ echoed probe h.
        let rejected = assert_rejected_iff repr (submit echoed) (400 ∷ 402 ∷ []) in
        rw (h, neg_016)
          (elim (Option-cases (stated_reason decode loads (submit echoed))) [
            | inl silent ↦ (ground (arith, rejected, silent), ground (arith, rejected, silent))
            | inr (reason, stated) ↦
                let same = string_eq.beq_iff reason echo_mismatch in
                (ground (arith, rejected, stated, same), ground (arith, rejected, stated, same))
          ]),
  )
