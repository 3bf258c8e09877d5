-- ===== src/Checks/PaymentRequired/Flow/Rating.antt =====
-- What `_flow_problems` finds in one entry, read off the table of permitted flows, and its crash on a
-- `paymentFlow` that Python cannot hash.
use x402_conformance.Prelude.{
  String, refl, ap, subst, ◌∙◌, sym, Bool, true, false, ◌≡◌, ◌≢◌, ◌↔◌, ◌⊎◌, inl, inr, Option, none,
  some, List, [], arith, Bool-cases, ◌==◌, string_eq, if◌then◌else◌,
}
use x402_conformance.Json.{Json, Fields, is_text}
use x402_conformance.Probe.{member}
use x402_conformance.Checks.Base.{returned, raised}
use x402_conformance.Checks.PaymentRequired.Bindings.{Binding, binding}
use x402_conformance.Checks.PaymentRequired.Flow.{
  binding_problems, rate_flow, payment_flows, flow_of, extra_of, is_undefined,
}
use x402_conformance.Checks.PaymentRequired.Flow.Permitted.{
  Flow, declared, omitted, authorization, upfront, escrow, Permits, Captures,
  binding_problems-eq-nil_iff,
}

-- A value that Python cannot hash.
abbrev pub is_unhashable : Option Json → Bool
is_unhashable (some (Json.arr vs)) = true
is_unhashable (some (Json.obj fs)) = true
is_unhashable _ = false

-- An entry keeps the table, if it leaves the flow out or declares one of the protocol's.
abbrev pub KeepsAt : Option Json → Fields → Option Binding → Type 0
KeepsAt o extra binding =
    (b : Binding) (flow : Flow)
    → binding ≡ some b
    → o ≡ declared flow
    → Permits b flow × Captures b flow extra

abbrev pub Keeps : Fields → Type 0
Keeps e = KeepsAt (flow_of e) (extra_of e) (binding e)

-- The flow that a value declares.
abbrev read : Option Json → Flow
read o =
    if is_text o "authorization"
    then authorization
    else if is_text o "upfront"
    then upfront
    else if is_text o "escrow"
    then escrow
    else omitted

read-declared : (f : Flow) → read (declared f) ≡ f
read-declared omitted = refl
read-declared authorization = refl
read-declared upfront = refl
read-declared escrow = refl

declared-inj : (f g : Flow) → declared f ≡ declared g → f ≡ g
declared-inj f g h = sym (read-declared f) ∙ ap read h ∙ read-declared g

member-declared :
    (f : Flow) (s : String) → some (Json.str s) ≡ declared f → member s payment_flows ≡ true
member-declared omitted s h = ground arith
member-declared authorization s h = ground (arith, string_eq.beq_iff "authorization" s)
member-declared upfront s h = ground (arith, string_eq.beq_iff "upfront" s)
member-declared escrow s h = ground (arith, string_eq.beq_iff "escrow" s)

KeepsAt-declared :
    (f : Flow) (extra : Fields) (c : Binding)
    → Permits c f × Captures c f extra
    → KeepsAt (declared f) extra (some c)
KeepsAt-declared f extra c k b g p q =
    let same_b : c ≡ b = ap (λ o. elim o [ none ↦ c | some x ↦ x ]) p in
    let at_b = subst (λ x. Permits x f × Captures x f extra) same_b k in
    subst (λ x. Permits b x × Captures b x extra) (declared-inj f g q) at_b

-- A declared flow is of the table, if it is one of the three texts.
str_cases :
    (s : String)
    → ((f : Flow) × (some (Json.str s) ≡ declared f))
      ⊎ ((member s payment_flows ≡ false) × ((f : Flow) → some (Json.str s) ≢ declared f))
str_cases s = elim (Bool-cases (member s payment_flows)) [
  | inl known ↦ inl (elim (Bool-cases ("authorization" == s)) [
    | inl a ↦ (authorization, ground (arith, string_eq.beq_iff "authorization" s))
    | inr na ↦ elim (Bool-cases ("upfront" == s)) [
      | inl u ↦ (upfront, ground (arith, string_eq.beq_iff "upfront" s))
      | inr nu ↦ (escrow, ground (arith, string_eq.beq_iff "escrow" s))
    ]
  ])
  | inr unknown ↦ inr (unknown, λ f h. cc (unknown, member-declared f s h))
]

module _ (repr unhashable : Json → String) where
  -- A value that can be hashed stands for a flow of the table, or is undefined.
  classify :
      (o : Option Json)
      → is_unhashable o ≡ false
      → ((f : Flow) × (o ≡ declared f))
        ⊎ ((is_undefined repr unhashable o ≡ returned true) × ((f : Flow) → o ≢ declared f))
  classify none h = inl (omitted, refl)
  classify (some Json.null) h = inr (refl, λ f. ground arith)
  classify (some (Json.bool b)) h = inr (refl, λ f. ground arith)
  classify (some (Json.int z)) h = inr (refl, λ f. ground arith)
  classify (some (Json.float s)) h = inr (refl, λ f. ground arith)
  classify (some (Json.str s)) h = elim (str_cases s) [
    | inl known ↦ inl known
    | inr (undefined, other) ↦ inr (ground arith, other)
  ]
  classify (some (Json.arr vs)) h = ground arith
  classify (some (Json.obj fs)) h = ground arith

  -- The call returns, and it finds nothing exactly if the entry keeps the table.
  abbrev pub Rated : Option Json → Fields → Option Binding → Type 0
  Rated o extra b =
      (ps : List String) × (rate_flow repr unhashable o extra b ≡ returned ps)
      × ((ps ≡ []) ↔ KeepsAt o extra b)

  rate-declared :
      (f : Flow) (extra : Fields) (c : Binding)
      → rate_flow repr unhashable (declared f) extra (some c)
        ≡ returned (binding_problems repr unhashable c (declared f) extra)
  unfolding rate_flow
  rate-declared omitted extra c = refl
  rate-declared authorization extra c = refl
  rate-declared upfront extra c = refl
  rate-declared escrow extra c = refl

  rate-declared_none :
      (f : Flow) (extra : Fields) → rate_flow repr unhashable (declared f) extra none ≡ returned []
  unfolding rate_flow
  rate-declared_none omitted extra = refl
  rate-declared_none authorization extra = refl
  rate-declared_none upfront extra = refl
  rate-declared_none escrow extra = refl

  declared-Rated : (f : Flow) (extra : Fields) (b : Option Binding) → Rated (declared f) extra b
  declared-Rated f extra none = ([], rate-declared_none f extra, (λ h b g q. cc, λ h. refl))
  declared-Rated f extra (some (s, n)) =
      let same = binding_problems-eq-nil_iff repr unhashable s n f extra in
      (
        binding_problems repr unhashable (s, n) (declared f) extra,
        rate-declared f extra (s, n),
        (λ h. KeepsAt-declared f extra (s, n) (same.0 h), λ h. same.1 (h (s, n) f refl refl)),
      )

  pub rate_flow-Rated :
      (o : Option Json) (extra : Fields) (b : Option Binding)
      → is_unhashable o ≡ false
      → Rated o extra b
  unfolding rate_flow
  rate_flow-Rated o extra b h = elim (classify o h) [
    | inl (f, q) ↦ subst (λ o. Rated o extra b) (sym q) (declared-Rated f extra b)
    | inr (u, other) ↦
        ([], rw (u, rate_flow) refl, ((λ t c g s d. elim (other g d) [ ]), λ k. refl))
  ]

  pub rate_flow-crash :
      (o : Option Json) (extra : Fields) (b : Option Binding)
      → is_unhashable o ≡ true
      → (exc : String) × (rate_flow repr unhashable o extra b ≡ raised exc)
  unfolding rate_flow
  rate_flow-crash none extra b h = ground arith
  rate_flow-crash (some Json.null) extra b h = ground arith
  rate_flow-crash (some (Json.bool c)) extra b h = ground arith
  rate_flow-crash (some (Json.int z)) extra b h = ground arith
  rate_flow-crash (some (Json.float s)) extra b h = ground arith
  rate_flow-crash (some (Json.str s)) extra b h = ground arith
  rate_flow-crash (some (Json.arr vs)) extra b h = (unhashable (Json.arr vs), refl)
  rate_flow-crash (some (Json.obj fs)) extra b h = (unhashable (Json.obj fs), refl)
