-- ===== src/Checks/PaymentRequired/Rails/Verdicts.antt =====
-- What the entries of a challenge are like that passes the checks of network, amount, scheme and
-- address.
use x402_conformance.Prelude.{
  some-inj, ℕ, String, refl, sym, subst, Bool, true, false, ◌≡◌, ◌≢◌, ◌↔◌, ◌⊎◌, Option, none, some,
  List, [], ◌∷◌, ◌++◌, arith, All, string_eq, not, ◌&&◌, ◌||◌, ◌==◌,
}
use x402_conformance.Json.{Json, Fields, get, as_str}
use x402_conformance.Checks.PaymentRequired.Patterns.{is_caip2, is_evm_address}
use x402_conformance.Checks.PaymentRequired.Patterns.Forms.{
  Caip2, Amount, Address, is_caip2_iff, is_atomic_amount_iff, is_evm_address_iff,
}
use x402_conformance.Checks.PaymentRequired.{accepts_raw}
use x402_conformance.Probe.{Probe}
use x402_conformance.Checks.Base.{Status, pass, fail}
use x402_conformance.Checks.PaymentRequired.Loops.{Finds, append-eq-nil_iff, inspected_iff}
use x402_conformance.Checks.PaymentRequired.Rails.{
  namespace_of, network_problems, amount_problems, scheme_problems, value_problem,
  namespace_problem, namespace_problems, pr_006, pr_007, pr_013, pr_017,
}

-- There is a text, and it has the property.
abbrev TextAt : (String → Type 0) → Option String → Type 0
TextAt P o = (s : String) × (o ≡ some s) × P s

-- If there is a text, it has the property.
abbrev TextThen : (String → Type 0) → Option String → Type 0
TextThen P o = (s : String) → o ≡ some s → P s

TextAt-iff :
    (P : String → Type 0) (o : Option String) (fault : List String) (f : String → List String)
    → fault ≢ []
    → ((s : String) → (f s ≡ []) ↔ P s)
    → (elim o [ none ↦ fault | some s ↦ f s ] ≡ []) ↔ TextAt P o
TextAt-iff P none fault f n k = ((λ h. elim (n h) [ ]), λ (s, q, t). cc)
TextAt-iff P (some s) fault f n k =
    ((λ h. (s, refl, (k s).0 h)), λ (u, q, t). (k s).1 (subst P (sym (some-inj q)) t))

field_iff :
    (P : String → Type 0) (o : Option String) (f : String → List String)
    → ((s : String) → (f s ≡ []) ↔ P s)
    → (elim o [ none ↦ [] | some s ↦ f s ] ≡ []) ↔ TextThen P o
field_iff P none f k = ((λ h s q. cc), λ h. refl)
field_iff P (some s) f k = ((λ h u q. subst P (some-inj q) ((k s).0 h)), λ h. (k s).1 (h s refl))

str_and_iff :
    (test : String → Bool) (P : String → Type 0) (o : Option String)
    → ((s : String) → (test s ≡ true) ↔ P s)
    → (elim o [ none ↦ false | some s ↦ test s ] ≡ true) ↔ TextAt P o
str_and_iff test P none k = ((λ h. cc), λ (s, q, t). cc)
str_and_iff test P (some s) k =
    ((λ h. (s, refl, (k s).0 h)), λ (u, q, t). (k s).1 (subst P (sym (some-inj q)) t))

-- The predicates of the entries.
abbrev pub HasNetwork : Fields → Type 0
HasNetwork e = TextAt Caip2 (as_str (get e "network"))

abbrev pub HasAmount : Fields → Type 0
HasAmount e = TextAt Amount (as_str (get e "amount"))

-- One of the four schemes.
abbrev pub IsKnown : String → Type 0
IsKnown s = (s ≡ "exact") ⊎ ((s ≡ "upto") ⊎ ((s ≡ "batch-settlement") ⊎ (s ≡ "auth-capture")))

abbrev pub HasKnownScheme : Fields → Type 0
HasKnownScheme e = TextThen IsKnown (as_str (get e "scheme"))

-- An address of the family: EVM addresses on eip155, and none on solana and xrpl.
abbrev pub IsOfFamily : String → String → Type 0
IsOfFamily namespace value =
    (namespace ≡ "eip155" → Address value)
    × ((namespace ≡ "solana") ⊎ (namespace ≡ "xrpl") → ¬ Address value)

abbrev AllOfFamily : Fields → Option String → Type 0
AllOfFamily e none = Unit
AllOfFamily e (some namespace) =
    TextThen (IsOfFamily namespace) (as_str (get e "payTo"))
    × TextThen (IsOfFamily namespace) (as_str (get e "asset"))

-- Recipient and asset are addresses of the family that the network names, if it names one.
abbrev pub HasFamily : Fields → Type 0
HasFamily e = AllOfFamily e (namespace_of (get e "network"))

family_of :
    (n : String) (A : Type 0) (looks_evm : Bool)
    → (looks_evm ≡ true) ↔ A
    → ((not ((n == "eip155") && not looks_evm) && not ((n == "solana" || n == "xrpl") && looks_evm))
        ≡ true)
      ↔ ((n ≡ "eip155" → A) × ((n ≡ "solana") ⊎ (n ≡ "xrpl") → ¬ A))
family_of n A looks_evm k = ground (
  arith,
  k,
  string_eq.beq_iff n "eip155",
  string_eq.beq_iff n "solana",
  string_eq.beq_iff n "xrpl",
)

module _ (repr : Json → String) where
  value_problem_iff :
      (i : ℕ) (network : Option String) (n field s : String)
      → (value_problem repr i network n field s ≡ []) ↔ IsOfFamily n s
  value_problem_iff i network n field s =
      let family = family_of n (Address s) (is_evm_address s) (is_evm_address_iff s) in
      (λ h. family.0 (ground (arith, h)), λ h. ground (arith, family.1 h))

  family_iff :
      (i : ℕ) (e : Fields) (o : Option String)
      → (elim o [
        | none ↦ []
        | some n ↦ namespace_problem repr i e n "payTo" ++ namespace_problem repr i e n "asset"
      ]
          ≡ [])
        ↔ AllOfFamily e o
  family_iff i e none = ground arith
  family_iff i e (some n) =
      let network = as_str (get e "network") in
      let split =
        append-eq-nil_iff (namespace_problem repr i e n "payTo")
          (namespace_problem repr i e n "asset") in
      let pay_to =
        field_iff (IsOfFamily n) (as_str (get e "payTo")) _
          (value_problem_iff i network n "payTo") in
      let asset =
        field_iff (IsOfFamily n) (as_str (get e "asset")) _
          (value_problem_iff i network n "asset") in
      (
        (λ h. let (p, a) = split.0 h in (pay_to.0 p, asset.0 a)),
        λ (p, a). split.1 (pay_to.1 p, asset.1 a),
      )

  namespace_problems_iff : Finds (namespace_problems repr) HasFamily
  unfolding namespace_problems
  namespace_problems_iff i e = family_iff i e (namespace_of (get e "network"))

  network_problems_iff : Finds (network_problems repr) HasNetwork
  unfolding network_problems
  network_problems_iff i e =
      let network = str_and_iff is_caip2 Caip2 (as_str (get e "network")) is_caip2_iff in
      (λ h. network.0 (ground (arith, h)), λ h. ground (arith, network.1 h))

  amount_problems_iff : Finds (amount_problems repr) HasAmount
  unfolding amount_problems
  amount_problems_iff i e =
      TextAt-iff Amount (as_str (get e "amount")) _ _ (λ h. cc)
        (λ s.
          let amount = is_atomic_amount_iff s in
          (λ h. amount.0 (ground (arith, h)), λ h. ground (arith, amount.1 h)))

  scheme_problems_iff : Finds (scheme_problems repr) HasKnownScheme
  unfolding scheme_problems
  scheme_problems_iff i e = field_iff IsKnown (as_str (get e "scheme")) _ (λ s. ground (
    arith,
    string_eq.beq_iff "exact" s,
    string_eq.beq_iff "upto" s,
    string_eq.beq_iff "batch-settlement" s,
    string_eq.beq_iff "auth-capture" s,
  ))

  abbrev pub Passes : (Fields → Type 0) → List Fields → Status × String → Type 0
  Passes Fine es result = ((result.0 ≡ pass) ↔ All Fine es) × ((result.0 ≡ fail) ↔ (¬ All Fine es))

  -- On a challenge with an entry, the checks of network, amount, scheme and address pass exactly if
  -- every entry has a network of CAIP-2's form, an amount of decimal digits, a scheme that is one of the
  -- four known ones if it is a text, and in each of `payTo` and `asset` that is a text, an EVM address
  -- where the namespace of the network is eip155 and no EVM address where it is solana or xrpl; and they
  -- fail exactly if not. Behind a network, an amount or an address there may be one line feed.
  pub rails_iff :
      (p : Probe) (e : Fields) (es : List Fields)
      → accepts_raw p ≡ some (e ∷ es)
      → Passes HasNetwork (e ∷ es) (pr_006 repr p)
        × Passes HasAmount (e ∷ es) (pr_007 repr p)
        × Passes HasKnownScheme (e ∷ es) (pr_017 repr p)
        × Passes HasFamily (e ∷ es) (pr_013 repr p)
  unfolding pr_006 pr_007 pr_017 pr_013
  rails_iff p e es a = rw a (
    inspected_iff (network_problems repr) HasNetwork network_problems_iff (e ∷ es) _ _ _ refl,
    inspected_iff (amount_problems repr) HasAmount amount_problems_iff (e ∷ es) _ _ _ refl,
    inspected_iff (scheme_problems repr) HasKnownScheme scheme_problems_iff (e ∷ es) _ _ _ refl,
    inspected_iff (namespace_problems repr) HasFamily namespace_problems_iff (e ∷ es) _ _ _ refl,
  )
