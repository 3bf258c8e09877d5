-- ===== src/Safety/Allowlist.antt =====
-- The allowlist of safety.py is a boundary: what passes is on it, whatever was advertised.
use x402_conformance.Prelude.{
  ℕ, String, ◌≡◌, ◌≢◌, ◌↔◌, ◌⊎◌, refl, sym, ap, ◌∙◌, subst, inl, inr, Bool, true, false, not,
  Option, some, List, arith, Any, any_iff, Bool-cases, Option-cases, string_eq, nat_eq, ◌==◌,
  starts_with,
}
use x402_conformance.Json.{Json, as_str}
use x402_conformance.Safety.{
  SafetyViolation, no_valid_network, unsupported, Result, ok, err, ◌>>=◌, refuse, one_of,
  allowed_evm_networks, allowed_svm_networks, SafetyPolicy, default_safety_policy, RpcReply,
  missing, url_or_empty, network_chain_id, require_safe_text, require_safe_network,
  read_rpc_chain_id, require_matching_rpc,
}
use x402_conformance.Safety.Digits.{Unicode}

abbrev pub Listed : String → List String → Type 0
Listed s names = Any (λ n. n ≡ s) names

one_of_iff : (s : String) (names : List String) → (one_of s names ≡ true) ↔ Listed s names
one_of_iff s = any_iff (λ n. n == s) (λ n. n ≡ s) (λ n. string_eq.beq_iff n s)

module _ {ℓ κ} {A : Type ℓ} {B : Type κ} (next : A → Result B) {out : B} where
  >>=-eq-ok : (m : Result A) → (m >>= next) ≡ ok out → (a : A) × (m ≡ ok a) × (next a ≡ ok out)
  >>=-eq-ok (err e) h = cc
  >>=-eq-ok (ok a) h = (a, refl, h)

refuse-bind {ℓ} :
    {B : Type ℓ} (t : Bool) (e : SafetyViolation) (f : Unit {0} → Result B) {b : B}
    → (refuse t e >>= f) ≡ ok b
    → (t ≡ false) × (f tt ≡ ok b)
refuse-bind true e f h = cc
refuse-bind false e f h = (refl, h)

module _ (unicode : Unicode) where
  -- A network that the policy admits for payment.
  abbrev pub Admits : SafetyPolicy → String → Type 0
  Admits policy s =
      ((starts_with s "eip155:" ≡ true)
        × Listed s policy.evm
        × ((id : ℕ) × (network_chain_id unicode s ≡ ok id)))
      ⊎ ((starts_with s "eip155:" ≡ false) × (starts_with s "solana:" ≡ true) × Listed s policy.svm)

  safe_text-Admits :
      (policy : SafetyPolicy) (s r : String)
      → require_safe_text unicode policy s ≡ ok r
      → (s ≡ r) × Admits policy s
  unfolding require_safe_text
  safe_text-Admits policy s r h = elim (Bool-cases (starts_with s "eip155:")) [
    | inl evm ↦
        let (id, parsed, h₁) =
          >>=-eq-ok _ (network_chain_id unicode s) (rw (evm, require_safe_text) at h) in
        let (on_list, h₂) = refuse-bind (not (one_of s policy.evm)) _ _ h₁ in
        let listed = (one_of_iff s policy.evm).0 (ground arith) in
        (cc h₂, inl (evm, listed, (id, parsed)))
    | inr other ↦ elim (Bool-cases (starts_with s "solana:")) [
      | inl svm ↦
          let (on_list, h₁) =
            refuse-bind (not (one_of s policy.svm)) _ _ (rw (other, svm, require_safe_text) at h) in
          let listed = (one_of_iff s policy.svm).0 (ground arith) in
          (cc h₁, inr (other, svm, listed))
      | inr neither ↦
          let refused : ◌≡◌ {A = Result String} (err (unsupported s)) (ok r) =
            (rw (other, neither, require_safe_text) at h) in
          cc
    ]
  ]

  Admits-safe_text :
      (policy : SafetyPolicy) (s : String)
      → Admits policy s
      → require_safe_text unicode policy s ≡ ok s
  unfolding require_safe_text
  Admits-safe_text policy s (inl (evm, listed, (id, parsed))) =
      rw (evm, parsed, (one_of_iff s policy.evm).1 listed)
  Admits-safe_text policy s (inr (evm, svm, listed)) =
      rw (evm, svm, (one_of_iff s policy.svm).1 listed)

  -- `require_safe_network` returns a text exactly when the network is that text, not empty, and
  -- either an EVM identifier with a chain ID that is on the EVM list, or a Solana one on the SVM list.
  pub require_safe_network_iff :
      (policy : SafetyPolicy) (network : Option Json) (r : String)
      → (require_safe_network unicode policy network ≡ ok r)
        ↔ ((as_str network ≡ some r) × (r ≢ "") × Admits policy r)
  unfolding require_safe_network
  require_safe_network_iff policy network r = (
    λ h. elim (Option-cases (as_str network)) [
      | inl absent ↦
          let refused : ◌≡◌ {A = Result String} (err no_valid_network) (ok r) =
            (rw (absent, require_safe_network) at h) in
          cc
      | inr (s, present) ↦ elim (Bool-cases (s == "")) [
        | inl empty ↦
            let refused : ◌≡◌ {A = Result String} (err no_valid_network) (ok r) =
              (rw (present, empty, require_safe_network) at h) in
            cc
        | inr text ↦
            let (same, admitted) =
              safe_text-Admits policy s r (rw (present, text, require_safe_network) at h) in
            (
              present ∙ ap some same,
              λ e. cc (text, (string_eq.beq_iff s "").1 (same ∙ e)),
              subst (Admits policy) same admitted,
            )
      ]
    ],
    λ (present, text, admitted).
        let named : (r == "") ≡ false = ground (arith, string_eq.beq_iff r "") in
        rw (present, named, require_safe_network) (Admits-safe_text policy r admitted),
  )

  -- Every network that the default policy lets through is one of the seven reviewed identifiers.
  pub default-Listed :
      (network : Option Json) (r : String)
      → require_safe_network unicode default_safety_policy network ≡ ok r
      → Listed r allowed_evm_networks ⊎ Listed r allowed_svm_networks
  default-Listed network r h =
      let (_, _, admitted) = (require_safe_network_iff default_safety_policy network r).0 h in
      ground arith

  -- A chain ID is returned only if the network passes the policy and is an EVM one, an RPC URL is
  -- given, and the ID that the RPC reports is the network's own.
  pub record Matches (policy : SafetyPolicy) (post : String → RpcReply) (network : Option Json)
      (rpc_url : Option String) (actual : ℕ) : Type 0 where
    pub safe : String
    pub passed : require_safe_network unicode policy network ≡ ok safe
    pub evm : starts_with safe "eip155:" ≡ true
    pub given : missing rpc_url ≡ false
    pub expected : network_chain_id unicode safe ≡ ok actual
    pub reported : read_rpc_chain_id unicode post (url_or_empty rpc_url) ≡ ok actual

  pub require_matching_rpc-Matches :
      (policy : SafetyPolicy) (post : String → RpcReply) (network : Option Json)
      (rpc_url : Option String) (actual : ℕ)
      → require_matching_rpc unicode post policy network rpc_url ≡ ok actual
      → Matches policy post network rpc_url actual
  unfolding require_matching_rpc
  require_matching_rpc-Matches policy post network rpc_url actual h =
      let (safe, passed, h₁) = >>=-eq-ok _ (require_safe_network unicode policy network) h in
      let (is_evm, h₂) = refuse-bind (not (starts_with safe "eip155:")) _ _ h₁ in
      let (given, h₃) = refuse-bind (missing rpc_url) _ _ h₂ in
      let (expected, parsed, h₄) = >>=-eq-ok _ (network_chain_id unicode safe) h₃ in
      let (id, reported, h₅) =
        >>=-eq-ok _ (read_rpc_chain_id unicode post (url_or_empty rpc_url)) h₄ in
      let (matching, h₆) = refuse-bind (not (id == expected)) _ _ h₅ in
      let same : id ≡ expected = ground (arith, nat_eq.beq_iff id expected) in
      let returned : id ≡ actual = cc h₆ in
      record {
        safe = safe;
        passed = passed;
        evm = ground arith;
        given = given;
        expected = parsed ∙ ap ok (sym same ∙ returned);
        reported = reported ∙ ap ok returned;
      }
