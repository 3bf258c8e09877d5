-- ===== src/Safety/Default.antt =====
-- The default policy of safety.py: the chain IDs behind its five EVM networks.
use x402_conformance.Prelude.{
  ◌≢◌, ℕ, String, ◌≡◌, ◌↔◌, ◌⊎◌, refl, subst, inl, inr, true, false, Option, some, List, [], ◌∷◌,
  arith, Any, string_eq, starts_with,
}
use x402_conformance.Json.{Json, as_str}
use x402_conformance.Safety.{
  ok, allowed_evm_networks, allowed_svm_networks, default_safety_policy, RpcReply, network_chain_id,
  require_safe_network, require_matching_rpc,
}
use x402_conformance.Safety.Digits.{Unicode, HasAscii, partition_colon, is_decimal, int_of}
use x402_conformance.Safety.Allowlist.{
  Listed, require_safe_network_iff, default-Listed, require_matching_rpc-Matches,
}

abbrev pub allowed_chain_ids : List ℕ
allowed_chain_ids = 1337 ∷ 31337 ∷ 84532 ∷ 11155111 ∷ 11142220 ∷ []

module _ (unicode : Unicode) (h : HasAscii unicode) where
  d0 : unicode 48 ≡ some 0
  d0 = h.at 0 refl

  d1 : unicode 49 ≡ some 1
  d1 = h.at 1 refl

  d2 : unicode 50 ≡ some 2
  d2 = h.at 2 refl

  d3 : unicode 51 ≡ some 3
  d3 = h.at 3 refl

  d4 : unicode 52 ≡ some 4
  d4 = h.at 4 refl

  d5 : unicode 53 ≡ some 5
  d5 = h.at 5 refl

  d7 : unicode 55 ≡ some 7
  d7 = h.at 7 refl

  d8 : unicode 56 ≡ some 8
  d8 = h.at 8 refl

  local_chain : network_chain_id unicode "eip155:1337" ≡ ok 1337
  unfolding network_chain_id partition_colon is_decimal int_of
  local_chain = simp (d1, d3, d7)

  anvil : network_chain_id unicode "eip155:31337" ≡ ok 31337
  unfolding network_chain_id partition_colon is_decimal int_of
  anvil = simp (d1, d3, d7)

  base_sepolia : network_chain_id unicode "eip155:84532" ≡ ok 84532
  unfolding network_chain_id partition_colon is_decimal int_of
  base_sepolia = simp (d2, d3, d4, d5, d8)

  sepolia : network_chain_id unicode "eip155:11155111" ≡ ok 11155111
  unfolding network_chain_id partition_colon is_decimal int_of
  sepolia = simp (d1, d5)

  celo_sepolia : network_chain_id unicode "eip155:11142220" ≡ ok 11142220
  unfolding network_chain_id partition_colon is_decimal int_of
  celo_sepolia = simp (d0, d1, d2, d4)

  -- An allowed EVM identifier and its chain ID.
  abbrev HasChainId : String → Type 0
  HasChainId s =
      (id : ℕ) × (network_chain_id unicode s ≡ ok id) × Any (λ n. n ≡ id) allowed_chain_ids

  Listed-HasChainId : (s : String) → Listed s allowed_evm_networks → HasChainId s
  Listed-HasChainId s (inl e) = subst HasChainId e (1337, local_chain, inl refl)
  Listed-HasChainId s (inr (inl e)) = subst HasChainId e (31337, anvil, inr (inl refl))
  Listed-HasChainId s (inr (inr (inl e))) =
      subst HasChainId e (84532, base_sepolia, inr (inr (inl refl)))
  Listed-HasChainId s (inr (inr (inr (inl e)))) =
      subst HasChainId e (11155111, sepolia, inr (inr (inr (inl refl))))
  Listed-HasChainId s (inr (inr (inr (inr (inl e))))) =
      subst HasChainId e (11142220, celo_sepolia, inr (inr (inr (inr (inl refl)))))
  Listed-HasChainId s (inr (inr (inr (inr (inr none_left))))) = absurd none_left

  is_evm : (s : String) → Listed s allowed_evm_networks → starts_with s "eip155:" ≡ true
  is_evm s (inl e) = rw (← e)
  is_evm s (inr (inl e)) = rw (← e)
  is_evm s (inr (inr (inl e))) = rw (← e)
  is_evm s (inr (inr (inr (inl e)))) = rw (← e)
  is_evm s (inr (inr (inr (inr (inl e))))) = rw (← e)
  is_evm s (inr (inr (inr (inr (inr none_left))))) = absurd none_left

  is_svm :
      (s : String)
      → Listed s allowed_svm_networks
      → (starts_with s "eip155:" ≡ false) × (starts_with s "solana:" ≡ true)
  is_svm s (inl e) = rw (← e) (refl, refl)
  is_svm s (inr (inl e)) = rw (← e) (refl, refl)
  is_svm s (inr (inr none_left)) = absurd none_left

  Listed-not_empty :
      (s : String) → Listed s allowed_evm_networks ⊎ Listed s allowed_svm_networks → s ≢ ""
  Listed-not_empty s (inl l) e = cc (rw e at (is_evm s l))
  Listed-not_empty s (inr l) e = cc (rw e at ((is_svm s l).1))

  -- Where the ASCII digits have their values, the default policy lets a network through exactly when
  -- it is the text of one of the seven reviewed identifiers.
  pub default_iff :
      (network : Option Json) (r : String)
      → (require_safe_network unicode default_safety_policy network ≡ ok r) ↔ (
          (as_str network ≡ some r)
          × (Listed r allowed_evm_networks ⊎ Listed r allowed_svm_networks))
  default_iff network r =
      let iff = require_safe_network_iff unicode default_safety_policy network r in
      (
        λ passed. ((iff.0 passed).0, default-Listed unicode network r passed),
        λ (text, listed). iff.1 (
          text,
          Listed-not_empty r listed,
          elim listed [
            | inl l ↦
                let (id, parsed, _) = Listed-HasChainId r l in inl (is_evm r l, l, (id, parsed))
            | inr l ↦ let (other, svm) = is_svm r l in inr (other, svm, l)
          ],
        ),
      )

  -- Under the default policy a settlement goes ahead only on one of five local or test chains,
  -- whatever the endpoint advertises and whatever the RPC reports.
  pub default_chain_id :
      (post : String → RpcReply) (network : Option Json) (rpc_url : Option String) (actual : ℕ)
      → require_matching_rpc unicode post default_safety_policy network rpc_url ≡ ok actual
      → Any (λ n. n ≡ actual) allowed_chain_ids
  default_chain_id post network rpc_url actual h =
      let m =
        require_matching_rpc-Matches unicode default_safety_policy post network rpc_url actual h in
      let (_, _, admitted) =
        (require_safe_network_iff unicode default_safety_policy network m.safe).0 m.passed in
      let listed : Listed m.safe allowed_evm_networks = elim admitted [
        | inl (_, l, _) ↦ l
        | inr (other, _, _) ↦ let evm = m.evm in absurd (ground arith)
      ] in
      let (id, parsed, known) = Listed-HasChainId m.safe listed in
      let expected = m.expected in
      let same : id ≡ actual = cc in subst (λ i. Any (λ n. n ≡ i) allowed_chain_ids) same known
