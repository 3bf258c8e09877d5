-- ===== src/Safety.antt =====
-- safety.py: which networks a payment may be signed for, and the check of the RPC's chain.
-- The exceptions carry the values that their texts show.
pub mod Digits
pub mod Allowlist
pub mod Default
use Prim.Native.String.{count}
use x402_conformance.Prelude.{
  ℕ, String, Bool, true, false, Option, none, some, List, [], ◌∷◌, not, any, ◌||◌, ◌==◌, nat_eq,
  string_eq, if◌then◌else◌, starts_with, contains, ltb,
}
use x402_conformance.Json.{Json, Fields, get, as_str}
use Digits.{max_str_digits, Unicode, partition_colon, is_decimal, int_of, int_base16}

-- The exceptions of the module.
pub data SafetyViolation : Type 0 where
  no_valid_network : SafetyViolation
  not_evm_caip2 : String → SafetyViolation
  not_in_allowlist : String → SafetyViolation
  unsupported : String → SafetyViolation
  evm_only : SafetyViolation
  rpc_url_required : SafetyViolation
  chain_mismatch : String → ℕ → SafetyViolation
  rpc_unreachable : SafetyViolation
  rpc_redirect : ℕ → SafetyViolation
  rpc_status : ℕ → SafetyViolation
  rpc_malformed : SafetyViolation
  rpc_invalid_chain_id : SafetyViolation
  pqc_test_key : SafetyViolation
  -- No SafetyViolation: the plain ValueError of `int` for a text of too many digits.
  int_digit_limit : SafetyViolation

-- `except SafetyViolation`
abbrev pub is_violation : SafetyViolation → Bool
is_violation int_digit_limit = false
is_violation _ = true

pub data Result {ℓ} (A : Type ℓ) : Type ℓ where
  err : SafetyViolation → Result A
  ok : A → Result A

-- `if test: raise e`
abbrev pub refuse : Bool → SafetyViolation → Result (Unit {0})
refuse true e = err e
refuse false e = ok tt

infixl 5 ◌>>=◌
abbrev pub ◌>>=◌ {ℓ κ} : {A : Type ℓ} {B : Type κ} → Result A → (A → Result B) → Result B
err e >>= next = err e
ok a >>= next = next a

abbrev pub one_of : String → List String → Bool
one_of s names = any (λ n. n == s) names

-- The keys of `_ALLOWED_EVM_NETWORKS`.
abbrev pub allowed_evm_networks : List String
allowed_evm_networks =
    "eip155:1337" ∷ "eip155:31337" ∷ "eip155:84532" ∷ "eip155:11155111" ∷ "eip155:11142220" ∷ []

-- The keys of `_ALLOWED_SVM_NETWORKS`.
abbrev pub allowed_svm_networks : List String
allowed_svm_networks =
    "solana:EtWTRABZaYq6iMfeYKouRu166VU2xqa1" ∷ "solana:4uhcVJyU9pJkvQyS88uRDiswHXSCkY3z" ∷ []

-- `status in _REDIRECT_STATUS`
abbrev pub is_redirect : ℕ → Bool
is_redirect s = s == 301 || s == 302 || s == 303 || s == 307 || s == 308

pub record SafetyPolicy : Type 0 where
  pub evm : List String
  pub svm : List String

abbrev pub default_safety_policy : SafetyPolicy
default_safety_policy = record { evm = allowed_evm_networks; svm = allowed_svm_networks }

-- What `httpx.post` gave: a transport error, or a status and the body, if that is JSON.
pub data RpcReply : Type 0 where
  http_error : RpcReply
  reply : ℕ → Option Json → RpcReply

-- `body["result"] if isinstance(body, dict) else None`, if that is a text
abbrev pub result_text : Option Json → Option String
result_text (some (Json.obj fs)) = as_str (get fs "result")
result_text _ = none

-- `raw.startswith("0x")` and `int(raw, 16)`, where either failure is the ValueError
abbrev pub or_malformed : Bool → Option ℕ → Result ℕ
or_malformed false n = err rpc_malformed
or_malformed true none = err rpc_malformed
or_malformed true (some n) = if n == 0 then err rpc_invalid_chain_id else ok n

-- `not rpc_url`
abbrev pub missing : Option String → Bool
missing none = true
missing (some url) = url == ""

abbrev pub url_or_empty : Option String → String
url_or_empty none = ""
url_or_empty (some url) = url

module _ (unicode : Unicode) where
  unfoldable pub network_chain_id : String → Result ℕ
  network_chain_id network =
      let (namespace, behind) = partition_colon network in
      if not (namespace == "eip155") then err (not_evm_caip2 network) else elim behind [
        | none ↦ err (not_evm_caip2 network)
        | some reference ↦
            if is_decimal unicode reference
            then (if ltb max_str_digits (count reference)
                then err int_digit_limit
                else ok (int_of unicode reference))
            else err (not_evm_caip2 network)
      ]

  -- The part of `read_rpc_chain_id` behind the request.
  unfoldable pub chain_id_of_reply : RpcReply → Result ℕ
  chain_id_of_reply http_error = err rpc_unreachable
  chain_id_of_reply (reply status body) =
      if is_redirect status
      then err (rpc_redirect status)
      else if not (status == 200)
      then err (rpc_status status)
      else elim (result_text body) [
        | none ↦ err rpc_malformed
        | some raw ↦ or_malformed (starts_with raw "0x") (int_base16 unicode raw)
      ]

  unfoldable pub require_safe_text : SafetyPolicy → String → Result String
  require_safe_text policy network =
      if starts_with network "eip155:"
      then (do
        _ ← network_chain_id network
        _ ← refuse (not (one_of network policy.evm)) (not_in_allowlist network)
        ok network)
      else if starts_with network "solana:"
      then (do _ ← refuse (not (one_of network policy.svm)) (not_in_allowlist network); ok network)
      else err (unsupported network)

  unfoldable pub require_safe_network : SafetyPolicy → Option Json → Result String
  unfolding require_safe_text
  require_safe_network policy network = elim (as_str network) [
    | none ↦ err no_valid_network
    | some text ↦ if text == "" then err no_valid_network else require_safe_text policy text
  ]

  -- `post` sends the `eth_chainId` request to a URL.
  module _ (post : String → RpcReply) where
    unfoldable pub read_rpc_chain_id : String → Result ℕ
    unfolding chain_id_of_reply
    read_rpc_chain_id rpc_url = chain_id_of_reply (post rpc_url)

    unfoldable pub require_matching_rpc : SafetyPolicy → Option Json → Option String → Result ℕ
    require_matching_rpc policy network rpc_url = do
      safe_network ← require_safe_network policy network
      _ ← refuse (not (starts_with safe_network "eip155:")) evm_only
      _ ← refuse (missing rpc_url) rpc_url_required
      expected ← network_chain_id safe_network
      actual ← read_rpc_chain_id (url_or_empty rpc_url)
      _ ← refuse (not (actual == expected)) (chain_mismatch safe_network actual)
      ok actual

  unfoldable pub require_pqc_test_key_network : String → Option Json → Result (Unit {0})
  require_pqc_test_key_network key_id network =
      if not (contains key_id "TEST-ONLY")
      then ok tt
      else elim (require_safe_network default_safety_policy network) [
        | ok _ ↦ ok tt
        | err e ↦ if is_violation e then err pqc_test_key else err e
      ]
