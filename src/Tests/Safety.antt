-- ===== src/Tests/Safety.antt =====
-- safety.py on Base Sepolia, on Base and on a local RPC.
use x402_conformance.Prelude.{String, ◌≡◌, ◌↔◌, ◌⊎◌, refl, Option, some, Any, arith}
use x402_conformance.Json.{Json, Fields, get, as_str}
use x402_conformance.Safety.{
  RpcReply, default_safety_policy, ok, err, SafetyViolation, allowed_evm_networks,
  allowed_svm_networks, network_chain_id, chain_id_of_reply, require_safe_text,
  require_safe_network, read_rpc_chain_id, require_matching_rpc,
}
use x402_conformance.Safety.Digits.{
  HasAscii, ascii, partition_colon, is_decimal, int_of, int_base16,
}
use x402_conformance.Safety.Allowlist.{Listed}
use x402_conformance.Safety.Default.{default_iff, default_chain_id, allowed_chain_ids}

ascii-HasAscii : HasAscii ascii
ascii-HasAscii = record { at = λ d h. ground (arith, h) }

abbrev base_sepolia : Option Json
base_sepolia = some (Json.str "eip155:84532")

abbrev base : Option Json
base = some (Json.str "eip155:8453")

abbrev local_rpc : String → RpcReply
local_rpc url =
    RpcReply.reply 200 (some (Json.obj (Fields.field "result" (Json.str "0x14a34") Fields.end)))

base_refused :
    require_safe_network ascii default_safety_policy base
    ≡ err (SafetyViolation.not_in_allowlist "eip155:8453")
unfolding require_safe_network require_safe_text network_chain_id partition_colon is_decimal int_of
base_refused = refl

rpc_accepted :
    require_matching_rpc ascii local_rpc default_safety_policy base_sepolia
      (some "http://localhost:8545")
    ≡ ok 84532
unfolding require_matching_rpc require_safe_network require_safe_text network_chain_id
    partition_colon is_decimal int_of read_rpc_chain_id chain_id_of_reply int_base16 get
rpc_accepted = refl

default_iff_example : (require_safe_network ascii default_safety_policy base ≡ ok "eip155:8453") ↔ (
    (as_str base ≡ some "eip155:8453")
    × (Listed "eip155:8453" allowed_evm_networks ⊎ Listed "eip155:8453" allowed_svm_networks))
default_iff_example = default_iff ascii ascii-HasAscii base "eip155:8453"

default_chain_id_example : Any (λ n. n ≡ 84532) allowed_chain_ids
default_chain_id_example =
    default_chain_id ascii ascii-HasAscii local_rpc base_sepolia (some "http://localhost:8545")
      84532 rpc_accepted
