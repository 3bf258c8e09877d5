-- ===== src/Checks/Payment/Transfer.antt =====
-- The proof of a settlement on the chain: its receipt and the one Transfer event in it. The client of
-- the chain is a parameter, whose answers are given by the parts that the code reads.
pub mod Proof
use Prim.Native.Char.{code}
use x402_conformance.Prelude.{
  ℕ, zero, suc, ◌-◌, String, Bool, false, Option, none, some, List, [], ◌∷◌, ◌++◌, keep, length,
  ◌==◌, string_eq, nat_eq, ◌&&◌, ◌||◌, not, if◌then◌else◌, fstring, decimal, join, starts_with,
}
use x402_conformance.Prelude.Int.{ℤ, is_nat}
use x402_conformance.Models.{hex_run, is_evm_tx_hash}
use x402_conformance.Payload.{decimal_int}
use x402_conformance.Safety.Digits.{Unicode, int_base16}
use x402_conformance.Checks.Base.{Status, pass, fail, skip, status_eq}
use x402_conformance.Checks.PaymentRequired.{fail_if}

-- A value of a receipt: bytes, by their hexadecimal digits, or another value, by its text.
pub data Value : Type 0 where
  bytes shown : String → Value

-- `_EVM_ADDRESS_RE.fullmatch(s)`, which lets no line feed through
unfoldable pub fullmatch_address : String → Bool
unfolding hex_run
fullmatch_address (String.◌∷◌ c (String.◌∷◌ d s)) = code c == b'0' && code d == b'x' && hex_run 40 s
fullmatch_address _ = false

-- `_hex`
abbrev pub hex : Value → String
hex (bytes digits) = fstring ("0x" ∷ digits ∷ [])
hex (shown text) = if starts_with text "0x" then text else fstring ("0x" ∷ text ∷ [])

-- A log. A part is missing if reading it raises a KeyError or a TypeError, of which `fault` is the name.
pub record Log : Type 0 where
  pub address : Option String
  pub topics : Option (List Value)
  pub log_data : Option Value
  pub fault : String

pub record Receipt : Type 0 where
  pub transaction_hash : Option Value
  pub status : Option ℤ
  pub fault : String
  pub logs : List Log
  pub block : String

-- What the look-up of a receipt comes to.
pub data Lookup : Type 0 where
  no_web3 : Lookup
  not_found : String → Lookup
  found : Receipt → Lookup

abbrev pub transfer_topic : String
transfer_topic = "0xddf252ad1be2c89b69c2b068fc378daa952ba7f163c4a11628f55a4df523b3ef"

-- s.removeprefix("0x")
abbrev pub without_0x : String → String
without_0x (String.◌∷◌ c (String.◌∷◌ d s)) =
    if code c == b'0' && code d == b'x' then s else String.◌∷◌ c (String.◌∷◌ d s)
without_0x s = s

abbrev text_length : String → ℕ
text_length String.[] = 0
text_length (String.◌∷◌ c s) = suc (text_length s)

abbrev zeros : ℕ → String → String
zeros zero s = s
zeros (suc n) s = fstring ("0" ∷ zeros n s ∷ [])

-- s.rjust(64, "0")
abbrev pub padded : String → String
padded s = zeros (64 - text_length s) s

abbrev malformed_log : String → Status × String
malformed_log fault = (fail, fstring ("malformed Transfer log: " ∷ fault ∷ []))

abbrev pub with_block : String → Status × String → Status × String
with_block block (status, detail) =
    if status == pass
    then (status, fstring (detail ∷ " (block " ∷ block ∷ ")" ∷ []))
    else (status, detail)

abbrev pub problem : Bool → String → List String
problem b text = if b then text ∷ [] else []

-- `unicode` and `lower` are Python's, and `repr` is `repr` of a text.
module _ (lower : String → String) where
  -- `_address_topic`
  abbrev pub address_topic : String → String
  address_topic address = fstring ("0x" ∷ padded (lower (without_0x address)) ∷ [])

  abbrev is_transfer_topic : Option (List Value) → Bool
  is_transfer_topic (some (t ∷ ts)) = lower (hex t) == transfer_topic
  is_transfer_topic _ = false

  abbrev pub other_hash : String → Option Value → Bool
  other_hash tx none = false
  other_hash tx (some h) = not (lower (hex h) == lower tx)

  abbrev pub is_transfer : String → Log → Bool
  is_transfer asset log = elim log.address [
    | none ↦ false
    | some address ↦ lower address == lower asset && is_transfer_topic log.topics
  ]

  module _ (asset payer pay_to : String) (amount : ℤ) where
    abbrev pub transfer_problems : Value → Value → ℕ → List String
    transfer_problems from to actual =
        problem (not (lower (hex from) == address_topic payer)) "payer/from does not match signer"
        ++ problem (not (lower (hex to) == address_topic pay_to))
            "recipient/to does not match payTo"
        ++ problem (not (is_nat amount actual))
            (fstring ("amount " ∷ decimal actual ∷ " != required " ∷ decimal_int amount ∷ []))

    abbrev pub judge_amount : Value → Value → Option ℕ → Status × String
    judge_amount from to none = malformed_log "ValueError"
    judge_amount from to (some actual) =
        let problems = transfer_problems from to actual in
        fail_if problems (join "; " problems) (
          pass,
          fstring (
              "Transfer "
              ∷ decimal_int amount
              ∷ " "
              ∷ asset
              ∷ " from "
              ∷ payer
              ∷ " to "
              ∷ pay_to
              ∷ " proven on-chain"
              ∷ []),
        )

    module _ (unicode : Unicode) (repr : String → String) where
      abbrev pub judge_data : Log → Value → Value → Option Value → Status × String
      judge_data log from to none = malformed_log log.fault
      judge_data log from to (some value) = judge_amount from to (int_base16 unicode (hex value))

      abbrev pub judge_topics : Log → Option (List Value) → Status × String
      judge_topics log none = malformed_log log.fault
      judge_topics log (some (t ∷ from ∷ to ∷ [])) = judge_data log from to log.log_data
      judge_topics log (some topics) = (
        fail,
        fstring ("Transfer log has " ∷ decimal (length topics) ∷ " topics, expected 3" ∷ []),
      )

      abbrev pub judge_logs : List Log → Status × String
      judge_logs (log ∷ []) = judge_topics log log.topics
      judge_logs logs = (
        fail,
        fstring (
            "expected exactly one Transfer from asset "
            ∷ asset
            ∷ ", found "
            ∷ decimal (length logs)
            ∷ " (missing transfer or multiple-transfer/fee-on-transfer ambiguity)"
            ∷ []),
      )

      unfoldable pub verify_transfer_logs : List Log → Status × String
      unfolding fullmatch_address int_base16
      verify_transfer_logs logs =
          if not (fullmatch_address asset && fullmatch_address payer && fullmatch_address pay_to)
          then (fail, "cannot verify transfer: malformed asset/payer/payTo address")
          else judge_logs (keep (is_transfer asset) logs)

      abbrev pub judge_status : String → Receipt → Option ℤ → Status × String
      judge_status tx r none = (fail, fstring ("malformed transaction receipt: " ∷ r.fault ∷ []))
      judge_status tx r (some status) =
          if not (is_nat status 1)
          then (fail, fstring ("tx " ∷ tx ∷ " reverted (status " ∷ decimal_int status ∷ ")" ∷ []))
          else with_block r.block (verify_transfer_logs r.logs)

      abbrev pub judge_lookup : String → Lookup → Status × String
      judge_lookup tx no_web3 =
          (skip, "web3 not installed (install the [onchain] extra; see README \"Install\")")
      judge_lookup tx (not_found exc) =
          (fail, fstring ("tx " ∷ tx ∷ " not found on-chain: " ∷ exc ∷ []))
      judge_lookup tx (found r) =
          if other_hash tx r.transaction_hash
          then (fail, "RPC receipt transactionHash does not match settlement response")
          else judge_status tx r r.status

      -- `look_up` is the client of the chain.
      unfoldable pub verify_tx_onchain : (String → Lookup) → String → Status × String
      unfolding verify_transfer_logs is_evm_tx_hash
      verify_tx_onchain look_up tx =
          if not (is_evm_tx_hash tx)
          then (
            fail,
            fstring ("settlement transaction " ∷ repr tx ∷ " is not a canonical EVM tx hash" ∷ []),
          )
          else judge_lookup tx (look_up tx)
