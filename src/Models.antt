-- ===== src/Models.antt =====
-- models.py: the strict schemas of the settlement and verification answers.
pub mod Laws
pub mod Challenge
pub mod Supported
use Prim.Native.Char.{code}
use x402_conformance.Prelude.{
  ℕ, zero, suc, String, Bool, true, false, Option, none, some, ◌==◌, nat_eq, string_eq, leb, ◌&&◌,
  ◌||◌, not, is_none, if◌then◌else◌, starts_with,
}
use x402_conformance.Json.{Json, Fields, get}

pub record SettlementResponse : Type 0 where
  pub success : Bool
  pub transaction : String
  pub network : String
  pub error_reason : Option String
  pub payer : Option String
  pub amount : Option String

pub record VerifyResponse : Type 0 where
  pub is_valid : Bool
  pub invalid_reason : Option String
  pub payer : Option String

infixl 5 ◌>>=◌
abbrev pub ◌>>=◌ {ℓ κ} : {A : Type ℓ} {B : Type κ} → Option A → (A → Option B) → Option B
none >>= f = none
some a >>= f = f a

abbrev pub check : Bool → Option (Unit {0})
check true = some tt
check false = none

-- A field that goes by its alias or, with `populate_by_name`, by its own name.
unfoldable pub get_field : Fields → String → String → Option Json
get_field fs alias name = elim (get fs alias) [ some v ↦ some v | none ↦ get fs name ]

-- A required `str`, a required `bool`, and `str | None` with default None, in strict mode.
abbrev pub strict_str : Option Json → Option String
strict_str (some (Json.str s)) = some s
strict_str _ = none

abbrev pub strict_bool : Option Json → Option Bool
strict_bool (some (Json.bool b)) = some b
strict_bool _ = none

abbrev pub optional_str : Option Json → Option (Option String)
optional_str none = some none
optional_str (some Json.null) = some none
optional_str (some (Json.str s)) = some (some s)
optional_str _ = none

-- `dict[str, object] | None`
abbrev pub optional_dict : Option Json → Option (Unit {0})
optional_dict none = some tt
optional_dict (some Json.null) = some tt
optional_dict (some (Json.obj fs)) = some tt
optional_dict _ = none

is_hex : ℕ → Bool
is_hex c = (leb b'0' c && leb c b'9') || (leb b'a' c && leb c b'f') || (leb b'A' c && leb c b'F')

unfoldable pub hex_run : ℕ → String → Bool
unfolding is_hex
hex_run zero String.[] = true
hex_run (suc n) (String.◌∷◌ c s) = is_hex (code c) && hex_run n s
hex_run _ _ = false

-- `_EVM_TX_HASH.fullmatch(s)`
unfoldable pub is_evm_tx_hash : String → Bool
unfolding hex_run
is_evm_tx_hash (String.◌∷◌ c (String.◌∷◌ d s)) = code c == b'0' && code d == b'x' && hex_run 64 s
is_evm_tx_hash _ = false

-- `validate_transaction`
unfoldable pub transaction_ok : SettlementResponse → Bool
transaction_ok s =
    if s.success
    then (if s.transaction == ""
        then false
        else not (starts_with s.network "eip155:" && not (is_evm_tx_hash s.transaction)))
    else true

unfoldable pub is_pending : SettlementResponse → Bool
is_pending s =
    not s.success
    && elim s.error_reason [ none ↦ false | some reason ↦ reason == "settlement_pending" ]

-- The types of the fields.
unfoldable pub read_settlement : Fields → Option SettlementResponse
unfolding get_field
read_settlement fs = do
  success ← strict_bool (get fs "success")
  transaction ← strict_str (get fs "transaction")
  network ← strict_str (get fs "network")
  error_reason ← optional_str (get_field fs "errorReason" "error_reason")
  payer ← optional_str (get fs "payer")
  amount ← optional_str (get fs "amount")
  _ ← optional_dict (get fs "extensions")
  some (record {
    success = success;
    transaction = transaction;
    network = network;
    error_reason = error_reason;
    payer = payer;
    amount = amount;
  })

-- `SettlementResponse.model_validate`; `none` is the ValidationError
unfoldable pub settlement_of_json : Json → Option SettlementResponse
unfolding read_settlement transaction_ok
settlement_of_json (Json.obj fs) = do
  s ← read_settlement fs
  _ ← check (not (s.network == "") && transaction_ok s)
  some s
settlement_of_json _ = none

-- `not self.invalid_reason`
abbrev pub is_falsy : Option String → Bool
is_falsy none = true
is_falsy (some s) = s == ""

-- `validate_reason`
unfoldable pub reason_ok : VerifyResponse → Bool
reason_ok v =
    if v.is_valid && not (is_none v.invalid_reason)
    then false
    else not (not v.is_valid && is_falsy v.invalid_reason)

unfoldable pub read_verify : Fields → Option VerifyResponse
unfolding get_field
read_verify fs = do
  is_valid ← strict_bool (get_field fs "isValid" "is_valid")
  invalid_reason ← optional_str (get_field fs "invalidReason" "invalid_reason")
  payer ← optional_str (get fs "payer")
  some (record { is_valid = is_valid; invalid_reason = invalid_reason; payer = payer })

-- `VerifyResponse.model_validate`
unfoldable pub verify_of_json : Json → Option VerifyResponse
unfolding read_verify reason_ok
verify_of_json (Json.obj fs) = do v ← read_verify fs; _ ← check (reason_ok v); some v
verify_of_json _ = none
