-- ===== src/Payload.antt =====
-- payload_builder.py: an `exact` EIP-3009 payment, and its tampered forms. `none` is an exception.
pub mod Signed
pub mod Tamper
use Prim.Native.Char.{Char, code}
use Prim.Native.String
use mathlib.Core.Option
use x402_conformance.Prelude.{
  ℕ, zero, suc, ◌-◌, nat_eq, List, [], ◌∷◌, ◌+◌, String, Bool, true, false, Option, none, some,
  ◌==◌, string_eq, ◌&&◌, not, if◌then◌else◌, fstring, decimal, starts_with,
}
use x402_conformance.Prelude.Int.{ℤ, pos, negsuc, sub_ℕ}
use x402_conformance.Json.{Json, Fields, get, as_str, is_truthy, set_field}
use x402_conformance.Models.{◌>>=◌, check}
use x402_conformance.Checks.PathVariants.Escape.{hex_value}
use x402_conformance.Safety.Digits.{Unicode, int_text, partition_colon}

-- The dict under `payload.authorization`; the recipient is taken from the offer as it is.
pub record Authorization : Type 0 where
  pub from : String
  pub to : Json
  pub value : String
  pub valid_after : String
  pub valid_before : String
  pub nonce : String

-- The dict of a payment payload, whose keys are fixed; `resource` is the URL in it.
pub record PaymentPayload : Type 0 where
  pub x402_version : ℕ
  pub accepted : Fields
  pub signature : String
  pub authorization : Authorization
  pub extensions : Fields
  pub resource : Option String

-- The EIP-712 domain and message that are signed.
pub record TypedData : Type 0 where
  pub name : Json
  pub version : Json
  pub chain_id : ℤ
  pub verifying_contract : Json
  pub from : String
  pub to : Json
  pub value : ℤ
  pub valid_after : ℤ
  pub valid_before : ℤ
  pub nonce : String

-- What the code takes from Python and from `eth_account`: the Unicode database, `str` and `int` of
-- a JSON value that is no text and no int, `bytes.fromhex` behind the prefix, the account's address,
-- its signature, and the address that a signature recovers to.
pub record Library : Type 0 where
  pub unicode : Unicode
  pub show : Json → String
  pub truncate : Json → Option ℤ
  pub from_hex : String → Option String
  pub address : String
  pub sign : TypedData → Option String
  pub recover : TypedData → String → Option String
  pub lower : String → String

-- `str(z)`
abbrev pub decimal_int : ℤ → String
decimal_int (pos n) = decimal n
decimal_int (negsuc n) = fstring ("-" ∷ decimal (n + 1) ∷ [])

-- a + z
abbrev pub add_int : ℕ → ℤ → ℤ
add_int a (pos b) = pos (a + b)
add_int a (negsuc b) = sub_ℕ a (b + 1)

module _ (lib : Library) where
  -- `str(value)`
  abbrev pub str_of : Json → String
  str_of (Json.str s) = s
  str_of (Json.int z) = decimal_int z
  str_of j = lib.show j

  -- `int(value)`
  abbrev pub int_value : Json → Option ℤ
  int_value (Json.str s) = int_text lib.unicode s
  int_value (Json.int z) = some z
  int_value j = lib.truncate j

  -- `int(requirements.get("maxTimeoutSeconds", 300))`
  abbrev pub timeout_of : Option Json → Option ℤ
  timeout_of none = some (pos 300)
  timeout_of (some j) = int_value j

  unfoldable pub chain_id_from_caip2 : Json → Option ℤ
  unfolding partition_colon int_text
  chain_id_from_caip2 (Json.str network) =
      if starts_with network "eip155:"
      then elim (partition_colon network).1 [
        | none ↦ none
        | some reference ↦ int_text lib.unicode reference
      ]
      else none
  chain_id_from_caip2 _ = none

  -- `requirements.get("extra") or {}`, of which `get` is called
  abbrev pub extra_of : Option Json → Option Fields
  extra_of (some (Json.obj fs)) = some fs
  extra_of o = if is_truthy o then none else some Fields.end

  -- The domain and the message for an authorization under an offer.
  unfoldable pub typed_data : Fields → Authorization → Option TypedData
  unfolding chain_id_from_caip2 get
  typed_data requirements auth = do
    extra ← extra_of (get requirements "extra")
    name ← get extra "name"
    version ← get extra "version"
    network ← get requirements "network"
    chain_id ← chain_id_from_caip2 network
    asset ← get requirements "asset"
    value ← int_text lib.unicode auth.value
    valid_after ← int_text lib.unicode auth.valid_after
    valid_before ← int_text lib.unicode auth.valid_before
    nonce ← lib.from_hex auth.nonce
    some (record {
      name = name;
      version = version;
      chain_id = chain_id;
      verifying_contract = asset;
      from = auth.from;
      to = auth.to;
      value = value;
      valid_after = valid_after;
      valid_before = valid_before;
      nonce = nonce;
    })

  unfoldable pub sign_authorization : Fields → Authorization → Option String
  unfolding typed_data
  sign_authorization requirements auth = do
    data_to_sign ← typed_data requirements auth
    lib.sign data_to_sign

  -- `valid_before`, or else the end of the offer's time from now on
  abbrev pub before_of : Fields → Option ℤ → ℕ → Option ℤ
  before_of requirements (some z) now = some z
  before_of requirements none now =
      Option.map (add_int now) (timeout_of (get requirements "maxTimeoutSeconds"))

  abbrev pub after_of : Option ℤ → ℤ
  after_of none = pos 0
  after_of (some z) = z

  abbrev pub authorization_of : Option ℤ → ℤ → Json → Json → String → Authorization
  authorization_of valid_after before to amount nonce = record {
    from = lib.address;
    to = to;
    value = str_of amount;
    valid_after = decimal_int (after_of valid_after);
    valid_before = decimal_int before;
    nonce = nonce;
  }

  -- `now` and `nonce` are the clock and the random nonce, or what the caller pins.
  unfoldable pub build_exact_eip3009_payload :
      Fields → Option String → Fields → Option ℤ → Option ℤ → ℕ → String → Option PaymentPayload
  unfolding sign_authorization
  build_exact_eip3009_payload requirements resource_url extensions valid_after valid_before now
        nonce =
      do
        extra ← extra_of (get requirements "extra")
        _ ← check (is_truthy (get extra "name") && is_truthy (get extra "version"))
        network ← get requirements "network"
        _ ← chain_id_from_caip2 network
        before ← before_of requirements valid_before now
        to ← get requirements "payTo"
        amount ← get requirements "amount"
        let auth = authorization_of valid_after before to amount nonce
        signature ← sign_authorization requirements auth
        some (record {
          x402_version = 2;
          accepted = requirements;
          signature = signature;
          authorization = auth;
          extensions = extensions;
          resource = resource_url;
        })

  -- Whether the signature recovers to the address that the authorization names.
  unfoldable pub signature_recovers_to_authorizer : PaymentPayload → Fields → Option Bool
  unfolding typed_data
  signature_recovers_to_authorizer payload requirements = do
    data_to_sign ← typed_data requirements payload.authorization
    recovered ← lib.recover data_to_sign payload.signature
    some (lib.lower recovered == lib.lower payload.authorization.from)
