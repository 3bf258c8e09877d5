-- ===== src/Runner/Pqc.antt =====
-- runner.py: the two probes of the PQC verifier. A text is a list of characters.
pub mod Laws
use Prim.Native.Char.{code}
use Prim.Native.String
use x402_conformance.Prelude.{
  String, Bool, true, false, Option, none, some, ◌==◌, string_eq, if◌then◌else◌, nat_eq,
}
use x402_conformance.Models.{◌>>=◌}
use x402_conformance.Json.{Json, Fields, get, set_field, as_str, as_dict}

-- d.pop(key, None)
unfoldable pub pop_field : Fields → String → Fields
pop_field Fields.end key = Fields.end
pop_field (Fields.field k v fs) key =
    let rest = pop_field fs key in if k == key then fs else Fields.field k v rest

-- s[1:]
abbrev pub rest_of : String → String
rest_of String.[] = ""
rest_of (String.◌∷◌ c s) = s

-- signature.startswith("A")
abbrev pub starts_with_a : String → Bool
starts_with_a String.[] = false
starts_with_a (String.◌∷◌ c s) = code c == b'A'

-- `("A" if not signature.startswith("A") else "B") + signature[1:]`
unfoldable pub flip_first : String → String
flip_first signature = String.◌∷◌ (if starts_with_a signature then "B" else "A") (rest_of signature)

-- The receipt, the URL it is sent to, and the receipt's objects on the way to its signature.
pub record Receipt : Type 0 where
  pub verify_url : String
  pub receipt : Fields
  pub sig_v2 : Fields
  pub pqc : Fields
  pub signature : String

unfoldable pub find_receipt : Option Fields → Option Receipt
unfolding get
find_receipt raw = do
  fields ← raw
  extensions ← as_dict (get fields "extensions")
  capability ← as_dict (get extensions "pqc")
  receipt ← as_dict (get capability "receipt")
  verify_url ← as_str (get capability "verifyUrl")
  sig_v2 ← as_dict (get receipt "sig_v2")
  pqc ← as_dict (get sig_v2 "pqc")
  signature ← as_str (get pqc "signature")
  some (record {
    verify_url = verify_url;
    receipt = receipt;
    sig_v2 = sig_v2;
    pqc = pqc;
    signature = signature;
  })

unfoldable pub tampered : Receipt → Fields
unfolding set_field flip_first
tampered r =
    let pqc = set_field r.pqc "signature" (Json.str (flip_first r.signature)) in
    let sig_v2 = set_field r.sig_v2 "pqc" (Json.obj pqc) in
    set_field r.receipt "sig_v2" (Json.obj sig_v2)

unfoldable pub stripped : Receipt → Fields
unfolding pop_field
stripped r = pop_field r.receipt "sig_v2"

-- `post` sends a document; it answers none on a transport or decoding failure and for no object.
unfoldable pub probe_pqc_verifier :
    (String → Fields → Option Fields) → Option Fields → Option Fields × Option Fields
unfolding find_receipt tampered stripped
probe_pqc_verifier post raw = elim (find_receipt raw) [
  | none ↦ (none, none)
  | some r ↦ (post r.verify_url (tampered r), post r.verify_url (stripped r))
]
