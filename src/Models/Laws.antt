-- ===== src/Models/Laws.antt =====
-- What an answer that models.py accepts guarantees to the checks that read it.
use Prim.Native.String.{count}
use Prim.Native.Nat.{suc}
use text.Mathlib.TextLemmas.{length-nil, length-cons}
use x402_conformance.Prelude.{
  ◌==◌, ℕ, zero, String, ◌≡◌, ◌≢◌, ◌↔◌, ◌⊎◌, refl, subst, inl, inr, Option-cases, not, ◌&&◌, Bool,
  true, false, Option, none, some, arith, starts_with, string_eq, nat_eq,
}
use x402_conformance.Json.{Json}
use x402_conformance.Models.{
  SettlementResponse, VerifyResponse, ◌>>=◌, check, is_evm_tx_hash, hex_run, transaction_ok,
  is_pending, settlement_of_json, read_settlement, read_verify, reason_ok, verify_of_json,
}

module _ {ℓ κ} {A : Type ℓ} {B : Type κ} (next : A → Option B) {out : B} where
  pub >>=-eq-some :
      (m : Option A) → (m >>= next) ≡ some out → (a : A) × (m ≡ some a) × (next a ≡ some out)
  >>=-eq-some none h = cc
  >>=-eq-some (some a) h = (a, refl, h)

check-eq-some : (b : Bool) → (u : Unit {0}) → check b ≡ some u → b ≡ true
check-eq-some true u h = refl
check-eq-some false u h = cc

count-hex_run : (n : ℕ) (s : String) → hex_run n s ≡ true → count s ≡ n
unfolding hex_run
count-hex_run zero String.[] h = length-nil
count-hex_run zero (String.◌∷◌ c s) h = cc
count-hex_run (suc n) String.[] h = cc
count-hex_run (suc n) (String.◌∷◌ c s) h = ground (arith, length-cons c s, count-hex_run n s)

-- A transaction hash has 66 characters: `0x` and 64 hexadecimal digits.
pub count-is_evm_tx_hash : (s : String) → is_evm_tx_hash s ≡ true → count s ≡ 66
unfolding is_evm_tx_hash
count-is_evm_tx_hash String.[] h = cc
count-is_evm_tx_hash (String.◌∷◌ c String.[]) h = cc
count-is_evm_tx_hash (String.◌∷◌ c (String.◌∷◌ d s)) h =
    ground (arith, length-cons c (String.◌∷◌ d s), length-cons d s, count-hex_run 64 s)

-- What the model's validator makes sure of.
pub record IsSound (s : SettlementResponse) : Type 0 where
  pub named : s.network ≢ ""
  pub settled : s.success ≡ true → s.transaction ≢ ""
  pub hashed : s.success ≡ true → starts_with s.network "eip155:" ≡ true → count s.transaction ≡ 66

IsSound-of :
    (s : SettlementResponse) → (not (s.network == "") && transaction_ok s) ≡ true → IsSound s
unfolding transaction_ok
IsSound-of s h = record {
  named = λ e. ground (arith, string_eq.beq_iff s.network "");
  settled = λ p e. ground (arith, string_eq.beq_iff s.transaction "");
  hashed = λ p q. ground (arith, count-is_evm_tx_hash s.transaction);
}

-- An accepted settlement answer names its network; a successful one carries a transaction, and on
-- an EVM network that is a hash of 66 characters.
pub settlement_of_json-IsSound :
    (j : Json) (s : SettlementResponse) → settlement_of_json j ≡ some s → IsSound s
unfolding settlement_of_json
settlement_of_json-IsSound (Json.obj fs) s h =
    let (r, _, h₁) = >>=-eq-some _ (read_settlement fs) h in
    let (_, valid, h₂) = >>=-eq-some _ (check _) h₁ in
    let same : r ≡ s = cc h₂ in subst IsSound same (IsSound-of r (check-eq-some _ _ valid))
settlement_of_json-IsSound _ s h = cc

-- A pending answer is a failed one whose reason is `settlement_pending`, and the other way round.
pub pending_iff :
    (s : SettlementResponse)
    → (is_pending s ≡ true) ↔ ((s.success ≡ false) × (s.error_reason ≡ some "settlement_pending"))
unfolding is_pending
pending_iff s = elim (Option-cases s.error_reason) [
  | inl absent ↦ rw (absent, is_pending) (ground arith)
  | inr (r, given) ↦ ground (arith, string_eq.beq_iff r "settlement_pending")
]

-- What the validator of a verification answer makes sure of.
abbrev pub Reasoned : VerifyResponse → Type 0
Reasoned v =
    ((v.is_valid ≡ true) × (v.invalid_reason ≡ none))
    ⊎ ((v.is_valid ≡ false) × ((r : String) × (v.invalid_reason ≡ some r) × (r ≢ "")))

Reasoned-of :
    (v : VerifyResponse) (o : Option String)
    → v.invalid_reason ≡ o
    → reason_ok v ≡ true
    → Reasoned v
unfolding reason_ok
Reasoned-of v none e h = inl (ground arith)
Reasoned-of v (some r) e h = inr (ground arith, (r, e, λ p. ground (arith, string_eq.beq_iff r "")))

-- An accepted verification answer is valid without a reason, or invalid with one that is not empty.
pub verify_of_json-Reasoned :
    (j : Json) (v : VerifyResponse) → verify_of_json j ≡ some v → Reasoned v
unfolding verify_of_json
verify_of_json-Reasoned (Json.obj fs) v h =
    let (r, _, h₁) = >>=-eq-some _ (read_verify fs) h in
    let (_, valid, h₂) = >>=-eq-some _ (check _) h₁ in
    let same : r ≡ v = cc h₂ in
    subst Reasoned same (Reasoned-of r r.invalid_reason refl (check-eq-some _ _ valid))
verify_of_json-Reasoned _ v h = cc
