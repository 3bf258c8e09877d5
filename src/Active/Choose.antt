-- ===== src/Active/Choose.antt =====
-- active.py, `choose_eip3009_requirement`: which entry of `accepts` is paid.
pub mod Turns
pub mod Laws
pub mod Refusal
pub mod Outcome
use x402_conformance.Prelude.{
  String, Bool, true, false, Option, none, some, List, [], ◌∷◌, ◌++◌, ◌==◌, string_eq, ◌&&◌, ◌||◌,
  not, if◌then◌else◌, starts_with,
}
use x402_conformance.Json.{
  Json, Fields, get, as_dict, as_list, as_str, is_text, is_text_or, is_truthy, dict_or_empty,
}
use x402_conformance.Safety.{
  SafetyViolation, SafetyPolicy, is_violation, Result, ok, err, ◌>>=◌, require_safe_network,
}
use x402_conformance.Safety.Digits.{Unicode}

-- `isinstance(network, str) and network.startswith("eip155:")`
abbrev pub is_evm_text : Option String → Bool
is_evm_text none = false
is_evm_text (some s) = starts_with s "eip155:"

abbrev pub extra_of : Fields → Fields
extra_of entry = dict_or_empty (get entry "extra")

-- `flow == text`, where a flow that is not given is `authorization`
abbrev pub flow_is_authorization : Fields → Bool
flow_is_authorization entry = is_text_or (get (extra_of entry) "paymentFlow") true "authorization"

abbrev pub flow_is_upfront : Fields → Bool
flow_is_upfront entry = is_text_or (get (extra_of entry) "paymentFlow") false "upfront"

-- The tests that let the loop's body come to the safety policy.
unfoldable pub is_eligible : Fields → Bool
is_eligible entry =
    if not (is_text (get entry "scheme") "exact")
    then false
    else if not (is_evm_text (as_str (get entry "network")))
    then false
    else if not (is_text_or (get (extra_of entry) "assetTransferMethod") true "eip3009")
    then false
    else if not (flow_is_authorization entry || flow_is_upfront entry)
    then false
    else is_truthy (get (extra_of entry) "name") && is_truthy (get (extra_of entry) "version")

-- `if fallback is None: fallback = entry`
abbrev pub or_entry : Option Fields → Fields → Option Fields
or_entry none entry = some entry
or_entry (some f) entry = some f

module _ (unicode : Unicode) (policy : SafetyPolicy) where
  abbrev safe : Option Json → Result String
  safe = require_safe_network unicode policy

  -- Behind the loop: the fallback, else the violation of the first denied network, else None.
  unfoldable pub settle_choice : List (Option Json) → Option Fields → Result (Option Fields)
  settle_choice denied (some entry) = ok (some entry)
  settle_choice [] none = ok none
  settle_choice (network ∷ _) none = do _ ← safe network; ok none

  -- The loop, with the networks denied so far and the fallback.
  unfoldable pub choose_from :
      List Json → List (Option Json) → Option Fields → Result (Option Fields)
  unfolding is_eligible settle_choice
  choose_from [] denied fallback = settle_choice denied fallback
  choose_from (Json.obj entry ∷ entries) denied fallback =
      let skipped = choose_from entries denied fallback in
      let refused = choose_from entries (denied ++ get entry "network" ∷ []) fallback in
      let kept = choose_from entries denied (or_entry fallback entry) in
      if not (is_eligible entry) then skipped else elim (safe (get entry "network")) [
        | err e ↦ if is_violation e then refused else err e
        | ok _ ↦ if flow_is_authorization entry then ok (some entry) else kept
      ]
  choose_from (_ ∷ entries) denied fallback = choose_from entries denied fallback

  -- `none` for a challenge that is not there.
  unfoldable pub choose_eip3009_requirement : Option Fields → Result (Option Fields)
  unfolding choose_from
  choose_eip3009_requirement none = ok none
  choose_eip3009_requirement (some Fields.end) = ok none
  choose_eip3009_requirement (some (Fields.field k v raw)) =
      elim (as_list (get (Fields.field k v raw) "accepts")) [
        | none ↦ ok none
        | some accepts ↦ choose_from accepts [] none
      ]
