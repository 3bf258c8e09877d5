-- ===== src/Checks/PaymentRequired/Offers.antt =====
-- RS-PR-018: two offers of one rail and asset with different recipients or amounts. `same` is
-- Python's `==` on two values that it can hash.
pub mod Grouping
pub mod Contradiction
use x402_conformance.Prelude.{
  ℕ, suc, String, Bool, true, false, Option, none, some, List, [], ◌∷◌, ◌++◌, map, ◌&&◌, not, any,
  ltb, length, if◌then◌else◌, fstring, decimal,
}
use x402_conformance.Json.{Json, Fields, get, dict_or_empty}
use x402_conformance.Probe.{Probe}
use x402_conformance.Checks.Base.{Status}
use x402_conformance.Checks.PaymentRequired.{accepts_raw, inspect, refuse, or_null}

-- What stands in the group's key, and the pair of recipient and amount.
pub record Rail : Type 0 where
  pub scheme : Json
  pub network : Json
  pub asset : Json
  pub transfer_method : Json
  pub payment_flow : Json

pub record Terms : Type 0 where
  pub pay_to : Json
  pub amount : Json

abbrev pub Groups : Type 0
Groups = List (Rail × List Terms)

module _ (repr : Json → String) where
  -- `_hkey`: a list or a dict cannot be hashed.
  abbrev pub hkey : Option Json → Json
  hkey (some (Json.arr vs)) = Json.str (repr (Json.arr vs))
  hkey (some (Json.obj fs)) = Json.str (repr (Json.obj fs))
  hkey o = or_null o

  unfoldable pub rail_of : Fields → Rail
  unfolding get
  rail_of e =
      let extra = dict_or_empty (get e "extra") in
      record {
        scheme = hkey (get e "scheme");
        network = hkey (get e "network");
        asset = hkey (get e "asset");
        transfer_method = hkey (get extra "assetTransferMethod");
        payment_flow = hkey (get extra "paymentFlow");
      }

  unfoldable pub terms_of : Fields → Terms
  unfolding get
  terms_of e = record { pay_to = hkey (get e "payTo"); amount = hkey (get e "amount") }

  abbrev qualifier : String → Json → String
  qualifier name Json.null = ""
  qualifier name v = fstring (" " ∷ name ∷ "=" ∷ repr v ∷ [])

  unfoldable pub offer_problems : Groups → List String
  offer_problems [] = []
  offer_problems ((rail, variants) ∷ groups) =
      (if ltb 1 (length variants)
        then fstring (
            "scheme="
            ∷ repr rail.scheme
            ∷ " network="
            ∷ repr rail.network
            ∷ " asset="
            ∷ repr rail.asset
            ∷ qualifier "assetTransferMethod" rail.transfer_method
            ∷ qualifier "paymentFlow" rail.payment_flow
            ∷ " offered with "
            ∷ decimal (length variants)
            ∷ " different (payTo, amount) combinations"
            ∷ [])
          ∷ []
        else [])
      ++ offer_problems groups

module _ (same : Json → Json → Bool) where
  -- The equality of the tuples.
  unfoldable pub same_rail : Rail → Rail → Bool
  same_rail a b =
      same a.scheme b.scheme
      && same a.network b.network
      && same a.asset b.asset
      && same a.transfer_method b.transfer_method
      && same a.payment_flow b.payment_flow

  unfoldable pub same_terms : Terms → Terms → Bool
  same_terms a b = same a.pay_to b.pay_to && same a.amount b.amount

  -- variants.add(terms)
  unfoldable pub add_terms : Terms → List Terms → List Terms
  unfolding same_terms
  add_terms t variants = if any (same_terms t) variants then variants else variants ++ t ∷ []

  -- groups.setdefault(key, set()).add(terms)
  unfoldable pub add_offer : Rail → Terms → Groups → Groups
  unfolding same_rail add_terms
  add_offer key t [] = (key, t ∷ []) ∷ []
  add_offer key t ((k, variants) ∷ groups) =
      let rest = add_offer key t groups in
      if same_rail k key then (k, add_terms t variants) ∷ groups else (k, variants) ∷ rest

module _ (repr : Json → String) (same : Json → Json → Bool) where
  -- The loop over the entries.
  unfoldable pub group_offers : List Fields → Groups → Groups
  unfolding add_offer rail_of terms_of
  group_offers [] groups = groups
  group_offers (e ∷ es) groups =
      group_offers es (add_offer same (rail_of repr e) (terms_of repr e) groups)

  abbrev pub grade_offers : List Fields → Status × String
  grade_offers accepts =
      refuse (offer_problems repr (group_offers accepts [])) "" "; "
        " — ambiguous which payment is the real one"

  unfoldable pub pr_018 : Probe → Status × String
  unfolding accepts_raw group_offers offer_problems
  pr_018 p = inspect grade_offers (accepts_raw p)
