-- ===== src/Checks/PaymentRequired/Offers/Grouping.antt =====
-- What the loop of RS-PR-018 does to groups of one variant each, and to others.
use x402_conformance.Prelude.{
  ◌≤◌, String, refl, Bool, true, false, ◌≡◌, ◌↔◌, any, length, length-append, ltb, if◌then◌else◌,
  Option, none, some, List, [], ◌∷◌, ◌++◌, arith,
}
use x402_conformance.Json.{Json}
use x402_conformance.Checks.PaymentRequired.Offers.{
  Rail, Terms, Groups, same_rail, same_terms, add_terms, add_offer, offer_problems,
}

unfoldable pub has_variants : Groups → Bool
has_variants groups = any (λ (k, variants). ltb 1 (length variants)) groups

unfoldable pub single : List (Rail × Terms) → Groups
single [] = []
single ((k, t) ∷ s) = (k, t ∷ []) ∷ single s

pub single-has_variants : (s : List (Rail × Terms)) → has_variants (single s) ≡ false
unfolding single has_variants
single-has_variants [] = refl
single-has_variants ((k, t) ∷ s) = ground (arith, single-has_variants s)

module _ (repr : Json → String) where
  pub offer_problems_iff : (g : Groups) → (offer_problems repr g ≡ []) ↔ (has_variants g ≡ false)
  unfolding offer_problems has_variants
  offer_problems_iff [] = ground arith
  offer_problems_iff ((k, variants) ∷ g) = ground (arith, offer_problems_iff g)

module _ (same : Json → Json → Bool) where
  add_terms_grows : (t : Terms) (ts : List Terms) → length ts ≤ length (add_terms same t ts)
  unfolding add_terms
  add_terms_grows t ts = ground (arith, length-append ts (t ∷ []))

  pub add_offer_keeps :
      (key : Rail) (t : Terms) (g : Groups)
      → has_variants g ≡ true
      → has_variants (add_offer same key t g) ≡ true
  unfolding add_offer has_variants
  add_offer_keeps key t [] h = cc
  add_offer_keeps key t ((k, variants) ∷ g) h =
      ground (arith, add_terms_grows t variants, add_offer_keeps key t g)

  -- The terms of the first offer of a rail.
  unfoldable pub look : List (Rail × Terms) → Rail → Option Terms
  look [] key = none
  look ((k, t) ∷ s) key = let rest = look s key in if same_rail same k key then some t else rest

  pub add_new :
      (key : Rail) (t : Terms) (s : List (Rail × Terms))
      → look s key ≡ none
      → add_offer same key t (single s) ≡ single (s ++ (key, t) ∷ [])
  unfolding single look add_offer
  add_new key t [] h = refl
  add_new key t ((k, u) ∷ s) h = ground (arith, add_new key t s)

  pub add_same :
      (key : Rail) (t u : Terms) (s : List (Rail × Terms))
      → look s key ≡ some u
      → same_terms same t u ≡ true
      → add_offer same key t (single s) ≡ single s
  unfolding single look add_offer add_terms
  add_same key t u [] h m = cc
  add_same key t u ((k, v) ∷ s) h m = ground (arith, add_same key t u s)

  pub add_other :
      (key : Rail) (t u : Terms) (s : List (Rail × Terms))
      → look s key ≡ some u
      → same_terms same t u ≡ false
      → has_variants (add_offer same key t (single s)) ≡ true
  unfolding single look add_offer add_terms has_variants
  add_other key t u [] h m = cc
  add_other key t u ((k, v) ∷ s) h m = ground (arith, add_other key t u s)
