-- ===== src/Tests/Challenge.antt =====
-- The checks of the challenge document on small challenges.
use x402_conformance.Prelude.{
  String, refl, Bool, true, false, ◌≡◌, ◌↔◌, any, none, some, List, [], ◌∷◌, arith, All, ◌==◌,
  string_eq, decimal,
}
use x402_conformance.Prelude.Int.{ℤ}
use x402_conformance.Json.{Json, Items, Fields, get}
use x402_conformance.Probe.{Probe}
use x402_conformance.Checks.Base.{Status, pass, fail, returned, raised}
use x402_conformance.Checks.PaymentRequired.{accepts_raw}
use x402_conformance.Checks.PaymentRequired.Loops.{GradedBy}
use x402_conformance.Checks.PaymentRequired.Rails.{pr_006, pr_007, pr_013, pr_017}
use x402_conformance.Checks.PaymentRequired.Rails.Verdicts.{
  Passes, HasNetwork, HasAmount, HasKnownScheme, HasFamily, rails_iff,
}
use x402_conformance.Checks.PaymentRequired.Bindings as Bindings
use x402_conformance.Checks.PaymentRequired.Flow.{pr_027, is_graded}
use x402_conformance.Checks.PaymentRequired.Flow.Loop as Loop
use x402_conformance.Checks.PaymentRequired.Flow.Loop.{crashes}
use x402_conformance.Checks.PaymentRequired.Flow.Verdict.{pr_027_iff}
use x402_conformance.Checks.PaymentRequired.BuilderCode.{builder_code_info, codes_of, pr_024}
use x402_conformance.Checks.PaymentRequired.BuilderCode.Reservation.{Reserved, IsShort, pr_024_iff}
use x402_conformance.Checks.PaymentRequired.Offers.{pr_018}
use x402_conformance.Checks.PaymentRequired.Offers.Contradiction.{
  IsEquivalence, Consistent, pr_018_iff,
}

abbrev challenge : Fields → Probe
challenge raw = record {
  status_code = 402;
  headers = [];
  body = "";
  header_b64 = none;
  decoded = none;
  decode_error = none;
  raw = some raw;
  json_error = none;
  parsed = none;
  parse_error = none;
  nonstandard_json_literals = [];
  duplicate_json_keys = [];
}

abbrev text : String → String → Fields → Fields
text key value = Fields.field key (Json.str value)

abbrev offering : Fields → Items → Fields
offering rest entries = Fields.field "accepts" (Json.arr entries) rest

abbrev entry : String → String → Json → Fields
entry scheme network flow = text "scheme" scheme (
    text "network" network
      (Fields.field "extra" (Json.obj (Fields.field "paymentFlow" flow Fields.end)) Fields.end))

abbrev one_offer : Fields → Fields
one_offer e = offering Fields.end (Items.cons (Json.obj e) Items.nil)

-- A `repr` that is enough for the runs.
abbrev shown : Json → String
shown (Json.str s) = s
shown _ = "…"

abbrev same_shown : Json → Json → Bool
same_shown a b = shown a == shown b

same_shown-IsEquivalence : IsEquivalence same_shown
same_shown-IsEquivalence = record {
  same_refl = λ a. ground (arith, string_eq.beq_iff (shown a) (shown a));
  same_sym = λ a b h.
      ground (arith, string_eq.beq_iff (shown a) (shown b), string_eq.beq_iff (shown b) (shown a));
  same_trans = λ a b c h k. ground (
    arith,
    string_eq.beq_iff (shown a) (shown b),
    string_eq.beq_iff (shown b) (shown c),
    string_eq.beq_iff (shown a) (shown c),
  );
}

abbrev lightning : Fields
lightning = entry "exact" "lnbtc:mainnet" (Json.str "upfront")

abbrev escrowed : Fields
escrowed = entry "upto" "solana:main" (Json.str "upfront")

abbrev listed : Fields
listed = entry "upto" "solana:main" (Json.arr Items.nil)

pr_027_runs :
    (pr_027 shown shown same_shown (challenge (one_offer lightning))
      ≡ returned (pass, "1 flow-constrained entry/entries match their binding"))
    × (pr_027 shown shown same_shown (challenge (one_offer listed)) ≡ raised "…")
unfolding pr_027 get accepts_raw decimal
pr_027_runs = (refl, refl)

abbrev lightning_probe : Probe
lightning_probe = challenge (one_offer lightning)

pr_027_iff_example :
    (any crashes (lightning ∷ []) ≡ true
      → (exc : String) × (pr_027 shown shown same_shown lightning_probe ≡ raised exc))
    × (any crashes (lightning ∷ []) ≡ false
        → (r : Status × String) × (pr_027 shown shown same_shown lightning_probe ≡ returned r)
          × GradedBy Loop.Passes is_graded (lightning ∷ []) r.0)
unfolding get accepts_raw
pr_027_iff_example = pr_027_iff shown shown same_shown lightning_probe lightning [] refl refl

abbrev priced : String → Fields
priced amount =
    text "scheme" "exact" (text "network" "eip155:84532" (text "amount" amount Fields.end))

abbrev two_prices : Probe
two_prices = challenge (
    offering Fields.end
      (Items.cons (Json.obj (priced "1")) (Items.cons (Json.obj (priced "2")) Items.nil)))

pr_018_runs : (pr_018 shown same_shown two_prices).0 ≡ fail
unfolding pr_018 get accepts_raw
pr_018_runs = refl

pr_018_iff_example :
    (((pr_018 shown same_shown two_prices).0 ≡ pass)
      ↔ Consistent same_shown same_shown-IsEquivalence shown (priced "1" ∷ priced "2" ∷ []))
    × (((pr_018 shown same_shown two_prices).0 ≡ fail)
        ↔ (¬ Consistent same_shown same_shown-IsEquivalence shown (priced "1" ∷ priced "2" ∷ [])))
unfolding get accepts_raw
pr_018_iff_example =
    pr_018_iff same_shown same_shown-IsEquivalence shown two_prices (priced "1") (priced "2" ∷ [])
      refl

rails_iff_example :
    Passes shown HasNetwork (priced "1" ∷ priced "2" ∷ []) (pr_006 shown two_prices)
    × Passes shown HasAmount (priced "1" ∷ priced "2" ∷ []) (pr_007 shown two_prices)
    × Passes shown HasKnownScheme (priced "1" ∷ priced "2" ∷ []) (pr_017 shown two_prices)
    × Passes shown HasFamily (priced "1" ∷ priced "2" ∷ []) (pr_013 shown two_prices)
unfolding get accepts_raw
rails_iff_example = rails_iff shown two_prices (priced "1") (priced "2" ∷ []) refl

abbrev first_version : Fields
first_version = Fields.field "x402Version" (Json.int (ℤ.pos 1)) Fields.end

abbrev codes_info : Fields
codes_info = text "s" "shop_1" Fields.end

abbrev declaring : Probe
declaring = challenge (
    Fields.field "extensions"
      (Json.obj (
        Fields.field "builder-code"
          (Json.obj (Fields.field "info" (Json.obj codes_info) Fields.end)) Fields.end))
      Fields.end)

pr_024_iff_example :
    (((pr_024 shown declaring).0 ≡ pass)
      ↔ ((codes : List Json) × (codes_of (Json.str "shop_1") ≡ some codes) × Reserved codes))
    × ((codes : List Json) → Reserved codes → All IsShort codes)
unfolding get builder_code_info
pr_024_iff_example = pr_024_iff shown declaring codes_info (Json.str "shop_1") refl refl

-- The dollar sign of the patterns.
line_feed_amount : (pr_007 shown (challenge (one_offer (priced "100\n")))).0 ≡ pass
unfolding get accepts_raw pr_007
line_feed_amount = refl
