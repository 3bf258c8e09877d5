-- ===== src/Checks/PaymentRequired/Offers/Contradiction.antt =====
-- RS-PR-018 fails exactly on two entries of one rail and asset with different terms, however it has
-- grouped the entries.
use x402_conformance.Prelude.{
  some-inj, String, refl, sym, subst, ◌∙◌, Bool, true, false, ◌≡◌, ◌↔◌, inl, inr, Option, none,
  some, List, [], ◌∷◌, ◌++◌, arith, All, Bool-cases, Option-cases, if◌then◌else◌,
}
use x402_conformance.Json.{Json, Fields}
use x402_conformance.Probe.{Probe}
use x402_conformance.Checks.Base.{pass, fail}
use x402_conformance.Checks.PaymentRequired.{accepts_raw}
use x402_conformance.Checks.PaymentRequired.Loops.{fail_if_iff}
use x402_conformance.Checks.PaymentRequired.Offers.{
  Rail, Terms, Groups, rail_of, terms_of, same_rail, same_terms, add_offer, group_offers,
  offer_problems, grade_offers, pr_018,
}
use x402_conformance.Checks.PaymentRequired.Offers.Grouping.{
  has_variants, offer_problems_iff, add_offer_keeps, look, single, single-has_variants, add_new,
  add_same, add_other,
}

-- What Python's `==` is on the values that it hashes, apart from NaN.
pub record IsEquivalence {ℓ} {A : Type ℓ} (same : A → A → Bool) : Type ℓ where
  pub same_refl : (a : A) → same a a ≡ true
  pub same_sym : (a b : A) → same a b ≡ true → same b a ≡ true
  pub same_trans : (a b c : A) → same a b ≡ true → same b c ≡ true → same a c ≡ true

-- The first value, or else the second one under a condition.
abbrev or_else {ℓ} : {A : Type ℓ} → Option A → Bool → A → Option A
or_else (some u) b t = some u
or_else none b t = if b then some t else none

-- A property of the value that is found, where the second one is looked at only without the first.
or_else_iff {ℓ} :
    {A : Type ℓ} (o : Option A) (b : Bool) (t : A) (P : A → Type 0) (Q : Type 0)
    → (b ≡ true → o ≡ none)
    → P t ↔ Q
    → ((u : A) → or_else o b t ≡ some u → P u) ↔ (((u : A) → o ≡ some u → P u) × (b ≡ true → Q))
or_else_iff none true t P Q c (p, q) =
    (λ k. (λ u h. cc, λ r. p (k t refl)), λ (k, a) u h. subst P (some-inj h) (q (a refl)))
or_else_iff none false t P Q c pq = (λ k. (λ u h. cc, λ r. cc), λ k u h. cc)
or_else_iff (some v) true t P Q c pq = cc (c refl)
or_else_iff (some v) false t P Q c pq = (λ k. (k, λ r. cc), λ k. k.0)

module _ (same : Json → Json → Bool) (laws : IsEquivalence same) where
  open laws use {same_refl, same_sym, same_trans}

  rail_equivalence : IsEquivalence (same_rail same)
  unfolding same_rail
  rail_equivalence = record {
    same_refl = λ a. ground (
      arith,
      same_refl a.scheme,
      same_refl a.network,
      same_refl a.asset,
      same_refl a.transfer_method,
      same_refl a.payment_flow,
    );
    same_sym = λ a b h. ground (
      arith,
      same_sym a.scheme b.scheme,
      same_sym a.network b.network,
      same_sym a.asset b.asset,
      same_sym a.transfer_method b.transfer_method,
      same_sym a.payment_flow b.payment_flow,
    );
    same_trans = λ a b c h k. ground (
      arith,
      same_trans a.scheme b.scheme c.scheme,
      same_trans a.network b.network c.network,
      same_trans a.asset b.asset c.asset,
      same_trans a.transfer_method b.transfer_method c.transfer_method,
      same_trans a.payment_flow b.payment_flow c.payment_flow,
    );
  }

  terms_equivalence : IsEquivalence (same_terms same)
  unfolding same_terms
  terms_equivalence = record {
    same_refl = λ a. ground (arith, same_refl a.pay_to, same_refl a.amount);
    same_sym = λ a b h. ground (arith, same_sym a.pay_to b.pay_to, same_sym a.amount b.amount);
    same_trans = λ a b c h k.
        ground
          (arith, same_trans a.pay_to b.pay_to c.pay_to, same_trans a.amount b.amount c.amount);
  }

  -- Equal rails have the same first offer.
  look_respects :
      (s : List (Rail × Terms)) (a b : Rail)
      → same_rail same a b ≡ true
      → look same s a ≡ look same s b
  unfolding look
  look_respects [] a b h = refl
  look_respects ((k, t) ∷ s) a b h =
      let r = rail_equivalence in
      ground (arith, r.same_trans k a b, r.same_trans k b a, r.same_sym a b, look_respects s a b)

  look-append :
      (s : List (Rail × Terms)) (k a : Rail) (t : Terms)
      → look same (s ++ (k, t) ∷ []) a ≡ or_else (look same s a) (same_rail same k a) t
  unfolding look
  look-append [] k a t = refl
  look-append ((j, u) ∷ s) k a t = ground (arith, look-append s k a t)

  module _ (repr : Json → String) where
    -- Two entries are offers of different rails, or on the same terms.
    abbrev pub Agree : Fields → Fields → Type 0
    Agree e f =
        same_rail same (rail_of repr e) (rail_of repr f) ≡ true
        → same_terms same (terms_of repr e) (terms_of repr f) ≡ true

    -- Each entry agrees with all that follow.
    abbrev pub Consistent : List Fields → Type 0
    Consistent [] = Unit
    Consistent (e ∷ es) = All (Agree e) es × Consistent es

    -- The entry agrees with the first offer of its rail.
    abbrev Fits : List (Rail × Terms) → Fields → Type 0
    Fits s e =
        (u : Terms)
        → look same s (rail_of repr e) ≡ some u
        → same_terms same (terms_of repr e) u ≡ true

    Fits-new :
        (s : List (Rail × Terms)) (e f : Fields)
        → look same s (rail_of repr e) ≡ none
        → Fits (s ++ (rail_of repr e, terms_of repr e) ∷ []) f ↔ (Fits s f × Agree e f)
    Fits-new s e f n =
        let respects = look_respects s (rail_of repr e) (rail_of repr f) in
        let t = terms_equivalence in
        rw (look-append s (rail_of repr e) (rail_of repr f) (terms_of repr e)) (
          or_else_iff (look same s (rail_of repr f))
            (same_rail same (rail_of repr e) (rail_of repr f)) (terms_of repr e)
            (λ u. same_terms same (terms_of repr f) u ≡ true)
            (same_terms same (terms_of repr e) (terms_of repr f) ≡ true) (λ r. sym (respects r) ∙ n)
            (t.same_sym _ _, t.same_sym _ _))

    Fits-old :
        (s : List (Rail × Terms)) (e f : Fields) (u : Terms)
        → look same s (rail_of repr e) ≡ some u
        → same_terms same (terms_of repr e) u ≡ true
        → Fits s f
        → Agree e f
    Fits-old s e f u n m k r =
        let t = terms_equivalence in
        let other = k u (sym (look_respects s (rail_of repr e) (rail_of repr f) r) ∙ n) in
        t.same_trans _ u _ m (t.same_sym _ u other)

    All-new :
        (s : List (Rail × Terms)) (e : Fields) (es : List Fields)
        → look same s (rail_of repr e) ≡ none
        → All (Fits (s ++ (rail_of repr e, terms_of repr e) ∷ [])) es
          ↔ (All (Fits s) es × All (Agree e) es)
    All-new s e [] n = ground arith
    All-new s e (f ∷ fs) n =
        let (to, from) = Fits-new s e f n in
        let (down, up) = All-new s e fs n in
        (
          λ (k, ks). (((to k).0, (down ks).0), ((to k).1, (down ks).1)),
          λ ((k, ks), (a, as_rest)). (from (k, a), up (ks, as_rest)),
        )

    All-old :
        (s : List (Rail × Terms)) (e : Fields) (es : List Fields) (u : Terms)
        → look same s (rail_of repr e) ≡ some u
        → same_terms same (terms_of repr e) u ≡ true
        → All (Fits s) es
        → All (Agree e) es
    All-old s e [] u n m k = tt
    All-old s e (f ∷ fs) u n m (k, ks) = (Fits-old s e f u n m k, All-old s e fs u n m ks)

    abbrev Uncontradicted : List (Rail × Terms) → List Fields → Type 0
    Uncontradicted s es = has_variants (group_offers repr same es (single s)) ≡ false

    group_offers_keeps :
        (es : List Fields) (g : Groups)
        → has_variants g ≡ true
        → has_variants (group_offers repr same es g) ≡ true
    unfolding group_offers
    group_offers_keeps [] g h = h
    group_offers_keeps (e ∷ es) g h =
        group_offers_keeps es (add_offer same (rail_of repr e) (terms_of repr e) g)
          (add_offer_keeps same (rail_of repr e) (terms_of repr e) g h)

    Fits-found :
        (s : List (Rail × Terms)) (e : Fields) (u : Terms)
        → look same s (rail_of repr e) ≡ some u
        → same_terms same (terms_of repr e) u ≡ true
        → Fits s e
    Fits-found s e u n m v q =
        subst (λ x. same_terms same (terms_of repr e) x ≡ true) (some-inj (sym n ∙ q)) m

    group_offers_iff :
        (s : List (Rail × Terms)) (es : List Fields)
        → Uncontradicted s es ↔ (All (Fits s) es × Consistent es)
    unfolding group_offers
    group_offers_iff s [] = (λ h. (tt, tt), λ h. single-has_variants s)
    group_offers_iff s (e ∷ es) = elim (Option-cases (look same s (rail_of repr e))) [
      | inl n ↦
          let (to, from) = group_offers_iff (s ++ (rail_of repr e, terms_of repr e) ∷ []) es in
          let (down, up) = All-new s e es n in
          rw (add_new same (rail_of repr e) (terms_of repr e) s n) (
            (λ h. let (k, c) = to h in let (a, b) = down k in (((λ u q. cc (n, q)), a), (b, c))),
            (λ ((k, ks), (a, c)). from (up (ks, a), c)),
          )
      | inr (u, n) ↦ elim (Bool-cases (same_terms same (terms_of repr e) u)) [
        | inl m ↦ rw (add_same same (rail_of repr e) (terms_of repr e) u s n m) (
            let (to, from) = group_offers_iff s es in
            (
              (λ h. let (k, c) = to h in ((Fits-found s e u n m, k), (All-old s e es u n m k, c))),
              (λ ((k, ks), (a, c)). from (ks, c)),
            ))
        | inr m ↦
            let kept =
              group_offers_keeps es (add_offer same (rail_of repr e) (terms_of repr e) (single s))
                (add_other same (rail_of repr e) (terms_of repr e) u s n m) in
            ((λ h. cc (h, kept)), (λ ((k, ks), c). cc (k u n, m)))
      ]
    ]

    All-fit : (es : List Fields) → All (Fits []) es
    unfolding look
    All-fit [] = tt
    All-fit (e ∷ es) = ((λ u h. cc), All-fit es)

    pr_018-eq-grade_offers :
        (p : Probe) (e : Fields) (es : List Fields)
        → accepts_raw p ≡ some (e ∷ es)
        → pr_018 repr same p ≡ grade_offers repr same (e ∷ es)
    unfolding pr_018
    pr_018-eq-grade_offers p e es a = rw (a, pr_018) refl

    -- Where Python's `==` is an equivalence on the values that it hashes, RS-PR-018 passes on entries
    -- exactly if every two of them are offers of different rails or on the same terms, and fails
    -- exactly if not.
    pub pr_018_iff :
        (p : Probe) (e : Fields) (es : List Fields)
        → accepts_raw p ≡ some (e ∷ es)
        → (((pr_018 repr same p).0 ≡ pass) ↔ Consistent (e ∷ es))
          × (((pr_018 repr same p).0 ≡ fail) ↔ (¬ Consistent (e ∷ es)))
    unfolding single
    pr_018_iff p e es a = rw (pr_018-eq-grade_offers p e es a) ground (
      arith,
      fail_if_iff (offer_problems repr (group_offers repr same (e ∷ es) [])) _ ""
          (grade_offers repr same (e ∷ es)) refl,
      offer_problems_iff repr (group_offers repr same (e ∷ es) []),
      group_offers_iff [] (e ∷ es),
      All-fit (e ∷ es),
    )
