-- ===== src/Checks/PaymentRequired/Flow/Loop.antt =====
-- What the loop of RS-PR-027 gathers, entry by entry.
use x402_conformance.Prelude.{
  ℕ, suc, ◌+◌, String, refl, ◌∙◌, Bool, true, false, ◌≡◌, ◌↔◌, inl, inr, ◌&&◌, any, count_if, List,
  [], ◌∷◌, ◌++◌, map, arith, All, Bool-cases,
}
use x402_conformance.Json.{Json, Fields}
use x402_conformance.Checks.Base.{returned, raised}
use x402_conformance.Checks.PaymentRequired.Loops.{append-eq-nil_iff}
use x402_conformance.Checks.PaymentRequired.Bindings.{binding}
use x402_conformance.Checks.PaymentRequired.Flow.{
  flow_problems, flow_of, extra_of, is_graded, grade_flows, numbered, advises, Grades,
}
use x402_conformance.Checks.PaymentRequired.Flow.Rating.{
  Keeps, is_unhashable, rate_flow-Rated, rate_flow-crash,
}

map-eq-nil_iff {ℓ κ} :
    {A : Type ℓ} {B : Type κ} (f : A → B) (xs : List A) → (map f xs ≡ []) ↔ (xs ≡ [])
map-eq-nil_iff f [] = ground arith
map-eq-nil_iff f (x ∷ xs) = ground arith

-- An entry on which the check crashes, if it comes to it.
abbrev pub crashes : Fields → Bool
crashes e = is_graded e && is_unhashable (flow_of e)

-- An entry that is not graded, or that keeps the table.
abbrev pub Passes : Fields → Type 0
Passes e = is_graded e ≡ true → Keeps e

abbrev pub Graded : List Fields → Grades → Grades → Type 0
Graded es g h =
    (h.graded ≡ g.graded + count_if is_graded es)
    × ((h.problems ≡ []) ↔ ((g.problems ≡ []) × All Passes es))

Graded-skip :
    (e : Fields) (es : List Fields) (g h : Grades)
    → is_graded e ≡ false
    → Graded es g h
    → Graded (e ∷ es) g h
Graded-skip e es g h y (n, pq) = ground arith

-- The loop's first value.
abbrev pub nothing : Grades
nothing = record { graded = 0; problems = []; advisories = [] }

module _ (repr unhashable : Json → String) (same : Json → Json → Bool) where
  abbrev added : List Fields → ℕ → Fields → List String → Grades → Grades
  added accepts i e ps g = record {
    graded = g.graded + 1;
    problems = g.problems ++ map (numbered i) ps;
    advisories = g.advisories ++ advises same accepts i e;
  }

  step_skip :
      (accepts : List Fields) (i : ℕ) (e : Fields) (es : List Fields) (g : Grades)
      → is_graded e ≡ false
      → grade_flows repr unhashable same accepts i (e ∷ es) g
        ≡ grade_flows repr unhashable same accepts (suc i) es g
  unfolding grade_flows
  step_skip accepts i e es g y = rw (y, grade_flows) refl

  step_returned :
      (accepts : List Fields) (i : ℕ) (e : Fields) (es : List Fields) (g : Grades)
      (ps : List String)
      → is_graded e ≡ true
      → flow_problems repr unhashable e (binding e) ≡ returned ps
      → grade_flows repr unhashable same accepts i (e ∷ es) g
        ≡ grade_flows repr unhashable same accepts (suc i) es (added accepts i e ps g)
  unfolding grade_flows
  step_returned accepts i e es g ps y r = rw (y, grade_flows, r) refl

  step_raised :
      (accepts : List Fields) (i : ℕ) (e : Fields) (es : List Fields) (g : Grades) (exc : String)
      → is_graded e ≡ true
      → flow_problems repr unhashable e (binding e) ≡ raised exc
      → grade_flows repr unhashable same accepts i (e ∷ es) g ≡ raised exc
  unfolding grade_flows
  step_raised accepts i e es g exc y r = rw (y, grade_flows, r) refl

  Graded-add :
      (accepts : List Fields) (i : ℕ) (e : Fields) (es : List Fields) (g h : Grades)
      (ps : List String)
      → is_graded e ≡ true
      → ((ps ≡ []) ↔ Keeps e)
      → Graded es (added accepts i e ps g) h
      → Graded (e ∷ es) g h
  Graded-add accepts i e es g h ps y k (n, pq) =
      ground
        (arith, append-eq-nil_iff g.problems (map (numbered i) ps), map-eq-nil_iff (numbered i) ps)

  flow_problems-Rated :
      (e : Fields)
      → is_unhashable (flow_of e) ≡ false
      → (ps : List String) × (flow_problems repr unhashable e (binding e) ≡ returned ps)
        × ((ps ≡ []) ↔ Keeps e)
  unfolding flow_problems
  flow_problems-Rated e h = rate_flow-Rated repr unhashable (flow_of e) (extra_of e) (binding e) h

  flow_problems-crash :
      (e : Fields)
      → is_unhashable (flow_of e) ≡ true
      → (exc : String) × (flow_problems repr unhashable e (binding e) ≡ raised exc)
  unfolding flow_problems
  flow_problems-crash e h = rate_flow-crash repr unhashable (flow_of e) (extra_of e) (binding e) h

  abbrev pub Ends : List Fields → ℕ → List Fields → Grades → Type 0
  Ends accepts i es g =
      (h : Grades) × (grade_flows repr unhashable same accepts i es g ≡ returned h) × Graded es g h

  Ends-nil : (accepts : List Fields) (i : ℕ) (g : Grades) → Ends accepts i [] g
  unfolding grade_flows
  Ends-nil accepts i g = (g, refl, ground arith)

  Ends-skip :
      (accepts : List Fields) (i : ℕ) (e : Fields) (es : List Fields) (g : Grades)
      → is_graded e ≡ false
      → Ends accepts (suc i) es g
      → Ends accepts i (e ∷ es) g
  Ends-skip accepts i e es g y (h, r, k) =
      (h, step_skip accepts i e es g y ∙ r, Graded-skip e es g h y k)

  Ends-add :
      (accepts : List Fields) (i : ℕ) (e : Fields) (es : List Fields) (g : Grades)
      (ps : List String)
      → is_graded e ≡ true
      → flow_problems repr unhashable e (binding e) ≡ returned ps
      → ((ps ≡ []) ↔ Keeps e)
      → Ends accepts (suc i) es (added accepts i e ps g)
      → Ends accepts i (e ∷ es) g
  Ends-add accepts i e es g ps y q k (h, r, d) =
      (h, step_returned accepts i e es g ps y q ∙ r, Graded-add accepts i e es g h ps y k d)

  -- The loop returns, if no entry makes it crash.
  pub grade_flows-Graded :
      (accepts : List Fields) (i : ℕ) (es : List Fields) (g : Grades)
      → any crashes es ≡ false
      → Ends accepts i es g
  grade_flows-Graded accepts i [] g n = Ends-nil accepts i g
  grade_flows-Graded accepts i (e ∷ es) g n = elim (Bool-cases (is_graded e)) [
    | inl y ↦
        let (ps, q, k) = flow_problems-Rated e (ground arith) in
        Ends-add accepts i e es g ps y q k
          (grade_flows-Graded accepts (suc i) es (added accepts i e ps g) (ground arith))
    | inr y ↦ Ends-skip accepts i e es g y (grade_flows-Graded accepts (suc i) es g (ground arith))
  ]

  -- And it crashes, if some entry makes it.
  pub grade_flows-crash :
      (accepts : List Fields) (i : ℕ) (es : List Fields) (g : Grades)
      → any crashes es ≡ true
      → (exc : String) × (grade_flows repr unhashable same accepts i es g ≡ raised exc)
  grade_flows-crash accepts i [] g n = ground arith
  grade_flows-crash accepts i (e ∷ es) g n = elim (Bool-cases (is_graded e)) [
    | inr y ↦
        let (exc, r) = grade_flows-crash accepts (suc i) es g (ground arith) in
        (exc, step_skip accepts i e es g y ∙ r)
    | inl y ↦ elim (Bool-cases (is_unhashable (flow_of e))) [
      | inl u ↦
          let (exc, q) = flow_problems-crash e u in (exc, step_raised accepts i e es g exc y q)
      | inr u ↦
          let (ps, q, k) = flow_problems-Rated e u in
          let (exc, r) =
            grade_flows-crash accepts (suc i) es (added accepts i e ps g) (ground arith) in
          (exc, step_returned accepts i e es g ps y q ∙ r)
    ]
  ]
