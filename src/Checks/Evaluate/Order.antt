-- ===== src/Checks/Evaluate/Order.antt =====
-- The order of the results of checks/negative.py: the registry's, whichever order the pool has.
use mathlib.Core.List.{Permᴰ}
use x402_conformance.Prelude.{
  ℕ, suc, ◌+◌, ◌<◌, ◌≤◌, String, ◌≡◌, ◌≢◌, ◌⊎◌, inl, inr, refl, ◌∙◌, ap, true, false, Option, none,
  some, List, [], ◌∷◌, arith, All, all, length, string_eq, beq_refl, leb, ◌||◌, is_none, Bool-cases,
}
use x402_conformance.Checks.Base.{Status, CheckResult, Check}
use x402_conformance.Checks.Registry.{Unique}
use x402_conformance.Checks.Evaluate.{
  run_active_check, run_all, order_from, index_or_zero, position, is_ordered, Progress,
  progress_from, evaluate_active,
}
use x402_conformance.Checks.Evaluate.Sorting.{
  Ascending, All-weaken, Ascending-cong, All-permᴰ, sort_by_lem,
}

module _ {C : Type 0} where
  abbrev id_of : Check C (Status × String) → String
  id_of check = check.check_id

  abbrev index : ℕ → List (Check C (Status × String)) → CheckResult → ℕ
  index i checks r = index_or_zero (order_from i checks r.check_id)

  order_from-absent :
      (i : ℕ) (checks : List (Check C (Status × String))) (id : String)
      → All (λ c. id_of c ≢ id) checks
      → order_from i checks id ≡ none
  unfolding order_from
  order_from-absent i [] id a = refl
  order_from-absent i (c ∷ cs) id a =
      ground (arith, order_from-absent (i + 1) cs id a.1, string_eq.beq_iff c.check_id id, a.0)

  order_from-ge :
      (i : ℕ) (checks : List (Check C (Status × String))) (id : String)
      → (order_from i checks id ≡ none) ⊎ (i ≤ index_or_zero (order_from i checks id))
  unfolding order_from
  order_from-ge i [] id = inl refl
  order_from-ge i (c ∷ cs) id = ground (arith, order_from-ge (i + 1) cs id)

  abbrev Indexed : ℕ → List (Check C (Status × String)) → CheckResult → Type 0
  Indexed i checks r = (is_none (order_from i checks r.check_id) ≡ false) × (i ≤ index i checks r)

  Indexed-later :
      (i : ℕ) (c : Check C (Status × String)) (cs : List (Check C (Status × String)))
      (r : CheckResult)
      → Indexed (i + 1) cs r
      → Indexed i (c ∷ cs) r × (index (i + 1) cs r ≡ index i (c ∷ cs) r)
  unfolding order_from
  Indexed-later i c cs r h = ground (arith, h)

  run_all-Indexed :
      (i : ℕ) (checks : List (Check C (Status × String))) (context : Option C)
      → All (Indexed i checks) (run_all checks context)
  unfolding order_from run_active_check
  run_all-Indexed i [] context = tt
  run_all-Indexed i (c ∷ cs) context = (
    ground (arith, order_from-ge (i + 1) cs c.check_id, beq_refl c.check_id),
    All-weaken (Indexed (i + 1) cs) (Indexed i (c ∷ cs)) (run_all cs context)
        (λ r h. (Indexed-later i c cs r h).0) (run_all-Indexed (i + 1) cs context),
  )

  Ascending-index :
      (i : ℕ) (checks : List (Check C (Status × String))) (context : Option C)
      → Unique id_of checks
      → Ascending (index i checks) (run_all checks context)
  unfolding order_from run_active_check
  Ascending-index i [] context u = tt
  Ascending-index i (c ∷ cs) context u =
      let later = run_all-Indexed (i + 1) cs context in
      let absent = order_from-absent (i + 1) cs c.check_id u.0 in
      (
        All-weaken (Indexed (i + 1) cs)
            (λ s. index i (c ∷ cs) (run_active_check c context) < index i (c ∷ cs) s)
            (run_all cs context) (λ r h. ground (arith, h, absent, beq_refl c.check_id)) later,
        Ascending-cong (index (i + 1) cs) (index i (c ∷ cs)) (run_all cs context)
            (All-weaken (Indexed (i + 1) cs) (λ r. index (i + 1) cs r ≡ index i (c ∷ cs) r)
              (run_all cs context) (λ r h. (Indexed-later i c cs r h).1) later)
            (Ascending-index (i + 1) cs context u.1),
      )

length-run_all :
    {C : Type 0} (checks : List (Check C (Status × String))) (context : Option C)
    → length (run_all checks context) ≡ length checks
length-run_all [] context = refl
length-run_all (c ∷ cs) context = ap suc (length-run_all cs context)

perm_refl : (rs : List CheckResult) → Permᴰ rs rs
perm_refl [] = Permᴰ.nil
perm_refl (r ∷ rs) = Permᴰ.cons refl (perm_refl rs)

length-permᴰ : {xs ys : List CheckResult} → Permᴰ xs ys → length xs ≡ length ys
length-permᴰ Permᴰ.nil = refl
length-permᴰ (Permᴰ.cons e h) = ap suc (length-permᴰ h)
length-permᴰ (Permᴰ.swap e f) = refl
length-permᴰ (Permᴰ.trans h k) = length-permᴰ h ∙ length-permᴰ k

-- The calls of the callback: each result in turn, with the numbers from `done` + 1 on.
abbrev pub Counted : ℕ → ℕ → List CheckResult → List Progress → Type 0
Counted total done [] [] = done ≡ total
Counted total done [] (p ∷ ps) = ⊥
Counted total done (r ∷ rs) [] = ⊥
Counted total done (r ∷ rs) (p ∷ ps) =
    (p.result ≡ r) × (p.done ≡ done + 1) × (p.total ≡ total) × Counted total (done + 1) rs ps

progress_from-Counted :
    (total done : ℕ) (rs : List CheckResult)
    → done + length rs ≡ total
    → Counted total done rs (progress_from total done rs)
unfolding progress_from
progress_from-Counted total done [] h = omega (arith, h)
progress_from-Counted total done (r ∷ rs) h =
    (refl, refl, refl, progress_from-Counted total (done + 1) rs (omega (arith, h)))

all-is_ordered :
    {C : Type 0} (registry : List (Check C (Status × String))) (rs : List CheckResult)
    → All (Indexed 0 registry) rs
    → all (is_ordered registry) rs ≡ true
all-is_ordered registry [] a = refl
all-is_ordered registry (r ∷ rs) a = ground (arith, a.0, all-is_ordered registry rs a.1)

-- Whatever the concurrency and in whatever order the pool completes the checks, the results are
-- those of the registry in its order, no KeyError comes up, and the callback has counted each
-- result up to the total in an order of the results.
pub evaluate_active_lem :
    {C : Type 0} (registry : List (Check C (Status × String)))
    → Unique (λ c. c.check_id) registry
    → (context : Option C) (concurrency : ℕ) (complete : List CheckResult → List CheckResult)
    → ((rs : List CheckResult) → Permᴰ (complete rs) rs)
    → (progress : List Progress) × (seen : List CheckResult) × (evaluate_active registry context
          concurrency complete
        ≡ some (run_all registry context, progress))
      × Permᴰ seen (run_all registry context)
      × Counted (length registry) 0 seen progress
unfolding evaluate_active
evaluate_active_lem registry unique context concurrency complete permutes =
    let results = run_all registry context in
    let perm = permutes results in
    let count = length-run_all registry context in
    elim (Bool-cases (leb concurrency 1 || is_none context)) [
      | inl sequential ↦ (
        progress_from (length registry) 0 results,
        results,
        rw (sequential, evaluate_active) refl,
        perm_refl results,
        progress_from-Counted (length registry) 0 results (omega (arith, count)),
      )
      | inr pooled ↦
          let found =
            all-is_ordered registry (complete results)
              (All-permᴰ (Indexed 0 registry) perm (run_all-Indexed 0 registry context)) in
          let sorted =
            sort_by_lem (position registry) perm (Ascending-index 0 registry context unique) in
          let same = length-permᴰ perm in
          (
            progress_from (length registry) 0 (complete results),
            complete results,
            rw (pooled, found, sorted, evaluate_active) refl,
            perm,
            progress_from-Counted (length registry) 0 (complete results)
                (omega (arith, count, same)),
          )
    ]
