-- ===== src/Diff/Agreement.antt =====
-- When diff.py reports no change, and what it says of a report and itself, and of two reports
-- given the other way round.
use x402_conformance.Prelude.{
  String, ◌≡◌, ◌≢◌, ◌↔◌, ◌⊎◌, refl, inl, true, false, Option, none, some, arith,
}
use x402_conformance.Checks.Base.{Status}
use x402_conformance.Report.{is_empty}
use x402_conformance.Diff.{
  Index, Transition, DiffResult, status_of, diff_indexes, has_regressions, unchanged,
}
use x402_conformance.Diff.Classes.{Class, listed, Bad, Belongs, Lists, change}
use x402_conformance.Diff.Outcome.{is_empty_iff, diff_iff, added_removed_iff, no_regressions_iff}

-- The two reports agree on a check: the same status, or none, or a failure in both.
abbrev pub Agree : Option Status → Option Status → Type 0
Agree none n = n ≡ none
Agree (some o) none = ⊥
Agree (some o) (some n) = (o ≡ n) ⊎ (Bad o × Bad n)

Agree-of :
    (o n : Status)
    → ¬ Belongs Class.fixed o n
    → ¬ Belongs Class.regressed o n
    → ¬ Belongs Class.other_changes o n
    → (o ≡ n) ⊎ (Bad o × Bad n)
Agree-of o n f r c = ground arith

Agree-not :
    (o n : Status)
    → (o ≡ n) ⊎ (Bad o × Bad n)
    → (¬ Belongs Class.fixed o n)
      × (¬ Belongs Class.regressed o n)
      × (¬ Belongs Class.other_changes o n)
Agree-not o n h = ground arith

Agree-from :
    (o n : Option Status)
    → (o ≡ none → ¬ (n ≢ none))
    → (o ≢ none → ¬ (n ≡ none))
    → ((a b : Status) → o ≡ some a → n ≡ some b → (a ≡ b) ⊎ (Bad a × Bad b))
    → Agree o n
Agree-from none none p q r = refl
Agree-from none (some n) p q r = absurd (p refl (λ e. cc))
Agree-from (some o) none p q r = q (λ e. cc) refl
Agree-from (some o) (some n) p q r = r o n refl refl

Agree-parts :
    (o n : Option Status)
    → Agree o n
    → (o ≡ none → ¬ (n ≢ none))
      × (o ≢ none → ¬ (n ≡ none))
      × ((a b : Status) → o ≡ some a → n ≡ some b → (a ≡ b) ⊎ (Bad a × Bad b))
Agree-parts none n h = (λ _ q. q h, λ p _. p refl, λ a b p. cc)
Agree-parts (some o) none h = absurd h
Agree-parts (some o) (some n) h = ground arith

module _ (old new : Index) where
  abbrev outcome : DiffResult
  outcome = diff_indexes old new

  nothing-listed :
      (c : Class)
      → is_empty (listed c outcome) ≡ true
      → (cid : String) (o n : Status) → status_of cid old ≡ some o
      → status_of cid new ≡ some n
      → ¬ Belongs c o n
  nothing-listed c e cid o n p q b =
      (is_empty_iff (listed c outcome)).0 e (change cid o n)
        ((diff_iff old new c (change cid o n)).1 (p, q, b))

  nothing-listed_of :
      (c : Class)
      → ((cid : String) (o n : Status)
          → status_of cid old ≡ some o
          → status_of cid new ≡ some n
          → ¬ Belongs c o n)
      → is_empty (listed c outcome) ≡ true
  nothing-listed_of c h =
      (is_empty_iff (listed c outcome)).1
        λ t l. let (p, q, b) = (diff_iff old new c t).0 l in h t.check_id t.old t.new p q b

  unchanged-Agree :
      unchanged outcome ≡ true → (cid : String) → Agree (status_of cid old) (status_of cid new)
  unfolding unchanged
  unchanged-Agree h cid =
      let (added, removed) = added_removed_iff old new cid in
      Agree-from (status_of cid old) (status_of cid new)
        (λ p q. (is_empty_iff outcome.added).0 (ground arith) cid (added.1 (p, q)))
        (λ p q. (is_empty_iff outcome.removed).0 (ground arith) cid (removed.1 (p, q)))
        λ o n p q.
          Agree-of o n (nothing-listed Class.fixed (ground arith) cid o n p q)
            (nothing-listed Class.regressed (ground arith) cid o n p q)
            (nothing-listed Class.other_changes (ground arith) cid o n p q)

  Agree-unchanged :
      ((cid : String) → Agree (status_of cid old) (status_of cid new)) → unchanged outcome ≡ true
  unfolding unchanged
  Agree-unchanged h =
      let parts = λ (cid : String). Agree-parts (status_of cid old) (status_of cid new) (h cid) in
      let fixed =
        nothing-listed_of Class.fixed λ cid o n p q. (Agree-not o n ((parts cid).2 o n p q)).0 in
      let regressed =
        nothing-listed_of Class.regressed
          λ cid o n p q. (Agree-not o n ((parts cid).2 o n p q)).1 in
      let other =
        nothing-listed_of Class.other_changes
          λ cid o n p q. (Agree-not o n ((parts cid).2 o n p q)).2 in
      let added : is_empty outcome.added ≡ true =
        (is_empty_iff outcome.added).1
          λ cid l. let (p, q) = (added_removed_iff old new cid).0.0 l in (parts cid).0 p q in
      let removed : is_empty outcome.removed ≡ true =
        (is_empty_iff outcome.removed).1
          λ cid l. let (p, q) = (added_removed_iff old new cid).1.0 l in (parts cid).1 p q in
      ground arith

  -- The comparison reports no change exactly when the reports agree on every check: both lack it,
  -- or both hold it with one status, or it fails in both.
  pub unchanged_iff :
      (unchanged outcome ≡ true) ↔ ((cid : String) → Agree (status_of cid old) (status_of cid new))
  unchanged_iff = (unchanged-Agree, Agree-unchanged)

Agree-refl : (o : Option Status) → Agree o o
Agree-refl none = refl
Agree-refl (some s) = inl refl

-- A report compared with itself has no change and no regression.
pub diff_self :
    (report : Index)
    → (unchanged (diff_indexes report report) ≡ true)
      × (has_regressions (diff_indexes report report) ≡ false)
diff_self report = (
  (unchanged_iff report report).1 (λ cid. Agree-refl (status_of cid report)),
  (no_regressions_iff report report).1
      λ cid o n p q. let same : o ≡ n = cc in (Agree-not o n (inl same)).1,
)

-- What is fixed from the old report to the new one is a regression from the new one to the old one.
pub fixed-regressed_swap :
    (old new : Index) (t : Transition)
    → Lists t (diff_indexes old new).fixed
    → Lists
        (record { check_id = t.check_id; old = t.new; new = t.old })
        (diff_indexes new old).regressed
fixed-regressed_swap old new t l =
    let (p, q, b) = (diff_iff old new Class.fixed t).0 l in
    (diff_iff new old Class.regressed (change t.check_id t.new t.old)).1
      (q, p, inl (b.1, ground arith))
