-- ===== src/Diff/Classes.antt =====
-- Which change diff.py lists where: each loop round, the whole comparison, and its two verdicts.
use x402_conformance.Prelude.{
  String, ◌≡◌, ◌≢◌, ◌↔◌, ◌⊎◌, refl, inl, Option, none, some, List, [], ◌∷◌, ◌++◌, arith, Any,
  string_eq, ap,
}
use x402_conformance.Checks.Base.{Status, pass, fail, skip, error, status_eq}
use x402_conformance.Diff.{
  Index, Transition, DiffResult, classify_change, classify, classify_all, status_of,
}
use x402_conformance.Diff.Keys.{Holds}

pub data Class : Type 0 where
  fixed regressed still_failing other_changes : Class

abbrev pub listed : Class → DiffResult → List Transition
listed Class.fixed d = d.fixed
listed Class.regressed d = d.regressed
listed Class.still_failing d = d.still_failing
listed Class.other_changes d = d.other_changes

abbrev pub Bad : Status → Type 0
Bad s = (s ≡ fail) ⊎ (s ≡ error)

-- From what status to what status a change of each class leads.
abbrev pub Belongs : Class → Status → Status → Type 0
Belongs Class.fixed o n = Bad o × (n ≡ pass)
Belongs Class.regressed o n = ((o ≡ pass) × (n ≢ pass)) ⊎ ((o ≡ skip) × Bad n)
Belongs Class.still_failing o n = Bad o × Bad n
Belongs Class.other_changes o n = ((o ≡ skip) × (n ≡ pass)) ⊎ (Bad o × (n ≡ skip))

abbrev pub Lists : Transition → List Transition → Type 0
Lists t ts = Any (λ u. u ≡ t) ts

pub Any-concat {ℓ} :
    {A : Type ℓ} (P : A → Type 0) (xs : List A) (y : A) → Any P (xs ++ y ∷ []) ↔ (Any P xs ⊎ P y)
Any-concat P [] y = ground arith
Any-concat P (x ∷ xs) y = ground (arith, Any-concat P xs y)

abbrev pub change : String → Status → Status → Transition
change cid o n = record { check_id = cid; old = o; new = n }

classify_change_iff :
    (c : Class) (t : Transition) (cid : String) (o n : Status) (res : DiffResult)
    → Lists t (listed c (classify_change cid o n res))
      ↔ (Lists t (listed c res) ⊎ (cid ≡ t.check_id) × (o ≡ t.old) × (n ≡ t.new) × Belongs c o n)
unfolding classify_change
classify_change_iff Class.fixed t cid o n res =
    ground (arith, Any-concat (λ (u : Transition). u ≡ t) res.fixed (change cid o n))
classify_change_iff Class.regressed t cid o n res =
    ground (arith, Any-concat (λ (u : Transition). u ≡ t) res.regressed (change cid o n))
classify_change_iff Class.still_failing t cid o n res =
    ground (arith, Any-concat (λ (u : Transition). u ≡ t) res.still_failing (change cid o n))
classify_change_iff Class.other_changes t cid o n res =
    ground (arith, Any-concat (λ (u : Transition). u ≡ t) res.other_changes (change cid o n))

-- What one round adds to a class, for a check that the reports hold as `old` and `new`.
abbrev pub Adds : Class → Transition → String → Option Status → Option Status → Type 0
Adds c t cid old new =
    (cid ≡ t.check_id) × (old ≡ some t.old) × (new ≡ some t.new) × Belongs c t.old t.new

listed-added :
    (c : Class) (res : DiffResult) (ks : List String)
    → listed c (record res { added = ks }) ≡ listed c res
listed-added Class.fixed res ks = refl
listed-added Class.regressed res ks = refl
listed-added Class.still_failing res ks = refl
listed-added Class.other_changes res ks = refl

listed-removed :
    (c : Class) (res : DiffResult) (ks : List String)
    → listed c (record res { removed = ks }) ≡ listed c res
listed-removed Class.fixed res ks = refl
listed-removed Class.regressed res ks = refl
listed-removed Class.still_failing res ks = refl
listed-removed Class.other_changes res ks = refl

Belongs-along : (c : Class) (o n o' n' : Status) → o ≡ o' → n ≡ n' → Belongs c o n → Belongs c o' n'
Belongs-along c o n o' n' p q b = rw (← p, ← q) b

pub classify_iff :
    (c : Class) (t : Transition) (cid : String) (old new : Option Status) (res : DiffResult)
    → Lists t (listed c (classify cid old new res))
      ↔ (Lists t (listed c res) ⊎ Adds c t cid old new)
unfolding classify
classify_iff c t cid none n res = rw listed-added (inl, λ h. ground arith)
classify_iff c t cid (some o) none res = rw listed-removed (inl, λ h. ground arith)
classify_iff c t cid (some o) (some n) res = ground (
  arith,
  classify_change_iff c t cid o n res,
  Belongs-along c o n t.old t.new,
  Belongs-along c t.old t.new o n,
)

module _ (old new : Index) where
  pub classify_all_iff :
      (c : Class) (t : Transition) (ks : List String) (res : DiffResult)
      → Lists t (listed c (classify_all old new ks res)) ↔ (
          Lists t (listed c res)
          ⊎ Holds t.check_id ks
            × (status_of t.check_id old ≡ some t.old)
            × (status_of t.check_id new ≡ some t.new)
            × Belongs c t.old t.new)
  unfolding classify_all
  classify_all_iff c t [] res = ground arith
  classify_all_iff c t (k ∷ ks) res = ground (
    arith,
    classify_all_iff c t ks (classify k (status_of k old) (status_of k new) res),
    classify_iff c t k (status_of k old) (status_of k new) res,
    ap (λ x. status_of x old) {x = k} {y = t.check_id},
    ap (λ x. status_of x new) {x = k} {y = t.check_id},
  )
