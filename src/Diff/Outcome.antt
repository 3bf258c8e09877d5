-- ===== src/Diff/Outcome.antt =====
-- The outcome of diff.py as a whole: what each list holds, and the two verdicts.
use x402_conformance.Prelude.{
  String, ◌≡◌, ◌≢◌, ◌↔◌, ◌⊎◌, refl, inl, true, false, Option, none, some, List, [], ◌∷◌, ◌++◌,
  arith, Any, string_eq, ap,
}
use x402_conformance.Checks.Base.{Status, status_eq}
use x402_conformance.Report.{is_empty}
use x402_conformance.Diff.{
  Index, Transition, DiffResult, no_changes, classify_change, classify, classify_all, status_of,
  keys, sorted_keys, diff_indexes, has_regressions,
}
use x402_conformance.Diff.Keys.{Holds, sorted_keys_lem}
use x402_conformance.Diff.Classes.{
  Class, listed, Belongs, Lists, change, Any-concat, classify_all_iff,
}

keys-status_of_iff :
    (cid : String) (out : Index) → Holds cid (keys out) ↔ (status_of cid out ≢ none)
unfolding status_of
keys-status_of_iff cid [] = ground arith
keys-status_of_iff cid ((k, t) ∷ out) =
    ground (arith, string_eq.beq_iff k cid, keys-status_of_iff cid out)

Holds-append_iff :
    (k : String) (xs ys : List String) → Holds k (xs ++ ys) ↔ (Holds k xs ⊎ Holds k ys)
Holds-append_iff k [] ys = ground arith
Holds-append_iff k (x ∷ xs) ys = ground (arith, Holds-append_iff k xs ys)

nothing_listed : (c : Class) (t : Transition) → ¬ Lists t (listed c no_changes)
nothing_listed Class.fixed t h = h
nothing_listed Class.regressed t h = h
nothing_listed Class.still_failing t h = h
nothing_listed Class.other_changes t h = h

change-added :
    (cid : String) (o n : Status) (res : DiffResult)
    → (classify_change cid o n res).added ≡ res.added
unfolding classify_change
change-added cid o n res = ground arith

change-removed :
    (cid : String) (o n : Status) (res : DiffResult)
    → (classify_change cid o n res).removed ≡ res.removed
unfolding classify_change
change-removed cid o n res = ground arith

classify-added_iff :
    (i cid : String) (old new : Option Status) (res : DiffResult)
    → Holds i (classify cid old new res).added ↔ (Holds i res.added ⊎ (cid ≡ i) × (old ≡ none))
unfolding classify
classify-added_iff i cid none new res =
    ground (arith, Any-concat (λ (j : String). j ≡ i) res.added cid)
classify-added_iff i cid (some o) none res = ground arith
classify-added_iff i cid (some o) (some n) res = rw change-added (ground arith)

classify-removed_iff :
    (i cid : String) (old new : Option Status) (res : DiffResult)
    → Holds i (classify cid old new res).removed
      ↔ (Holds i res.removed ⊎ (cid ≡ i) × (old ≢ none) × (new ≡ none))
unfolding classify
classify-removed_iff i cid none new res = ground arith
classify-removed_iff i cid (some o) none res =
    ground (arith, Any-concat (λ (j : String). j ≡ i) res.removed cid)
classify-removed_iff i cid (some o) (some n) res = rw change-removed (ground arith)

module _ (old new : Index) where
  keys_held_iff :
      (cid : String)
      → Holds cid (sorted_keys (keys old ++ keys new))
        ↔ ((status_of cid old ≢ none) ⊎ (status_of cid new ≢ none))
  keys_held_iff cid = ground (
    arith,
    (sorted_keys_lem (keys old ++ keys new)).1 cid,
    Holds-append_iff cid (keys old) (keys new),
    keys-status_of_iff cid old,
    keys-status_of_iff cid new,
  )

  -- A transition is listed as fixed, regressed, still failing or other exactly when the two reports
  -- hold its check with its two statuses and the statuses change in that way: bad to PASS is fixed;
  -- from PASS to anything else, or from SKIP to bad, is a regression; bad in both is still failing;
  -- SKIP to PASS and bad to SKIP are other changes.
  pub diff_iff :
      (c : Class) (t : Transition)
      → Lists t (listed c (diff_indexes old new)) ↔ (
          (status_of t.check_id old ≡ some t.old)
          × (status_of t.check_id new ≡ some t.new)
          × Belongs c t.old t.new)
  unfolding diff_indexes
  diff_iff c t = ground (
    arith,
    nothing_listed c t,
    keys_held_iff t.check_id,
    classify_all_iff old new c t (sorted_keys (keys old ++ keys new)) no_changes,
  )

  classify_all-added_iff :
      (cid : String) (ks : List String) (res : DiffResult)
      → Holds cid (classify_all old new ks res).added
        ↔ (Holds cid res.added ⊎ Holds cid ks × (status_of cid old ≡ none))
  unfolding classify_all
  classify_all-added_iff cid [] res = ground arith
  classify_all-added_iff cid (k ∷ ks) res = ground (
    arith,
    classify_all-added_iff cid ks (classify k (status_of k old) (status_of k new) res),
    classify-added_iff cid k (status_of k old) (status_of k new) res,
    ap (λ x. status_of x old) {x = k} {y = cid},
  )

  classify_all-removed_iff :
      (cid : String) (ks : List String) (res : DiffResult)
      → Holds cid (classify_all old new ks res).removed ↔ (
          Holds cid res.removed
          ⊎ Holds cid ks × (status_of cid old ≢ none) × (status_of cid new ≡ none))
  unfolding classify_all
  classify_all-removed_iff cid [] res = ground arith
  classify_all-removed_iff cid (k ∷ ks) res = ground (
    arith,
    classify_all-removed_iff cid ks (classify k (status_of k old) (status_of k new) res),
    classify-removed_iff cid k (status_of k old) (status_of k new) res,
    ap (λ x. status_of x old) {x = k} {y = cid},
    ap (λ x. status_of x new) {x = k} {y = cid},
  )

  -- A check is listed as added exactly when the new report alone holds it, and as removed exactly
  -- when the old report alone does.
  pub added_removed_iff :
      (cid : String)
      → (Holds cid (diff_indexes old new).added
          ↔ ((status_of cid old ≡ none) × (status_of cid new ≢ none)))
        × (Holds cid (diff_indexes old new).removed
            ↔ ((status_of cid old ≢ none) × (status_of cid new ≡ none)))
  unfolding diff_indexes
  added_removed_iff cid =
      let ks = sorted_keys (keys old ++ keys new) in
      (
        ground (arith, classify_all-added_iff cid ks no_changes, keys_held_iff cid),
        ground (arith, classify_all-removed_iff cid ks no_changes, keys_held_iff cid),
      )

pub is_empty_iff :
    {A : Type 0} (xs : List A) → (is_empty xs ≡ true) ↔ ((x : A) → ¬ Any (λ y. y ≡ x) xs)
is_empty_iff [] = (λ h x a. a, λ h. refl)
is_empty_iff (x ∷ xs) = (λ h. cc, λ h. absurd (h x (inl refl)))

module _ (old new : Index) where
  -- There are no regressions exactly when no check of both reports goes from PASS to another status
  -- or from SKIP to a failure.
  pub no_regressions_iff : (has_regressions (diff_indexes old new) ≡ false) ↔ (
      (cid : String) (o n : Status)
      → status_of cid old ≡ some o
      → status_of cid new ≡ some n
      → ¬ Belongs Class.regressed o n)
  unfolding has_regressions
  no_regressions_iff =
      let d = diff_indexes old new in
      let empty = is_empty_iff d.regressed in
      (
        λ h cid o n p q b.
            empty.0 (ground arith) (change cid o n)
              ((diff_iff old new Class.regressed (change cid o n)).1 (p, q, b)),
        λ h.
            let none_listed : is_empty d.regressed ≡ true = empty.1 λ t l.
              let (p, q, b) = (diff_iff old new Class.regressed t).0 l in
              h t.check_id t.old t.new p q b in
            rw none_listed,
      )
