-- ===== src/Scan.antt =====
-- scan.py: the result of one facilitator, and the ranking of many.
pub mod Ranking
use Prim.Native.Nat.{Ordering}
use Prim.Native.String.{compare}
use x402_conformance.Prelude.{
  ℕ, ◌+◌, String, Bool, true, false, Option, none, some, List, [], ◌∷◌, map, keep, length, ◌==◌,
  nat_eq, ltb, ◌&&◌, ◌||◌, not, is_none, if◌then◌else◌,
}
use x402_conformance.Checks.Base.{CheckResult}
use x402_conformance.Report.{summarize, is_bad, is_gating, assessment_exit_code}

pub record ScanEntry : Type 0 where
  pub url : String
  pub passed : ℕ
  pub failed : ℕ
  pub skipped : ℕ
  pub errors : ℕ
  pub gating_failures : ℕ
  pub conformant : Bool
  pub unreachable : Option String
  pub fail_ids : List String

-- `url` is the display-safe form of the target.
unfoldable pub summarize_scan : String → List CheckResult → ScanEntry
unfolding summarize assessment_exit_code
summarize_scan url results =
    let s = summarize results in
    record {
      url = url;
      passed = s.passed;
      failed = s.failed;
      skipped = s.skipped;
      errors = s.errors;
      gating_failures = length (keep (λ r. is_bad r.status && is_gating r.severity) results);
      conformant = assessment_exit_code results == 0;
      unreachable = none;
      fail_ids = map (λ r. r.check_id) (keep (λ r. is_bad r.status) results);
    }

abbrev pub is_unreachable : ScanEntry → Bool
is_unreachable e = not (is_none e.unreachable)

abbrev pub bad_count : ScanEntry → ℕ
bad_count e = e.failed + e.errors

abbrev pub url_le : String → String → Bool
url_le a b = elim (compare a b) [ Ordering.gt ↦ false | _ ↦ true ]

-- The comparison of the keys of `rank_scan`, which are tuples: the first components that differ decide.
unfoldable pub ranks_le : ScanEntry → ScanEntry → Bool
ranks_le a b =
    if is_unreachable a && not (is_unreachable b)
    then false
    else if not (is_unreachable a) && is_unreachable b
    then true
    else if ltb a.gating_failures b.gating_failures
    then false
    else if ltb b.gating_failures a.gating_failures
    then true
    else if ltb (bad_count a) (bad_count b)
    then false
    else if ltb (bad_count b) (bad_count a)
    then true
    else url_le a.url b.url

-- `sorted` is stable: an entry stands before the entries with the same key that follow it.
unfoldable pub insert_ranked : ScanEntry → List ScanEntry → List ScanEntry
unfolding ranks_le
insert_ranked e [] = e ∷ []
insert_ranked e (f ∷ fs) =
    let rest = insert_ranked e fs in if ranks_le e f then e ∷ f ∷ fs else f ∷ rest

unfoldable pub rank_scan : List ScanEntry → List ScanEntry
unfolding insert_ranked
rank_scan [] = []
rank_scan (e ∷ es) = insert_ranked e (rank_scan es)
