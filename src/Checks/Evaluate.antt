-- ===== src/Checks/Evaluate.antt =====
-- checks/negative.py: one active check is run, and all of them, in sequence or on a thread pool.
pub mod Sorting
pub mod Order
use x402_conformance.Prelude.{
  ℕ, zero, suc, ◌+◌, String, Bool, true, false, Option, none, some, List, [], ◌∷◌, ◌==◌, string_eq,
  leb, ltb, ◌||◌, not, is_none, all, length, if◌then◌else◌, fstring,
}
use x402_conformance.Checks.Base.{
  Status, pass, fail, skip, error, CheckResult, Check, Ran, returned, raised,
}

-- The `(status, detail)` of a check, where an exception is the suite's own fault.
abbrev pub verdict_of : Ran (Status × String) → Status × String
verdict_of (returned verdict) = verdict
verdict_of (raised exc) = (error, fstring ("check crashed (suite bug): " ∷ exc ∷ []))

-- `done` and `total` go with each result to the progress callback.
pub record Progress : Type 0 where
  pub result : CheckResult
  pub done : ℕ
  pub total : ℕ

module _ {C : Type 0} where
  abbrev pub attempt : Check C (Status × String) → Option C → Status × String
  attempt check none = (skip, "no exact/eip3009 requirement to attack")
  attempt check (some ctx) = verdict_of (check.func ctx)

  unfoldable pub run_active_check : Check C (Status × String) → Option C → CheckResult
  run_active_check check context =
      let (status, detail) = attempt check context in
      record {
        check_id = check.check_id;
        title = check.title;
        severity = check.severity;
        spec_ref = check.spec_ref;
        status = status;
        detail = detail;
        reason_code = none;
      }

  -- The index of an ID in the dict `order`, where a later entry wins.
  unfoldable pub order_from : ℕ → List (Check C (Status × String)) → String → Option ℕ
  order_from i [] id = none
  order_from i (check ∷ checks) id =
      let later = order_from (i + 1) checks id in
      if not (is_none later) then later else if check.check_id == id then some i else none

  abbrev pub run_all : List (Check C (Status × String)) → Option C → List CheckResult
  run_all [] context = []
  run_all (check ∷ checks) context = run_active_check check context ∷ run_all checks context

-- The calls of the progress callback, in the order in which the results come.
unfoldable pub progress_from : ℕ → ℕ → List CheckResult → List Progress
progress_from total done [] = []
progress_from total done (r ∷ rs) =
    record { result = r; done = done + 1; total = total } ∷ progress_from total (done + 1) rs

-- `list.sort(key=key)`, which is stable.
unfoldable pub insert_by : (CheckResult → ℕ) → CheckResult → List CheckResult → List CheckResult
insert_by key r [] = r ∷ []
insert_by key r (s ∷ ss) =
    let rest = insert_by key r ss in if leb (key r) (key s) then r ∷ s ∷ ss else s ∷ rest

unfoldable pub sort_by : (CheckResult → ℕ) → List CheckResult → List CheckResult
unfolding insert_by
sort_by key [] = []
sort_by key (r ∷ rs) = insert_by key r (sort_by key rs)

abbrev pub index_or_zero : Option ℕ → ℕ
index_or_zero none = 0
index_or_zero (some i) = i

module _ {C : Type 0} (registry : List (Check C (Status × String))) where
  abbrev pub position : CheckResult → ℕ
  position r = index_or_zero (order_from 0 registry r.check_id)

  abbrev pub is_ordered : CheckResult → Bool
  is_ordered r = not (is_none (order_from 0 registry r.check_id))

  -- The results with the progress calls. `complete` is the order in which the pool completes the
  -- results that it is given; `none` is the KeyError for a result that the dict `order` misses.
  unfoldable pub evaluate_active :
      Option C
      → ℕ
      → (List CheckResult → List CheckResult)
      → Option (List CheckResult × List Progress)
  unfolding run_active_check order_from progress_from sort_by
  evaluate_active context concurrency complete =
      let results = run_all registry context in
      let collected = complete results in
      if leb concurrency 1 || is_none context
      then some (results, progress_from (length registry) 0 results)
      else if all is_ordered collected
      then some (sort_by position collected, progress_from (length registry) 0 collected)
      else none
