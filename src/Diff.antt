-- ===== src/Diff.antt =====
-- diff.py: two reports are compared check by check.
pub mod Index
pub mod Keys
pub mod Classes
pub mod Outcome
pub mod Agreement
use Prim.Native.Nat.{Ordering}
use Prim.Native.String.{compare}
use x402_conformance.Prelude.{
  ℕ, ◌+◌, String, Bool, true, false, Option, none, some, List, [], ◌∷◌, ◌++◌, not, any, ◌||◌, ◌&&◌,
  ◌==◌, string_eq, if◌then◌else◌, is_blank,
}
use x402_conformance.Json.{Json, Fields, get, as_list, as_str, as_dict}
use x402_conformance.Checks.Base.{Status, pass, fail, skip, error, status_eq}
use x402_conformance.Report.{is_bad, is_empty}

-- `status in _VALID_STATUSES`, with the status that the text names
unfoldable pub parse_status : String → Option Status
parse_status s =
    if s == "pass"
    then some pass
    else if s == "skip"
    then some skip
    else if s == "fail"
    then some fail
    else if s == "error"
    then some error
    else none

-- The ValueErrors of `_index`, with the values that their texts show.
pub data IndexError : Type 0 where
  results_not_array : IndexError
  result_not_object : ℕ → IndexError
  bad_check_id : ℕ → IndexError
  bad_status : ℕ → IndexError
  duplicate_check_id : String → IndexError

pub data Result {ℓ} (A : Type ℓ) : Type ℓ where
  err : IndexError → Result A
  ok : A → Result A

abbrev pub or_err {ℓ} : {A : Type ℓ} → Option A → IndexError → Result A
or_err none e = err e
or_err (some a) e = ok a

abbrev pub refuse : Bool → IndexError → Result (Unit {0})
refuse true e = err e
refuse false e = ok tt

infixl 5 ◌>>=◌
abbrev pub ◌>>=◌ {ℓ κ} : {A : Type ℓ} {B : Type κ} → Result A → (A → Result B) → Result B
err e >>= next = err e
ok a >>= next = next a

-- The dict of one report, in order of insertion.
abbrev pub Index : Type 0
Index = List (String × Status)

abbrev pub has_key : String → Index → Bool
has_key cid out = any (λ e. e.0 == cid) out

-- One round of the loop in `_index`.
unfoldable pub index_result : ℕ → Json → Index → Result Index
unfolding parse_status
index_result index r out = do
  fields ← or_err (as_dict (some r)) (result_not_object index)
  cid ← or_err (as_str (get fields "check_id")) (bad_check_id index)
  _ ← refuse (is_blank cid) (bad_check_id index)
  text ← or_err (as_str (get fields "status")) (bad_status index)
  status ← or_err (parse_status text) (bad_status index)
  _ ← refuse (has_key cid out) (duplicate_check_id cid)
  ok (out ++ (cid, status) ∷ [])

unfoldable pub index_from : ℕ → List Json → Index → Result Index
unfolding index_result
index_from index [] out = ok out
index_from index (r ∷ rs) out = do out' ← index_result index r out; index_from (index + 1) rs out'

unfoldable pub index_report : Fields → Result Index
unfolding index_from
index_report report = do
  results ← or_err (as_list (get report "results")) results_not_array
  index_from 0 results []

-- out.get(cid)
unfoldable pub status_of : String → Index → Option Status
status_of cid [] = none
status_of cid ((k, s) ∷ out) = let rest = status_of cid out in if k == cid then some s else rest

pub record Transition : Type 0 where
  pub check_id : String
  pub old : Status
  pub new : Status

pub record DiffResult : Type 0 where
  pub fixed : List Transition
  pub regressed : List Transition
  pub still_failing : List Transition
  pub other_changes : List Transition
  pub added : List String
  pub removed : List String

abbrev pub no_changes : DiffResult
no_changes = record {
  fixed = [];
  regressed = [];
  still_failing = [];
  other_changes = [];
  added = [];
  removed = [];
}

-- `sorted(keys)` of a set of keys, which holds each key once.
unfoldable pub insert_key : String → List String → List String
insert_key k [] = k ∷ []
insert_key k (j ∷ js) =
    let rest = insert_key k js in
    elim (compare k j) [ Ordering.lt ↦ k ∷ j ∷ js | Ordering.eq ↦ j ∷ js | Ordering.gt ↦ j ∷ rest ]

unfoldable pub sorted_keys : List String → List String
unfolding insert_key
sorted_keys [] = []
sorted_keys (k ∷ ks) = insert_key k (sorted_keys ks)

-- The branches of the loop in `diff_reports` for a check that both reports hold.
unfoldable pub classify_change : String → Status → Status → DiffResult → DiffResult
classify_change cid o n res =
    let t : Transition = record { check_id = cid; old = o; new = n } in
    if is_bad o && is_bad n
    then record res { still_failing = res.still_failing ++ t ∷ [] }
    else if o == n
    then res
    else if is_bad o && n == pass
    then record res { fixed = res.fixed ++ t ∷ [] }
    else if o == pass && not (n == pass)
    then record res { regressed = res.regressed ++ t ∷ [] }
    else if o == skip && is_bad n
    then record res { regressed = res.regressed ++ t ∷ [] }
    else record res { other_changes = res.other_changes ++ t ∷ [] }

unfoldable pub classify : String → Option Status → Option Status → DiffResult → DiffResult
unfolding classify_change
classify cid none n res = record res { added = res.added ++ cid ∷ [] }
classify cid (some o) none res = record res { removed = res.removed ++ cid ∷ [] }
classify cid (some o) (some n) res = classify_change cid o n res

unfoldable pub classify_all : Index → Index → List String → DiffResult → DiffResult
unfolding classify status_of
classify_all old new [] res = res
classify_all old new (cid ∷ cids) res =
    classify_all old new cids (classify cid (status_of cid old) (status_of cid new) res)

abbrev pub keys : Index → List String
keys [] = []
keys ((k, s) ∷ out) = k ∷ keys out

-- `diff_reports` after the two texts have been parsed as JSON objects.
unfoldable pub diff_indexes : Index → Index → DiffResult
unfolding sorted_keys classify_all
diff_indexes old new = classify_all old new (sorted_keys (keys old ++ keys new)) no_changes

unfoldable pub diff_reports : Fields → Fields → Result DiffResult
unfolding index_report diff_indexes
diff_reports old new = do
  old_idx ← index_report old
  new_idx ← index_report new
  ok (diff_indexes old_idx new_idx)

unfoldable pub has_regressions : DiffResult → Bool
has_regressions d = not (is_empty d.regressed)

unfoldable pub unchanged : DiffResult → Bool
unchanged d = not (
    not (is_empty d.fixed)
    || not (is_empty d.regressed)
    || not (is_empty d.other_changes)
    || not (is_empty d.added)
    || not (is_empty d.removed))
