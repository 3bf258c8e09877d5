-- ===== src/Diff/Index.antt =====
-- What `_index` of diff.py accepts.
use mathlib.Core.List.{append-nil, append_assoc}
use x402_conformance.Prelude.{
  ◌↔◌, sym, subst, ap, ◌∙◌, ℕ, ◌+◌, String, ◌≡◌, refl, Bool, true, false, Option, some, none, List,
  [], ◌∷◌, ◌++◌, arith, any-append, string_eq, is_blank, ◌==◌,
}
use x402_conformance.Json.{Json, Fields, get, as_list, as_str, as_dict}
use x402_conformance.Checks.Base.{Status}
use x402_conformance.Diff.{
  Index, Result, ok, err, index_result, index_from, index_report, has_key, IndexError, parse_status,
  or_err, refuse, ◌>>=◌,
}

-- No key stands twice, and none is blank.
abbrev pub UniqueKeys : Index → Type 0
UniqueKeys [] = Unit
UniqueKeys ((k, s) ∷ out) = (has_key k out ≡ false) × UniqueKeys out

abbrev pub Named : Index → Type 0
Named [] = Unit
Named ((k, s) ∷ out) = (is_blank k ≡ false) × Named out

UniqueKeys-concat :
    (out : Index) (k : String) (s : Status)
    → UniqueKeys out
    → has_key k out ≡ false
    → UniqueKeys (out ++ (k, s) ∷ [])
UniqueKeys-concat [] k s u h = ground arith
UniqueKeys-concat ((j, t) ∷ out) k s u h = ground (
  arith,
  UniqueKeys-concat out k s,
  any-append (λ e. e.0 == j) out ((k, s) ∷ []),
  string_eq.beq_iff j k,
  string_eq.beq_iff k j,
)

Named-concat :
    (out : Index) (k : String) (s : Status)
    → Named out
    → is_blank k ≡ false
    → Named (out ++ (k, s) ∷ [])
Named-concat [] k s u h = ground arith
Named-concat ((j, t) ∷ out) k s u h = ground (arith, Named-concat out k s)

-- The document names a check and a status that the row of the index repeats.
abbrev pub Describes : Json → String × Status → Type 0
Describes r (k, s) =
    (fields : Fields) × (text : String) × (as_dict (some r) ≡ some fields)
    × (as_str (get fields "check_id") ≡ some k)
    × (as_str (get fields "status") ≡ some text)
    × (parse_status text ≡ some s)

-- The rows of the index repeat the results, one for one and in their order.
abbrev pub DescribesAll : List Json → Index → Type 0
DescribesAll [] [] = Unit
DescribesAll (r ∷ rs) (e ∷ out) = Describes r e × DescribesAll rs out
DescribesAll _ _ = ⊥

record Row (r : Json) (out grown : Index) : Type 0 where
  key : String
  status : Status
  described : Describes r (key, status)
  fresh : has_key key out ≡ false
  named : is_blank key ≡ false
  result : grown ≡ out ++ (key, status) ∷ []

module _ {ℓ κ} {A : Type ℓ} {B : Type κ} where
  or_err-bind :
      (o : Option A) (e : IndexError) (f : A → Result B) {b : B}
      → (or_err o e >>= f) ≡ ok b
      → (a : A) × (o ≡ some a) × (f a ≡ ok b)
  or_err-bind none e f h = cc
  or_err-bind (some a) e f h = (a, refl, h)

module _ {ℓ κ} {A : Type ℓ} {B : Type κ} (next : A → Result B) {out : B} where
  >>=-eq-ok : (m : Result A) → (m >>= next) ≡ ok out → (a : A) × (m ≡ ok a) × (next a ≡ ok out)
  >>=-eq-ok (err e) h = cc
  >>=-eq-ok (ok a) h = (a, refl, h)

refuse-bind {ℓ} :
    {B : Type ℓ} (t : Bool) (e : IndexError) (f : Unit {0} → Result B) {b : B}
    → (refuse t e >>= f) ≡ ok b
    → (t ≡ false) × (f tt ≡ ok b)
refuse-bind true e f h = cc
refuse-bind false e f h = (refl, h)

index_result-Row :
    (index : ℕ) (r : Json) (out grown : Index)
    → index_result index r out ≡ ok grown
    → Row r out grown
unfolding index_result
index_result-Row index r out grown h =
    let (fields, is_dict, h₁) = or_err-bind (as_dict (some r)) _ _ h in
    let (cid, has_id, h₂) = or_err-bind (as_str (get fields "check_id")) _ _ h₁ in
    let (named, h₃) = refuse-bind (is_blank cid) _ _ h₂ in
    let (text, has_text, h₄) = or_err-bind (as_str (get fields "status")) _ _ h₃ in
    let (status, parsed, h₅) = or_err-bind (parse_status text) _ _ h₄ in
    let (fresh, h₆) = refuse-bind (has_key cid out) _ _ h₅ in
    record {
      key = cid;
      status = status;
      described = (fields, text, is_dict, has_id, has_text, parsed);
      fresh = fresh;
      named = named;
      result = cc h₆;
    }

record Grown (rs : List Json) (out grown : Index) : Type 0 where
  rows : Index
  appended : grown ≡ out ++ rows
  described : DescribesAll rs rows
  unique : UniqueKeys grown
  named : Named grown

index_from-Grown :
    (index : ℕ) (rs : List Json) (out grown : Index)
    → UniqueKeys out
    → Named out
    → index_from index rs out ≡ ok grown
    → Grown rs out grown
unfolding index_from
index_from-Grown index [] out grown u n h =
    let e : out ≡ grown = cc h in
    record {
      rows = [];
      appended = sym e ∙ sym (append-nil out);
      described = tt;
      unique = subst UniqueKeys e u;
      named = subst Named e n;
    }
index_from-Grown index (r ∷ rs) out grown u n h =
    let (out', first, rest) = >>=-eq-ok _ (index_result index r out) h in
    let row = index_result-Row index r out out' first in
    let more =
      index_from-Grown (index + 1) rs out' grown
        (subst UniqueKeys (sym row.result) (UniqueKeys-concat out row.key row.status u row.fresh))
        (subst Named (sym row.result) (Named-concat out row.key row.status n row.named)) rest in
    record {
      rows = (row.key, row.status) ∷ more.rows;
      appended =
          more.appended
          ∙ ap (λ o. o ++ more.rows) row.result
          ∙ append_assoc out ((row.key, row.status) ∷ []) more.rows;
      described = (row.described, more.described);
      unique = more.unique;
      named = more.named;
    }

has_key-prefix :
    (out : Index) (k : String) (s : Status) (rows : Index)
    → UniqueKeys (out ++ (k, s) ∷ rows)
    → has_key k out ≡ false
has_key-prefix [] k s rows u = refl
has_key-prefix ((j, t) ∷ out) k s rows u = ground (
  arith,
  has_key-prefix out k s rows u.1,
  u.0,
  any-append (λ e. e.0 == j) out ((k, s) ∷ rows),
  string_eq.beq_iff j k,
  string_eq.beq_iff k j,
)

index_result-ok :
    (index : ℕ) (r : Json) (out : Index) (k : String) (s : Status)
    → Describes r (k, s)
    → is_blank k ≡ false
    → has_key k out ≡ false
    → index_result index r out ≡ ok (out ++ (k, s) ∷ [])
unfolding index_result
index_result-ok index r out k s (fields, text, is_dict, has_id, has_text, parsed) named fresh =
    rw (is_dict, has_id, named, has_text, parsed, fresh)

index_from-ok :
    (index : ℕ) (rs : List Json) (out rows : Index)
    → DescribesAll rs rows
    → UniqueKeys (out ++ rows)
    → Named rows
    → index_from index rs out ≡ ok (out ++ rows)
unfolding index_from
index_from-ok index [] out [] d u n = ap ok (sym (append-nil out))
index_from-ok index (r ∷ rs) out ((k, s) ∷ rows) (d, ds) u (n, ns) =
    let step = index_result-ok index r out k s d n (has_key-prefix out k s rows u) in
    let e = append_assoc out ((k, s) ∷ []) rows in
    rw (step, ← e) (index_from-ok (index + 1) rs (out ++ (k, s) ∷ []) rows ds (rw e u) ns)
index_from-ok index [] out (e ∷ rows) d u n = absurd d
index_from-ok index (r ∷ rs) out [] d u n = absurd d

-- A report whose index is `out`: its `results` are an array, each entry names a check that is not
-- blank and a valid status, and no check is named twice.
pub record IsIndexOf (report : Fields) (out : Index) : Type 0 where
  pub results : List Json
  pub listed : as_list (get report "results") ≡ some results
  pub described : DescribesAll results out
  pub unique : UniqueKeys out
  pub named : Named out

index_report-IsIndexOf :
    (report : Fields) (out : Index) → index_report report ≡ ok out → IsIndexOf report out
unfolding index_report
index_report-IsIndexOf report out h =
    let (results, listed, h₁) = or_err-bind (as_list (get report "results")) _ _ h in
    let g = index_from-Grown 0 results [] out tt tt h₁ in
    record {
      results = results;
      listed = listed;
      described = subst (DescribesAll results) (sym g.appended) g.described;
      unique = g.unique;
      named = g.named;
    }

-- `_index` accepts a report exactly when its `results` are an array in which each entry is an object
-- with a `check_id` text that is not blank and one of the four statuses, and no ID stands twice; the
-- dict then holds one row for each entry, in order.
pub index_report_iff :
    (report : Fields) (out : Index) → (index_report report ≡ ok out) ↔ IsIndexOf report out
unfolding index_report
index_report_iff report out = (
  index_report-IsIndexOf report out,
  λ i. rw i.listed (index_from-ok 0 i.results [] out i.described i.unique i.named),
)
