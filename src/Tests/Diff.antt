-- ===== src/Tests/Diff.antt =====
-- diff.py on two short reports.
use x402_conformance.Prelude.{String, ◌≡◌, ◌↔◌, refl, some, [], ◌∷◌, inl, string_eq, is_blank}
use x402_conformance.Json.{Json, Items, Fields, get}
use x402_conformance.Checks.Base.{pass, fail, skip}
use x402_conformance.Diff.{
  Index, Transition, ok, err, IndexError, index_report, index_from, index_result, parse_status,
  status_of, diff_indexes,
}
use x402_conformance.Diff.Index.{IsIndexOf, index_report_iff}
use x402_conformance.Diff.Classes.{Class, Belongs, Lists, listed}
use x402_conformance.Diff.Outcome.{diff_iff}

abbrev row : String → String → Items → Items
row id status = Items.cons (
    Json.obj
      (Fields.field "check_id" (Json.str id) (Fields.field "status" (Json.str status) Fields.end)))

abbrev report : Items → Fields
report rows = Fields.field "results" (Json.arr rows) Fields.end

abbrev old : Index
old = ("RS-HS-001", fail) ∷ ("RS-HS-002", pass) ∷ []

abbrev new : Index
new = ("RS-HS-001", pass) ∷ ("RS-HS-003", skip) ∷ []

abbrev repaired : Transition
repaired = record { check_id = "RS-HS-001"; old = fail; new = pass }

old_indexed :
    index_report (report (row "RS-HS-001" "fail" (row "RS-HS-002" "pass" Items.nil))) ≡ ok old
unfolding index_report index_from index_result parse_status get is_blank
old_indexed = refl

duplicate_refused :
    index_report (report (row "RS-HS-001" "fail" (row "RS-HS-001" "pass" Items.nil)))
    ≡ err (IndexError.duplicate_check_id "RS-HS-001")
unfolding index_report index_from index_result parse_status get is_blank
duplicate_refused = refl

index_report_iff_example :
    (index_report (report (row "RS-HS-001" "fail" Items.nil)) ≡ ok (("RS-HS-001", fail) ∷ []))
    ↔ IsIndexOf (report (row "RS-HS-001" "fail" Items.nil)) (("RS-HS-001", fail) ∷ [])
index_report_iff_example =
    index_report_iff (report (row "RS-HS-001" "fail" Items.nil)) (("RS-HS-001", fail) ∷ [])

diff_iff_example : Lists repaired (listed Class.fixed (diff_indexes old new)) ↔ (
    (status_of "RS-HS-001" old ≡ some fail)
    × (status_of "RS-HS-001" new ≡ some pass)
    × Belongs Class.fixed fail pass)
diff_iff_example = diff_iff old new Class.fixed repaired

in_old : status_of "RS-HS-001" old ≡ some fail
unfolding status_of
in_old = refl

in_new : status_of "RS-HS-001" new ≡ some pass
unfolding status_of
in_new = refl

repaired_listed : Lists repaired (diff_indexes old new).fixed
repaired_listed = (diff_iff old new Class.fixed repaired).1 (in_old, in_new, (inl refl, refl))
