-- ===== src/Checks/PaymentRequired.antt =====
-- checks/payment_required.py: what the checks of the challenge document share. A check is given the
-- first probe; `repr` is `repr` of a decoded value, and `same` is Python's `==` on two of them.
pub mod Patterns
pub mod Loops
pub mod Shape
pub mod Rails
pub mod Document
pub mod BuilderCode
pub mod Bindings
pub mod Flow
pub mod Offers
use x402_conformance.Prelude.{
  ℕ, suc, ◌+◌, String, Option, none, some, List, [], ◌∷◌, ◌++◌, if◌then◌else◌, fstring, join,
}
use x402_conformance.Json.{Json, Fields, get, as_list, as_dict}
use x402_conformance.Probe.{Probe}
use x402_conformance.Checks.Base.{Status, pass, fail, skip}

-- [a for a in accepts if isinstance(a, dict)]
abbrev pub objects : List Json → List Fields
objects [] = []
objects (Json.obj fs ∷ js) = fs ∷ objects js
objects (_ ∷ js) = objects js

-- `_accepts_raw`
unfoldable pub accepts_raw : Probe → Option (List Fields)
unfolding get
accepts_raw p = elim p.raw [
  | none ↦ none
  | some raw ↦ elim (as_list (get raw "accepts")) [
    | none ↦ none
    | some accepts ↦ some (objects accepts)
  ]
]

abbrev pub no_payload : Status × String
no_payload = (skip, "no decoded PaymentRequired payload")

abbrev pub no_entries : Status × String
no_entries = (skip, "no accepts entries to inspect")

abbrev pub v1_skip : Status × String
v1_skip = (skip, "endpoint advertises x402 v1, not v2 — this suite tests v2 (see RS-PR-001)")

-- The two lines with which a check of the entries begins, and the rest of the check.
abbrev pub inspect : (List Fields → Status × String) → Option (List Fields) → Status × String
inspect check none = no_entries
inspect check (some []) = no_entries
inspect check (some (e ∷ es)) = check (e ∷ es)

-- What the loop `for i, e in enumerate(accepts)` appends, from the number of its first entry.
abbrev pub collect : (ℕ → Fields → List String) → ℕ → List Fields → List String
collect problems i [] = []
collect problems i (e ∷ es) = problems i e ++ collect problems (suc i) es

-- `if problems: return Status.FAIL, text`
abbrev pub fail_if : List String → String → Status × String → Status × String
fail_if [] text rest = rest
fail_if (p ∷ ps) text rest = (fail, text)

abbrev pub passed : Status × String
passed = (pass, "")

-- if bad: return Status.FAIL, "…" + ", ".join(bad) — after a text, with separator and closing text
abbrev pub refuse : List String → String → String → String → Status × String
refuse problems text sep closing =
    fail_if problems (fstring (text ∷ join sep problems ∷ closing ∷ [])) passed

-- An optional value where Python has None for none.
abbrev pub or_null : Option Json → Json
or_null none = Json.null
or_null (some j) = j
