-- ===== src/Probe/Findings.antt =====
-- The findings that the hooks of probe.py record about the JSON text.
use x402_conformance.Prelude.{
  String, ◌≡◌, ◌↔◌, ◌⊎◌, inl, inr, sym, subst, true, List, [], ◌∷◌, ◌++◌, arith, Any, ◌==◌,
  string_eq, any_iff, Bool-cases, ◌&&◌, not,
}
use x402_conformance.Probe.{member, record_duplicates, record_objects}

abbrev pub Holds : String → List String → Type 0
Holds name names = Any (λ n. n ≡ name) names

-- The key stands in the list at least twice.
abbrev pub Repeated : String → List String → Type 0
Repeated key [] = ⊥
Repeated key (k ∷ ks) = (k ≡ key) × Holds key ks ⊎ Repeated key ks

-- No name stands in the list twice.
abbrev pub Distinct : List String → Type 0
Distinct [] = Unit
Distinct (n ∷ ns) = (Holds n ns → ⊥) × Distinct ns

member_iff : (name : String) (names : List String) → (member name names ≡ true) ↔ Holds name names
member_iff name = any_iff (λ n. n == name) (λ n. n ≡ name) (λ n. string_eq.beq_iff n name)

Holds-last_iff :
    (name last : String) (names : List String)
    → Holds name (names ++ last ∷ []) ↔ (Holds name names ⊎ (last ≡ name))
Holds-last_iff name last [] = ground arith
Holds-last_iff name last (n ∷ ns) = ground (arith, Holds-last_iff name last ns)

Distinct-last :
    (last : String) (names : List String)
    → (Holds last names → ⊥)
    → Distinct names
    → Distinct (names ++ last ∷ [])
Distinct-last last [] h d = (λ e. e, tt)
Distinct-last last (n ∷ ns) h d = (
  λ m. ground (arith, Holds-last_iff n last ns, d.0, h, m),
  Distinct-last last ns (λ m. h (inr m)) d.1,
)

Holds-same : (k name : String) (ks : List String) → k ≡ name → Holds k ks ↔ Holds name ks
Holds-same k name ks e = (λ h. subst (λ n. Holds n ks) e h, λ h. subst (λ n. Holds n ks) (sym e) h)

-- What the loop over one object makes of a record.
record_duplicates_iff :
    (name : String) (found seen keys : List String)
    → Holds name (record_duplicates found seen keys)
      ↔ (Holds name found ⊎ (Holds name seen × Holds name keys) ⊎ Repeated name keys)
unfolding record_duplicates
record_duplicates_iff name found seen [] = ground arith
record_duplicates_iff name found seen (k ∷ ks) =
    let kept = record_duplicates_iff name found (k ∷ seen) ks in
    let grown = record_duplicates_iff name (found ++ k ∷ []) (k ∷ seen) ks in
    ground (
      arith,
      kept,
      grown,
      Holds-last_iff name k found,
      member_iff k seen,
      member_iff k found,
      Holds-same k name seen,
      Holds-same k name found,
    )

record_duplicates-Distinct :
    (found seen keys : List String) → Distinct found → Distinct (record_duplicates found seen keys)
unfolding record_duplicates
record_duplicates-Distinct found seen [] d = d
record_duplicates-Distinct found seen (k ∷ ks) d =
    elim (Bool-cases (member k seen && not (member k found))) [
      | inl new ↦
          rw (new, record_duplicates)
            (record_duplicates-Distinct (found ++ k ∷ []) (k ∷ seen) ks
              (Distinct-last k found (λ h. ground (arith, new, h, member_iff k found)) d))
      | inr known ↦ rw (known, record_duplicates) (record_duplicates-Distinct found (k ∷ seen) ks d)
    ]

record_objects_from :
    (name : String) (found : List String) (objects : List (List String))
    → (Holds name (record_objects found objects) ↔ (Holds name found ⊎ Any (Repeated name) objects))
      × (Distinct found → Distinct (record_objects found objects))
record_objects_from name found [] = (ground arith, λ d. d)
record_objects_from name found (keys ∷ objects) =
    let (held, distinct) = record_objects_from name (record_duplicates found [] keys) objects in
    (
      ground (arith, held, record_duplicates_iff name found [] keys),
      λ d. distinct (record_duplicates-Distinct found [] keys d),
    )

-- The recorded duplicates are exactly the keys that some object of the document holds twice, and
-- each of them is recorded once.
pub record_objects_iff :
    (objects : List (List String))
    → ((name : String) → Holds name (record_objects [] objects) ↔ Any (Repeated name) objects)
      × Distinct (record_objects [] objects)
record_objects_iff objects = (
  λ name. ground (arith, (record_objects_from name [] objects).0),
  (record_objects_from "" [] objects).1 tt,
)
