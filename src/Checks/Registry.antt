-- ===== src/Checks/Registry.antt =====
-- The registries of checks/base.py hold no ID twice.
use x402_conformance.Prelude.{
  String, ◌≡◌, ◌≢◌, true, false, Option, none, some, List, [], ◌∷◌, ◌++◌, arith, All, any,
  string_eq, inl, inr, ◌==◌, Bool-cases, Option-cases, subst, ◌∙◌, sym, ap,
}
use x402_conformance.Checks.Base.{append_unique_check, register_all}
use mathlib.Core.List.{append_assoc, append-nil}

module _ {ℓ} {A : Type ℓ} (id : A → String) where
  -- No two entries have one ID.
  abbrev pub Unique : List A → Type 0
  Unique [] = Unit
  Unique (x ∷ xs) = All (λ y. id y ≢ id x) xs × Unique xs

  Unique-concat :
      (xs : List A) (item : A)
      → Unique xs
      → any (λ existing. id existing == id item) xs ≡ false
      → Unique (xs ++ item ∷ [])
  Unique-concat [] item u h = (tt, tt)
  Unique-concat (x ∷ xs) item u h = (
    All-last xs u.0 (λ e. ground (arith, string_eq.beq_iff (id x) (id item))),
    Unique-concat xs item u.1 (ground arith),
  )
    where
      All-last :
          (ys : List A)
          → All (λ y. id y ≢ id x) ys
          → id item ≢ id x
          → All (λ y. id y ≢ id x) (ys ++ item ∷ [])
      All-last [] a h = (h, tt)
      All-last (y ∷ ys) a h = (a.0, All-last ys a.1 h)

  -- A check is added at the end and only under a new ID, so IDs stay unique; a second check under an
  -- ID is refused.
  pub append_unique_check-Unique :
      (registry : List A) (item : A)
      → Unique registry
      → (any (λ existing. id existing == id item) registry ≡ true
          → append_unique_check id registry item ≡ none)
        × ((grown : List A)
            → append_unique_check id registry item ≡ some grown
            → (grown ≡ registry ++ item ∷ []) × Unique grown)
  unfolding append_unique_check
  append_unique_check-Unique registry item u =
      elim (Bool-cases (any (λ existing. id existing == id item) registry)) [
        | inl taken ↦ (
          λ _. rw taken,
          λ grown h. absurd (
              let e : ◌≡◌ {A = Option (List A)} none (some grown) =
                (rw (taken, append_unique_check) at h) in
              cc),
        )
        | inr fresh ↦ (
          λ h. cc,
          λ grown h.
              let e : registry ++ item ∷ [] ≡ grown = cc (rw (fresh, append_unique_check) at h) in
              (sym e, subst Unique e (Unique-concat registry item u fresh)),
        )
      ]

  -- Decorators that all succeed leave exactly their checks, in order and with unique IDs.
  pub register_all-Unique :
      (registry items grown : List A)
      → Unique registry
      → register_all id registry items ≡ some grown
      → (grown ≡ registry ++ items) × Unique grown
  unfolding register_all
  register_all-Unique registry [] grown u h =
      let e : registry ≡ grown = cc h in (sym e ∙ sym (append-nil registry), subst Unique e u)
  register_all-Unique registry (item ∷ items) grown u h =
      elim (Option-cases (append_unique_check id registry item)) [
        | inl refused ↦
            let e : ◌≡◌ {A = Option (List A)} none (some grown) =
              (rw (refused, register_all) at h) in
            cc
        | inr (more, added) ↦
            let (same, unique) = (append_unique_check-Unique registry item u).1 more added in
            let (rest, all_unique) =
              register_all-Unique more items grown unique (rw (added, register_all) at h) in
            (rest ∙ ap (λ l. l ++ items) same ∙ append_assoc registry (item ∷ []) items, all_unique)
      ]
