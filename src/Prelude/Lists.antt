-- ===== src/Prelude/Lists.antt =====
-- Python's list operations and comprehensions, with lengths over the native numbers.
use Prim.Native.Nat.{ℕ, suc, ◌+◌, ◌≤◌}
use mathlib.Core.Path.{◌≡◌, refl, ap, sym, subst}
use mathlib.Core.Logic.{◌↔◌, ◌⊎◌}
use mathlib.Core.Bool.{Bool, true, false, ◌&&◌, ◌||◌}
use mathlib.Core.Option.{Option, none, some}
use mathlib.Core.List.{List, [], ◌∷◌, ◌++◌}
use native.Mathlib.Omega.{arith}
use x402_conformance.Prelude.Tests.{if◌then◌else◌}

module _ {ℓ} {A : Type ℓ} where
  abbrev pub length : List A → ℕ
  length [] = 0
  length (x ∷ xs) = suc (length xs)

  -- any(p(x) for x in xs)
  abbrev pub any : (A → Bool) → List A → Bool
  any p [] = false
  any p (x ∷ xs) = p x || any p xs

  -- all(p(x) for x in xs)
  abbrev pub all : (A → Bool) → List A → Bool
  all p [] = true
  all p (x ∷ xs) = p x && all p xs

  -- [x for x in xs if p(x)]
  abbrev pub keep : (A → Bool) → List A → List A
  keep p [] = []
  keep p (x ∷ xs) = let rest = keep p xs in if p x then x ∷ rest else rest

  -- sum(p(x) for x in xs), where a Boolean counts as 0 or 1
  abbrev pub count_if : (A → Bool) → List A → ℕ
  count_if p [] = 0
  count_if p (x ∷ xs) = (if p x then 1 else 0) + count_if p xs

  -- next((x for x in xs if p(x)), None)
  abbrev pub first : (A → Bool) → List A → Option A
  first p [] = none
  first p (x ∷ xs) = let rest = first p xs in if p x then some x else rest

  pub length-append : (xs ys : List A) → length (xs ++ ys) ≡ length xs + length ys
  length-append [] ys = omega arith
  length-append (x ∷ xs) ys = omega (arith, length-append xs ys)

  pub length-keep-le : (p : A → Bool) (xs : List A) → length (keep p xs) ≤ length xs
  length-keep-le p [] = omega arith
  length-keep-le p (x ∷ xs) = ground (arith, length-keep-le p xs)

  pub any-append : (p : A → Bool) (xs ys : List A) → any p (xs ++ ys) ≡ (any p xs || any p ys)
  any-append p [] ys = refl
  any-append p (x ∷ xs) ys = ground (arith, any-append p xs ys)

-- The predicates that specifications are written with.
module _ {ℓ} {A : Type ℓ} (P : A → Type 0) where
  -- every element
  abbrev pub All : List A → Type 0
  All [] = Unit
  All (x ∷ xs) = P x × All xs

  -- some element
  abbrev pub Any : List A → Type 0
  Any [] = ⊥
  Any (x ∷ xs) = P x ⊎ Any xs

-- A test that decides a predicate, and what the loops over it then decide.
abbrev pub Decides {ℓ} : {A : Type ℓ} → (A → Bool) → (A → Type 0) → Type ℓ
Decides {A} p P = (x : A) → (p x ≡ true) ↔ P x

module _ {ℓ} {A : Type ℓ} (p : A → Bool) (P : A → Type 0) (t : Decides p P) where
  pub any_iff : (xs : List A) → (any p xs ≡ true) ↔ Any P xs
  any_iff [] = ground arith
  any_iff (x ∷ xs) = ground (arith, t x, any_iff xs)

  pub all_iff : (xs : List A) → (all p xs ≡ true) ↔ All P xs
  all_iff [] = ground arith
  all_iff (x ∷ xs) = ground (arith, t x, all_iff xs)

pub some-inj {ℓ} : {A : Type ℓ} {a b : A} → some a ≡ some b → a ≡ b
some-inj {a} h = ap (λ o. elim o [ none ↦ a | some x ↦ x ]) h

-- A statement on the value that is there.
abbrev pub Present {ℓ} : {A : Type ℓ} → Option A → (A → Type 0) → Type ℓ
Present {A} o P = (r : A) × (o ≡ some r) × P r

pub present_iff {ℓ} :
    {A : Type ℓ} (r : A) (P : A → Type 0) (Q : Type 0) → Q ↔ P r → Q ↔ Present (some r) P
present_iff r P Q (to, from) =
    ((λ q. (r, refl, to q)), λ (x, h, p). from (subst P (sym (some-inj h)) p))

pub missing_iff {ℓ} : {A : Type ℓ} (P : A → Type 0) (Q : Type 0) → ¬ Q → Q ↔ Present none P
missing_iff P Q n = ((λ q. elim (n q) [ ]), λ (x, h, p). cc)
