-- ===== src/Checks/Evaluate/Sorting.antt =====
-- Sorting a permutation of a list that is strictly ascending by its keys gives that list.
use mathlib.Core.List.{Permᴰ}
use x402_conformance.Prelude.{
  ℕ, ◌<◌, ◌≡◌, inl, inr, refl, sym, ◌∙◌, ap, subst, List, [], ◌∷◌, arith, All, Any,
}
use x402_conformance.Checks.Base.{CheckResult}
use x402_conformance.Checks.Evaluate.{insert_by, sort_by}

abbrev pub Member : CheckResult → List CheckResult → Type 0
Member r rs = Any (λ s. s ≡ r) rs

-- What holds of every element holds of every element of a permutation.
pub All-permᴰ :
    (P : CheckResult → Type 0) {xs ys : List CheckResult} → Permᴰ xs ys → All P ys → All P xs
All-permᴰ P Permᴰ.nil a = tt
All-permᴰ P (Permᴰ.cons e h) a = (subst P (sym e) a.0, All-permᴰ P h a.1)
All-permᴰ P (Permᴰ.swap e f) a = (subst P (sym e) a.1.0, (subst P (sym f) a.0, a.1.1))
All-permᴰ P (Permᴰ.trans h k) a = All-permᴰ P h (All-permᴰ P k a)

pub All-weaken :
    (P Q : CheckResult → Type 0) (xs : List CheckResult)
    → ((r : CheckResult) → P r → Q r)
    → All P xs
    → All Q xs
All-weaken P Q [] f a = tt
All-weaken P Q (x ∷ xs) f a = (f x a.0, All-weaken P Q xs f a.1)

All-Member : (xs : List CheckResult) → All (λ r. Member r xs) xs
All-Member [] = tt
All-Member (x ∷ xs) = (
  inl refl,
  All-weaken (λ r. Member r xs) (λ r. Member r (x ∷ xs)) xs (λ r m. inr m) (All-Member xs),
)

module _ (key : CheckResult → ℕ) where
  abbrev pub Ascending : List CheckResult → Type 0
  Ascending [] = Unit
  Ascending (r ∷ rs) = All (λ s. key r < key s) rs × Ascending rs

  above-Member :
      (n : ℕ) (rs : List CheckResult)
      → All (λ s. n < key s) rs
      → (r : CheckResult) → Member r rs
      → n < key r
  above-Member n [] a r m = absurd m
  above-Member n (s ∷ rs) a r (inl e) = subst (λ t. n < key t) e a.0
  above-Member n (s ∷ rs) a r (inr m) = above-Member n rs a.1 r m

  key-injective :
      (rs : List CheckResult)
      → Ascending rs
      → (a b : CheckResult) → Member a rs
      → Member b rs
      → key a ≡ key b
      → a ≡ b
  key-injective [] h a b m n k = absurd m
  key-injective (r ∷ rs) h a b (inl e) (inl f) k = sym e ∙ f
  key-injective (r ∷ rs) h a b (inl e) (inr m) k =
      let above = above-Member (key r) rs h.0 b m in
      let same = ap key e in absurd (omega (arith, above, same, k))
  key-injective (r ∷ rs) h a b (inr m) (inl e) k =
      let above = above-Member (key r) rs h.0 a m in
      let same = ap key e in absurd (omega (arith, above, same, k))
  key-injective (r ∷ rs) h a b (inr m) (inr n) k = key-injective rs h.1 a b m n k

  insert_by_comm :
      (a b : CheckResult) (rs : List CheckResult)
      → (key a ≡ key b → a ≡ b)
      → insert_by key a (insert_by key b rs) ≡ insert_by key b (insert_by key a rs)
  unfolding insert_by
  insert_by_comm a b [] h = ground arith
  insert_by_comm a b (r ∷ rs) h = ground (arith, insert_by_comm a b rs h)

  sort_by-permᴰ :
      (P : CheckResult → Type 0)
      → ((a b : CheckResult) → P a → P b → key a ≡ key b → a ≡ b)
      → {xs ys : List CheckResult} → Permᴰ xs ys
      → All P ys
      → sort_by key xs ≡ sort_by key ys
  unfolding sort_by
  sort_by-permᴰ P inj Permᴰ.nil a = refl
  sort_by-permᴰ P inj (Permᴰ.cons e h) a = let rest = sort_by-permᴰ P inj h a.1 in cc
  sort_by-permᴰ P inj (Permᴰ.swap {a = x} {b = y} {a' = x'} {b' = y'} {l = l} e f) a =
      let swapped = insert_by_comm y' x' (sort_by key l) (inj y' x' a.1.0 a.0) in cc
  sort_by-permᴰ P inj (Permᴰ.trans h k) a =
      sort_by-permᴰ P inj h (All-permᴰ P k a) ∙ sort_by-permᴰ P inj k a

  insert_by-least :
      (r : CheckResult) (rs : List CheckResult)
      → All (λ s. key r < key s) rs
      → insert_by key r rs ≡ r ∷ rs
  unfolding insert_by
  insert_by-least r [] a = refl
  insert_by-least r (s ∷ rs) a = ground (arith, a.0)

  sort_by-Ascending : (rs : List CheckResult) → Ascending rs → sort_by key rs ≡ rs
  unfolding sort_by
  sort_by-Ascending [] h = refl
  sort_by-Ascending (r ∷ rs) h =
      ap (insert_by key r) (sort_by-Ascending rs h.1) ∙ insert_by-least r rs h.0

  -- The sorted list is found from any order of its elements.
  pub sort_by_lem : {xs ys : List CheckResult} → Permᴰ xs ys → Ascending ys → sort_by key xs ≡ ys
  sort_by_lem {xs} {ys} h ascending =
      sort_by-permᴰ (λ r. Member r ys) (key-injective ys ascending) h (All-Member ys)
      ∙ sort_by-Ascending ys ascending

pub All-zip :
    (P Q R : CheckResult → Type 0) (xs : List CheckResult)
    → ((r : CheckResult) → P r → Q r → R r)
    → All P xs
    → All Q xs
    → All R xs
All-zip P Q R [] f a b = tt
All-zip P Q R (x ∷ xs) f a b = (f x a.0 b.0, All-zip P Q R xs f a.1 b.1)

-- Keys that agree on a list sort it alike.
pub Ascending-cong :
    (k l : CheckResult → ℕ) (rs : List CheckResult)
    → All (λ r. k r ≡ l r) rs
    → Ascending k rs
    → Ascending l rs
Ascending-cong k l [] e h = tt
Ascending-cong k l (r ∷ rs) e h = (
  All-zip (λ s. k s ≡ l s) (λ s. k r < k s) (λ s. l r < l s) rs
      (λ s same less. let head = e.0 in omega (arith, same, less, head)) e.1 h.0,
  Ascending-cong k l rs e.1 h.1,
)
