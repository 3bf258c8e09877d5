-- ===== src/Diff/Keys.antt =====
-- `sorted(old_idx.keys() | new_idx.keys())` of diff.py: each key once, in ascending order.
use Prim.Native.Nat.{Ordering}
use Prim.Native.String.{compare}
use text.Mathlib.TextEquality.{path_by_compare}
use x402_conformance.Prelude.{String, ◌≡◌, ◌↔◌, ◌⊎◌, refl, inl, inr, List, [], ◌∷◌, arith, All, Any}
use x402_conformance.Prelude.TextOrder.{Before, Before-trans, Before-of_gt}
use x402_conformance.Diff.{insert_key, sorted_keys}

abbrev pub Holds : String → List String → Type 0
Holds k ks = Any (λ j. j ≡ k) ks

-- Strictly ascending, so no key stands twice.
abbrev pub Ascending : List String → Type 0
Ascending [] = Unit
Ascending (k ∷ ks) = All (Before k) ks × Ascending ks

Ordering-cases : (o : Ordering) → (o ≡ Ordering.lt) ⊎ (o ≡ Ordering.eq) ⊎ (o ≡ Ordering.gt)
Ordering-cases Ordering.lt = inl refl
Ordering-cases Ordering.eq = inr (inl refl)
Ordering-cases Ordering.gt = inr (inr refl)

All-insert_key :
    (P : String → Type 0) (k : String) (ks : List String) → P k → All P ks → All P (insert_key k ks)
unfolding insert_key
All-insert_key P k [] p h = (p, tt)
All-insert_key P k (j ∷ js) p h = ground (arith, All-insert_key P k js p h.1)

All-Before_trans :
    (k j : String) (ks : List String) → Before k j → All (Before j) ks → All (Before k) ks
All-Before_trans k j [] h a = tt
All-Before_trans k j (i ∷ ks) h a = (Before-trans k j i h a.0, All-Before_trans k j ks h a.1)

insert_key-Ascending : (k : String) (ks : List String) → Ascending ks → Ascending (insert_key k ks)
unfolding insert_key
insert_key-Ascending k [] a = (tt, tt)
insert_key-Ascending k (j ∷ js) a = elim (Ordering-cases (compare k j)) [
  | inl lt ↦ rw (lt, insert_key) ((lt, All-Before_trans k j js lt a.0), a)
  | inr (inl eq) ↦ rw (eq, insert_key) a
  | inr (inr gt) ↦
      rw (gt, insert_key)
        (All-insert_key (Before j) k js (Before-of_gt k j gt) a.0, insert_key-Ascending k js a.1)
]

insert_key_iff :
    (i k : String) (ks : List String) → Holds i (insert_key k ks) ↔ ((k ≡ i) ⊎ Holds i ks)
unfolding insert_key
insert_key_iff i k [] = ground arith
insert_key_iff i k (j ∷ js) = ground (arith, insert_key_iff i k js, path_by_compare k j)

-- The keys of the comparison are strictly ascending, and they are the keys of the two reports.
pub sorted_keys_lem :
    (ks : List String)
    → Ascending (sorted_keys ks) × ((i : String) → Holds i (sorted_keys ks) ↔ Holds i ks)
unfolding sorted_keys
sorted_keys_lem [] = (tt, λ i. (λ h. h, λ h. h))
sorted_keys_lem (k ∷ ks) =
    let (ascending, same) = sorted_keys_lem ks in
    (
      insert_key-Ascending k (sorted_keys ks) ascending,
      λ i. ground (arith, insert_key_iff i k (sorted_keys ks), same i),
    )
