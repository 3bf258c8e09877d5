-- ===== src/Scan/Ranking.antt =====
-- The ranking of scan.py: the same entries, the most interesting ones first.
use text.Mathlib.TextEquality.{path_by_compare}
use mathlib.Core.List.{Permᴰ}
use x402_conformance.Prelude.{
  ◌<◌, String, ◌≡◌, ◌↔◌, ◌⊎◌, inl, inr, refl, sym, subst, ◌∙◌, true, false, List, [], ◌∷◌, arith,
  All, Bool-cases,
}
use x402_conformance.Prelude.TextOrder.{Before, Before-trans, Before-of_gt}
use x402_conformance.Scan.{
  ScanEntry, is_unreachable, bad_count, url_le, ranks_le, insert_ranked, rank_scan,
}

-- The entry stands before the other for good reason: it is reachable and the other is not, or it has
-- more gating failures, or as many and more failures and errors, or as many of both and no later URL.
abbrev pub Outranks : ScanEntry → ScanEntry → Type 0
Outranks a b =
    (is_unreachable a ≡ false) × (is_unreachable b ≡ true)
    ⊎ (is_unreachable a ≡ is_unreachable b)
      × ((b.gating_failures < a.gating_failures)
          ⊎ (a.gating_failures ≡ b.gating_failures)
            × ((bad_count b < bad_count a)
                ⊎ (bad_count a ≡ bad_count b) × (Before a.url b.url ⊎ (a.url ≡ b.url))))

perm_refl : (es : List ScanEntry) → Permᴰ es es
perm_refl [] = Permᴰ.nil
perm_refl (e ∷ es) = Permᴰ.cons refl (perm_refl es)

insert_ranked-permᴰ : (e : ScanEntry) (es : List ScanEntry) → Permᴰ (insert_ranked e es) (e ∷ es)
unfolding insert_ranked
insert_ranked-permᴰ e [] = Permᴰ.cons refl Permᴰ.nil
insert_ranked-permᴰ e (f ∷ fs) = elim (Bool-cases (ranks_le e f)) [
  | inl before ↦ rw (before, insert_ranked) (perm_refl (e ∷ f ∷ fs))
  | inr after ↦
      rw (after, insert_ranked)
        (Permᴰ.trans (Permᴰ.cons refl (insert_ranked-permᴰ e fs)) (Permᴰ.swap refl refl))
]

rank_scan-permᴰ : (es : List ScanEntry) → Permᴰ (rank_scan es) es
unfolding rank_scan
rank_scan-permᴰ [] = Permᴰ.nil
rank_scan-permᴰ (e ∷ es) =
    Permᴰ.trans (insert_ranked-permᴰ e (rank_scan es)) (Permᴰ.cons refl (rank_scan-permᴰ es))

url_le_total : (a b : String) → url_le a b ≡ false → url_le b a ≡ true
url_le_total a b h = ground (arith, Before-of_gt a b, h)

ranks_le_total : (a b : ScanEntry) → ranks_le a b ≡ false → ranks_le b a ≡ true
unfolding ranks_le
ranks_le_total a b h = ground (arith, url_le_total a.url b.url, h)

url_le_iff : (a b : String) → (url_le a b ≡ true) ↔ (Before a b ⊎ (a ≡ b))
url_le_iff a b = ground (arith, path_by_compare a b, Before-of_gt a b)

url_le_trans : (a b c : String) → url_le a b ≡ true → url_le b c ≡ true → url_le a c ≡ true
url_le_trans a b c h k = (url_le_iff a c).1 (joined ((url_le_iff a b).0 h) ((url_le_iff b c).0 k))
  where
    joined : Before a b ⊎ (a ≡ b) → Before b c ⊎ (b ≡ c) → Before a c ⊎ (a ≡ c)
    joined (inl x) (inl y) = inl (Before-trans a b c x y)
    joined (inl x) (inr y) = inl (subst (Before a) y x)
    joined (inr x) (inl y) = inl (subst (λ s. Before s c) (sym x) y)
    joined (inr x) (inr y) = inr (x ∙ y)

ranks_le_trans :
    (a b c : ScanEntry) → ranks_le a b ≡ true → ranks_le b c ≡ true → ranks_le a c ≡ true
unfolding ranks_le
ranks_le_trans a b c h k = ground (arith, url_le_trans a.url b.url c.url, h, k)

ranks_le_iff : (a b : ScanEntry) → (ranks_le a b ≡ true) ↔ Outranks a b
unfolding ranks_le
ranks_le_iff a b = ground (arith, url_le_iff a.url b.url)

abbrev pub Ranked : List ScanEntry → Type 0
Ranked [] = Unit
Ranked (e ∷ es) = All (Outranks e) es × Ranked es

All-above :
    (e f : ScanEntry) (es : List ScanEntry)
    → ranks_le e f ≡ true
    → All (Outranks f) es
    → All (Outranks e) es
All-above e f [] h a = tt
All-above e f (g ∷ gs) h a = (
  (ranks_le_iff e g).0 (ranks_le_trans e f g h ((ranks_le_iff f g).1 a.0)),
  All-above e f gs h a.1,
)

All-insert_ranked :
    (e f : ScanEntry) (es : List ScanEntry)
    → Outranks f e
    → All (Outranks f) es
    → All (Outranks f) (insert_ranked e es)
unfolding insert_ranked
All-insert_ranked e f [] h a = (h, tt)
All-insert_ranked e f (g ∷ gs) h a = elim (Bool-cases (ranks_le e g)) [
  | inl before ↦ rw (before, insert_ranked) (h, a)
  | inr after ↦ rw (after, insert_ranked) (a.0, All-insert_ranked e f gs h a.1)
]

insert_ranked-Ranked :
    (e : ScanEntry) (es : List ScanEntry) → Ranked es → Ranked (insert_ranked e es)
unfolding insert_ranked
insert_ranked-Ranked e [] r = (tt, tt)
insert_ranked-Ranked e (f ∷ fs) r = elim (Bool-cases (ranks_le e f)) [
  | inl before ↦
      rw (before, insert_ranked) (((ranks_le_iff e f).0 before, All-above e f fs before r.0), r)
  | inr after ↦
      rw (after, insert_ranked)
        (
          All-insert_ranked e f fs ((ranks_le_iff f e).0 (ranks_le_total e f after)) r.0,
          insert_ranked-Ranked e fs r.1,
        )
]

-- The ranking has the same entries, and each one outranks all that follow it: reachable before
-- unreachable, then more gating failures, then more failures and errors, then the URL.
pub rank_scan-Ranked : (es : List ScanEntry) → Permᴰ (rank_scan es) es × Ranked (rank_scan es)
unfolding rank_scan
rank_scan-Ranked es = (rank_scan-permᴰ es, ranked es)
  where
    ranked : (fs : List ScanEntry) → Ranked (rank_scan fs)
    ranked [] = tt
    ranked (f ∷ fs) = insert_ranked-Ranked f (rank_scan fs) (ranked fs)
