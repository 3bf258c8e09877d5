-- ===== src/Checks/PaymentRequired/Patterns/Lines.antt =====
-- What the code's `match` accepts, said without the code's tests: the characters by their ranges, and
-- a text that may end by a line feed.
use Prim.Native.Char.{Char, code}
use x402_conformance.Prelude.{
  ℕ, ◌≤◌, String, refl, sym, ap, subst, Bool, true, false, ◌≡◌, ◌≢◌, ◌↔◌, ◌⊎◌, inl, inr, ◌&&◌,
  Option, some, some-inj, arith, Bool-cases, if◌then◌else◌, ◌==◌, string_eq, nat_eq,
}
use x402_conformance.Probe.{size}
use x402_conformance.Safety.Digits.{partition_colon}
use x402_conformance.Checks.PaymentRequired.Patterns.{chomp, all_in, matches}

-- The code point of each character has the property.
abbrev pub Every : (ℕ → Type 0) → String → Type 0
Every P String.[] = Unit
Every P (String.◌∷◌ c s) = P (code c) × Every P s

-- The first text, the character and the second text.
abbrev pub glue : String → Char → String → String
glue String.[] c r = String.◌∷◌ c r
glue (String.◌∷◌ d t) c r = String.◌∷◌ d (glue t c r)

-- `s` is `t`, or `t` and one line feed.
abbrev pub Line : String → String → Type 0
Line t s = (s ≡ t) ⊎ ((c : Char) × (code c ≡ 10) × (s ≡ glue t c ""))

-- A text of characters with the property, whose length is in the bounds, and perhaps a line feed.
abbrev pub Matched : (ℕ → Type 0) → ℕ → ℕ → String → Type 0
Matched P lo hi s = (t : String) × Line t s × Every P t × (lo ≤ size t) × (size t ≤ hi)

cons-Line : (c : Char) (t s : String) → Line t s → Line (String.◌∷◌ c t) (String.◌∷◌ c s)
cons-Line c t s (inl e) = inl (ap (String.◌∷◌ c) e)
cons-Line c t s (inr (d, k, e)) = inr (d, k, ap (String.◌∷◌ c) e)

pub chomp-Line : (s : String) → Line (chomp s) s
unfolding chomp
chomp-Line String.[] = inl refl
chomp-Line (String.◌∷◌ c s) = elim (Bool-cases (code c == 10 && s == "")) [
  | inl last ↦
      let empty : s ≡ "" = (string_eq.beq_iff s "").0 (ground arith) in
      rw (last, chomp) (inr (c, ground (arith, last), ap (String.◌∷◌ c) empty))
  | inr more ↦ rw (more, chomp) (cons-Line c (chomp s) s (chomp-Line s))
]

filled : (s : String) → size s ≢ 0 → (s == "") ≡ false
filled s h = elim (Bool-cases (s == "")) [
  | inl empty ↦ absurd (h (ap size ((string_eq.beq_iff s "").0 empty)))
  | inr full ↦ full
]

glue-ne-empty : (t : String) (c : Char) → (glue t c "" == "") ≡ false
glue-ne-empty String.[] c = filled (String.◌∷◌ c "") (λ e. omega (arith, e))
glue-ne-empty (String.◌∷◌ d t) c = filled (String.◌∷◌ d (glue t c "")) (λ e. omega (arith, e))

chomp-glue : (t : String) (c : Char) → code c ≡ 10 → chomp (glue t c "") ≡ t
unfolding chomp
chomp-glue String.[] c h = ground (arith, h)
chomp-glue (String.◌∷◌ d t) c h = rw (glue-ne-empty t c, chomp) (ground (arith, chomp-glue t c h))

module _ (P : ℕ → Type 0) (no_feed : ¬ P 10) where
  chomp-Every : (t : String) → Every P t → chomp t ≡ t
  unfolding chomp
  chomp-Every String.[] a = refl
  chomp-Every (String.◌∷◌ c t) a = elim (Bool-cases (code c == 10 && t == "")) [
    | inl last ↦ absurd (no_feed (subst P (ground (arith, last)) a.0))
    | inr more ↦ rw (more, chomp) (ap (String.◌∷◌ c) (chomp-Every t a.1))
  ]

  pub Line-chomp : (t s : String) → Line t s → Every P t → chomp s ≡ t
  Line-chomp t s (inl e) a = subst (λ x. chomp x ≡ t) (sym e) (chomp-Every t a)
  Line-chomp t s (inr (c, k, e)) a = subst (λ x. chomp x ≡ t) (sym e) (chomp-glue t c k)

pub all_in_iff :
    (p : ℕ → Bool) (P : ℕ → Type 0)
    → ((c : ℕ) → (p c ≡ true) ↔ P c)
    → (s : String) → (all_in p s ≡ true) ↔ Every P s
unfolding all_in
all_in_iff p P k String.[] = ground arith
all_in_iff p P k (String.◌∷◌ c s) = ground (arith, k (code c), all_in_iff p P k s)

pub matches_iff :
    (p : ℕ → Bool) (P : ℕ → Type 0)
    → ((c : ℕ) → (p c ≡ true) ↔ P c)
    → ¬ P 10
    → (lo hi : ℕ) (s : String) → (matches p lo hi s ≡ true) ↔ Matched P lo hi s
unfolding matches
matches_iff p P k no_feed lo hi s = (
  (λ h. (
    chomp s,
    chomp-Line s,
    ground (arith, all_in_iff p P k (chomp s)),
    ground arith,
    ground arith,
  )),
  λ (t, line, a, lower, upper).
      rw (Line-chomp P no_feed t s line a, matches) (ground (arith, all_in_iff p P k t)),
)

split_at :
    (b : Bool) (c : Char) (s before r : String) (o : Option String)
    → (b ≡ true → code c ≡ b':')
    → (o ≡ some r → (d : Char) × (code d ≡ b':') × (s ≡ glue before d r))
    → let x : String × Option String = if b then ("", some s) else (String.◌∷◌ c before, o) in
      x.1 ≡ some r → (d : Char) × (code d ≡ b':') × (String.◌∷◌ c s ≡ glue x.0 d r)
split_at true c s before r o k h e = (c, k refl, ap (String.◌∷◌ c) (some-inj e))
split_at false c s before r o k h e = let (d, colon, q) = h e in (d, colon, ap (String.◌∷◌ c) q)

pub partition_colon-glue :
    (s r : String)
    → (partition_colon s).1 ≡ some r
    → (d : Char) × (code d ≡ b':') × (s ≡ glue (partition_colon s).0 d r)
unfolding partition_colon
partition_colon-glue String.[] r h = cc
partition_colon-glue (String.◌∷◌ c s) r h =
    split_at (code c == b':') c s (partition_colon s).0 r (partition_colon s).1
      (λ e. ground (arith, e)) (partition_colon-glue s r) h

pub glue-partition_colon :
    (P : ℕ → Type 0)
    → ¬ P b':'
    → (n : String) (c : Char) (r : String) → Every P n
    → code c ≡ b':'
    → partition_colon (glue n c r) ≡ (n, some r)
unfolding partition_colon
glue-partition_colon P no_colon String.[] c r a h = ground (arith, h)
glue-partition_colon P no_colon (String.◌∷◌ d n) c r a h = elim (Bool-cases (code d == b':')) [
  | inl colon ↦ absurd (no_colon (subst P (ground (arith, colon)) a.0))
  | inr other ↦ rw (other, partition_colon) (rw (glue-partition_colon P no_colon n c r a.1 h) refl)
]
