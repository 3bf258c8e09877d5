-- ===== src/Checks/PaymentRequired/Patterns/Bounds.antt =====
-- The lengths of the texts that the regular expressions match, with the line feed that may end them.
use Prim.Native.Char.{code}
use x402_conformance.Prelude.{
  ℕ, ◌+◌, ◌≤◌, String, ap, Bool, true, ◌≡◌, inl, inr, ◌&&◌, arith, Bool-cases, ◌==◌, string_eq,
  nat_eq,
}
use x402_conformance.Probe.{size}
use x402_conformance.Checks.PaymentRequired.Patterns.{
  chomp, matches, is_builder_code, is_builder_char,
}

pub size-chomp : (s : String) → (size (chomp s) ≤ size s) × (size s ≤ size (chomp s) + 1)
unfolding chomp
size-chomp String.[] = omega arith
size-chomp (String.◌∷◌ c s) = elim (Bool-cases (code c == 10 && s == "")) [
  | inl last ↦
      let empty : s ≡ "" = (string_eq.beq_iff s "").0 (ground arith) in
      rw (last, chomp) (omega (arith, ap size empty))
  | inr more ↦ rw (more, chomp) (omega (arith, size-chomp s))
]

pub matches_bounds :
    (p : ℕ → Bool) (lo hi : ℕ) (s : String)
    → matches p lo hi s ≡ true
    → (lo ≤ size s) × (size s ≤ hi + 1)
unfolding matches
matches_bounds p lo hi s h = ground (arith, size-chomp s)

pub is_builder_code_bounds : (s : String) → is_builder_code s ≡ true → (1 ≤ size s) × (size s ≤ 33)
unfolding is_builder_code
is_builder_code_bounds s h = matches_bounds is_builder_char 1 32 s h
