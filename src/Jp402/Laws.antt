-- ===== src/Jp402/Laws.antt =====
-- Powers of ten, and the fetch for an endpoint that advertises the extension.
use x402_conformance.Prelude.{
  ℕ, zero, suc, ◌*◌, ◌/◌, ◌%◌, ◌≤◌, ◌<◌, ◌≡◌, ◌↔◌, refl, ◌∙◌, ap, inl, inr, true, arith, ◌==◌,
  nat_eq, Bool-cases,
}
use x402_conformance.Prelude.Int.{ℤ, pos, negsuc}
use x402_conformance.Jp402.{strip_zeros, is_power_of_ten}

-- 10 to the power k, by multiplication.
abbrev pub ten_to : ℕ → ℕ
ten_to zero = 1
ten_to (suc k) = 10 * ten_to k

strip_zeros_complete : (k f : ℕ) → k ≤ f → strip_zeros f (ten_to k) ≡ 1
unfolding strip_zeros
strip_zeros_complete zero zero h = refl
strip_zeros_complete zero (suc f) h = refl
strip_zeros_complete (suc k) zero h = absurd (omega (arith, h))
strip_zeros_complete (suc k) (suc f) h =
    let whole : (10 * ten_to k) % 10 ≡ 0 = omega arith in
    let part : (10 * ten_to k) / 10 ≡ ten_to k = omega arith in
    rw (whole, part, strip_zeros) (strip_zeros_complete k f (omega (arith, h)))

strip_zeros_sound : (f n : ℕ) → strip_zeros f n ≡ 1 → (k : ℕ) × (n ≡ ten_to k)
unfolding strip_zeros
strip_zeros_sound zero n h = (zero, h)
strip_zeros_sound (suc f) n h = elim (Bool-cases (n % 10 == 0)) [
  | inl zero_last ↦
      let (k, e) = strip_zeros_sound f (n / 10) (rw (zero_last, strip_zeros) at h) in
      (suc k, ground (arith, zero_last, e))
  | inr other ↦ (zero, rw (other, strip_zeros) at h)
]

le-ten_to : (k : ℕ) → k < ten_to k
le-ten_to zero = omega arith
le-ten_to (suc k) = omega (arith, le-ten_to k)

-- The test holds exactly of the powers of ten, 1 included, for numbers of any size; a negative
-- number is none.
pub is_power_of_ten_iff : (z : ℤ) → (is_power_of_ten z ≡ true) ↔ ((k : ℕ) × (z ≡ pos (ten_to k)))
unfolding is_power_of_ten
is_power_of_ten_iff (negsuc n) = (λ h. absurd (cc h), λ h. absurd (cc h.1))
is_power_of_ten_iff (pos n) = (
  λ h.
      let stripped : strip_zeros n n ≡ 1 = ground (arith, h) in
      let (k, e) = strip_zeros_sound n n stripped in (k, ap pos e),
  λ h.
      let e : n ≡ ten_to h.0 = cc h.1 in
      let small = le-ten_to h.0 in
      let stripped = strip_zeros_complete h.0 n (omega (arith, small, e)) in
      let here : strip_zeros n n ≡ 1 = ap (strip_zeros n) e ∙ stripped in
      ground (arith, here, e, small),
)
