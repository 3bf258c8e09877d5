-- ===== src/Payload/Tamper/Flip.antt =====
-- What the tampering of a signature changes.
use Prim.Native.Char.{code}
use x402_conformance.Prelude.{
  ℕ, zero, suc, ◌-◌, ◌<◌, String, ◌≡◌, ◌≢◌, refl, sym, ap, ◌∙◌, subst, Option, none, some, arith,
}
use x402_conformance.Models.Laws.{>>=-eq-some}
use x402_conformance.Payload.Tamper.{flip_first_byte, hex_bytes, hex_lower}
use x402_conformance.Checks.PathVariants.Escape.{hex_value}

hex_value-lt : (c h : ℕ) → hex_value c ≡ some h → h < 16
unfolding hex_value
hex_value-lt c h e = ground (arith, e)

hex_value-hex_lower : (n : ℕ) → n < 16 → hex_value (code (hex_lower n)) ≡ some n
unfolding hex_value
hex_value-hex_lower zero h = refl
hex_value-hex_lower (suc zero) h = refl
hex_value-hex_lower (suc (suc zero)) h = refl
hex_value-hex_lower (suc (suc (suc zero))) h = refl
hex_value-hex_lower (suc (suc (suc (suc zero)))) h = refl
hex_value-hex_lower (suc (suc (suc (suc (suc zero))))) h = refl
hex_value-hex_lower (suc (suc (suc (suc (suc (suc zero)))))) h = refl
hex_value-hex_lower (suc (suc (suc (suc (suc (suc (suc zero))))))) h = refl
hex_value-hex_lower (suc (suc (suc (suc (suc (suc (suc (suc zero)))))))) h = refl
hex_value-hex_lower (suc (suc (suc (suc (suc (suc (suc (suc (suc zero))))))))) h = refl
hex_value-hex_lower (suc (suc (suc (suc (suc (suc (suc (suc (suc (suc zero)))))))))) h = refl
hex_value-hex_lower (suc (suc (suc (suc (suc (suc (suc (suc (suc (suc (suc zero))))))))))) h = refl
hex_value-hex_lower (suc (suc (suc (suc (suc (suc (suc (suc (suc (suc (suc (suc zero)))))))))))) h =
    refl
hex_value-hex_lower
      (suc (suc (suc (suc (suc (suc (suc (suc (suc (suc (suc (suc (suc zero))))))))))))) h =
    refl
hex_value-hex_lower
      (suc (suc (suc (suc (suc (suc (suc (suc (suc (suc (suc (suc (suc (suc zero)))))))))))))) h =
    refl
hex_value-hex_lower
      (suc (suc (suc (suc (suc (suc (suc (suc (suc (suc (suc (suc (suc (suc (suc zero)))))))))))))))
      h =
    refl
hex_value-hex_lower
      (suc (
        suc
          (suc (suc (suc (suc (suc (suc (suc (suc (suc (suc (suc (suc (suc (suc (n)))))))))))))))))
      h =
    absurd (omega (arith, h))

-- The hexadecimal form of bytes is its own hexadecimal form.
hex_bytes-again : (s t : String) → hex_bytes s ≡ some t → hex_bytes t ≡ some t
unfolding hex_bytes
hex_bytes-again String.[] t e =
    let empty : "" ≡ t = cc e in subst (λ u. hex_bytes u ≡ some u) empty refl
hex_bytes-again (String.◌∷◌ c String.[]) t e = absurd (cc e)
hex_bytes-again (String.◌∷◌ c (String.◌∷◌ d s)) t e =
    let (high, e₁, h₁) = >>=-eq-some _ (hex_value (code c)) e in
    let (low, e₂, h₂) = >>=-eq-some _ (hex_value (code d)) h₁ in
    let (rest, e₃, h₃) = >>=-eq-some _ (hex_bytes s) h₂ in
    let shape : String.◌∷◌ (hex_lower high) (String.◌∷◌ (hex_lower low) rest) ≡ t = cc h₃ in
    let back = hex_bytes-again s rest e₃ in
    let a = hex_value-hex_lower high (hex_value-lt (code c) high e₁) in
    let b = hex_value-hex_lower low (hex_value-lt (code d) low e₂) in
    subst (λ u. hex_bytes u ≡ some u) shape (rw (a, b, back) refl)

first_value : String → Option ℕ
first_value String.[] = none
first_value (String.◌∷◌ c s) = hex_value (code c)

-- The flip of the first byte gives other bytes, and a second flip gives the bytes of the text back.
pub flip_first_byte_lem :
    (s t : String)
    → flip_first_byte s ≡ some t
    → (flip_first_byte t ≡ hex_bytes s) × (hex_bytes s ≢ some t)
unfolding flip_first_byte hex_bytes first_value
flip_first_byte_lem String.[] t e = absurd (cc e)
flip_first_byte_lem (String.◌∷◌ c String.[]) t e = absurd (cc e)
flip_first_byte_lem (String.◌∷◌ c (String.◌∷◌ d s)) t e =
    let (high, e₁, h₁) = >>=-eq-some _ (hex_value (code c)) e in
    let (low, e₂, h₂) = >>=-eq-some _ (hex_value (code d)) h₁ in
    let (rest, e₃, h₃) = >>=-eq-some _ (hex_bytes s) h₂ in
    let shape : String.◌∷◌ (hex_lower (15 - high)) (String.◌∷◌ (hex_lower (15 - low)) rest) ≡ t =
      cc h₃ in
    let back = hex_bytes-again s rest e₃ in
    let high_lt = hex_value-lt (code c) high e₁ in
    let low_lt = hex_value-lt (code d) low e₂ in
    let a = hex_value-hex_lower (15 - high) (omega arith) in
    let b = hex_value-hex_lower (15 - low) (omega arith) in
    let double_high : 15 - (15 - high) ≡ high = omega (arith, high_lt) in
    let double_low : 15 - (15 - low) ≡ low = omega (arith, low_lt) in
    let restored : Option String =
      some (
        String.◌∷◌ (hex_lower (15 - (15 - high)))
          (String.◌∷◌ (hex_lower (15 - (15 - low))) rest)) in
    let shown : restored ≡ some (String.◌∷◌ (hex_lower high) (String.◌∷◌ (hex_lower low) rest)) =
      cc in
    let c₀ = hex_value-hex_lower high high_lt in
    let bytes : hex_bytes (String.◌∷◌ c (String.◌∷◌ d s))
        ≡ some (String.◌∷◌ (hex_lower high) (String.◌∷◌ (hex_lower low) rest)) =
      cc in
    (
      subst (λ u. flip_first_byte u ≡ hex_bytes (String.◌∷◌ c (String.◌∷◌ d s))) shape
          (rw (a, b, back, flip_first_byte) (shown ∙ sym bytes)),
      λ same.
          let equal : String.◌∷◌ (hex_lower high) (String.◌∷◌ (hex_lower low) rest)
              ≡ String.◌∷◌ (hex_lower (15 - high)) (String.◌∷◌ (hex_lower (15 - low)) rest) =
            cc (sym bytes ∙ same ∙ ap some (sym shape)) in
          let digits : some high ≡ some (15 - high) = sym c₀ ∙ ap first_value equal ∙ a in
          let values : high ≡ 15 - high = cc digits in absurd (omega (arith, values, high_lt)),
    )
