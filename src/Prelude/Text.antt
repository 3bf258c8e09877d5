-- ===== src/Prelude/Text.antt =====
-- Python's text operations: `str(n)`, `sep.join(parts)`, `p in s`, `s.startswith(p)`.
use Prim.Native.Nat.{ℕ, zero, suc, ◌/◌, ◌%◌}
use Prim.Native.Char.{code}
use Prim.Native.String
use Prim.Native.String.{String}
use mathlib.Core.Path.{◌≡◌, refl}
use mathlib.Core.Bool.{Bool, true, not, ◌&&◌, ◌||◌}
use mathlib.Core.List.{List, [], ◌∷◌}
use text.Mathlib.Text.{find?, starts_with as text_starts_with}
use x402_conformance.Prelude.Tests.{if◌then◌else◌, is_none, ltb, leb, nat_beq}

-- An f-string: its literal pieces and its values, one after the other.
abbrev pub fstring : List String → String
fstring [] = ""
fstring (x ∷ []) = x
fstring (x ∷ y ∷ r) = String.◌++◌ x (fstring (y ∷ r))

-- s.startswith(p)
abbrev pub starts_with : String → String → Bool
starts_with s p = text_starts_with s p

-- p in s
abbrev pub contains : String → String → Bool
contains s p = not (is_none (find? s p))

-- The decimal digit of a number below ten.
abbrev digit : ℕ → String
digit zero = "0"
digit (suc zero) = "1"
digit (suc (suc zero)) = "2"
digit (suc (suc (suc zero))) = "3"
digit (suc (suc (suc (suc zero)))) = "4"
digit (suc (suc (suc (suc (suc zero))))) = "5"
digit (suc (suc (suc (suc (suc (suc zero)))))) = "6"
digit (suc (suc (suc (suc (suc (suc (suc zero))))))) = "7"
digit (suc (suc (suc (suc (suc (suc (suc (suc zero)))))))) = "8"
digit _ = "9"

decimal_from : ℕ → ℕ → String
decimal_from zero n = ""
decimal_from (suc f) n =
    let rest = decimal_from f (n / 10) in
    let last = digit (n % 10) in if ltb n 10 then last else fstring (rest ∷ last ∷ [])

-- str(n)
unfoldable pub decimal : ℕ → String
unfolding decimal_from
decimal n = decimal_from (suc n) n

-- sep.join(parts)
unfoldable pub join : String → List String → String
join sep [] = ""
join sep (x ∷ []) = x
join sep (x ∷ y ∷ r) = fstring (x ∷ sep ∷ join sep (y ∷ r) ∷ [])

decimal_runs : decimal 402 ≡ "402"
unfolding decimal
decimal_runs = refl

join_runs : join ", " ("400" ∷ "402" ∷ []) ≡ "400, 402"
unfolding join
join_runs = refl

contains_runs : contains "unexpected status 402; expected" "status 402" ≡ true
contains_runs = refl

-- The characters for which Python's `str.isspace` holds, by their code points.
unfoldable pub is_space : ℕ → Bool
is_space c =
    (leb 9 c && leb c 13)
    || (leb 28 c && leb c 32)
    || nat_beq c 133
    || nat_beq c 160
    || nat_beq c 5760
    || (leb 8192 c && leb c 8202)
    || nat_beq c 8232
    || nat_beq c 8233
    || nat_beq c 8239
    || nat_beq c 8287
    || nat_beq c 12288

-- `not s.strip()`
unfoldable pub is_blank : String → Bool
unfolding is_space
is_blank String.[] = true
is_blank (String.◌∷◌ c s) = is_space (code c) && is_blank s
