-- ===== src/Payload/Tamper.antt =====
-- payload_builder.py: the forms of tampering that the checks use. `none` is an exception.
pub mod Flip
use Prim.Native.Char.{Char, code}
use Prim.Native.String
use x402_conformance.Prelude.{
  ℕ, zero, suc, ◌-◌, nat_eq, List, [], ◌∷◌, String, Bool, true, false, Option, none, some, ◌==◌,
  ◌&&◌, if◌then◌else◌, fstring,
}
use x402_conformance.Models.{◌>>=◌}
use x402_conformance.Checks.PathVariants.Escape.{hex_value}
use x402_conformance.Payload.{PaymentPayload, Authorization}

-- A digit of `bytes.hex()`, for a number below 16.
abbrev pub hex_lower : ℕ → Char
hex_lower zero = "0"
hex_lower (suc zero) = "1"
hex_lower (suc (suc zero)) = "2"
hex_lower (suc (suc (suc zero))) = "3"
hex_lower (suc (suc (suc (suc zero)))) = "4"
hex_lower (suc (suc (suc (suc (suc zero))))) = "5"
hex_lower (suc (suc (suc (suc (suc (suc zero)))))) = "6"
hex_lower (suc (suc (suc (suc (suc (suc (suc zero))))))) = "7"
hex_lower (suc (suc (suc (suc (suc (suc (suc (suc zero)))))))) = "8"
hex_lower (suc (suc (suc (suc (suc (suc (suc (suc (suc zero))))))))) = "9"
hex_lower (suc (suc (suc (suc (suc (suc (suc (suc (suc (suc zero)))))))))) = "a"
hex_lower (suc (suc (suc (suc (suc (suc (suc (suc (suc (suc (suc zero))))))))))) = "b"
hex_lower (suc (suc (suc (suc (suc (suc (suc (suc (suc (suc (suc (suc zero)))))))))))) = "c"
hex_lower (suc (suc (suc (suc (suc (suc (suc (suc (suc (suc (suc (suc (suc zero))))))))))))) = "d"
hex_lower (suc (suc (suc (suc (suc (suc (suc (suc (suc (suc (suc (suc (suc (suc zero)))))))))))))) =
    "e"
hex_lower _ = "f"

-- `s.removeprefix("0x")`
abbrev pub remove_0x : String → String
remove_0x (String.◌∷◌ c (String.◌∷◌ d s)) =
    if code c == b'0' && code d == b'x' then s else String.◌∷◌ c (String.◌∷◌ d s)
remove_0x s = s

-- `bytes.fromhex(s).hex()` for a text of hexadecimal digits, two to a byte, without blanks.
unfoldable pub hex_bytes : String → Option String
unfolding hex_value
hex_bytes String.[] = some ""
hex_bytes (String.◌∷◌ c String.[]) = none
hex_bytes (String.◌∷◌ c (String.◌∷◌ d s)) = do
  high ← hex_value (code c)
  low ← hex_value (code d)
  rest ← hex_bytes s
  some (String.◌∷◌ (hex_lower high) (String.◌∷◌ (hex_lower low) rest))

-- The same after `body[0] ^= 0xFF`, which takes each digit of the first byte from 15.
unfoldable pub flip_first_byte : String → Option String
unfolding hex_bytes
flip_first_byte (String.◌∷◌ c (String.◌∷◌ d s)) = do
  high ← hex_value (code c)
  low ← hex_value (code d)
  rest ← hex_bytes s
  some (String.◌∷◌ (hex_lower (15 - high)) (String.◌∷◌ (hex_lower (15 - low)) rest))
flip_first_byte _ = none

unfoldable pub tamper_signature : PaymentPayload → Option PaymentPayload
unfolding flip_first_byte
tamper_signature payload = do
  body ← flip_first_byte (remove_0x payload.signature)
  some (record payload { signature = fstring ("0x" ∷ body ∷ []) })

unfoldable pub tamper_from : PaymentPayload → String → PaymentPayload
tamper_from payload claimed = record payload {
  authorization = record payload.authorization { from = claimed };
}
