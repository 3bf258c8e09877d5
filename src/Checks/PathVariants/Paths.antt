-- ===== src/Checks/PathVariants/Paths.antt =====
-- Python's operations on path texts, as checks/path_variants.py uses them.
use Prim.Native.Char.{Char, code}
use Prim.Native.String.{[], ◌∷◌}
use x402_conformance.Prelude.{
  ℕ, String, Bool, false, Option, none, some, ◌==◌, nat_eq, string_eq, leb, ◌&&◌, ◌||◌,
  if◌then◌else◌,
}

-- s.rstrip("/") and s.lstrip("/")
unfoldable pub rstrip_slash : String → String
rstrip_slash [] = ""
rstrip_slash (c ∷ s) =
    let rest = rstrip_slash s in if code c == b'/' && rest == "" then "" else c ∷ rest

unfoldable pub lstrip_slash : String → String
lstrip_slash [] = ""
lstrip_slash (c ∷ s) = let rest = lstrip_slash s in if code c == b'/' then rest else c ∷ s

-- `"/" in s`
unfoldable pub contains_slash : String → Bool
contains_slash [] = false
contains_slash (c ∷ s) = code c == b'/' || contains_slash s

-- s.rpartition("/"), without the separator: what stands before the last slash, or else nothing, and
-- what stands behind it
unfoldable pub rpartition_slash : String → String × String
unfolding contains_slash
rpartition_slash [] = ("", "")
rpartition_slash (c ∷ s) =
    let (head, tail) = rpartition_slash s in
    if contains_slash s then (c ∷ head, tail) else if code c == b'/' then ("", s) else ("", c ∷ s)

-- `s[-1]`, if there is one
abbrev pub last_char : String → Option Char
last_char [] = none
last_char (c ∷ s) = elim (last_char s) [ none ↦ some c | some d ↦ some d ]

-- `ch.isalnum() and ch.isascii()`
abbrev pub is_alnum : ℕ → Bool
is_alnum c = (leb 48 c && leb c 57) || (leb 65 c && leb c 90) || (leb 97 c && leb c 122)
