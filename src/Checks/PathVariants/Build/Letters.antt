-- ===== src/Checks/PathVariants/Build/Letters.antt =====
-- The number of characters of a text other than slashes, by which the URLs of variants are told apart.
use Prim.Native.Char.{code}
use Prim.Native.String.{[], ◌∷◌}
use text.Mathlib.TextLemmas.{nil-append, cons-append}
use x402_conformance.Prelude.{
  ℕ, zero, suc, ◌+◌, ◌/◌, ◌%◌, String, refl, ◌≡◌, ap, inl, inr, false, Option, none, some, arith,
  Bool-cases, Option-cases, ◌==◌, nat_eq, string_eq, ◌&&◌, ◌||◌, if◌then◌else◌, starts_with,
  fstring, List,
}
use x402_conformance.Checks.PathVariants.{Url, urlunsplit, rooted, after}
use x402_conformance.Checks.PathVariants.Paths.{
  rstrip_slash, lstrip_slash, rpartition_slash, contains_slash, is_alnum,
}
use x402_conformance.Checks.PathVariants.Escape.{encode_last_unreserved, hex_digit}

abbrev pub letter : ℕ → ℕ
letter c = if c == b'/' then 0 else 1

unfoldable pub letters : String → ℕ
letters [] = 0
letters (c ∷ s) = letter (code c) + letters s

pub letters-append : (s t : String) → letters (Prim.Native.String.◌++◌ s t) ≡ letters s + letters t
unfolding letters
letters-append [] t = omega (arith, ap letters (nil-append t))
letters-append (c ∷ s) t = omega (arith, ap letters (cons-append c s t), letters-append s t)

pub letters-rstrip : (s : String) → letters (rstrip_slash s) ≡ letters s
unfolding rstrip_slash letters
letters-rstrip [] = refl
letters-rstrip (c ∷ s) = elim (Bool-cases (code c == b'/' && rstrip_slash s == "")) [
  | inl stripped ↦
      let empty : rstrip_slash s ≡ "" =
        (string_eq.beq_iff (rstrip_slash s) "").0 (ground (arith, stripped)) in
      rw (stripped, rstrip_slash) (ground (arith, stripped, ap letters empty, letters-rstrip s))
  | inr kept ↦ rw (kept, rstrip_slash) (omega (arith, letters-rstrip s))
]

pub letters-lstrip : (s : String) → letters (lstrip_slash s) ≡ letters s
unfolding lstrip_slash letters
letters-lstrip [] = refl
letters-lstrip (c ∷ s) = ground (arith, letters-lstrip s)

no_slash_head : (s : String) → contains_slash s ≡ false → (rpartition_slash s).0 ≡ ""
unfolding rpartition_slash contains_slash
no_slash_head [] h = refl
no_slash_head (c ∷ s) h = ground (arith, h)

pub letters-rpartition :
    (s : String) → letters (rpartition_slash s).0 + letters (rpartition_slash s).1 ≡ letters s
unfolding rpartition_slash letters
letters-rpartition [] = refl
letters-rpartition (c ∷ s) = elim (Bool-cases (contains_slash s)) [
  | inl more ↦ rw (more, rpartition_slash) (omega (arith, letters-rpartition s))
  | inr last ↦ elim (Bool-cases (code c == b'/')) [
    | inl slash ↦ rw (last, slash, rpartition_slash) (ground (arith, slash))
    | inr other ↦ rw (last, other, rpartition_slash) (ground (arith, other))
  ]
]

letters-hex_digit : (n : ℕ) → letter (code (hex_digit n)) ≡ 1
letters-hex_digit zero = refl
letters-hex_digit (suc zero) = refl
letters-hex_digit (suc (suc zero)) = refl
letters-hex_digit (suc (suc (suc zero))) = refl
letters-hex_digit (suc (suc (suc (suc zero)))) = refl
letters-hex_digit (suc (suc (suc (suc (suc zero))))) = refl
letters-hex_digit (suc (suc (suc (suc (suc (suc zero)))))) = refl
letters-hex_digit (suc (suc (suc (suc (suc (suc (suc zero))))))) = refl
letters-hex_digit (suc (suc (suc (suc (suc (suc (suc (suc zero)))))))) = refl
letters-hex_digit (suc (suc (suc (suc (suc (suc (suc (suc (suc zero))))))))) = refl
letters-hex_digit (suc (suc (suc (suc (suc (suc (suc (suc (suc (suc zero)))))))))) = refl
letters-hex_digit (suc (suc (suc (suc (suc (suc (suc (suc (suc (suc (suc zero))))))))))) = refl
letters-hex_digit (suc (suc (suc (suc (suc (suc (suc (suc (suc (suc (suc (suc zero)))))))))))) =
    refl
letters-hex_digit
      (suc (suc (suc (suc (suc (suc (suc (suc (suc (suc (suc (suc (suc zero))))))))))))) =
    refl
letters-hex_digit
      (suc (suc (suc (suc (suc (suc (suc (suc (suc (suc (suc (suc (suc (suc zero)))))))))))))) =
    refl
letters-hex_digit
      (suc (suc (suc (suc (suc (suc (suc (suc (suc (suc (suc (suc (suc (suc (suc n))))))))))))))) =
    refl

pub letters-encode :
    (s encoded : String) → encode_last_unreserved s ≡ some encoded → letters encoded ≡ letters s + 2
unfolding encode_last_unreserved letters
letters-encode [] encoded e = absurd (cc e)
letters-encode (c ∷ s) encoded e = elim (Option-cases (encode_last_unreserved s)) [
  | inr (t, found) ↦
      let shape : c ∷ t ≡ encoded = cc (rw (found, encode_last_unreserved) at e) in
      omega (arith, ap letters shape, letters-encode s t found)
  | inl none_behind ↦ elim (Bool-cases (is_alnum (code c))) [
    | inl alnum ↦
        let shape : "%" ∷ hex_digit (code c / 16) ∷ hex_digit (code c % 16) ∷ s ≡ encoded =
          cc (rw (none_behind, alnum, encode_last_unreserved) at e) in
        let one : letter (code c) ≡ 1 = ground (arith, alnum) in
        omega (
          arith,
          ap letters shape,
          letters-hex_digit (code c / 16),
          letters-hex_digit (code c % 16),
          one,
        )
    | inr other ↦
        let e' : ◌≡◌ {A = Option String} none (some encoded) =
          (rw (none_behind, other, encode_last_unreserved) at e) in
        absurd (cc)
  ]
]

pub letters-rooted : (path : String) → letters (rooted path) ≡ letters path
unfolding letters
letters-rooted path = elim (Bool-cases (path == "" || starts_with path "/")) [
  | inl plain ↦ rw plain refl
  | inr relative ↦ rw relative (omega (arith, letters-append "/" path))
]

abbrev total : List String → ℕ
total List.[] = 0
total (List.◌∷◌ x xs) = letters x + total xs

pub letters-fstring : (xs : List String) → letters (fstring xs) ≡ total xs
unfolding letters
letters-fstring List.[] = refl
letters-fstring (List.◌∷◌ x List.[]) = omega arith
letters-fstring (List.◌∷◌ x (List.◌∷◌ y xs)) =
    omega (arith, letters-append x (fstring (List.◌∷◌ y xs)), letters-fstring (List.◌∷◌ y xs))

-- Two paths with other numbers of letters give other URLs.
pub letters-urlunsplit :
    (url : Url) (path : String)
    → urlunsplit (record url { path = path }) ≡ urlunsplit url
    → letters path ≡ letters url.path
unfolding urlunsplit
letters-urlunsplit url path e =
    let parts : String → List String = λ p. List.◌∷◌ "//" (
      List.◌∷◌ url.netloc (
        List.◌∷◌ (rooted p)
          (List.◌∷◌ (after "?" url.query) (List.◌∷◌ (after "#" url.fragment) List.[])))) in
    let new = letters-fstring (parts path) in
    let old = letters-fstring (parts url.path) in
    elim (Bool-cases (url.scheme == "")) [
      | inl relative ↦
          let e' : fstring (parts path) ≡ fstring (parts url.path) =
            rw (relative, urlunsplit) at e in
          omega (arith, ap letters e', new, old, letters-rooted path, letters-rooted url.path)
      | inr schemed ↦
          let whole : String → List String =
            λ p. List.◌∷◌ url.scheme (List.◌∷◌ ":" (List.◌∷◌ (fstring (parts p)) List.[])) in
          let e' : fstring (whole path) ≡ fstring (whole url.path) =
            rw (schemed, urlunsplit) at e in
          omega (
            arith,
            ap letters e',
            letters-fstring (whole path),
            letters-fstring (whole url.path),
            new,
            old,
            letters-rooted path,
            letters-rooted url.path,
          )
    ]
