-- ===== src/Jwt/Examples/Plain.antt =====
-- A stand-in for golang-jwt whose tokens spell their claims out, with numbers in unary.
use Prim.Native.Char.{code}
use Prim.Native.String.{[], ◌∷◌}
use yandex_go_final_diploma.Prelude.{
  ℕ, zero, suc, String, true, Option, none, some, ◌≡◌, refl, ap, sym, ◌∙◌, Option-cases, ◌==◌,
  arith, ltb, str_eq, eq_iff, if◌then◌else◌, Bool-cases, inl, inr,
}
use yandex_go_final_diploma.Server.Domain.{Bytes}
use yandex_go_final_diploma.Jwt.{Library, LibraryLaws, Claims, hmac, type_access, type_refresh}

abbrev pub spell : ℕ → String → String
spell zero s = "." ∷ s
spell (suc n) s = "u" ∷ spell n s

-- The tokens that spell these times and this subject.
abbrev pub access_text : ℕ → ℕ → String → String
access_text issued_at expires_at subject = "a" ∷ spell issued_at (spell expires_at subject)

abbrev pub refresh_text : ℕ → ℕ → String → String
refresh_text issued_at expires_at subject = "r" ∷ spell issued_at (spell expires_at subject)

-- The number that is spelt at the front, and the rest.
abbrev read_number : String → ℕ × String
read_number [] = (0, [])
read_number (c ∷ s) =
    let rest = read_number s in if code c == 46 then (0, s) else (suc rest.0, rest.1)

read_number-spell : (n : ℕ) (s : String) → read_number (spell n s) ≡ (n, s)
read_number-spell zero s = refl
read_number-spell (suc n) s = rw (read_number-spell n s)

abbrev read_claims : String → String → Claims
read_claims type s =
    let (issued_at, rest) = read_number s in
    let (expires_at, subject) = read_number rest in
    record { subject = subject; issued_at = issued_at; expires_at = expires_at; type = type }

abbrev unexpired : ℕ → Claims → Option Claims
unexpired now c = if ltb now c.expires_at then some c else none

abbrev read_token : ℕ → String → Option Claims
read_token now [] = none
read_token now (t ∷ s) =
    unexpired now (read_claims (if code t == 97 then type_access else type_refresh) s)

abbrev spell_claims : Claims → String
spell_claims c = spell c.issued_at (spell c.expires_at c.subject)

abbrev sign_plain : Bytes → Claims → Option String
sign_plain secret c =
    if str_eq c.type type_access
    then some ("a" ∷ spell_claims c)
    else if str_eq c.type type_refresh
    then some ("r" ∷ spell_claims c)
    else none

abbrev pub plain : Library
plain = record {
  sign_hs256 = sign_plain;
  parse_with_claims =
      λ key now token. elim (key hmac) [ none ↦ none | some secret ↦ read_token now token ];
}

read_claims-spell_claims : (c : Claims) → read_claims c.type (spell_claims c) ≡ c
read_claims-spell_claims c = rw (
  read_number-spell c.issued_at (spell c.expires_at c.subject),
  read_number-spell c.expires_at c.subject,
)

-- With the type that the first letter stands for.
read_typed :
    (type : String) (c : Claims) (now : ℕ)
    → str_eq c.type type ≡ true
    → unexpired now (read_claims type (spell_claims c)) ≡ unexpired now c
read_typed type c now e = ap (unexpired now) (
    ap (λ t. read_claims t (spell_claims c)) (sym ((eq_iff c.type type).0 e))
    ∙ read_claims-spell_claims c)

read_token-sign_plain :
    (secret : Bytes) (c : Claims) (token : String) (now : ℕ)
    → sign_plain secret c ≡ some token
    → read_token now token ≡ unexpired now c
read_token-sign_plain secret c token now signed = elim (Bool-cases (str_eq c.type type_access)) [
  | inl e ↦
      let spelt : token ≡ ("a" ∷ spell_claims c) = ground (arith, signed, e) in
      rw spelt (read_typed type_access c now e)
  | inr e ↦ elim (Bool-cases (str_eq c.type type_refresh)) [
    | inl f ↦
        let spelt : token ≡ ("r" ∷ spell_claims c) = ground (arith, signed, e, f) in
        rw spelt (read_typed type_refresh c now f)
    | inr f ↦ ground (arith, signed, e, f)
  ]
]

pub plain-LibraryLaws : LibraryLaws plain
plain-LibraryLaws = record {
  read = λ key secret c token now signed has before.
      rw has (read_token-sign_plain secret c token now signed ∙ ground (arith, before));
  expired = λ key secret c token now signed late. elim (Option-cases (key hmac)) [
    | inl e ↦ rw e refl
    | inr (s, e) ↦ rw e (read_token-sign_plain secret c token now signed ∙ ground (arith, late))
  ];
}
