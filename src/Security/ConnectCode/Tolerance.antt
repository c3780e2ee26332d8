-- ===== src/Security/ConnectCode/Tolerance.antt =====
-- Spellings of a code that `parse` does not tell apart.
use controlis.Prelude.{
  ℕ, ◌+◌, ◌≤◌, ◌≡◌, ◌≢◌, refl, ap, ◌∙◌, false, inl, inr, List, [], ◌∷◌, ◌++◌, map, arith,
  Bool-cases, Option-cases, to_ascii_uppercase, to_ascii_lowercase, if◌then◌else◌, ◌==◌, nat_eq,
}
use controlis.Security.ConnectCode.{
  alphabet, is_separator, alias, position, digit_of, normalize_from, parse,
}
use controlis.Security.ConnectCode.Digits.{
  bare, normalize_from-bare, round_separator, round_invalid, round_digit,
}

-- A careless way to type a character: a zero as the letter o, a one as the letter l, and all
-- other letters in lower case.
pub careless : ℕ → ℕ
careless c = if c == b'0' then b'o' else if c == b'1' then b'l' else to_ascii_lowercase c

not_separator : (c : ℕ) → (b'0' ≤ c) × (c ≤ b'z') × (c ≢ b'_') → is_separator c ≡ false
unfolding is_separator
not_separator c h = ground arith

careless-separator : (c : ℕ) → is_separator (careless c) ≡ is_separator c
unfolding careless
careless-separator c =
    ground (arith, not_separator c, not_separator (c + 32), not_separator b'o', not_separator b'l')

careless-alias : (c : ℕ) → alias (to_ascii_uppercase (careless c)) ≡ alias (to_ascii_uppercase c)
unfolding careless
careless-alias c = ground arith

careless-digit : (c : ℕ) → digit_of (careless c) ≡ digit_of c
unfolding digit_of
careless-digit c = ap (λ (x : ℕ). position alphabet x 0) (careless-alias c)

normalize_from-careless :
    (cs ds : List ℕ) → normalize_from (map careless cs) ds ≡ normalize_from cs ds
normalize_from-careless [] ds = refl
normalize_from-careless (c ∷ cs) ds = elim (Bool-cases (is_separator c)) [
  | inl sep ↦ cc (
    round_separator c cs ds sep,
    round_separator (careless c) (map careless cs) ds (careless-separator c ∙ sep),
    normalize_from-careless cs ds,
  )
  | inr plain ↦ elim (Option-cases (digit_of c)) [
    | inl miss ↦ cc (
      round_invalid c cs ds plain miss,
      round_invalid (careless c) (map careless cs) ds (careless-separator c ∙ plain)
          (careless-digit c ∙ miss),
    )
    | inr (d, hit) ↦ cc (
      round_digit c d cs ds plain hit,
      round_digit (careless c) d (map careless cs) ds (careless-separator c ∙ plain)
          (careless-digit c ∙ hit),
      normalize_from-careless cs (ds ++ (d ∷ [])),
    )
  ]
]

-- Dropping every hyphen, underscore and blank and typing carelessly does not change what a text
-- is parsed to, errors included.
pub parse-careless : (cs : List ℕ) → parse (map careless (bare cs)) ≡ parse cs
unfolding parse
parse-careless cs = rw (normalize_from-careless (bare cs) [], normalize_from-bare cs [])
