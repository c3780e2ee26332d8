-- ===== src/Security/ConnectCode/Digits.antt =====
-- The sixteen digits of a code: writing them and reading them back.
use Prim.Native.Nat.{bit_or}
use native.Mathlib.Numerals.{towards_suc}
use controlis.Prelude.{
  is_whitespace, ◌||◌, nat_eq, ◌==◌, Option-cases, ℕ, zero, suc, ◌+◌, ◌*◌, ◌%◌, ◌^◌, ◌≤◌, ◌<◌, ◌≡◌,
  refl, sym, ap, ◌∙◌, Bool, true, false, not, ◌&&◌, inl, inr, Option, none, some, List, [], ◌∷◌,
  ◌++◌, map, length, All, arith, select, select-append, length-append, Bool-cases, nat_beq,
  if◌then◌else◌, ok, err,
}
use controlis.Prelude.Bits.{or_field, and_mask, mod_split, pow_pos}
use mathlib.Core.List.{append_assoc, append-nil}
use controlis.Security.ConnectCode.{
  wrong_length, invalid_char, code_chars, shl, shr, digit_char, digit_at, separator, push_chars,
  is_separator, digit_of, normalize_from, fold_digits,
}

-- A test that holds at every number below a bound.
unfoldable pub all_below : ℕ → (ℕ → Bool) → Bool
all_below zero test = true
all_below (suc bound) test = test bound && all_below bound test

pub all_below-true :
    (bound : ℕ) (test : ℕ → Bool) (d : ℕ) → all_below bound test ≡ true → d < bound → test d ≡ true
unfolding all_below
all_below-true zero test d h lt = absurd (omega arith)
all_below-true (suc bound) test d h lt = ground (arith, all_below-true bound test d)

abbrev is_some_of : ℕ → Option ℕ → Bool
is_some_of d none = false
is_some_of d (some e) = nat_beq e d

is_some_of-eq : (d : ℕ) (o : Option ℕ) → is_some_of d o ≡ true → o ≡ some d
is_some_of-eq d none h = cc
is_some_of-eq d (some e) h = ground arith

plain_table : all_below 32 (λ d. not (is_separator (digit_char d))) ≡ true
unfolding all_below is_separator
plain_table = refl

read_table : all_below 32 (λ d. is_some_of d (digit_of (digit_char d))) ≡ true
unfolding all_below digit_of
read_table = refl

-- Each character of the alphabet is no separator, and is read back as its digit.
pub is_separator-digit_char : (d : ℕ) → d < 32 → is_separator (digit_char d) ≡ false
is_separator-digit_char d h =
    ground (arith, all_below-true 32 (λ d. not (is_separator (digit_char d))) d plain_table h)

pub digit_of-digit_char : (d : ℕ) → d < 32 → digit_of (digit_char d) ≡ some d
digit_of-digit_char d h =
    is_some_of-eq d _
      (all_below-true 32 (λ d. is_some_of d (digit_of (digit_char d))) d read_table h)

-- What is left of a text without its hyphens, underscores and blanks.
abbrev pub bare : List ℕ → List ℕ
bare = select (λ c. not (c == b'-' || c == b'_' || is_whitespace c))

-- One round of the loop of `normalize`.
pub round_separator :
    (c : ℕ) (cs ds : List ℕ)
    → is_separator c ≡ true
    → normalize_from (c ∷ cs) ds ≡ normalize_from cs ds
unfolding normalize_from
round_separator c cs ds h = ground arith

pub round_invalid :
    (c : ℕ) (cs ds : List ℕ)
    → is_separator c ≡ false
    → digit_of c ≡ none
    → normalize_from (c ∷ cs) ds ≡ err invalid_char
unfolding normalize_from
round_invalid c cs ds h e = ground arith

pub round_digit :
    (c d : ℕ) (cs ds : List ℕ)
    → is_separator c ≡ false
    → digit_of c ≡ some d
    → normalize_from (c ∷ cs) ds ≡ (
        if nat_beq (length ds) code_chars
        then err wrong_length
        else normalize_from cs (ds ++ (d ∷ [])))
unfolding normalize_from
round_digit c d cs ds h e = ground arith

bare_separator : (c : ℕ) (cs : List ℕ) → is_separator c ≡ true → bare (c ∷ cs) ≡ bare cs
unfolding is_separator
bare_separator c cs h = ground arith

bare_plain : (c : ℕ) (cs : List ℕ) → is_separator c ≡ false → bare (c ∷ cs) ≡ c ∷ bare cs
unfolding is_separator
bare_plain c cs h = ground arith

-- Separators are skipped wherever they stand.
pub normalize_from-bare : (cs ds : List ℕ) → normalize_from (bare cs) ds ≡ normalize_from cs ds
normalize_from-bare [] ds = refl
normalize_from-bare (c ∷ cs) ds = elim (Bool-cases (is_separator c)) [
  | inl sep ↦ cc (bare_separator c cs sep, round_separator c cs ds sep, normalize_from-bare cs ds)
  | inr plain ↦ elim (Option-cases (digit_of c)) [
    | inl miss ↦ cc (
      bare_plain c cs plain,
      round_invalid c (bare cs) ds plain miss,
      round_invalid c cs ds plain miss,
    )
    | inr (d, hit) ↦ cc (
      bare_plain c cs plain,
      round_digit c d (bare cs) ds plain hit,
      round_digit c d cs ds plain hit,
      normalize_from-bare cs (ds ++ (d ∷ [])),
    )
  ]
]

-- The digits of a payload, the most significant first.
abbrev pub digits_below : ℕ → ℕ → List ℕ
digits_below zero value = []
digits_below (suc i) value = digit_at value i ∷ digits_below i value

pub digit_at-lt : (value i : ℕ) → digit_at value i < 32
unfolding digit_at
digit_at-lt value i = omega (arith, and_mask 5 (shr value (i * 5)))

bare-separator : (chars : List ℕ) (i : ℕ) → bare (separator chars i) ≡ []
unfolding separator is_separator
bare-separator chars i = ground arith

pub bare-push_chars :
    (i value : ℕ) (chars : List ℕ)
    → bare (push_chars i value chars) ≡ bare chars ++ map digit_char (digits_below i value)
unfolding push_chars
bare-push_chars zero value chars = sym (append-nil _)
bare-push_chars (suc i) value chars =
    let d : ℕ = digit_at value i in
    let one : bare (digit_char d ∷ []) ≡ digit_char d ∷ [] =
      bare_plain (digit_char d) [] (is_separator-digit_char d (digit_at-lt value i)) in
    bare-push_chars i value ((chars ++ separator chars i) ++ (digit_char d ∷ []))
    ∙ simp (select-append, bare-separator, one, append_assoc)

pub normalize_from-digits :
    (ds digits : List ℕ)
    → All (λ d. d < 32) ds
    → length digits + length ds ≤ code_chars
    → normalize_from (map digit_char ds) digits ≡ ok (digits ++ ds)
normalize_from-digits [] digits a h = unfold normalize_from in ap ok (sym (append-nil digits))
normalize_from-digits (d ∷ ds) digits a h =
    let room : nat_beq (length digits) code_chars ≡ false = ground arith in
    let rest : normalize_from (map digit_char ds) (digits ++ (d ∷ []))
        ≡ ok ((digits ++ (d ∷ [])) ++ ds) =
      normalize_from-digits ds (digits ++ (d ∷ [])) a.1
        (omega (arith, length-append digits (d ∷ []))) in
    round_digit (digit_char d) d (map digit_char ds) digits (is_separator-digit_char d a.0)
      (digit_of-digit_char d a.0)
    ∙ rw room (rest ∙ ap ok (append_assoc digits (d ∷ []) ds))

pow_five : (i : ℕ) → 2 ^ (suc i * 5) ≡ 2 ^ (i * 5) * 32
pow_five i =
    let five : suc i * 5 ≡ i * 5 + 5 = omega arith in rw five (simp towards_suc (omega arith))

digit_split :
    (value i : ℕ)
    → value % (2 ^ (i * 5) * 32) ≡ digit_at value i * 2 ^ (i * 5) + value % 2 ^ (i * 5)
unfolding digit_at
digit_split value i =
    rw (and_mask 5 (shr value (i * 5)))
      (mod_split value (2 ^ (i * 5)) 32 (pow_pos (i * 5)) (omega arith))

push_digit : (acc d : ℕ) → acc * 32 < 2 ^ 128 → d < 32 → bit_or (shl acc 5) d ≡ acc * 32 + d
push_digit acc d h k =
    let whole : acc * 32 % 2 ^ 128 ≡ acc * 32 = omega arith in rw whole (or_field 5 acc d k)

-- Reading the digits of a payload below `i` back shifts the number read so far past them.
pub fold_digits-digits :
    (i acc value : ℕ)
    → acc * 2 ^ (i * 5) + value % 2 ^ (i * 5) < 2 ^ 128
    → fold_digits acc (digits_below i value) ≡ acc * 2 ^ (i * 5) + value % 2 ^ (i * 5)
unfolding fold_digits
fold_digits-digits zero acc value h = omega arith
fold_digits-digits (suc i) acc value h =
    let p : ℕ = 2 ^ (i * 5) in
    let d : ℕ = digit_at value i in
    let p_pos : 1 ≤ p = pow_pos (i * 5) in
    let next : value % (p * 32) ≡ d * p + value % p = digit_split value i in
    let total : acc * (p * 32) + value % (p * 32) < 2 ^ 128 = rw (← pow_five i) h in
    let fits : acc * 32 < 2 ^ 128 = grind arith in
    let step : bit_or (shl acc 5) d ≡ acc * 32 + d = push_digit acc d fits (digit_at-lt value i) in
    let again : (acc * 32 + d) * p + value % p ≡ acc * (p * 32) + value % (p * 32) = omega arith in
    ap (λ (t : ℕ). fold_digits t (digits_below i value)) step
    ∙ rw (pow_five i) (fold_digits-digits i (acc * 32 + d) value (omega arith) ∙ again)
