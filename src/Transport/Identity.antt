-- ===== src/Transport/Identity.antt =====
-- crates/transport/src/identity.rs and the verifier of crates/transport/src/tls.rs: fingerprints of
-- certificates, and trust on first use. SHA-256 is a parameter.
use controlis.Prelude.{
  ℕ, suc, ◌+◌, ◌-◌, ◌/◌, ◌%◌, ◌<◌, ◌≡◌, refl, Bool, true, false, not, ◌&&◌, ◌||◌, Option, none,
  some, List, [], ◌∷◌, ◌++◌, map, length, leb, ltb, nat_beq, if◌then◌else◌, arith, Result, ok, err,
  ◌==◌, nat_eq, str_eq, str_beq, codes, All, is_digit, to_ascii_uppercase,
}

-- 32 bytes for every text, and so no error.
pub record Sha256 : Type 0 where
  pub digest : List ℕ → List ℕ
  pub length-digest : (der : List ℕ) → length (digest der) ≡ 32
  pub digest-IsByte : (der : List ℕ) → All (λ b. b < 256) (digest der)

unfoldable pub hex_char : ℕ → ℕ
hex_char n = if ltb n 10 then b'0' + n else b'A' + (n - 10)

-- `{b:02X}`
abbrev pub hex_pair : ℕ → List ℕ
hex_pair b = hex_char (b / 16) ∷ hex_char (b % 16) ∷ []

-- `join(":")`
unfoldable pub join : List (List ℕ) → List ℕ
join [] = []
join (p ∷ []) = p
join (p ∷ q ∷ ps) = p ++ (b':' ∷ join (q ∷ ps))

abbrev in_front : ℕ → List (List ℕ) → List (List ℕ)
in_front c [] = (c ∷ []) ∷ []
in_front c (p ∷ ps) = (c ∷ p) ∷ ps

-- `split(':')`
unfoldable pub split : List ℕ → List (List ℕ)
split [] = [] ∷ []
split (c ∷ cs) = if c == b':' then [] ∷ split cs else in_front c (split cs)

abbrev pub is_ascii_hexdigit : ℕ → Bool
is_ascii_hexdigit c = is_digit c || ((leb b'A' c && leb c b'F') || (leb b'a' c && leb c b'f'))

-- `part.len() != 2 || !part.chars().all(..)`, negated; only an ASCII text passes, and it has as
-- many bytes as characters.
abbrev pub is_hex_pair : List ℕ → Bool
is_hex_pair (a ∷ b ∷ []) = is_ascii_hexdigit a && is_ascii_hexdigit b
is_hex_pair _ = false

-- The loop of `from_str`: the number of the pairs, or none for a part that is no pair.
unfoldable pub count_pairs : List (List ℕ) → Option ℕ
count_pairs [] = some 0
count_pairs (p ∷ ps) = elim (is_hex_pair p) [
  | false ↦ none
  | true ↦ elim (count_pairs ps) [ none ↦ none | some n ↦ some (suc n) ]
]

abbrev of_count : List ℕ → Option ℕ → Result (List ℕ) (List ℕ)
of_count text none = err (codes "fingerprint must be colon-separated hex pairs")
of_count text (some pairs) =
    if nat_beq pairs 32
    then ok (map to_ascii_uppercase text)
    else err (codes "fingerprint must contain 32 SHA-256 bytes")

-- `Fingerprint::from_str`; a `Fingerprint` is its text.
unfoldable pub from_str : List ℕ → Result (List ℕ) (List ℕ)
unfolding split count_pairs
from_str text = of_count text (count_pairs (split text))

abbrev pub mismatch : List ℕ
mismatch = codes "host certificate fingerprint does not match the pinned value"

module _ (sha : Sha256) where
  unfoldable pub of_der : List ℕ → List ℕ
  unfolding join
  of_der der = join (map hex_pair (sha.digest der))

  -- `TofuVerifier::verify_server_cert`, with the new value of `seen`.
  unfoldable pub verify_server_cert :
      Option (List ℕ) → Option (List ℕ) → List ℕ → Option (List ℕ) × Result (Unit {0}) (List ℕ)
  unfolding of_der
  verify_server_cert none seen end_entity = (some (of_der end_entity), ok tt)
  verify_server_cert (some expected) seen end_entity =
      if not (str_beq (of_der end_entity) expected)
      then (seen, err mismatch)
      else (some (of_der end_entity), ok tt)

-- Neither a colon nor a lower-case letter, and a digit of base 16.
hex_char_lem :
    (n : ℕ)
    → n < 16
    → (is_ascii_hexdigit (hex_char n) ≡ true)
      × ((hex_char n == b':') ≡ false)
      × (to_ascii_uppercase (hex_char n) ≡ hex_char n)
unfolding hex_char
hex_char_lem n h = ground arith

split-join :
    (b : ℕ) (bs : List ℕ)
    → All (λ b. b < 256) (b ∷ bs)
    → split (join (map hex_pair (b ∷ bs))) ≡ map hex_pair (b ∷ bs)
unfolding split join
split-join b [] small = ground (arith, hex_char_lem (b / 16), hex_char_lem (b % 16))
split-join b (c ∷ cs) (small, more) =
    ground (arith, small, hex_char_lem (b / 16), hex_char_lem (b % 16), split-join c cs more)

count_pairs-hex :
    (bs : List ℕ) → All (λ b. b < 256) bs → count_pairs (map hex_pair bs) ≡ some (length bs)
unfolding count_pairs
count_pairs-hex [] small = refl
count_pairs-hex (b ∷ bs) (small, more) =
    ground (arith, small, hex_char_lem (b / 16), hex_char_lem (b % 16), count_pairs-hex bs more)

upper-join :
    (bs : List ℕ)
    → All (λ b. b < 256) bs
    → map to_ascii_uppercase (join (map hex_pair bs)) ≡ join (map hex_pair bs)
unfolding join
upper-join [] small = refl
upper-join (b ∷ []) (small, more) =
    ground (arith, small, hex_char_lem (b / 16), hex_char_lem (b % 16))
upper-join (b ∷ c ∷ cs) (small, more) =
    ground (arith, small, hex_char_lem (b / 16), hex_char_lem (b % 16), upper-join (c ∷ cs) more)

module _ (sha : Sha256) where
  -- The text of a fingerprint, as it is stored, is read back as the same fingerprint.
  pub from_str-of_der : (der : List ℕ) → from_str (of_der sha der) ≡ ok (of_der sha der)
  unfolding from_str of_der
  from_str-of_der der = go (sha.digest der) (sha.length-digest der) (sha.digest-IsByte der)
    where
      go :
          (bs : List ℕ)
          → length bs ≡ 32
          → All (λ b. b < 256) bs
          → of_count (join (map hex_pair bs)) (count_pairs (split (join (map hex_pair bs))))
            ≡ ok (join (map hex_pair bs))
      go [] long small = absurd (omega (arith, long))
      go (b ∷ bs) long small =
          rw
            (split-join b bs small, count_pairs-hex (b ∷ bs) small, long, upper-join (b ∷ bs) small)
            refl
