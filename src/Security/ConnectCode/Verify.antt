-- ===== src/Security/ConnectCode/Verify.antt =====
-- What the host accepts as its code.
use controlis.Prelude.{
  ℕ, zero, suc, ◌-◌, ◌%◌, ◌^◌, ◌<◌, ◌≡◌, refl, sym, ap, ◌∙◌, true, false, inl, inr, List, [], ◌∷◌,
  ◌++◌, map, length, arith, Bool-cases, nat_beq, subst, ◌≢◌, is_ascii_alphanumeric,
  to_ascii_uppercase, ◌⊎◌, ◌↔◌, ◌&&◌, ◌==◌, nat_eq, ok, err, Result-cases,
}
use mathlib.Core.List.{append_assoc, append-nil}
use controlis.Net.{SocketAddrV4}
use Prim.Native.Nat.{bit_and}
use controlis.Prelude.Bits.{and_mask}
use controlis.Security.Code
use controlis.Security.Code.{ConstantTimeEq, verify_code}
use controlis.Security.Code.Laws.{verify_code_iff, normalize-append}
use controlis.Security.ConnectCode.{
  ConnectCode, ConnectTarget, lan, rendezvous, ConnectCodeError, code_chars, shr, digit_char,
  digit_at, separator, push_chars, normalize, fold_digits, from_payload, lan_payload,
  rendezvous_payload, assemble_lan, assemble_rendezvous, from_value, parse, verify,
}
use controlis.Security.ConnectCode.Digits.{
  bare, bare-push_chars, digits_below, digit_at-lt, all_below, all_below-true, normalize_from-bare,
}
use controlis.Security.ConnectCode.RoundTrip.{
  IsSecret, parse-assemble_lan, parse-assemble_rendezvous,
}

-- A code that was made by this program: it is parsed back to itself.
abbrev pub IsCanonical : ConnectCode → Type 0
IsCanonical c = parse c.code ≡ ok c

from_value-IsCanonical : (v : ℕ) (c : ConnectCode) → from_value v ≡ ok c → IsCanonical c
unfolding from_value
from_value-IsCanonical v c e = elim (Bool-cases (nat_beq (shr v 78) 0)) [
  | inl is_lan ↦
      subst IsCanonical (cc (e, lan_code is_lan))
        (parse-assemble_lan a s (omega arith, omega arith) secret)
  | inr not_lan ↦ elim (Bool-cases (nat_beq (shr v 78) 1)) [
    | inl is_rv ↦
        subst IsCanonical (cc (e, rv_code not_lan is_rv)) (parse-assemble_rendezvous i s id secret)
    | inr other ↦ absurd (unsupported not_lan other e)
  ]
]
  where
    s : ℕ
    s = bit_and (shr v 48) (2 ^ 30 - 1) % 2 ^ 32

    i : ℕ
    i = bit_and v (2 ^ 48 - 1) % 2 ^ 64

    a : SocketAddrV4
    a = record { ip = bit_and (shr v 16) 0xffff_ffff % 2 ^ 32; port = bit_and v 0xffff % 2 ^ 16 }

    secret : IsSecret s
    secret = omega (arith, and_mask 30 (shr v 48))

    id : i < 2 ^ 48
    id = omega (arith, and_mask 48 v)

    lan_code : nat_beq (shr v 78) 0 ≡ true → from_value v ≡ ok (assemble_lan a s)
    lan_code h = rw h

    rv_code :
        nat_beq (shr v 78) 0 ≡ false
        → nat_beq (shr v 78) 1 ≡ true
        → from_value v ≡ ok (assemble_rendezvous i s)
    rv_code h k = rw (h, k)

    unsupported : nat_beq (shr v 78) 0 ≡ false → nat_beq (shr v 78) 1 ≡ false → from_value v ≢ ok c
    unsupported h k = rw (h, k) (λ e. cc)

parse_inversion :
    (cs : List ℕ) (c : ConnectCode) → parse cs ≡ ok c → (v : ℕ) × (from_value v ≡ ok c)
unfolding parse
parse_inversion cs c e = elim (Result-cases (normalize cs)) [
  | inr (x, bad) ↦ absurd (no_code x bad)
  | inl (ds, good) ↦ elim (Bool-cases (nat_beq (length ds) code_chars)) [
    | inl full ↦ (fold_digits 0 ds, value ds good full)
    | inr short ↦ absurd (too_short ds good short)
  ]
]
  where
    no_code : (x : ConnectCodeError) → normalize cs ≡ err x → ⊥
    no_code x bad = cc

    value :
        (ds : List ℕ)
        → normalize cs ≡ ok ds
        → nat_beq (length ds) code_chars ≡ true
        → from_value (fold_digits 0 ds) ≡ ok c
    value ds good full = ground arith

    too_short : (ds : List ℕ) → normalize cs ≡ ok ds → nat_beq (length ds) code_chars ≡ false → ⊥
    too_short ds good short = ground arith

-- Whatever text was parsed, the code that comes out is one the host could have shown: shown
-- and parsed again it is itself.
pub parse-IsCanonical : (cs : List ℕ) (c : ConnectCode) → parse cs ≡ ok c → IsCanonical c
parse-IsCanonical cs c e = let (v, h) = parse_inversion cs c e in from_value-IsCanonical v c h

letter_table :
    all_below 32 (λ d.
      is_ascii_alphanumeric (digit_char d) && to_ascii_uppercase (digit_char d) == digit_char d)
    ≡ true
unfolding all_below
letter_table = refl

normalize-digit_char : (d : ℕ) → d < 32 → Code.normalize (digit_char d ∷ []) ≡ digit_char d ∷ []
unfolding Code.normalize
normalize-digit_char d h = ground (
  arith,
  all_below-true 32
      (λ d.
        is_ascii_alphanumeric (digit_char d) && to_ascii_uppercase (digit_char d) == digit_char d)
      d letter_table h,
)

normalize-separator : (chars : List ℕ) (i : ℕ) → Code.normalize (separator chars i) ≡ []
unfolding Code.normalize separator
normalize-separator chars i = ground arith

normalize-push_chars :
    (i value : ℕ) (chars : List ℕ)
    → Code.normalize (push_chars i value chars)
      ≡ Code.normalize chars ++ map digit_char (digits_below i value)
unfolding push_chars
normalize-push_chars zero value chars = sym (append-nil _)
normalize-push_chars (suc i) value chars =
    normalize-push_chars i value _
    ∙ simp (
      normalize-append,
      normalize-separator,
      normalize-digit_char (digit_at value i) (digit_at-lt value i),
      append_assoc,
    )

abbrev secret_field : ℕ → ℕ
secret_field v = bit_and (shr v 48) (2 ^ 30 - 1) % 2 ^ 32

abbrev id_field : ℕ → ℕ
id_field v = bit_and v (2 ^ 48 - 1) % 2 ^ 64

abbrev addr_field : ℕ → SocketAddrV4
addr_field v = record {
  ip = bit_and (shr v 16) 0xffff_ffff % 2 ^ 32;
  port = bit_and v 0xffff % 2 ^ 16;
}

from_value_payload :
    (v : ℕ) (c : ConnectCode)
    → from_value v ≡ ok c
    → (t : ConnectTarget) × (w : ℕ) × (c ≡ from_payload t w)
unfolding from_value assemble_lan assemble_rendezvous
from_value_payload v c e = elim (Bool-cases (nat_beq (shr v 78) 0)) [
  | inl is_lan ↦ (lan (addr_field v), lan_payload (addr_field v) (secret_field v), ground arith)
  | inr not_lan ↦
      (rendezvous (id_field v), rendezvous_payload (id_field v) (secret_field v), ground arith)
]

-- The plain comparison of codes sees what `parse` sees: the sixteen characters.
normalize-bare : (c : ConnectCode) → IsCanonical c → Code.normalize c.code ≡ bare c.code
unfolding from_payload Code.normalize
normalize-bare c k =
    let (v, h) = parse_inversion c.code c k in
    let (t, w, e) = from_value_payload v c h in
    rw e (normalize-push_chars code_chars w [] ∙ sym (bare-push_chars code_chars w []))

parse-bare : (cs : List ℕ) → parse (bare cs) ≡ parse cs
unfolding parse
parse-bare cs = rw (normalize_from-bare cs [])

same_code :
    (c d : ConnectCode)
    → IsCanonical c
    → IsCanonical d
    → Code.normalize c.code ≡ Code.normalize d.code
    → c ≡ d
same_code c d hc hd e = cc (hc, hd, parsed)
  where
    parsed : parse c.code ≡ parse d.code
    parsed =
        sym (parse-bare c.code)
        ∙ ap parse (sym (normalize-bare c hc) ∙ e ∙ normalize-bare d hd)
        ∙ parse-bare d.code

-- What makes a candidate good: it is parsed to the code, or it is no code and reads the same.
abbrev pub Accepts : ConnectCode → List ℕ → Type 0
Accepts c candidate =
    (parse candidate ≡ ok c)
    ⊎ ((e : ConnectCodeError) × (parse candidate ≡ err e)
        × (Code.normalize c.code ≡ Code.normalize candidate))

-- A code that is parsed to itself accepts exactly the texts that are parsed to it, and texts that
-- are no codes at all but have the same letters and digits.
pub verify_iff :
    (ct : ConstantTimeEq) (c : ConnectCode) (candidate : List ℕ)
    → IsCanonical c
    → (verify ct c candidate ≡ true) ↔ Accepts c candidate
unfolding verify
verify_iff ct c candidate k = elim (Result-cases (parse candidate)) [
  | inl (d, e) ↦ (
    λ h. inl (e ∙ ap ok (sym (accepted d e (rw (e, verify) at h)))),
    λ h. rw (e, verify) ((verify_code_iff ct c.code d.code).1 (same d e h)),
  )
  | inr (x, e) ↦ (
    λ h. inr (x, e, (verify_code_iff ct c.code candidate).0 (rw (e, verify) at h)),
    λ h. rw (e, verify) ((verify_code_iff ct c.code candidate).1 (plain x e h)),
  )
]
  where
    accepted :
        (d : ConnectCode) → parse candidate ≡ ok d → verify_code ct c.code d.code ≡ true → c ≡ d
    accepted d e h =
        same_code c d k (parse-IsCanonical candidate d e) ((verify_code_iff ct c.code d.code).0 h)

    same :
        (d : ConnectCode)
        → parse candidate ≡ ok d
        → Accepts c candidate
        → Code.normalize c.code ≡ Code.normalize d.code
    same d e (inl h) =
        let one : c ≡ d = cc (e, h) in ap (λ (x : ConnectCode). Code.normalize x.code) one
    same d e (inr (x, h, _)) = absurd (cc (e, h))

    plain :
        (x : ConnectCodeError)
        → parse candidate ≡ err x
        → Accepts c candidate
        → Code.normalize c.code ≡ Code.normalize candidate
    plain x e (inl h) = absurd (cc (e, h))
    plain x e (inr (_, _, h)) = h
