-- ===== src/Security/ConnectCode/RoundTrip.antt =====
-- A code that was shown is parsed back to itself.
use Prim.Native.Nat.{bit_and, bit_or}
use controlis.Prelude.{
  ℕ, zero, suc, ◌+◌, ◌-◌, ◌*◌, ◌%◌, ◌^◌, ◌≤◌, ◌<◌, ◌≡◌, refl, sym, ap, ◌∙◌, inl, inr, List, [],
  length, All, arith, ltb, ltb→lt, Bool-cases, ◌⊎◌, ok, err,
}
use controlis.Prelude.Bits.{or_field, and_mask}
use controlis.Net.{SocketAddrV4}
use controlis.Security.ConnectCode.{
  ConnectCode, ConnectTarget, lan, rendezvous, ConnectCodeError, code_chars, shl, shr, push_chars,
  normalize_from, normalize, fold_digits, from_payload, lan_payload, rendezvous_payload,
  assemble_lan, assemble_rendezvous, generate_rendezvous, from_value, parse, rendezvous_id_mask,
}
use controlis.Security.ConnectCode.Digits.{
  normalize_from-bare, bare-push_chars, normalize_from-digits, fold_digits-digits, digits_below,
  digit_at-lt,
}

digits_below-lt : (i value : ℕ) → All (λ d. d < 32) (digits_below i value)
digits_below-lt zero value = tt
digits_below-lt (suc i) value = (digit_at-lt value i, digits_below-lt i value)

length-digits_below : (i value : ℕ) → length (digits_below i value) ≡ i
length-digits_below zero value = refl
length-digits_below (suc i) value = ap suc (length-digits_below i value)

pub normalize-from_payload :
    (t : ConnectTarget) (value : ℕ)
    → normalize (from_payload t value).code ≡ ok (digits_below code_chars value)
unfolding normalize from_payload
normalize-from_payload t value =
    sym (normalize_from-bare (push_chars code_chars value []) [])
    ∙ ap (λ (cs : List ℕ). normalize_from cs []) (bare-push_chars code_chars value [])
    ∙ normalize_from-digits (digits_below code_chars value) [] (digits_below-lt code_chars value)
        (omega (arith, length-digits_below code_chars value))

pub parse-from_payload :
    (t : ConnectTarget) (value : ℕ)
    → value < 2 ^ 80
    → parse (from_payload t value).code ≡ from_value value
unfolding parse
parse-from_payload t value h =
    let whole : fold_digits 0 (digits_below code_chars value) ≡ value =
      fold_digits-digits code_chars 0 value (omega arith) ∙ omega arith in
    rw (normalize-from_payload t value) (ap from_value whole)

-- The ranges of an address and of a secret.
abbrev pub IsAddr : SocketAddrV4 → Type 0
IsAddr a = (a.ip < 2 ^ 32) × (a.port < 2 ^ 16)

abbrev pub IsSecret : ℕ → Type 0
IsSecret secret = secret < 2 ^ 30

-- The fields lie side by side.
pub lan_payload_fields :
    (a : SocketAddrV4) (secret : ℕ)
    → IsAddr a
    → IsSecret secret
    → lan_payload a secret ≡ secret * 2 ^ 48 + a.ip * 2 ^ 16 + a.port
unfolding lan_payload
lan_payload_fields a secret ha hs =
    let s : shl secret 48 ≡ secret * 2 ^ 48 = omega arith in
    let i : shl a.ip 16 ≡ a.ip * 2 ^ 16 = omega arith in
    let top : bit_or (0 * 2 ^ 78) (secret * 2 ^ 48) ≡ secret * 2 ^ 48 =
      or_field 78 0 (secret * 2 ^ 48) (omega arith) ∙ omega arith in
    let mid : bit_or (secret * 2 ^ 48) (a.ip * 2 ^ 16) ≡ secret * 2 ^ 48 + a.ip * 2 ^ 16 =
      or_field 48 secret (a.ip * 2 ^ 16) (omega arith) in
    let joined : secret * 2 ^ 48 + a.ip * 2 ^ 16 ≡ (secret * 2 ^ 32 + a.ip) * 2 ^ 16 =
      omega arith in
    rw (s, i, top, mid, joined) (or_field 16 (secret * 2 ^ 32 + a.ip) a.port ha.1)

pub rendezvous_payload_fields :
    (id secret : ℕ)
    → id < 2 ^ 48
    → IsSecret secret
    → rendezvous_payload id secret ≡ 2 ^ 78 + secret * 2 ^ 48 + id
unfolding rendezvous_payload
rendezvous_payload_fields id secret hi hs =
    let s : shl secret 48 ≡ secret * 2 ^ 48 = omega arith in
    let top : bit_or (1 * 2 ^ 78) (secret * 2 ^ 48) ≡ (2 ^ 30 + secret) * 2 ^ 48 =
      or_field 78 1 (secret * 2 ^ 48) (omega arith) ∙ omega arith in
    rw (s, top) (or_field 48 (2 ^ 30 + secret) id hi ∙ omega arith)

lan_value :
    (a : SocketAddrV4) (secret : ℕ)
    → IsAddr a
    → IsSecret secret
    → from_value (secret * 2 ^ 48 + a.ip * 2 ^ 16 + a.port) ≡ ok (assemble_lan a secret)
unfolding from_value
lan_value a secret ha hs =
    let v : ℕ = secret * 2 ^ 48 + a.ip * 2 ^ 16 + a.port in
    let s : bit_and (shr v 48) (2 ^ 30 - 1) % 2 ^ 32 ≡ secret =
      omega (arith, and_mask 30 (shr v 48)) in
    let i : bit_and (shr v 16) 0xffff_ffff % 2 ^ 32 ≡ a.ip =
      omega (arith, and_mask 32 (shr v 16)) in
    let p : bit_and v 0xffff % 2 ^ 16 ≡ a.port = omega (arith, and_mask 16 v) in
    let n : shr v 78 ≡ 0 = omega arith in rw (n, s, i, p)

rendezvous_value :
    (id secret : ℕ)
    → id < 2 ^ 48
    → IsSecret secret
    → from_value (2 ^ 78 + secret * 2 ^ 48 + id) ≡ ok (assemble_rendezvous id secret)
unfolding from_value
rendezvous_value id secret hi hs =
    let v : ℕ = 2 ^ 78 + secret * 2 ^ 48 + id in
    let s : bit_and (shr v 48) (2 ^ 30 - 1) % 2 ^ 32 ≡ secret =
      omega (arith, and_mask 30 (shr v 48)) in
    let i : bit_and v (2 ^ 48 - 1) % 2 ^ 64 ≡ id = omega (arith, and_mask 48 v) in
    let n : shr v 78 ≡ 1 = omega arith in rw (n, s, i)

-- The code shown for an IPv4 address with a port and a secret of 30 bits is parsed back to the very
-- same code: address, and text.
pub parse-assemble_lan :
    (a : SocketAddrV4) (secret : ℕ)
    → IsAddr a
    → IsSecret secret
    → parse (assemble_lan a secret).code ≡ ok (assemble_lan a secret)
unfolding assemble_lan
parse-assemble_lan a secret ha hs =
    parse-from_payload (lan a) (lan_payload a secret)
      (rw (lan_payload_fields a secret ha hs) (omega arith))
    ∙ ap from_value (lan_payload_fields a secret ha hs)
    ∙ lan_value a secret ha hs

-- The code shown for an id of 48 bits and a secret of 30 bits is parsed back to the same code.
pub parse-assemble_rendezvous :
    (id secret : ℕ)
    → id < 2 ^ 48
    → IsSecret secret
    → parse (assemble_rendezvous id secret).code ≡ ok (assemble_rendezvous id secret)
unfolding assemble_rendezvous
parse-assemble_rendezvous id secret hi hs =
    parse-from_payload (rendezvous id) (rendezvous_payload id secret)
      (rw (rendezvous_payload_fields id secret hi hs) (omega arith))
    ∙ ap from_value (rendezvous_payload_fields id secret hi hs)
    ∙ rendezvous_value id secret hi hs

-- For a secret of 30 bits, an id is refused by `generate_rendezvous` if it does not fit in 48 bits,
-- and otherwise the code made for it has it as its target and is parsed back to itself.
pub generate_rendezvous_cases :
    (id secret : ℕ)
    → IsSecret secret
    → ((2 ^ 48 ≤ id)
        × (generate_rendezvous id secret ≡ err ConnectCodeError.rendezvous_id_out_of_range))
      ⊎ ((c : ConnectCode) × (generate_rendezvous id secret ≡ ok c)
          × (c.target ≡ rendezvous id)
          × (parse c.code ≡ ok c))
unfolding generate_rendezvous
generate_rendezvous_cases id secret hs = elim (Bool-cases (ltb rendezvous_id_mask id)) [
  | inl big ↦ inl (omega (arith, ltb→lt _ _ big), rw big)
  | inr fits ↦ inr (
    assemble_rendezvous id secret,
    rw fits,
    unfold assemble_rendezvous from_payload in refl,
    parse-assemble_rendezvous id secret (ground arith) hs,
  )
]
