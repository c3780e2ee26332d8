-- ===== src/Security/ConnectCode.antt =====
-- crates/security/src/connect_code.rs: access codes of 16 base32 characters that carry an
-- address, or a rendezvous id, with a secret of 30 bits. A `u128` keeps its wrap-around in `shl`.
pub mod Digits
pub mod RoundTrip
pub mod Tolerance
pub mod Verify
use Prim.Native.Nat.{bit_and, bit_or}
use controlis.Prelude.{
  ℕ, zero, suc, ◌+◌, ◌-◌, ◌*◌, ◌/◌, ◌%◌, ◌^◌, Bool, true, false, not, ◌&&◌, ◌||◌, Option, none,
  some, List, [], ◌∷◌, ◌++◌, length, get_or, codes, is_whitespace, to_ascii_uppercase, ltb, nat_beq,
  if◌then◌else◌, Result, ok, err, ◌>>=◌, ◌>>◌, ensure, ◌==◌, nat_eq,
}
use controlis.Net.{SocketAddrV4}
use controlis.Security.Code.{ConstantTimeEq, verify_code}

abbrev pub alphabet : List ℕ
alphabet = codes "0123456789ABCDEFGHJKMNPQRSTVWXYZ"

abbrev pub code_chars : ℕ
code_chars = 16

abbrev pub group_len : ℕ
group_len = 4

abbrev pub lan_version : ℕ
lan_version = 0

abbrev pub rendezvous_version : ℕ
rendezvous_version = 1

abbrev pub secret_bits : ℕ
secret_bits = 30

abbrev pub rendezvous_id_mask : ℕ
rendezvous_id_mask = 2 ^ 48 - 1

pub data ConnectTarget : Type 0 where
  lan : SocketAddrV4 → ConnectTarget
  rendezvous : ℕ → ConnectTarget

pub record ConnectCode : Type 0 where
  pub target : ConnectTarget
  pub code : List ℕ

pub data ConnectCodeError : Type 0 where
  wrong_length invalid_char unsupported_version rendezvous_id_out_of_range : ConnectCodeError

-- `x << k` and `x >> k` on u128.
abbrev pub shl : ℕ → ℕ → ℕ
shl x k = x * 2 ^ k % 2 ^ 128

abbrev pub shr : ℕ → ℕ → ℕ
shr x k = x / 2 ^ k

-- The index is below 32, so the lookup never misses.
abbrev pub digit_char : ℕ → ℕ
digit_char d = get_or alphabet d 0

unfoldable pub digit_at : ℕ → ℕ → ℕ
digit_at value i = bit_and (shr value (i * 5)) 0x1f

abbrev is_empty : List ℕ → Bool
is_empty [] = true
is_empty (c ∷ cs) = false

-- The hyphen in front of the character for digit `i`.
unfoldable pub separator : List ℕ → ℕ → List ℕ
separator chars i =
    if not (is_empty chars) && (code_chars - i) % group_len == 1 && not (i == code_chars - 1)
    then b'-' ∷ []
    else []

-- The loop over `(0..CODE_CHARS).rev()`: the digits below the first argument are still to come.
unfoldable pub push_chars : ℕ → ℕ → List ℕ → List ℕ
push_chars zero value chars = chars
push_chars (suc i) value chars =
    push_chars i value ((chars ++ separator chars i) ++ (digit_char (digit_at value i) ∷ []))

unfoldable pub from_payload : ConnectTarget → ℕ → ConnectCode
from_payload target value = record { target = target; code = push_chars code_chars value [] }

unfoldable pub lan_payload : SocketAddrV4 → ℕ → ℕ
lan_payload addr secret =
    bit_or (bit_or (bit_or (shl lan_version 78) (shl secret 48)) (shl addr.ip 16)) addr.port

unfoldable pub assemble_lan : SocketAddrV4 → ℕ → ConnectCode
unfolding lan_payload from_payload
assemble_lan addr secret = from_payload (lan addr) (lan_payload addr secret)

unfoldable pub rendezvous_payload : ℕ → ℕ → ℕ
rendezvous_payload id secret = bit_or (bit_or (shl rendezvous_version 78) (shl secret 48)) id

unfoldable pub assemble_rendezvous : ℕ → ℕ → ConnectCode
unfolding rendezvous_payload from_payload
assemble_rendezvous id secret = from_payload (rendezvous id) (rendezvous_payload id secret)

-- The secret is the number drawn from `0..1 << SECRET_BITS`.
unfoldable pub generate : SocketAddrV4 → ℕ → ConnectCode
unfolding assemble_lan
generate addr secret = assemble_lan addr secret

unfoldable pub generate_rendezvous : ℕ → ℕ → Result ConnectCode ConnectCodeError
unfolding assemble_rendezvous
generate_rendezvous id secret =
    if ltb rendezvous_id_mask id
    then err rendezvous_id_out_of_range
    else ok (assemble_rendezvous id secret)

unfoldable pub is_separator : ℕ → Bool
unfolding is_whitespace
is_separator c = is_whitespace c || c == b'-' || c == b'_'

abbrev pub alias : ℕ → ℕ
alias c = if c == b'O' then b'0' else if c == b'I' || c == b'L' then b'1' else c

unfoldable pub position : List ℕ → ℕ → ℕ → Option ℕ
position [] c i = none
position (a ∷ rest) c i = if a == c then some i else position rest c (suc i)

unfoldable pub digit_of : ℕ → Option ℕ
unfolding position
digit_of c = position alphabet (alias (to_ascii_uppercase c)) 0

-- The loop of `normalize`, with the digits read so far.
unfoldable pub normalize_from : List ℕ → List ℕ → Result (List ℕ) ConnectCodeError
normalize_from [] digits = ok digits
normalize_from (c ∷ cs) digits = elim (is_separator c) [
  | true ↦ normalize_from cs digits
  | false ↦ elim (digit_of c) [
    | none ↦ err invalid_char
    | some digit ↦ elim (nat_beq (length digits) code_chars) [
      | true ↦ err wrong_length
      | false ↦ normalize_from cs (digits ++ (digit ∷ []))
    ]
  ]
]

unfoldable pub normalize : List ℕ → Result (List ℕ) ConnectCodeError
normalize input = normalize_from input []

unfoldable pub fold_digits : ℕ → List ℕ → ℕ
fold_digits value [] = value
fold_digits value (digit ∷ digits) = fold_digits (bit_or (shl value 5) digit) digits

unfoldable pub from_value : ℕ → Result ConnectCode ConnectCodeError
unfolding assemble_lan assemble_rendezvous
from_value value =
    let version = shr value 78 in
    let secret = bit_and (shr value 48) (2 ^ secret_bits - 1) % 2 ^ 32 in
    let ip = bit_and (shr value 16) 0xffff_ffff % 2 ^ 32 in
    let port = bit_and value 0xffff % 2 ^ 16 in
    let id = bit_and value rendezvous_id_mask % 2 ^ 64 in
    if version == lan_version
    then ok (assemble_lan (record { ip = ip; port = port }) secret)
    else if version == rendezvous_version
    then ok (assemble_rendezvous id secret)
    else err unsupported_version

unfoldable pub parse : List ℕ → Result ConnectCode ConnectCodeError
unfolding normalize
parse input = do
  digits ← normalize input
  ensure (nat_beq (length digits) code_chars) wrong_length
  from_value (fold_digits 0 digits)

abbrev pub target_addr : ConnectTarget → Option SocketAddrV4
target_addr (lan a) = some a
target_addr (rendezvous id) = none

abbrev pub addr : ConnectCode → Option SocketAddrV4
addr c = target_addr c.target

-- A candidate that is no code is compared as plain text.
unfoldable pub verify : ConstantTimeEq → ConnectCode → List ℕ → Bool
unfolding parse
verify ct c candidate = elim (parse candidate) [
  | err e ↦ verify_code ct c.code candidate
  | ok normalized ↦ verify_code ct c.code normalized.code
]
