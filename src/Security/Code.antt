-- ===== src/Security/Code.antt =====
-- crates/security/src/code.rs: session codes and their comparison. Texts are code points; the
-- random draws and the crate `subtle` are parameters.
pub mod Laws
use controlis.Prelude.{
  ℕ, zero, suc, ◌+◌, ◌*◌, Bool, false, not, List, [], ◌∷◌, ◌++◌, map, length, get_or, codes, select,
  is_ascii_alphanumeric, to_ascii_uppercase, nat_beq, if◌then◌else◌, ◌↔◌, ◌≡◌,
}

-- `subtle::ConstantTimeEq` on byte slices: it answers whether slices of one length are equal.
pub record ConstantTimeEq : Type 0 where
  pub ct_eq : List ℕ → List ℕ → Bool
  pub ct_eq_iff : (s t : List ℕ) → length s ≡ length t → (ct_eq s t ≡ Bool.true) ↔ (s ≡ t)

abbrev pub alphabet : List ℕ
alphabet = codes "23456789ABCDEFGHJKMNPQRSTUVWXYZ"

abbrev pub group_len : ℕ
group_len = 4

abbrev pub groups : ℕ
groups = 2

pub record SessionCode : Type 0 where
  pub text : List ℕ

unfoldable pub normalize : List ℕ → List ℕ
normalize code = map to_ascii_uppercase (select is_ascii_alphanumeric code)

-- One group of `left` characters; `draw i` is the i-th index drawn, `i` counting from `next`.
unfoldable pub group : (ℕ → ℕ) → ℕ → ℕ → List ℕ
group draw next zero = []
group draw next (suc left) = get_or alphabet (draw next) 0 ∷ group draw (suc next) left

-- `groups.join("-")`, group by group.
unfoldable pub join_groups : (ℕ → ℕ) → ℕ → ℕ → List ℕ
unfolding group
join_groups draw next zero = []
join_groups draw next (suc zero) = group draw next group_len
join_groups draw next (suc (suc left)) =
    group draw next group_len ++ (b'-' ∷ join_groups draw (next + group_len) (suc left))

unfoldable pub generate : (ℕ → ℕ) → SessionCode
unfolding join_groups
generate draw = record { text = join_groups draw 0 groups }

-- The normalized texts are ASCII, so their lengths in bytes are those of the lists.
unfoldable pub verify_code : ConstantTimeEq → List ℕ → List ℕ → Bool
unfolding normalize
verify_code c expected candidate =
    if not (nat_beq (length (normalize expected)) (length (normalize candidate)))
    then false
    else c.ct_eq (normalize expected) (normalize candidate)

unfoldable pub verify : ConstantTimeEq → SessionCode → List ℕ → Bool
unfolding verify_code
verify c code candidate = verify_code c code.text candidate
