-- ===== src/Security/Code/Laws.antt =====
-- What `verify_code` compares.
use controlis.Prelude.{
  ℕ, ◌≡◌, refl, ap, ◌∙◌, true, false, inl, inr, List, [], ◌∷◌, ◌++◌, map, length, arith,
  select-append, Bool-cases, ◌↔◌, nat_beq, nat_beq_iff, is_ascii_alphanumeric, to_ascii_uppercase,
  to_ascii_lowercase,
}
use mathlib.Core.List.{map-append}
use controlis.Security.Code.{ConstantTimeEq, normalize, verify_code}

module _ (c : ConstantTimeEq) where
  -- Two codes match exactly when their letters and digits are the same, case aside.
  pub verify_code_iff :
      (expected candidate : List ℕ)
      → (verify_code c expected candidate ≡ true) ↔ (normalize expected ≡ normalize candidate)
  unfolding verify_code
  verify_code_iff s t = elim (Bool-cases (nat_beq (length (normalize s)) (length (normalize t)))) [
    | inl same ↦ rw same (c.ct_eq_iff _ _ ((nat_beq_iff _ _).0 same))
    | inr differ ↦ rw differ (λ e. cc, λ e. absurd (unequal (ap length e) differ))
  ]
    where
      unequal :
          length (normalize s) ≡ length (normalize t)
          → nat_beq (length (normalize s)) (length (normalize t)) ≡ false
          → ⊥
      unequal e d = ground arith

pub normalize-append : (s t : List ℕ) → normalize (s ++ t) ≡ normalize s ++ normalize t
unfolding normalize
normalize-append s t =
    ap (map to_ascii_uppercase) (select-append is_ascii_alphanumeric s t)
    ∙ map-append to_ascii_uppercase _ _

pub normalize_lowercase : (s : List ℕ) → normalize (map to_ascii_lowercase s) ≡ normalize s
unfolding normalize
normalize_lowercase [] = refl
normalize_lowercase (x ∷ s) = ground (arith, normalize_lowercase s)
