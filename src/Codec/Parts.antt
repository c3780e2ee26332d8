-- ===== src/Codec/Parts.antt =====
-- Parts of a buffer of bytes, and a buffer that bytes are copied into (crates/codec).
use controlis.Prelude.{
  ℕ, zero, suc, ◌+◌, ◌-◌, ◌≤◌, ◌≡◌, refl, sym, ap, ◌∙◌, ◌&&◌, List, [], ◌∷◌, ◌++◌, arith, length,
  take, drop, str_beq, length-take, length-drop, take-append_le, drop-append_le, take-append-drop,
  take-append_length,
}

-- `len` bytes from `start`.
abbrev pub part : ℕ → ℕ → List ℕ → List ℕ
part start len buf = take len (drop start buf)

part_front :
    (a b : List ℕ) (start len : ℕ)
    → start + len ≤ length a
    → part start len (a ++ b) ≡ part start len a
part_front a b start len h =
    ap (take len) (drop-append_le start a b (omega (arith, h)))
    ∙ take-append_le len (drop start a) b (omega (arith, h, length-drop start a))

drop_back :
    (a b : List ℕ) (start : ℕ) → length a ≤ start → drop start (a ++ b) ≡ drop (start - length a) b
drop_back [] b start h = let e : start ≡ start - 0 = omega arith in ap (λ (n : ℕ). drop n b) e
drop_back (x ∷ a) b zero h = absurd (omega (arith, h))
drop_back (x ∷ a) b (suc start) h =
    let e : start - length a ≡ suc start - length (x ∷ a) = omega arith in
    drop_back a b start (omega (arith, h)) ∙ ap (λ (n : ℕ). drop n b) e

-- Copying outside a part leaves it.
pub part-copied_before :
    (buf src : List ℕ) (at start len : ℕ)
    → start + len ≤ at
    → at ≤ length buf
    → part start len (take at buf ++ (src ++ drop (at + length src) buf)) ≡ part start len buf
part-copied_before buf src at start len h fits =
    let long : start + len ≤ length (take at buf) = omega (arith, h, fits, length-take at buf) in
    part_front (take at buf) (src ++ drop (at + length src) buf) start len long
    ∙ sym (part_front (take at buf) (drop at buf) start len long)
    ∙ ap (part start len) (take-append-drop at buf)

pub part-copied_after :
    (buf src : List ℕ) (at start len : ℕ)
    → at + length src ≤ start
    → at + length src ≤ length buf
    → part start len (take at buf ++ (src ++ drop (at + length src) buf)) ≡ part start len buf
part-copied_after buf src at start len h fits = ap (take len) (
    drop_back (take at buf) (src ++ drop (at + length src) buf) start
      (omega (arith, h, fits, length-take at buf))
    ∙ drop_back src (drop (at + length src) buf) (start - length (take at buf))
        (omega (arith, h, fits, length-take at buf))
    ∙ ap (λ n. drop n (drop (at + length src) buf))
        (omega (arith, h, fits, length-take at buf, length-take (at + length src) buf))
    ∙ sym (
        drop_back (take (at + length src) buf) (drop (at + length src) buf) start
          (omega (arith, h, fits, length-take (at + length src) buf)))
    ∙ ap (drop start) (take-append-drop (at + length src) buf))

-- And the part copied to is what was copied.
pub part-copied :
    (buf src : List ℕ) (at : ℕ)
    → at + length src ≤ length buf
    → part at (length src) (take at buf ++ (src ++ drop (at + length src) buf)) ≡ src
part-copied buf src at fits =
    let start : at - length (take at buf) ≡ 0 = omega (arith, fits, length-take at buf) in
    ap (take (length src)) (
      drop_back (take at buf) (src ++ drop (at + length src) buf) at
        (omega (arith, fits, length-take at buf))
      ∙ ap (λ (n : ℕ). drop n (src ++ drop (at + length src) buf)) start)
    ∙ take-append_length src (drop (at + length src) buf)

abbrev nothing : List ℕ
nothing = []

drop_nil : (n : ℕ) → drop n nothing ≡ nothing
drop_nil zero = refl
drop_nil (suc n) = refl

take_nil : (n : ℕ) → take n nothing ≡ nothing
take_nil zero = refl
take_nil (suc n) = refl

drop-drop : (a b : ℕ) (xs : List ℕ) → drop a (drop b xs) ≡ drop (b + a) xs
drop-drop a zero xs = let e : a ≡ 0 + a = omega arith in ap (λ (n : ℕ). drop n xs) e
drop-drop a (suc b) [] = drop_nil a ∙ sym (drop_nil (suc b + a))
drop-drop a (suc b) (x ∷ xs) =
    let e : suc (b + a) ≡ suc b + a = omega arith in
    drop-drop a b xs ∙ ap (λ (n : ℕ). drop n (x ∷ xs)) e

take_split : (a b : ℕ) (xs : List ℕ) → take a xs ++ take b (drop a xs) ≡ take (a + b) xs
take_split zero b xs = let e : b ≡ 0 + b = omega arith in ap (λ (n : ℕ). take n xs) e
take_split (suc a) b [] = take_nil b ∙ sym (take_nil (suc a + b))
take_split (suc a) b (x ∷ xs) =
    let e : suc (a + b) ≡ suc a + b = omega arith in
    ap (λ rest. x ∷ rest) (take_split a b xs) ∙ ap (λ (n : ℕ). take n (x ∷ xs)) e

-- A part and the one behind it.
pub part_split :
    (start a b : ℕ) (xs : List ℕ) → part start a xs ++ part (start + a) b xs ≡ part start (a + b) xs
part_split start a b xs =
    ap (λ rest. part start a xs ++ take b rest) (sym (drop-drop a start xs))
    ∙ take_split a b (drop start xs)

-- Texts of equal fronts are the same by halves.
pub str_beq-append :
    (a b x y : List ℕ)
    → length a ≡ length b
    → str_beq (a ++ x) (b ++ y) ≡ (str_beq a b && str_beq x y)
str_beq-append [] [] x y h = refl
str_beq-append [] (d ∷ b) x y h = absurd (omega (arith, h))
str_beq-append (c ∷ a) [] x y h = absurd (omega (arith, h))
str_beq-append (c ∷ a) (d ∷ b) x y h = ground (arith, str_beq-append a b x y (omega (arith, h)))
