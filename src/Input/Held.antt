-- ===== src/Input/Held.antt =====
-- What `release_all` tells the desktop, by a desktop that keeps a list of its calls.
use controlis.Prelude.{
  ℕ, zero, suc, get_or, ◌≡◌, ◌⊎◌, inl, inr, refl, ◌∙◌, sym, ap, true, List, [], ◌∷◌, arith, Result,
  ok, err, nat_eq, nat_beq_iff, Bool-cases,
}
use controlis.Protocol.Message.{
  MouseButton, left, right, middle, KeyCode, unicode, enter, escape, backspace, tab, space, delete,
  home, end, page_up, page_down, arrow_up, arrow_down, arrow_left, arrow_right, shift, control, alt,
  meta, caps_lock, function,
}
use controlis.Input.Enigo
use controlis.Input.Enigo.{Desktop}
use controlis.Input.{
  key_index, key_beq, button_beq, held, to_button, to_key, EnigoInjector, InputError, release_keys,
  release_buttons, release_key, release_all,
}

abbrev other_keys : List KeyCode
other_keys =
    enter ∷ escape ∷ backspace ∷ tab ∷ space ∷ delete ∷ home ∷ end ∷ page_up ∷ page_down ∷ arrow_up
    ∷ arrow_down ∷ arrow_left ∷ arrow_right ∷ shift ∷ control ∷ alt ∷ meta ∷ caps_lock ∷ []

-- The inverse of `key_index`.
abbrev key_at : ℕ × ℕ → KeyCode
key_at (zero, c) = unicode c
key_at (suc zero, n) = function n
key_at (suc (suc m), i) = get_or other_keys i enter

key_at-key_index : (k : KeyCode) → key_at (key_index k) ≡ k
key_at-key_index (unicode c) = refl
key_at-key_index (function n) = refl
key_at-key_index enter = refl
key_at-key_index escape = refl
key_at-key_index backspace = refl
key_at-key_index tab = refl
key_at-key_index space = refl
key_at-key_index delete = refl
key_at-key_index home = refl
key_at-key_index end = refl
key_at-key_index page_up = refl
key_at-key_index page_down = refl
key_at-key_index arrow_up = refl
key_at-key_index arrow_down = refl
key_at-key_index arrow_left = refl
key_at-key_index arrow_right = refl
key_at-key_index shift = refl
key_at-key_index control = refl
key_at-key_index alt = refl
key_at-key_index meta = refl
key_at-key_index caps_lock = refl

pub key_beq_eq : (j k : KeyCode) → key_beq j k ≡ true → j ≡ k
key_beq_eq j k e = sym (key_at-key_index j) ∙ ap key_at same ∙ key_at-key_index k
  where
    same : key_index j ≡ key_index k
    same = ground (
      arith,
      nat_beq_iff (key_index j).0 (key_index k).0,
      nat_beq_iff (key_index j).1 (key_index k).1,
    )

button_beq_eq : (b c : MouseButton) → button_beq b c ≡ true → b ≡ c
button_beq_eq left left e = refl
button_beq_eq right right e = refl
button_beq_eq middle middle e = refl
button_beq_eq _ _ e = absurd (cc)

-- The same desktop, with its calls before the ones made so far.
abbrev pub recorded : {S : Type 0} → Desktop S → Desktop (S × List Enigo.Call)
recorded d = record { call = λ x c. let r = d.call x.0 c in ((r.0, c ∷ x.1), r.1) }

abbrev pub Issued : Enigo.Call → List Enigo.Call → Type 0
Issued c [] = ⊥
Issued c (x ∷ xs) = (x ≡ c) ⊎ Issued c xs

module _ {S : Type 0} (d : Desktop S) where
  release_keys-grows :
      (c : Enigo.Call) (x : S × List Enigo.Call) (ks : List KeyCode)
      → Issued c x.1
      → Issued c (release_keys (recorded d) x ks).1
  unfolding release_keys
  release_keys-grows c x [] h = h
  release_keys-grows c x (k ∷ ks) h =
      release_keys-grows c (release_key (recorded d) x (to_key k)) ks (go (to_key k))
    where
      go : (r : Result Enigo.Key InputError) → Issued c (release_key (recorded d) x r).1
      go (ok mapped) = inr h
      go (err e) = h

  release_buttons-grows :
      (c : Enigo.Call) (x : S × List Enigo.Call) (bs : List MouseButton)
      → Issued c x.1
      → Issued c (release_buttons (recorded d) x bs).1
  unfolding release_buttons
  release_buttons-grows c x [] h = h
  release_buttons-grows c x (b ∷ bs) h =
      release_buttons-grows c ((recorded d).call x (Enigo.button (to_button b) Enigo.release)).0 bs
        (inr h)

  release_keys-issues :
      (k : KeyCode) (mapped : Enigo.Key) (x : S × List Enigo.Call) (ks : List KeyCode)
      → to_key k ≡ ok mapped
      → held key_beq k ks ≡ true
      → Issued (Enigo.key mapped Enigo.release) (release_keys (recorded d) x ks).1
  unfolding release_keys
  release_keys-issues k mapped x [] m h = absurd (cc)
  release_keys-issues k mapped x (j ∷ ks) m h = elim (Bool-cases (key_beq j k)) [
    | inl same ↦ release_keys-grows _ _ ks (rw (key_beq_eq j k same, m) (inl refl))
    | inr other ↦
        release_keys-issues k mapped (release_key (recorded d) x (to_key j)) ks m (rw other at h)
  ]

  release_buttons-issues :
      (b : MouseButton) (x : S × List Enigo.Call) (bs : List MouseButton)
      → held button_beq b bs ≡ true
      → Issued (Enigo.button (to_button b) Enigo.release) (release_buttons (recorded d) x bs).1
  unfolding release_buttons
  release_buttons-issues b x [] h = absurd (cc)
  release_buttons-issues b x (c ∷ bs) h = elim (Bool-cases (button_beq c b)) [
    | inl same ↦ release_buttons-grows _ _ bs (rw (button_beq_eq c b same) (inl refl))
    | inr other ↦
        release_buttons-issues b ((recorded d).call x (Enigo.button (to_button c) Enigo.release)).0
          bs (rw other at h)
  ]

  pub release_all-key :
      (i : EnigoInjector (S × List Enigo.Call)) (k : KeyCode) (mapped : Enigo.Key)
      → to_key k ≡ ok mapped
      → held key_beq k i.held_keys ≡ true
      → Issued (Enigo.key mapped Enigo.release) (release_all (recorded d) i).enigo.1
  unfolding release_all
  release_all-key i k mapped m h =
      release_buttons-grows _ _ i.held_buttons
        (release_keys-issues k mapped i.enigo i.held_keys m h)

  pub release_all-button :
      (i : EnigoInjector (S × List Enigo.Call)) (b : MouseButton)
      → held button_beq b i.held_buttons ≡ true
      → Issued (Enigo.button (to_button b) Enigo.release) (release_all (recorded d) i).enigo.1
  unfolding release_all
  release_all-button i b h = release_buttons-issues b _ i.held_buttons h
