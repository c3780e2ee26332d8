-- ===== src/Session/Injection.antt =====
-- crates/session-host/src/session.rs: the thread that injects input, from the actions that the
-- control loop sends it up to the end of the session.
use controlis.Prelude.{
  ℕ, ◌≡◌, ◌≢◌, refl, sym, ap, true, Option, none, some, List, [], ◌∷◌, arith, Result, ok, err,
  Bool-cases, inl, inr, All, nat_eq, nat_beq_iff, ◌∙◌,
}
use controlis.Protocol.Message.{ℤ, MouseButton, PointerAction, press, release, KeyCode}
use controlis.Input.Enigo
use controlis.Input.Enigo.{Desktop}
use controlis.Input.{
  key_beq, held, let_go, to_key, to_button, to_direction, EnigoInjector, InputError, Injected,
  move_pointer, mouse_button, mouse_wheel, key, text, release_all, answered, tracked_button,
  tracked_key, key_of, scrolled, is_zero, hold, negate, perform, key_index,
}
use controlis.Input.Held.{recorded, Issued, release_all-key, key_beq_eq}

-- `wheel` holds the deltas as `mouse_wheel` rounds them to an i32.
pub data InputAction : Type 0 where
  move : ℤ → ℤ → InputAction
  button : MouseButton → PointerAction → InputAction
  wheel : ℤ → ℤ → InputAction
  key_action : KeyCode → PointerAction → InputAction
  text_action : List ℕ → InputAction

module _ {S : Type 0} (d : Desktop S) where
  unfoldable pub apply_input : EnigoInjector S → InputAction → Injected S
  apply_input i (move x y) = move_pointer d i x y
  apply_input i (button b a) = mouse_button d i b a
  apply_input i (wheel x y) = mouse_wheel d i x y
  apply_input i (key_action k a) = key d i k a
  apply_input i (text_action t) = text d i t

  -- The loop of `spawn_injection`, which goes on after an error.
  unfoldable pub inject_all : EnigoInjector S → List InputAction → EnigoInjector S
  inject_all i [] = i
  inject_all i (a ∷ rest) = inject_all (apply_input i a).0 rest

  -- `spawn_injection` on what the factory gives, up to the end of the thread; the events of errors are
  -- left out.
  unfoldable pub spawn_injection :
      Result (EnigoInjector S) (List ℕ) → List InputAction → Option (EnigoInjector S)
  unfolding inject_all release_all
  spawn_injection (err e) actions = none
  spawn_injection (ok i) actions = some (release_all d (inject_all i actions))

  perform-keys :
      (i : EnigoInjector S) (r : S × Result (Unit {0}) (List ℕ))
      → (answered d i r).0.held_keys ≡ i.held_keys
  perform-keys i (s, ok _) = refl
  perform-keys i (s, err e) = refl

  tracked_button-keys :
      (b : MouseButton) (a : PointerAction) (x : Injected S)
      → (tracked_button d b a x).0.held_keys ≡ x.0.held_keys
  tracked_button-keys b a (i, ok _) = refl
  tracked_button-keys b a (i, err e) = refl

  scrolled-keys :
      (x : Injected S) (steps : ℤ) (axis : Enigo.Axis)
      → (scrolled d x steps axis).0.held_keys ≡ x.0.held_keys
  scrolled-keys (i, err e) steps axis = refl
  scrolled-keys (i, ok _) steps axis = elim (Bool-cases (is_zero steps)) [
    | inl zero ↦ rw zero refl
    | inr other ↦ rw other (perform-keys i (d.call i.enigo (Enigo.scroll steps axis)))
  ]

  hold-held :
      (j k : KeyCode) (ks : List KeyCode)
      → held key_beq k ks ≡ true
      → held key_beq k (hold key_beq j ks) ≡ true
  hold-held j k ks h = ground (arith, h)

  let_go-held :
      (j k : KeyCode) (ks : List KeyCode)
      → j ≢ k
      → held key_beq k ks ≡ true
      → held key_beq k (let_go key_beq j ks) ≡ true
  let_go-held j k [] n h = h
  let_go-held j k (x ∷ ks) n h = elim (Bool-cases (key_beq x j)) [
    | inl same ↦ rw same (elim (Bool-cases (key_beq x k)) [
      | inl too ↦ absurd (n (sym (key_beq_eq x j same) ∙ key_beq_eq x k too))
      | inr other ↦ let_go-held j k ks n (rw other at h)
    ])
    | inr apart ↦ rw apart (elim (Bool-cases (key_beq x k)) [
      | inl here ↦ rw here refl
      | inr other ↦ rw other (let_go-held j k ks n (rw other at h))
    ])
  ]

  tracked_key-held :
      (j k : KeyCode) (a : PointerAction) (x : Injected S)
      → key_action j a ≢ key_action k release
      → held key_beq k x.0.held_keys ≡ true
      → held key_beq k (tracked_key d j a x).0.held_keys ≡ true
  tracked_key-held j k press (i, ok _) n h = hold-held j k i.held_keys h
  tracked_key-held j k release (i, ok _) n h =
      let_go-held j k i.held_keys (λ e. n (ap (λ k. key_action k release) e)) h
  tracked_key-held j k a (i, err e) n h = h

  key-held :
      (i : EnigoInjector S) (j k : KeyCode) (a : PointerAction) (r : Result Enigo.Key InputError)
      → key_action j a ≢ key_action k release
      → held key_beq k i.held_keys ≡ true
      → held key_beq k (key_of d i j a r).0.held_keys ≡ true
  key-held i j k a (err e) n h = h
  key-held i j k a (ok mapped) n h =
      tracked_key-held j k a (perform d i (Enigo.key mapped (to_direction a))) n
        (rw (perform-keys i (d.call i.enigo (Enigo.key mapped (to_direction a)))) h)

  apply_input-held :
      (i : EnigoInjector S) (k : KeyCode) (a : InputAction)
      → a ≢ key_action k release
      → held key_beq k i.held_keys ≡ true
      → held key_beq k (apply_input i a).0.held_keys ≡ true
  unfolding apply_input move_pointer mouse_button mouse_wheel key text
  apply_input-held i k (move x y) n h =
      rw (perform-keys i (d.call i.enigo (Enigo.move_mouse x y))) h
  apply_input-held i k (button b a) n h =
      rw
        (
          tracked_button-keys b a (perform d i (Enigo.button (to_button b) (to_direction a))),
          perform-keys i (d.call i.enigo (Enigo.button (to_button b) (to_direction a))),
        )
        h
  apply_input-held i k (wheel x y) n h =
      rw
        (
          scrolled-keys (scrolled d (i, ok tt) x Enigo.horizontal) (negate y) Enigo.vertical,
          scrolled-keys (i, ok tt) x Enigo.horizontal,
        )
        h
  apply_input-held i k (key_action j a) n h = key-held i j k a (to_key j) n h
  apply_input-held i k (text_action t) n h = rw (perform-keys i (d.call i.enigo (Enigo.text t))) h

  inject_all-held :
      (i : EnigoInjector S) (k : KeyCode) (actions : List InputAction)
      → All (λ a. a ≢ key_action k release) actions
      → held key_beq k i.held_keys ≡ true
      → held key_beq k (inject_all i actions).held_keys ≡ true
  unfolding inject_all
  inject_all-held i k [] n h = h
  inject_all-held i k (a ∷ rest) n h =
      inject_all-held (apply_input i a).0 k rest n.1 (apply_input-held i k a n.0 h)

  hold_self : (k : KeyCode) (ks : List KeyCode) → held key_beq k (hold key_beq k ks) ≡ true
  hold_self k ks = ground (
    arith,
    nat_beq_iff (key_index k).0 (key_index k).0,
    nat_beq_iff (key_index k).1 (key_index k).1,
  )

  pressed-held :
      (i : EnigoInjector S) (k : KeyCode) (mapped : Enigo.Key)
      → to_key k ≡ ok mapped
      → (apply_input i (key_action k press)).1 ≡ ok tt
      → held key_beq k (apply_input i (key_action k press)).0.held_keys ≡ true
  unfolding apply_input key
  pressed-held i k mapped m e = rw m (go (perform d i (Enigo.key mapped Enigo.press)) (rw m at e))
    where
      go :
          (x : Injected S)
          → (tracked_key d k press x).1 ≡ ok tt
          → held key_beq k (tracked_key d k press x).0.held_keys ≡ true
      go (i, ok _) e = hold_self k i.held_keys
      go (i, err e') e = absurd (cc)

  -- The injector with a desktop that keeps a list of the calls to come.
  abbrev pub listed : EnigoInjector S → EnigoInjector (S × List Enigo.Call)
  listed i = record {
    enigo = (i.enigo, []);
    held_keys = i.held_keys;
    held_buttons = i.held_buttons;
  }

-- The calls that the desktop has got from a thread that has ended, newest first.
abbrev pub calls_of : {S : Type 0} → Option (EnigoInjector (S × List Enigo.Call)) → List Enigo.Call
calls_of none = []
calls_of (some i) = i.enigo.1

module _ {S : Type 0} (d : Desktop S) where
  -- A key that the viewer pressed with success, and did not release in what it sent after that, is
  -- released on the host before the session's injection thread ends.
  pub spawn_injection-releases :
      (i : EnigoInjector S) (k : KeyCode) (mapped : Enigo.Key) (actions : List InputAction)
      → to_key k ≡ ok mapped
      → (apply_input (recorded d) (listed d i) (key_action k press)).1 ≡ ok tt
      → All (λ a. a ≢ key_action k release) actions
      → Issued
          (Enigo.key mapped Enigo.release)
          (calls_of (spawn_injection (recorded d) (ok (listed d i)) (key_action k press ∷ actions)))
  unfolding spawn_injection inject_all
  spawn_injection-releases i k mapped actions m e n =
      let pressed = (apply_input (recorded d) (listed d i) (key_action k press)).0 in
      release_all-key d (inject_all (recorded d) pressed actions) k mapped m (
        inject_all-held (recorded d) pressed k actions n
          (pressed-held (recorded d) (listed d i) k mapped m e))
