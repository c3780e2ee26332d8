-- ===== src/Input/Eis/Flush.antt =====
-- The queue of commands and its flush (crates/wayland-portal/src/backend/eis_input.rs).
use controlis.Prelude.{
  ℕ, nat_eq, ◌≡◌, refl, sym, ap, ◌⊎◌, ◌∙◌, Bool, true, false, ◌&&◌, Option, none, some, List, [],
  ◌∷◌, ◌++◌, arith, lookup, inl, inr,
}
use controlis.Input.Eis.{
  PointerDevice, KeyboardDevice, InputCmd, motion, button, axis, key, Request, key_state, State,
  ready, can_apply, requests, apply, offered, typed, pointed, if_some, keysym_code, flush_from,
  flush_pending, is_some, keyboard_ready,
}

pub true-false : true ≡ false → ⊥
true-false e = cc

pub and_false : (b : Bool) → (b && false) ≡ true → ⊥
and_false b e = ground (arith, e)

-- A keycode with whether it is pressed.
abbrev pub Typed : Type 0
Typed = List (ℕ × Bool)

-- The keys of a list of requests, in their order.
abbrev pub typed_keys : {F : Type 0} → List (Request F) → Typed
typed_keys [] = []
typed_keys (key_state device code pressed ∷ rest) = (code, pressed) ∷ typed_keys rest
typed_keys (_ ∷ rest) = typed_keys rest

abbrev with_code : Option ℕ → Bool → Typed → Typed
with_code none pressed rest = rest
with_code (some code) pressed rest = (code, pressed) ∷ rest

-- The keys of a list of commands by a keymap, those that the keymap has.
abbrev pub keys_by : {F : Type 0} → List (ℕ × ℕ) → List (InputCmd F) → Typed
keys_by m [] = []
keys_by m (key keysym pressed ∷ rest) = with_code (lookup keysym m) pressed (keys_by m rest)
keys_by m (_ ∷ rest) = keys_by m rest

pub append_nil : (a : Typed) → a ++ [] ≡ a
append_nil [] = refl
append_nil (x ∷ a) = ap (λ rest. x ∷ rest) (append_nil a)

pub append_assoc : (a b c : Typed) → (a ++ b) ++ c ≡ a ++ (b ++ c)
append_assoc [] b c = refl
append_assoc (x ∷ a) b c = ap (λ rest. x ∷ rest) (append_assoc a b c)

pub typed_keys-append :
    {F : Type 0} (xs ys : List (Request F)) → typed_keys (xs ++ ys) ≡ typed_keys xs ++ typed_keys ys
typed_keys-append [] ys = refl
typed_keys-append (key_state device code pressed ∷ xs) ys =
    ap (λ rest. (code, pressed) ∷ rest) (typed_keys-append xs ys)
typed_keys-append (_ ∷ xs) ys = typed_keys-append xs ys

with_code-append :
    (code : Option ℕ) (pressed : Bool) (a b : Typed)
    → with_code code pressed (a ++ b) ≡ with_code code pressed a ++ b
with_code-append none pressed a b = refl
with_code-append (some code) pressed a b = refl

pub keys_by-append :
    {F : Type 0} (m : List (ℕ × ℕ)) (cs ds : List (InputCmd F))
    → keys_by m (cs ++ ds) ≡ keys_by m cs ++ keys_by m ds
keys_by-append m [] ds = refl
keys_by-append m (key keysym pressed ∷ cs) ds =
    ap (with_code (lookup keysym m) pressed) (keys_by-append m cs ds)
    ∙ with_code-append (lookup keysym m) pressed (keys_by m cs) (keys_by m ds)
keys_by-append m (motion x y ∷ cs) ds = keys_by-append m cs ds
keys_by-append m (button code pressed ∷ cs) ds = keys_by-append m cs ds
keys_by-append m (axis dx dy ∷ cs) ds = keys_by-append m cs ds

-- A request that is no key.
pub typed_keys-other :
    {F : Type 0} (xs : List (Request F)) (r : Request F)
    → typed_keys (r ∷ []) ≡ []
    → typed_keys (xs ++ (r ∷ [])) ≡ typed_keys xs
typed_keys-other xs r other =
    typed_keys-append xs (r ∷ [])
    ∙ ap (λ rest. typed_keys xs ++ rest) other
    ∙ append_nil (typed_keys xs)

module _ {F : Type 0} (as_f32 : F → F) (m : List (ℕ × ℕ)) where
  -- The keys sent, and then those that wait.
  abbrev pub taken : State F → Typed
  taken s = typed_keys s.sent ++ keys_by m s.pending

  -- No key waits for a keyboard that is ready, and the keymap, once there is one, is this one.
  abbrev pub Idle : State F → Type 0
  Idle s =
      (ready s true ≡ true → keys_by m s.pending ≡ []) × ((s.keymap ≡ none) ⊎ (s.keymap ≡ some m))

  typed-key :
      (keymap : Option (List (ℕ × ℕ))) (keyboard : Option KeyboardDevice) (serial time keysym : ℕ)
      (pressed : Bool)
      → (is_some keymap && keyboard_ready keyboard) ≡ true
      → (keymap ≡ none) ⊎ (keymap ≡ some m)
      → typed_keys (typed as_f32 keyboard (keysym_code keymap keysym) pressed serial time)
        ≡ with_code (lookup keysym m) pressed []
  typed-key none keyboard serial time keysym pressed e known = absurd (cc)
  typed-key (some map) none serial time keysym pressed e known = absurd (cc)
  typed-key (some map) (some k) serial time keysym pressed e (inl other) = absurd (cc (other))
  typed-key (some map) (some k) serial time keysym pressed e (inr same) =
      by_code (lookup keysym map) ∙ ap (λ c. with_code c pressed []) (ap (of_map keysym) same)
    where
      by_code :
          (code : Option ℕ)
          → typed_keys (typed as_f32 (some k) code pressed serial time) ≡ with_code code pressed []
      by_code none = refl
      by_code (some code) = refl

      of_map : ℕ → Option (List (ℕ × ℕ)) → Option ℕ
      of_map keysym none = none
      of_map keysym (some map) = lookup keysym map

  maybe_sent :
      (b : Bool) (r last : Request F)
      → typed_keys (r ∷ []) ≡ []
      → typed_keys (last ∷ []) ≡ []
      → typed_keys (if_some as_f32 b r ++ (last ∷ [])) ≡ []
  maybe_sent true r last one other = typed_keys-other (r ∷ []) last other ∙ one
  maybe_sent false r last one other = other

  pointed-other :
      (p : Option PointerDevice) (c : InputCmd F) (serial time : ℕ)
      → typed_keys (pointed as_f32 p c serial time) ≡ []
  pointed-other none c serial time = refl
  pointed-other (some p) (motion x y) serial time = maybe_sent p.absolute _ _ refl refl
  pointed-other (some p) (button code pressed) serial time = maybe_sent p.has_button _ _ refl refl
  pointed-other (some p) (axis dx dy) serial time = maybe_sent p.has_scroll _ _ refl refl
  pointed-other (some p) (key keysym pressed) serial time = refl

  -- What is sent for a command whose device is ready.
  requests-keys :
      (s : State F) (c : InputCmd F) (time : ℕ)
      → can_apply s c ≡ true
      → Idle s
      → typed_keys (requests as_f32 s c time) ≡ keys_by m (c ∷ [])
  unfolding requests
  requests-keys s (key keysym pressed) time e idle =
      typed-key s.keymap s.keyboard s.last_serial time keysym pressed e idle.1
  requests-keys s (motion x y) time e idle = pointed-other s.pointer (motion x y) s.last_serial time
  requests-keys s (button code pressed) time e idle =
      pointed-other s.pointer (button code pressed) s.last_serial time
  requests-keys s (axis dx dy) time e idle = pointed-other s.pointer (axis dx dy) s.last_serial time

  -- No key, or one that the keyboard is ready for.
  waits_or :
      (s : State F) (c : InputCmd F)
      → can_apply s c ≡ true
      → Idle s
      → (keys_by m s.pending ≡ []) ⊎ (keys_by m (c ∷ []) ≡ [])
  waits_or s (key keysym pressed) e idle = inl (idle.0 e)
  waits_or s (motion x y) e idle = inr refl
  waits_or s (button code pressed) e idle = inr refl
  waits_or s (axis dx dy) e idle = inr refl

  swap : (a p x : Typed) → (p ≡ []) ⊎ (x ≡ []) → (a ++ x) ++ p ≡ (a ++ p) ++ x
  swap a [] x known = append_nil (a ++ x) ∙ ap (λ rest. rest ++ x) (sym (append_nil a))
  swap a (c ∷ p) [] known =
      ap (λ rest. rest ++ (c ∷ p)) (append_nil a) ∙ sym (append_nil (a ++ (c ∷ p)))
  swap a (c ∷ p) (d ∷ x) (inl e) = absurd (cc)
  swap a (c ∷ p) (d ∷ x) (inr e) = absurd (cc)

  queued-Idle :
      (s : State F) (c : InputCmd F)
      → can_apply s c ≡ false
      → Idle s
      → ready s true ≡ true
      → keys_by m (s.pending ++ (c ∷ [])) ≡ []
  queued-Idle s c e idle h =
      keys_by-append m s.pending (c ∷ [])
      ∙ ap (λ rest. rest ++ keys_by m (c ∷ [])) (idle.0 h)
      ∙ by_command c e
    where
      by_command : (c : InputCmd F) → can_apply s c ≡ false → keys_by m (c ∷ []) ≡ []
      by_command (key keysym pressed) e = absurd (true-false (sym h ∙ e))
      by_command (motion x y) e = refl
      by_command (button code pressed) e = refl
      by_command (axis dx dy) e = refl

  -- One command more, applied or queued.
  pub offered-taken :
      (b : Bool) (s : State F) (c : InputCmd F) (time : ℕ)
      → can_apply s c ≡ b
      → Idle s
      → (taken (offered as_f32 b s c time) ≡ taken s ++ keys_by m (c ∷ []))
        × Idle (offered as_f32 b s c time)
  unfolding apply
  offered-taken true s c time e idle = (
    ap (λ rest. rest ++ keys_by m s.pending)
          (typed_keys-append s.sent (requests as_f32 s c time)
            ∙ ap (λ rest. typed_keys s.sent ++ rest) (requests-keys s c time e idle))
        ∙ swap (typed_keys s.sent) (keys_by m s.pending) (keys_by m (c ∷ [])) (waits_or s c e idle),
    idle,
  )
  offered-taken false s c time e idle = (
    ap (λ rest. typed_keys s.sent ++ rest) (keys_by-append m s.pending (c ∷ []))
        ∙ sym (append_assoc (typed_keys s.sent) (keys_by m s.pending) (keys_by m (c ∷ []))),
    (λ h. queued-Idle s c e idle h, idle.1),
  )

  flush_from-taken :
      (s : State F) (cs : List (InputCmd F)) (time : ℕ)
      → Idle s
      → (taken (flush_from as_f32 s cs time) ≡ taken s ++ keys_by m cs)
        × Idle (flush_from as_f32 s cs time)
  unfolding flush_from
  flush_from-taken s [] time idle = (sym (append_nil (taken s)), idle)
  flush_from-taken s (c ∷ cs) time idle =
      let (one, idle_one) = offered-taken (can_apply s c) s c time refl idle in
      let (more, idle_all) =
        flush_from-taken (offered as_f32 (can_apply s c) s c time) cs time idle_one in
      (
        more
            ∙ ap (λ rest. rest ++ keys_by m cs) one
            ∙ append_assoc (taken s) (keys_by m (c ∷ [])) (keys_by m cs)
            ∙ ap (λ rest. taken s ++ rest) (sym (keys_by-append m (c ∷ []) cs)),
        idle_all,
      )

  pub flush_pending-taken :
      (s : State F) (time : ℕ)
      → (s.keymap ≡ none) ⊎ (s.keymap ≡ some m)
      → (taken (flush_pending as_f32 s time) ≡ taken s) × Idle (flush_pending as_f32 s time)
  unfolding flush_pending
  flush_pending-taken s time known =
      let (all, idle) =
        flush_from-taken (record s { pending = [] }) s.pending time (λ h. refl, known) in
      (all ∙ ap (λ rest. rest ++ keys_by m s.pending) (append_nil (typed_keys s.sent)), idle)

  -- A step that lets no key in, and makes no keyboard ready but after a flush.
  abbrev pub Keeps : State F → State F → Type 0
  Keeps s t = (taken t ≡ taken s) × Idle t
