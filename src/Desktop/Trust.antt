-- ===== src/Desktop/Trust.antt =====
-- Trust on first use, over the viewer's attempts to connect
-- (apps/controlis-app/src-tauri/src/commands/viewer.rs).
use controlis.Prelude.{
  ℕ, ◌≡◌, ◌≢◌, refl, sym, ◌∙◌, ap, Bool, true, false, Option, none, some, List, ◌++◌, if◌then◌else◌,
  arith, Result, ok, err, bind_ok, decimal, codes, str_beq, str_beq_iff, ◌==◌, str_eq, lookup,
  lookup-insert, Bool-cases, Result-cases, inl, inr, ◌⊎◌,
}
use controlis.Transport.Identity.{Sha256, of_der, from_str, verify_server_cert, from_str-of_der}
use controlis.Storage.{
  StorageError, sqlite, KnownHost, Store, HostRow, host_of, host_row, known_host, remember_host,
}
use controlis.Desktop.Target.{
  Addrs, LanTarget, ResolvedTarget, lan_target, internet, resolve_target,
}
use controlis.Desktop.Connect.{
  Environment, Network, ViewerHandle, connect_viewer, connect, expected_fingerprint, named,
  explained, lan_handle, session_handle, rendezvous_key, told, pinned, remembered, resolved, opened,
  connect_target, known_fingerprint, fingerprint_of,
}

abbrev pin_of : Option HostRow → Option (List ℕ)
pin_of none = none
pin_of (some row) = some row.fingerprint

-- The fingerprint that is stored under a key.
abbrev pub pin : Store → List ℕ → Option (List ℕ)
pin s key = pin_of (lookup key s.known_hosts)

kept :
    (b : Bool) (row other : Option HostRow) (h : KnownHost) (now : ℕ) (f : List ℕ)
    → pin_of other ≡ some f
    → (b ≡ true → h.fingerprint ≡ f)
    → pin_of (if b then some (host_row row h now) else other) ≡ some f
kept true none other h now f before same = ap some (same refl)
kept true (some row) other h now f before same = ap some (same refl)
kept false row other h now f before same = before

pin_new :
    (b : Bool) (row other : Option HostRow) (h : KnownHost) (now : ℕ)
    → b ≡ true
    → pin_of (if b then some (host_row row h now) else other) ≡ some h.fingerprint
pin_new true none other h now e = refl
pin_new true (some row) other h now e = refl
pin_new false row other h now e = absurd (cc)

pub pin-remember_host_new :
    (now : ℕ) (s : Store) (h : KnownHost)
    → pin (remember_host none now s h).0 h.peer_key ≡ some h.fingerprint
unfolding remember_host
pin-remember_host_new now s h =
    rw
      (lookup-insert h.peer_key h.peer_key (host_row (lookup h.peer_key s.known_hosts) h now)
        s.known_hosts)
      (pin_new (h.peer_key == h.peer_key) (lookup h.peer_key s.known_hosts)
        (lookup h.peer_key s.known_hosts) h now ((str_beq_iff h.peer_key h.peer_key).1 refl))

pin-remember_host :
    (fault : Option (List ℕ)) (now : ℕ) (s : Store) (h : KnownHost) (key : List ℕ) (f : List ℕ)
    → pin s key ≡ some f
    → ((h.peer_key == key) ≡ true → h.fingerprint ≡ f)
    → pin (remember_host fault now s h).0 key ≡ some f
unfolding remember_host
pin-remember_host (some e) now s h key f before same = before
pin-remember_host none now s h key f before same =
    rw
      (lookup-insert h.peer_key key (host_row (lookup h.peer_key s.known_hosts) h now)
        s.known_hosts)
      (kept (h.peer_key == key) (lookup h.peer_key s.known_hosts) (lookup key s.known_hosts) h now f
        before same)

pub expected_fingerprint-pin :
    (sha : Sha256) (s : Store) (key der : List ℕ)
    → pin s key ≡ some (of_der sha der)
    → expected_fingerprint none s key ≡ ok (some (of_der sha der))
unfolding expected_fingerprint known_host
expected_fingerprint-pin sha s key der before = go (lookup key s.known_hosts) before
  where
    go :
        (row : Option HostRow)
        → pin_of row ≡ some (of_der sha der)
        → fingerprint_of key (ok (host_of key row)) ≡ ok (some (of_der sha der))
    go none e = absurd (cc)
    go (some row) e =
        ap (λ o. elim o [ none ↦ ok none | some t ↦ known_fingerprint key (from_str t) ]) e
        ∙ ap (known_fingerprint key) (from_str-of_der sha der)

pub str_beq-false : (x y : List ℕ) → x ≢ y → str_beq x y ≡ false
str_beq-false x y other = elim (Bool-cases (str_beq x y)) [
  | inl e ↦ absurd (other ((str_beq_iff x y).0 e))
  | inr e ↦ e
]

pub expected_before :
    (sha : Sha256) (s : Store) (key der : List ℕ)
    → (pin s key ≡ none) ⊎ (pin s key ≡ some (of_der sha der))
    → (expected : Option (List ℕ)) × (expected_fingerprint none s key ≡ ok expected)
      × ((expected ≡ none) ⊎ (expected ≡ some (of_der sha der)))
unfolding expected_fingerprint known_host
expected_before sha s key der (inl e) = (none, go (lookup key s.known_hosts) e, inl refl)
  where
    go :
        (row : Option HostRow)
        → pin_of row ≡ none
        → fingerprint_of key (ok (host_of key row)) ≡ ok none
    go none e = refl
    go (some row) e = absurd (cc)
expected_before sha s key der (inr e) =
    (some (of_der sha der), expected_fingerprint-pin sha s key der e, inr refl)

expected_fingerprint-is :
    (sha : Sha256) (fault : Option (List ℕ)) (s : Store) (key der : List ℕ)
    (expected : Option (List ℕ))
    → pin s key ≡ some (of_der sha der)
    → expected_fingerprint fault s key ≡ ok expected
    → expected ≡ some (of_der sha der)
unfolding expected_fingerprint known_host
expected_fingerprint-is sha (some e) s key der expected before known = absurd (cc)
expected_fingerprint-is sha none s key der expected before known =
    cc (expected_fingerprint-pin sha s key der before)

explained_ok :
    {a : Addrs} (sha : Sha256) (net : Network a) (r : Result ViewerHandle (List ℕ))
    (handle : ViewerHandle)
    → explained sha net r ≡ ok handle
    → r ≡ ok handle
explained_ok sha net (ok h) handle e = e
explained_ok sha net (err detail) handle e = absurd (cc)

module _ {a : Addrs} (sha : Sha256) (net : Network a) where
  -- With an expected fingerprint, the handle has it.
  connect-fingerprint :
      (addr : a.SocketAddr) (code f : List ℕ) (handle : ViewerHandle)
      → connect sha net addr code (some f) ≡ ok handle
      → handle.fingerprint ≡ some f
  unfolding connect verify_server_cert
  connect-fingerprint addr code f handle e = elim (Result-cases (net.certificate addr)) [
    | inl (der, c) ↦ ground (arith, e, c, str_beq_iff (of_der sha der) f)
    | inr (t, c) ↦ ground (arith, e, c)
  ]

  lan_handle-fingerprint :
      (env : Environment) (s : Store) (target : LanTarget a) (der : List ℕ) (handle : ViewerHandle)
      → pin s target.peer_key ≡ some (of_der sha der)
      → lan_handle sha net env s target ≡ ok handle
      → handle.fingerprint ≡ some (of_der sha der)
  unfolding lan_handle
  lan_handle-fingerprint env s target der handle before e =
      let (expected, known, rest) =
        bind_ok (expected_fingerprint env.reads s target.peer_key)
          (λ x. explained sha net (connect sha net target.addr target.canonical_code x)) handle e in
      let pinned_one : expected ≡ some (of_der sha der) =
        expected_fingerprint-is sha env.reads s target.peer_key der expected before known in
      connect-fingerprint target.addr target.canonical_code (of_der sha der) handle (
        ap (connect sha net target.addr target.canonical_code) (sym pinned_one)
        ∙ explained_ok sha net (connect sha net target.addr target.canonical_code expected) handle
            rest)

  pub told-store :
      (handle : ViewerHandle) (changed : Store × Result (Unit {0}) StorageError)
      → (told sha net handle changed).0 ≡ changed.0
  told-store handle (s, ok x) = refl
  told-store handle (s, err (sqlite e)) = refl

  pinned-pin :
      (env : Environment) (s : Store) (handle : ViewerHandle) (key nickname at f : List ℕ)
      (fingerprint : Option (List ℕ))
      → pin s at ≡ some f
      → ((key == at) ≡ true → fingerprint ≡ some f)
      → pin (pinned sha net env s handle key nickname fingerprint).0 at ≡ some f
  pinned-pin env s handle key nickname at f none before same = before
  pinned-pin env s handle key nickname at f (some g) before same =
      let h : KnownHost = record { peer_key = key; fingerprint = g; nickname = nickname } in
      ap (λ t. pin t at) (told-store handle (remember_host env.writes env.now s h))
      ∙ pin-remember_host env.writes env.now s h at f before (λ e. cc (same e))

  -- What is stored keeps a pin, where a handle under the same key has the pinned fingerprint.
  remembered-pin :
      (env : Environment) (s : Store) (key nickname at f : List ℕ)
      (r : Result ViewerHandle (List ℕ))
      → pin s at ≡ some f
      → ((key == at) ≡ true → (handle : ViewerHandle) → r ≡ ok handle → handle.fingerprint ≡ some f)
      → pin (remembered sha net env s (named sha net key nickname r)).0 at ≡ some f
  remembered-pin env s key nickname at f (err e) before same = before
  remembered-pin env s key nickname at f (ok handle) before same =
      pinned-pin env s handle key nickname at f handle.fingerprint before (λ e. same e handle refl)

  target-pin :
      (env : Environment) (s : Store) (target : ResolvedTarget a) (name der : List ℕ)
      → pin s (codes "lan:" ++ name) ≡ some (of_der sha der)
      → pin
          (remembered sha net env s (connect_target sha net env s target)).0
          (codes "lan:" ++ name)
        ≡ some (of_der sha der)
  target-pin env s (lan_target target) name der before =
      remembered-pin env s target.peer_key target.nickname (codes "lan:" ++ name) (of_der sha der)
        (lan_handle sha net env s target) before
        (λ e handle reached.
          lan_handle-fingerprint env s target der handle
            (ap (pin s) ((str_beq_iff target.peer_key (codes "lan:" ++ name)).0 e) ∙ before)
            reached)
  target-pin env s (internet id code) name der before =
      remembered-pin env s (rendezvous_key sha net id) (codes "Internet " ++ decimal id)
        (codes "lan:" ++ name) (of_der sha der) (session_handle sha net env s id code) before
        (λ e handle reached. absurd (cc (e)))

  resolved-pin :
      (env : Environment) (s : Store) (r : Result (ResolvedTarget a) (List ℕ)) (name der : List ℕ)
      → pin s (codes "lan:" ++ name) ≡ some (of_der sha der)
      → pin (resolved sha net env s r).0 (codes "lan:" ++ name) ≡ some (of_der sha der)
  resolved-pin env s (err e) name der before = before
  resolved-pin env s (ok target) name der before = target-pin env s target name der before

  opened-pin :
      (env : Environment) (s : Store) (code : List ℕ) (addr_override fault : Option (List ℕ))
      (name der : List ℕ)
      → pin s (codes "lan:" ++ name) ≡ some (of_der sha der)
      → pin (opened sha net env s code addr_override fault).0 (codes "lan:" ++ name)
        ≡ some (of_der sha der)
  opened-pin env s code addr_override (some e) name der before = before
  opened-pin env s code addr_override none name der before =
      resolved-pin env s (resolve_target a code addr_override) name der before

  -- The fingerprint of a certificate that is pinned for an address of the local network is never
  -- replaced by an attempt to connect: whatever code, address, certificate and errors it meets, the
  -- pin stays.
  pub pin-connect_viewer :
      (env : Environment) (s : Store) (code : List ℕ) (addr_override : Option (List ℕ))
      (name der : List ℕ)
      → pin s (codes "lan:" ++ name) ≡ some (of_der sha der)
      → pin (connect_viewer sha net env s code addr_override).0 (codes "lan:" ++ name)
        ≡ some (of_der sha der)
  unfolding connect_viewer
  pin-connect_viewer env s code addr_override name der before =
      opened-pin env s code addr_override env.opens name der before
