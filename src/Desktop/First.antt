-- ===== src/Desktop/First.antt =====
-- The first connection to a host of the local network, and the later ones
-- (apps/controlis-app/src-tauri/src/commands/viewer.rs).
use controlis.Prelude.{
  ℕ, ◌≡◌, ◌≢◌, ◌∙◌, ap, false, Option, none, some, List, arith, ◌>>=◌, ok, err, str_beq,
  str_beq_iff, str_eq, inl, inr, ◌⊎◌, map,
}
use controlis.Protocol.Message.{MonitorInfo}
use controlis.Transport.Identity.{Sha256, mismatch, of_der, verify_server_cert}
use controlis.Storage.{KnownHost, Store, remember_host}
use controlis.Desktop.Target.{Addrs, LanTarget, lan_target, resolve_target}
use controlis.Desktop.Connect.{
  Environment, Network, monitor_ui, ViewerHandle, connect_viewer, connect, expected_fingerprint,
  connect_error_text, named, explained, lan_handle, told, remembered, resolved, opened,
}
use controlis.Desktop.Trust.{
  pin, str_beq-false, expected_before, expected_fingerprint-pin, pin-remember_host_new, told-store,
}

module _ {a : Addrs} (sha : Sha256) (net : Network a) where
  connect-other :
      (addr : a.SocketAddr) (code f der : List ℕ)
      → net.certificate addr ≡ ok der
      → str_beq (of_der sha der) f ≡ false
      → connect sha net addr code (some f) ≡ err (net.refusal mismatch)
  unfolding connect verify_server_cert
  connect-other addr code f der here other = ground (arith, here, other)

  connect-same :
      (addr : a.SocketAddr) (code der : List ℕ) (monitors : List MonitorInfo)
      (expected : Option (List ℕ))
      → net.certificate addr ≡ ok der
      → net.session addr code ≡ ok monitors
      → (expected ≡ none) ⊎ (expected ≡ some (of_der sha der))
      → connect sha net addr code expected
        ≡ ok (record { monitors = monitors; fingerprint = some (of_der sha der) })
  unfolding connect verify_server_cert
  connect-same addr code der monitors none here session known = ground (arith, here, session)
  connect-same addr code der monitors (some f) here session (inl e) = absurd (cc)
  connect-same addr code der monitors (some f) here session (inr e) =
      ground (arith, here, session, e, str_beq_iff (of_der sha der) f)

  lan_handle-expected :
      (env : Environment) (s : Store) (target : LanTarget a) (expected : Option (List ℕ))
      → env.reads ≡ none
      → expected_fingerprint none s target.peer_key ≡ ok expected
      → lan_handle sha net env s target
        ≡ explained sha net (connect sha net target.addr target.canonical_code expected)
  unfolding lan_handle
  lan_handle-expected env s target expected reads known =
      ap (λ r. r >>= (λ x. explained sha net (connect sha net target.addr target.canonical_code x)))
        (ap (λ fault. expected_fingerprint fault s target.peer_key) reads ∙ known)

  connect_viewer-lan :
      (env : Environment) (s : Store) (code : List ℕ) (addr_override : Option (List ℕ))
      (target : LanTarget a)
      → env.opens ≡ none
      → resolve_target a code addr_override ≡ ok (lan_target target)
      → connect_viewer sha net env s code addr_override
        ≡ remembered sha net env s
            (named sha net target.peer_key target.nickname (lan_handle sha net env s target))
  unfolding connect_viewer
  connect_viewer-lan env s code addr_override target opens target_is =
      ap (opened sha net env s code addr_override) opens ∙ ap (resolved sha net env s) target_is

  -- A host of the local network that shows a certificate with another fingerprint than the pinned one
  -- is refused, whatever its session would answer, and the database stays as it was, where the
  -- database opens and can be read.
  pub connect_viewer-refuses :
      (env : Environment) (s : Store) (code : List ℕ) (addr_override : Option (List ℕ))
      (target : LanTarget a) (der shown : List ℕ)
      → env.opens ≡ none
      → env.reads ≡ none
      → resolve_target a code addr_override ≡ ok (lan_target target)
      → pin s target.peer_key ≡ some (of_der sha der)
      → net.certificate target.addr ≡ ok shown
      → of_der sha shown ≢ of_der sha der
      → connect_viewer sha net env s code addr_override
        ≡ (s, err (connect_error_text (net.refusal mismatch)))
  connect_viewer-refuses env s code addr_override target der shown opens reads target_is before here
        other =
      connect_viewer-lan env s code addr_override target opens target_is
      ∙ ap (λ r. remembered sha net env s (named sha net target.peer_key target.nickname r))
          (lan_handle-expected env s target (some (of_der sha der)) reads
              (expected_fingerprint-pin sha s target.peer_key der before)
            ∙ ap (explained sha net) (
                connect-other target.addr target.canonical_code (of_der sha der) shown here
                  (str_beq-false (of_der sha shown) (of_der sha der) other)))

  remembered-first :
      (env : Environment) (s : Store) (key nickname f : List ℕ) (monitors : List MonitorInfo)
      → env.writes ≡ none
      → ((remembered sha net env s (
            named sha net key nickname
              (ok (record { monitors = monitors; fingerprint = some f })))).1
          ≡ ok (record { monitors = map monitor_ui monitors; fingerprint = some f }))
        × (pin
              (remembered sha net env s (
                named sha net key nickname
                  (ok (record { monitors = monitors; fingerprint = some f })))).0
              key
            ≡ some f)
  unfolding remember_host
  remembered-first env s key nickname f monitors writes =
      let h : KnownHost = record { peer_key = key; fingerprint = f; nickname = nickname } in
      let handle : ViewerHandle = record { monitors = monitors; fingerprint = some f } in
      (
        ap (λ fault. (told sha net handle (remember_host fault env.now s h)).1) writes,
        ap (λ t. pin t key) (told-store sha net handle (remember_host env.writes env.now s h))
            ∙ ap (λ fault. pin (remember_host fault env.now s h).0 key) writes
            ∙ pin-remember_host_new env.now s h,
      )

  -- A connection to a host of the local network that is not known, or whose certificate is the pinned
  -- one, gives the monitors of its session and leaves its certificate's fingerprint pinned, if the
  -- database has no errors and the host takes the code.
  pub connect_viewer-first :
      (env : Environment) (s : Store) (code : List ℕ) (addr_override : Option (List ℕ))
      (target : LanTarget a) (der : List ℕ) (monitors : List MonitorInfo)
      → env.opens ≡ none
      → env.reads ≡ none
      → env.writes ≡ none
      → resolve_target a code addr_override ≡ ok (lan_target target)
      → (pin s target.peer_key ≡ none) ⊎ (pin s target.peer_key ≡ some (of_der sha der))
      → net.certificate target.addr ≡ ok der
      → net.session target.addr target.canonical_code ≡ ok monitors
      → ((connect_viewer sha net env s code addr_override).1
          ≡ ok (record { monitors = map monitor_ui monitors; fingerprint = some (of_der sha der) }))
        × (pin (connect_viewer sha net env s code addr_override).0 target.peer_key
            ≡ some (of_der sha der))
  connect_viewer-first env s code addr_override target der monitors opens reads writes target_is
        before here session =
      let (expected, known, right_one) = expected_before sha s target.peer_key der before in
      let whole =
        connect_viewer-lan env s code addr_override target opens target_is
        ∙ ap (λ r. remembered sha net env s (named sha net target.peer_key target.nickname r))
            (lan_handle-expected env s target expected reads known
              ∙ ap (explained sha net) (
                  connect-same target.addr target.canonical_code der monitors expected here session
                    right_one)) in
      let (shown, stored) =
        remembered-first env s target.peer_key target.nickname (of_der sha der) monitors writes in
      (ap (λ r. r.1) whole ∙ shown, ap (λ r. pin r.0 target.peer_key) whole ∙ stored)
