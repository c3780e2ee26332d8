-- ===== src/Desktop/Connect.antt =====
-- apps/controlis-app/src-tauri/src/commands/viewer.rs: `connect_viewer` up to the tasks that it
-- starts, with `connect` and `connect_internet` of crates/session-viewer/src/lib.rs. What the network
-- does is a parameter.
use controlis.Prelude.{
  ℕ, Bool, Option, none, some, List, [], ◌∷◌, ◌++◌, map, if◌then◌else◌, ◌||◌, Result, ok, err,
  codes, decimal, str_beq, ok_or, ◌>>=◌, ◌>>◌,
}
use controlis.Protocol.Message.{MonitorInfo}
use controlis.Rendezvous.{EndpointDescriptor}
use controlis.Rendezvous.Client.{starts_with, ClientError, Http, Json}
use controlis.Rendezvous.Client
use controlis.Transport.Identity.{Sha256, from_str, verify_server_cert}
use controlis.Storage.{StorageError, sqlite, KnownHost, Store, known_host, remember_host}
use controlis.Desktop.Target.{
  Addrs, LanTarget, ResolvedTarget, lan_target, internet, resolve_target,
}

pub record MonitorUi : Type 0 where
  pub id : ℕ
  pub name : List ℕ
  pub width_px : ℕ
  pub height_px : ℕ
  pub is_primary : Bool

abbrev pub monitor_ui : MonitorInfo → MonitorUi
monitor_ui m = record {
  id = m.id;
  name = m.name;
  width_px = m.width_px;
  height_px = m.height_px;
  is_primary = m.is_primary;
}

pub record ViewerInfo : Type 0 where
  pub monitors : List MonitorUi
  pub fingerprint : Option (List ℕ)

-- What a `ViewerHandle` tells at once.
pub record ViewerHandle : Type 0 where
  pub monitors : List MonitorInfo
  pub fingerprint : Option (List ℕ)

-- `contains` on texts.
unfoldable pub contains : List ℕ → List ℕ → Bool
unfolding starts_with
contains [] pattern = starts_with [] pattern
contains (c ∷ cs) pattern = starts_with (c ∷ cs) pattern || contains cs pattern

-- The network: what stands at an address is a host with a certificate, which answers a code with its
-- monitors, or nothing; the texts of errors are as the crates write them. `refusal` is the text
-- of an attempt whose certificate the verifier refused with this text.
pub record Network (a : Addrs) : Type 0 where
  pub certificate : a.SocketAddr → Result (List ℕ) (List ℕ)
  pub refusal : List ℕ → List ℕ
  pub session : a.SocketAddr → List ℕ → Result (List MonitorInfo) (List ℕ)
  pub http : Http
  pub json : Json
  pub client_error_text : ClientError → List ℕ
  pub iroh_session :
      List ℕ → EndpointDescriptor → List ℕ → Result (Option (List ℕ) × List MonitorInfo) (List ℕ)

-- The parts of `AppEnv` that the command reads, and how the database answers.
pub record Environment : Type 0 where
  pub rendezvous_url : Option (List ℕ)
  pub relay_url : Option (List ℕ)
  pub opens : Option (List ℕ)
  pub reads : Option (List ℕ)
  pub writes : Option (List ℕ)
  pub now : ℕ

abbrev pub known_fingerprint : List ℕ → Result (List ℕ) (List ℕ) → Result (Option (List ℕ)) (List ℕ)
known_fingerprint key (ok f) = ok (some f)
known_fingerprint key (err e) = err (
    codes "registro de identidade do host está corrompido para "
    ++ key
    ++ codes ": "
    ++ e
    ++ codes ". Remova o registro local antes de tentar novamente.")

abbrev storage_failed : StorageError → List ℕ
storage_failed (sqlite e) = codes "falha ao consultar identidade conhecida: " ++ e

abbrev pub fingerprint_of :
    List ℕ → Result (Option KnownHost) StorageError → Result (Option (List ℕ)) (List ℕ)
fingerprint_of key (err e) = err (storage_failed e)
fingerprint_of key (ok none) = ok none
fingerprint_of key (ok (some host)) = known_fingerprint key (from_str host.fingerprint)

unfoldable pub expected_fingerprint :
    Option (List ℕ) → Store → List ℕ → Result (Option (List ℕ)) (List ℕ)
unfolding known_host from_str
expected_fingerprint fault s peer_key = fingerprint_of peer_key (known_host fault s peer_key)

abbrev iroh_changed : List ℕ
iroh_changed =
    codes
      "A identidade deste host de internet mudou desde a última conexão. A conexão foi bloqueada por segurança."

abbrev identity_of : Result (Option KnownHost) StorageError → List ℕ → Result (Unit {0}) (List ℕ)
identity_of (err e) actual = err (storage_failed e)
identity_of (ok none) actual = ok tt
identity_of (ok (some host)) actual =
    if str_beq host.fingerprint actual then ok tt else err iroh_changed

unfoldable pub expected_iroh_identity :
    Option (List ℕ) → Store → List ℕ → List ℕ → Result (Unit {0}) (List ℕ)
unfolding known_host
expected_iroh_identity fault s peer_key actual = identity_of (known_host fault s peer_key) actual

abbrev pub host_changed : List ℕ
host_changed =
    codes
      "A identidade deste host mudou desde a última conexão. A conexão foi bloqueada por segurança. Se o host foi reinstalado, remova manualmente o registro conhecido antes de tentar novamente."

unfoldable pub connect_error_text : List ℕ → List ℕ
unfolding contains
connect_error_text detail =
    if contains detail (codes "fingerprint does not match")
    then host_changed
    else codes "falha ao conectar: " ++ detail

module _ {a : Addrs} (sha : Sha256) (net : Network a) where
  abbrev pub verified :
      a.SocketAddr
      → List ℕ
      → Option (List ℕ) × Result (Unit {0}) (List ℕ)
      → Result ViewerHandle (List ℕ)
  verified addr code (seen, err e) = err (net.refusal e)
  verified addr code (seen, ok _) = elim (net.session addr code) [
    | err e ↦ err e
    | ok monitors ↦ ok (record { monitors = monitors; fingerprint = seen })
  ]

  -- `session_viewer::connect`; the fingerprint is what the verifier has left in `seen`.
  unfoldable pub connect : a.SocketAddr → List ℕ → Option (List ℕ) → Result ViewerHandle (List ℕ)
  unfolding verify_server_cert
  connect addr code expected = elim (net.certificate addr) [
    | err e ↦ err e
    | ok der ↦ verified addr code (verify_server_cert sha expected none der)
  ]

  abbrev iroh_handle :
      Result (Option (List ℕ) × List MonitorInfo) (List ℕ) → Result ViewerHandle (List ℕ)
  iroh_handle (err e) = err e
  iroh_handle (ok (none, monitors)) = ok (record { monitors = monitors; fingerprint = none })
  iroh_handle (ok (some id, monitors)) =
      ok (record { monitors = monitors; fingerprint = some (codes "iroh:" ++ id) })

  -- `session_viewer::connect_internet`
  unfoldable pub connect_internet :
      List ℕ → EndpointDescriptor → List ℕ → Result ViewerHandle (List ℕ)
  connect_internet relay_url descriptor code =
      iroh_handle (net.iroh_session relay_url descriptor code)

  -- A handle with the key and the nickname of its host.
  abbrev pub Connected : Type 0
  Connected = ViewerHandle × List ℕ × List ℕ

  -- `.map_err(connect_error_text)`
  abbrev pub explained : Result ViewerHandle (List ℕ) → Result ViewerHandle (List ℕ)
  explained (ok handle) = ok handle
  explained (err detail) = err (connect_error_text detail)

  abbrev pub named : List ℕ → List ℕ → Result ViewerHandle (List ℕ) → Result Connected (List ℕ)
  named key nickname (ok handle) = ok (handle, key, nickname)
  named key nickname (err e) = err e

  abbrev pub rendezvous_key : ℕ → List ℕ
  rendezvous_key id = codes "rendezvous:" ++ decimal id

  unfoldable pub lan_handle : Environment → Store → LanTarget a → Result ViewerHandle (List ℕ)
  unfolding expected_fingerprint connect connect_error_text
  lan_handle env s target = do
    expected ← expected_fingerprint env.reads s target.peer_key
    explained (connect target.addr target.canonical_code expected)

  abbrev prefixed : {A : Type 0} → List ℕ → Result A ClientError → Result A (List ℕ)
  prefixed front (ok x) = ok x
  prefixed front (err e) = err (front ++ net.client_error_text e)

  unfoldable pub session_handle : Environment → Store → ℕ → List ℕ → Result ViewerHandle (List ℕ)
  unfolding expected_iroh_identity connect_internet connect_error_text Client.new Client.lookup
  session_handle env s id code = do
    rendezvous_url ←
        ok_or env.rendezvous_url (codes "rendezvous_url não está configurado no config.toml")
    relay_url ← ok_or env.relay_url (codes "relay_url não está configurado no config.toml")
    client ← prefixed (codes "configuração de rendezvous inválida: ") (Client.new rendezvous_url)
    found ←
        prefixed (codes "falha ao consultar rendezvous: ")
          (Client.lookup net.http net.json client id)
    expected_iroh_identity env.reads s (rendezvous_key id)
        (codes "iroh:" ++ found.endpoint.endpoint_id)
    explained (connect_internet relay_url found.endpoint code)

  abbrev pub connect_target : Environment → Store → ResolvedTarget a → Result Connected (List ℕ)
  connect_target env s (lan_target target) =
      named target.peer_key target.nickname (lan_handle env s target)
  connect_target env s (internet id code) =
      named (rendezvous_key id) (codes "Internet " ++ decimal id) (session_handle env s id code)

  abbrev pub info_of : ViewerHandle → ViewerInfo
  info_of handle = record {
    monitors = map monitor_ui handle.monitors;
    fingerprint = handle.fingerprint;
  }

  abbrev pub told :
      ViewerHandle → Store × Result (Unit {0}) StorageError → Store × Result ViewerInfo (List ℕ)
  told handle (s, ok _) = (s, ok (info_of handle))
  told handle (s, err (sqlite e)) = (s, err (codes "falha ao gravar identidade do host: " ++ e))

  abbrev pub pinned :
      Environment
      → Store
      → ViewerHandle
      → List ℕ
      → List ℕ
      → Option (List ℕ)
      → Store × Result ViewerInfo (List ℕ)
  pinned env s handle key nickname none = (s, ok (info_of handle))
  pinned env s handle key nickname (some fingerprint) = told handle (
      remember_host env.writes env.now s
        (record { peer_key = key; fingerprint = fingerprint; nickname = nickname }))

  abbrev pub remembered :
      Environment → Store → Result Connected (List ℕ) → Store × Result ViewerInfo (List ℕ)
  remembered env s (err e) = (s, err e)
  remembered env s (ok (handle, key, nickname)) =
      pinned env s handle key nickname handle.fingerprint

  abbrev pub resolved :
      Environment → Store → Result (ResolvedTarget a) (List ℕ) → Store × Result ViewerInfo (List ℕ)
  resolved env s (err e) = (s, err e)
  resolved env s (ok target) = remembered env s (connect_target env s target)

  abbrev pub opened :
      Environment
      → Store
      → List ℕ
      → Option (List ℕ)
      → Option (List ℕ)
      → Store × Result ViewerInfo (List ℕ)
  opened env s code addr_override (some e) =
      (s, err (codes "armazenamento de confiança indisponível: " ++ e))
  opened env s code addr_override none = resolved env s (resolve_target a code addr_override)

  unfoldable pub connect_viewer :
      Environment → Store → List ℕ → Option (List ℕ) → Store × Result ViewerInfo (List ℕ)
  unfolding resolve_target lan_handle session_handle remember_host
  connect_viewer env s code addr_override = opened env s code addr_override env.opens
