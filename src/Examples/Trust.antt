-- ===== src/Examples/Trust.antt =====
-- The viewer's window at concrete inputs: a code, and the first and the later connections to its host.
use controlis.Prelude.{
  ℕ, zero, suc, ◌%◌, ◌<◌, ◌≡◌, ◌≢◌, refl, ap, inl, none, some, List, [], ◌∷◌, ◌++◌, map, length,
  arith, codes, ok, err, All, lookup,
}
use controlis.Net.{SocketAddrV4}
use controlis.Rendezvous.Client.{Http, Json}
use controlis.Security.ConnectCode.{generate}
use controlis.Transport.Identity.{Sha256, of_der, mismatch, join, hex_char}
use controlis.Storage.{Store, empty}
use controlis.Desktop.Target.{Addrs, LanTarget, lan_target, lan_at, resolve_target}
use controlis.Desktop.Resolve.{resolve_target-generate}
use controlis.Desktop.Connect.{Environment, Network, monitor_ui, connect_viewer, connect_error_text}
use controlis.Desktop.Trust.{pin, pin-connect_viewer}
use controlis.Desktop.First.{connect_viewer-refuses, connect_viewer-first}
use controlis.Examples.Codes.{lan_addr}
use controlis.Examples.Sessions.{screens}

abbrev pub noughts : ℕ → List ℕ
noughts zero = []
noughts (suc n) = 0 ∷ noughts n

-- 32 bytes, of which the first is that of the text.
abbrev first_byte : List ℕ → List ℕ
first_byte [] = noughts 32
first_byte (b ∷ bs) = b % 256 ∷ noughts 31

pub length-first_byte : (der : List ℕ) → length (first_byte der) ≡ 32
length-first_byte [] = refl
length-first_byte (b ∷ bs) = refl

pub noughts-small : (n : ℕ) → All (λ b. b < 256) (noughts n)
noughts-small zero = tt
noughts-small (suc n) = (omega arith, noughts-small n)

pub first_byte-small : (der : List ℕ) → All (λ b. b < 256) (first_byte der)
first_byte-small [] = noughts-small 32
first_byte-small (b ∷ bs) = (omega arith, noughts-small 31)

abbrev pub sha : Sha256
sha = record {
  digest = first_byte;
  length-digest = length-first_byte;
  digest-IsByte = first_byte-small;
}

abbrev pub addrs : Addrs
addrs = record {
  SocketAddr = SocketAddrV4;
  from_text = λ text. none;
  to_text = λ addr. codes "host";
  from_v4 = λ addr. addr;
}

abbrev pub no_http : Http
no_http = record { get = λ url. err (codes "offline"); post = λ url body. err (codes "offline") }

abbrev pub no_json : Json
no_json = record {
  register_json = λ r. [];
  refresh_json = λ r. [];
  unregister_json = λ r. [];
  read_registered = λ r. err (codes "no JSON");
  read_found = λ r. err (codes "no JSON");
}

-- One host, with this certificate, which takes every code.
abbrev pub network : List ℕ → Network addrs
network der = record {
  certificate = λ addr. ok der;
  refusal = λ text. text;
  session = λ addr code. ok screens;
  http = no_http;
  json = no_json;
  client_error_text = λ e. codes "rendezvous";
  iroh_session = λ relay endpoint code. err (codes "offline");
}

abbrev pub environment : Environment
environment = record {
  rendezvous_url = none;
  relay_url = none;
  opens = none;
  reads = none;
  writes = none;
  now = 1_700_000_000;
}

abbrev host_key : List ℕ
host_key = codes "lan:" ++ codes "host"

abbrev knows : List ℕ → Store
knows der = record empty {
  known_hosts =
      (
        host_key,
        record {
          fingerprint = of_der sha der;
          nickname = codes "office";
          first_seen = 1;
          last_seen = 1;
        },
      )
      ∷ [];
}

abbrev typed : List ℕ
typed = (generate lan_addr 12345).code

abbrev target : LanTarget addrs
target = record {
  addr = lan_addr;
  canonical_code = typed;
  peer_key = host_key;
  nickname = codes "LAN " ++ codes "host";
}

resolve_target-generate_example :
    resolve_target addrs (generate lan_addr 12345).code none
    ≡ ok (lan_at addrs lan_addr (generate lan_addr 12345))
resolve_target-generate_example =
    resolve_target-generate addrs lan_addr 12345 (omega arith, omega arith) (omega arith)

reaches : resolve_target addrs typed none ≡ ok (lan_target target)
reaches = resolve_target-generate addrs lan_addr 12345 (omega arith, omega arith) (omega arith)

known : (der : List ℕ) → pin (knows der) host_key ≡ some (of_der sha der)
unfolding lookup
known der = refl

pin-connect_viewer_example :
    pin (connect_viewer sha (network (2 ∷ [])) environment (knows (1 ∷ [])) typed none).0 host_key
    ≡ some (of_der sha (1 ∷ []))
pin-connect_viewer_example =
    pin-connect_viewer sha (network (2 ∷ [])) environment (knows (1 ∷ [])) typed none (codes "host")
      (1 ∷ []) (known (1 ∷ []))

abbrev second : List ℕ → ℕ
second (a ∷ b ∷ bs) = b
second _ = 0

two_certificates : of_der sha (2 ∷ []) ≢ of_der sha (1 ∷ [])
unfolding of_der join hex_char
two_certificates e = let apart : b'2' ≡ b'1' = ap second e in omega (arith, apart)

connect_viewer-refuses_example :
    connect_viewer sha (network (2 ∷ [])) environment (knows (1 ∷ [])) typed none
    ≡ (knows (1 ∷ []), err (connect_error_text mismatch))
connect_viewer-refuses_example =
    connect_viewer-refuses sha (network (2 ∷ [])) environment (knows (1 ∷ [])) typed none target
      (1 ∷ []) (2 ∷ []) refl refl reaches (known (1 ∷ [])) refl two_certificates

unknown : pin empty host_key ≡ none
unfolding lookup
unknown = refl

connect_viewer-first_example :
    ((connect_viewer sha (network (1 ∷ [])) environment empty typed none).1
      ≡ ok (record { monitors = map monitor_ui screens; fingerprint = some (of_der sha (1 ∷ [])) }))
    × (pin (connect_viewer sha (network (1 ∷ [])) environment empty typed none).0 host_key
        ≡ some (of_der sha (1 ∷ [])))
connect_viewer-first_example =
    connect_viewer-first sha (network (1 ∷ [])) environment empty typed none target (1 ∷ []) screens
      refl refl refl reaches (inl unknown) refl refl
