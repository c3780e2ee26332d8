-- ===== src/Desktop/Target.antt =====
-- apps/controlis-app/src-tauri/src/commands/viewer.rs: what a typed code and a manual address mean.
use controlis.Prelude.{ℕ, Option, none, some, List, [], ◌∷◌, ◌++◌, Result, ok, err, codes, decimal}
use controlis.Net.{SocketAddrV4}
use controlis.Security.ConnectCode.{
  ConnectTarget, lan, rendezvous, ConnectCode, ConnectCodeError, wrong_length, invalid_char,
  unsupported_version, rendezvous_id_out_of_range, code_chars, parse,
}
use controlis.Rendezvous.{
  RendezvousError, session_id_out_of_range, already_registered, not_found, token_mismatch,
  session_id,
}
use controlis.Rendezvous.Client.{trim}

-- `std::net::SocketAddr`: from text, to text, and from an IPv4 address.
pub record Addrs : Type 1 where
  pub SocketAddr : Type 0
  pub from_text : List ℕ → Option SocketAddr
  pub to_text : SocketAddr → List ℕ
  pub from_v4 : SocketAddrV4 → SocketAddr

-- The `Display` of the two errors.
abbrev pub code_error_text : ConnectCodeError → List ℕ
code_error_text wrong_length =
    codes "access code must have " ++ decimal code_chars ++ codes " characters"
code_error_text invalid_char = codes "access code contains an invalid character"
code_error_text unsupported_version = codes "access code was generated by a newer version"
code_error_text rendezvous_id_out_of_range = codes "rendezvous id must fit in 48 bits"

abbrev pub rendezvous_error_text : RendezvousError → List ℕ
rendezvous_error_text session_id_out_of_range = codes "session id must fit in 48 bits"
rendezvous_error_text already_registered = codes "session id is already registered"
rendezvous_error_text not_found = codes "session id is not registered"
rendezvous_error_text token_mismatch = codes "registration token does not match"

-- `addr_override.map(str::trim).filter(|s| !s.is_empty())`
abbrev non_empty : List ℕ → Option (List ℕ)
non_empty [] = none
non_empty (c ∷ cs) = some (c ∷ cs)

unfoldable pub manual_addr : Option (List ℕ) → Option (List ℕ)
unfolding trim
manual_addr none = none
manual_addr (some text) = non_empty (trim text)

module _ (a : Addrs) where
  pub record LanTarget : Type 0 where
    pub addr : a.SocketAddr
    pub canonical_code : List ℕ
    pub peer_key : List ℕ
    pub nickname : List ℕ

  -- `lan_target` and `internet` are the variants `Lan` and `Internet`.
  pub data ResolvedTarget : Type 0 where
    lan_target : LanTarget → ResolvedTarget
    internet : ℕ → List ℕ → ResolvedTarget

  abbrev pub lan_at : a.SocketAddr → ConnectCode → ResolvedTarget
  lan_at addr code = lan_target (record {
    addr = addr;
    canonical_code = code.code;
    peer_key = codes "lan:" ++ a.to_text addr;
    nickname = codes "LAN " ++ a.to_text addr;
  })

  abbrev pub at_manual : ConnectCode → Option (a.SocketAddr) → Result ResolvedTarget (List ℕ)
  at_manual code none = err (codes "Endereço manual inválido. Use IP:porta, ex. 192.168.0.10:21118")
  at_manual code (some addr) = ok (lan_at addr code)

  abbrev pub at_session : ConnectCode → Result ℕ RendezvousError → Result ResolvedTarget (List ℕ)
  at_session code (ok id) = ok (internet id code.code)
  at_session code (err e) = err (rendezvous_error_text e)

  abbrev pub target_of :
      ConnectCode → ConnectTarget → Option (List ℕ) → Result ResolvedTarget (List ℕ)
  target_of code (lan addr) none = ok (lan_at (a.from_v4 addr) code)
  target_of code (rendezvous id) none = at_session code (session_id id)
  target_of code target (some manual) = at_manual code (a.from_text manual)

  abbrev pub of_code :
      Result ConnectCode ConnectCodeError → Option (List ℕ) → Result ResolvedTarget (List ℕ)
  of_code (err e) manual = err (
      codes "Código inválido ("
      ++ code_error_text e
      ++ codes "). Confira com quem está no computador host.")
  of_code (ok code) manual = target_of code code.target manual

  unfoldable pub resolve_target : List ℕ → Option (List ℕ) → Result ResolvedTarget (List ℕ)
  unfolding trim parse manual_addr
  resolve_target code addr_override = of_code (parse (trim code)) (manual_addr addr_override)
