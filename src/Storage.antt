-- ===== src/Storage.antt =====
-- crates/storage/src/db.rs: the tables, and what the statements do to them. The first argument is
-- SQLite's error, if it does not carry the statement out; the time of the row is an argument too.
use controlis.Prelude.{
  ℕ, ◌+◌, ◌≡◌, Bool, Option, none, some, List, [], ◌∷◌, map, take, if◌then◌else◌, arith, Result, ok,
  err, str_eq, str_beq_iff, ◌==◌, lookup, insert, lookup-insert,
}

pub data StorageError : Type 0 where
  sqlite : List ℕ → StorageError

pub record ConnectionLog : Type 0 where
  pub peer_addr : List ℕ
  pub peer_fingerprint : Option (List ℕ)
  pub accepted : Bool
  pub detail : List ℕ

pub record KnownPeer : Type 0 where
  pub fingerprint : List ℕ
  pub nickname : List ℕ

pub record KnownHost : Type 0 where
  pub peer_key : List ℕ
  pub fingerprint : List ℕ
  pub nickname : List ℕ

pub record LogRow : Type 0 where
  pub id : ℕ
  pub ts : ℕ
  pub entry : ConnectionLog

pub record PeerRow : Type 0 where
  pub nickname : List ℕ
  pub first_seen : ℕ

pub record HostRow : Type 0 where
  pub fingerprint : List ℕ
  pub nickname : List ℕ
  pub first_seen : ℕ
  pub last_seen : ℕ

-- The log stands with its newest row first; `last_id` is what AUTOINCREMENT has given last.
pub record Store : Type 0 where
  pub connection_log : List LogRow
  pub last_id : ℕ
  pub known_peers : List (List ℕ × PeerRow)
  pub known_hosts : List (List ℕ × HostRow)

-- What a new file has in it.
abbrev pub empty : Store
empty = record { connection_log = []; last_id = 0; known_peers = []; known_hosts = [] }

abbrev done : {A : Type 0} → Option (List ℕ) → A → Result A StorageError
done none a = ok a
done (some e) a = err (sqlite e)

abbrev pub Changed : Type 0
Changed = Store × Result (Unit {0}) StorageError

unfoldable pub record_connection : Option (List ℕ) → ℕ → Store → ConnectionLog → Changed
record_connection (some e) now s log = (s, err (sqlite e))
record_connection none now s log = (
  record s {
    connection_log = record { id = s.last_id + 1; ts = now; entry = log } ∷ s.connection_log;
    last_id = s.last_id + 1;
  },
  ok tt,
)

abbrev entry_of : LogRow → ConnectionLog
entry_of row = row.entry

unfoldable pub recent_connections :
    Option (List ℕ) → Store → ℕ → Result (List ConnectionLog) StorageError
recent_connections fault s limit = done fault (map entry_of (take limit s.connection_log))

abbrev peer_of : List ℕ → Option PeerRow → Option KnownPeer
peer_of fingerprint none = none
peer_of fingerprint (some row) =
    some (record { fingerprint = fingerprint; nickname = row.nickname })

unfoldable pub known_peer :
    Option (List ℕ) → Store → List ℕ → Result (Option KnownPeer) StorageError
known_peer fault s fingerprint = done fault (peer_of fingerprint (lookup fingerprint s.known_peers))

abbrev peer_row : Option PeerRow → KnownPeer → ℕ → PeerRow
peer_row none p now = record { nickname = p.nickname; first_seen = now }
peer_row (some row) p now = record row { nickname = p.nickname }

unfoldable pub remember_peer : Option (List ℕ) → ℕ → Store → KnownPeer → Changed
remember_peer (some e) now s p = (s, err (sqlite e))
remember_peer none now s p = (
  record s {
    known_peers =
        insert p.fingerprint (peer_row (lookup p.fingerprint s.known_peers) p now) s.known_peers;
  },
  ok tt,
)

abbrev pub host_of : List ℕ → Option HostRow → Option KnownHost
host_of key none = none
host_of key (some row) =
    some (record { peer_key = key; fingerprint = row.fingerprint; nickname = row.nickname })

unfoldable pub known_host :
    Option (List ℕ) → Store → List ℕ → Result (Option KnownHost) StorageError
known_host fault s key = done fault (host_of key (lookup key s.known_hosts))

abbrev pub host_row : Option HostRow → KnownHost → ℕ → HostRow
host_row none h now = record {
  fingerprint = h.fingerprint;
  nickname = h.nickname;
  first_seen = now;
  last_seen = now;
}
host_row (some row) h now = record row {
  fingerprint = h.fingerprint;
  nickname = h.nickname;
  last_seen = now;
}

unfoldable pub remember_host : Option (List ℕ) → ℕ → Store → KnownHost → Changed
remember_host (some e) now s h = (s, err (sqlite e))
remember_host none now s h = (
  record s {
    known_hosts =
        insert h.peer_key (host_row (lookup h.peer_key s.known_hosts) h now) s.known_hosts;
  },
  ok tt,
)

found :
    (row : Option HostRow) (h : KnownHost) (now : ℕ) (key : List ℕ) (other : Option HostRow)
    → done none (host_of key (if h.peer_key == key then some (host_row row h now) else other))
      ≡ (if h.peer_key == key then ok (some h) else ok (host_of key other))
found none h now key other = ground (arith, str_beq_iff h.peer_key key)
found (some row) h now key other = ground (arith, str_beq_iff h.peer_key key)

-- A pinned host is found under its key as it was pinned last, and no other key's pin changes.
pub known_host-remember_host :
    (now : ℕ) (s : Store) (h : KnownHost) (key : List ℕ)
    → known_host none (remember_host none now s h).0 key
      ≡ (if h.peer_key == key then ok (some h) else known_host none s key)
unfolding known_host remember_host
known_host-remember_host now s h key =
    rw
      (lookup-insert h.peer_key key (host_row (lookup h.peer_key s.known_hosts) h now)
        s.known_hosts)
      (found (lookup h.peer_key s.known_hosts) h now key (lookup key s.known_hosts))
