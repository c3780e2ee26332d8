-- ===== src/Rendezvous.antt =====
-- crates/rendezvous/src/lib.rs: the store of registrations. The clocks and the random token are
-- arguments; `Instant`s are nanoseconds, Unix times seconds.
pub mod Client
pub mod Invariant
pub mod Lease
pub mod Ownership
use controlis.Prelude.{
  ℕ, ◌+◌, ◌*◌, ◌-◌, ◌/◌, ◌%◌, ◌^◌, ◌≡◌, min, Bool, true, false, not, Option, none, some, List, [],
  ◌∷◌, length, ltb, if◌then◌else◌, Result, ok, err, ◌==◌, nat_eq, str_eq, lookup, insert, remove,
  retain,
}
use controlis.Net.{secs}

abbrev pub session_id_mask : ℕ
session_id_mask = 2 ^ 48 - 1

abbrev pub default_ttl_secs : ℕ
default_ttl_secs = 60

abbrev pub max_ttl_secs : ℕ
max_ttl_secs = 120

pub record EndpointDescriptor : Type 0 where
  pub endpoint_id : List ℕ
  pub relay_url : Option (List ℕ)
  pub direct_addrs : List (List ℕ)

pub record RegisterRequest : Type 0 where
  pub session_id : ℕ
  pub endpoint : EndpointDescriptor
  pub ttl_secs : Option ℕ

pub record RegisterResponse : Type 0 where
  pub token : List ℕ
  pub expires_at_unix : ℕ

pub record RefreshRequest : Type 0 where
  pub session_id : ℕ
  pub token : List ℕ
  pub endpoint : EndpointDescriptor
  pub ttl_secs : Option ℕ

pub record LookupResponse : Type 0 where
  pub endpoint : EndpointDescriptor
  pub expires_at_unix : ℕ

pub record UnregisterRequest : Type 0 where
  pub session_id : ℕ
  pub token : List ℕ

pub data RendezvousError : Type 0 where
  session_id_out_of_range already_registered not_found token_mismatch : RendezvousError

pub record Registration : Type 0 where
  pub token : List ℕ
  pub endpoint : EndpointDescriptor
  pub expires_at : ℕ
  pub expires_at_unix : ℕ

pub record RendezvousStore : Type 0 where
  pub entries : List (ℕ × Registration)

abbrev pub new : RendezvousStore
new = record { entries = [] }

-- `SessionId::new`
unfoldable pub session_id : ℕ → Result ℕ RendezvousError
session_id id = if ltb session_id_mask id then err session_id_out_of_range else ok id

-- In seconds; `now + ttl(..)` counts nanoseconds.
abbrev pub ttl : Option ℕ → ℕ
ttl none = min default_ttl_secs max_ttl_secs
ttl (some requested) = min requested max_ttl_secs

unfoldable pub purge_expired_at : RendezvousStore → ℕ → RendezvousStore
purge_expired_at s now = record { entries = retain (λ e. ltb now e.expires_at) s.entries }

abbrev Replied : Type 0 → Type 0
Replied A = RendezvousStore × Result A RendezvousError

abbrev registration : RegisterRequest → List ℕ → ℕ → ℕ → Registration
registration request token now now_unix = record {
  token = token;
  endpoint = request.endpoint;
  expires_at = now + secs (ttl request.ttl_secs);
  expires_at_unix = (now_unix + ttl request.ttl_secs) % 2 ^ 64;
}

abbrev registered :
    RendezvousStore
    → RegisterRequest
    → List ℕ
    → ℕ
    → ℕ
    → Option Registration
    → Replied RegisterResponse
registered s request token now now_unix (some existing) = (s, err already_registered)
registered s request token now now_unix none =
    let entry = registration request token now now_unix in
    (
      record { entries = insert request.session_id entry s.entries },
      ok (record { token = token; expires_at_unix = entry.expires_at_unix }),
    )

unfoldable pub register_at :
    RendezvousStore → RegisterRequest → List ℕ → ℕ → ℕ → Replied RegisterResponse
unfolding purge_expired_at
register_at s request token now now_unix =
    let s' = purge_expired_at s now in
    registered s' request token now now_unix (lookup request.session_id s'.entries)

abbrev renewal : Registration → RefreshRequest → ℕ → ℕ → Registration
renewal existing request now now_unix = record {
  token = existing.token;
  endpoint = request.endpoint;
  expires_at = now + secs (ttl request.ttl_secs);
  expires_at_unix = (now_unix + ttl request.ttl_secs) % 2 ^ 64;
}

abbrev refreshed :
    RendezvousStore → RefreshRequest → ℕ → ℕ → Option Registration → Replied RegisterResponse
refreshed s request now now_unix none = (s, err not_found)
refreshed s request now now_unix (some existing) =
    let entry = renewal existing request now now_unix in
    if not (existing.token == request.token) then (s, err token_mismatch) else (
      record { entries = insert request.session_id entry s.entries },
      ok (record { token = existing.token; expires_at_unix = entry.expires_at_unix }),
    )

unfoldable pub refresh_at : RendezvousStore → RefreshRequest → ℕ → ℕ → Replied RegisterResponse
unfolding purge_expired_at
refresh_at s request now now_unix =
    let s' = purge_expired_at s now in
    refreshed s' request now now_unix (lookup request.session_id s'.entries)

abbrev found : Option Registration → Result LookupResponse RendezvousError
found none = err not_found
found (some existing) =
    ok (record { endpoint = existing.endpoint; expires_at_unix = existing.expires_at_unix })

unfoldable pub lookup_at : RendezvousStore → ℕ → ℕ → Replied LookupResponse
unfolding purge_expired_at
lookup_at s id now = let s' = purge_expired_at s now in (s', found (lookup id s'.entries))

abbrev unregistered : RendezvousStore → UnregisterRequest → Option Registration → Replied (Unit {0})
unregistered s request none = (s, err not_found)
unregistered s request (some existing) =
    if not (existing.token == request.token)
    then (s, err token_mismatch)
    else (record { entries = remove request.session_id s.entries }, ok tt)

-- `unregister` with the time that it reads from the clock.
unfoldable pub unregister_at : RendezvousStore → UnregisterRequest → ℕ → Replied (Unit {0})
unfolding purge_expired_at
unregister_at s request now =
    let s' = purge_expired_at s now in
    unregistered s' request (lookup request.session_id s'.entries)

unfoldable pub len_at : RendezvousStore → ℕ → RendezvousStore × ℕ
unfolding purge_expired_at
len_at s now = let s' = purge_expired_at s now in (s', length s'.entries)
