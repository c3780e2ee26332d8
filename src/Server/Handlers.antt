-- ===== src/Server/Handlers.antt =====
-- What a host's registration, made through its handler, is to a viewer of another address
-- (servers/controlis-server/src/lib.rs).
use controlis.Prelude.{
  ℕ, ◌+◌, ◌%◌, ◌^◌, ◌≤◌, ◌<◌, ◌≡◌, refl, Bool, true, false, ltb, List, [], arith, ok, err,
}
use controlis.Net.{IpAddr, secs}
use controlis.Rendezvous.{
  RegisterRequest, LookupResponse, not_found, register_at, lookup_at, session_id, ttl,
  session_id_mask,
}
use controlis.Rendezvous.Invariant.{IsValid, run}
use controlis.Rendezvous.Ownership.{lookup-run-register}
use controlis.Server.{AppState, check, check_rate_limit, register, lookup_session}

abbrev pub limiter_allows : AppState → IpAddr → ℕ → Bool
limiter_allows s ip now = (check s.rate_limiter ip s.max_requests_per_minute now).1

register-store :
    (s : AppState) (ip : IpAddr) (q : RegisterRequest) (token : List ℕ) (now unix : ℕ)
    → limiter_allows s ip now ≡ true
    → (register s ip q token now unix).0.store ≡ (register_at s.store q token now unix).0
unfolding register check_rate_limit
register-store s ip q token now unix pass = rw pass refl

lookup_session-answer :
    (s : AppState) (ip : IpAddr) (id now : ℕ) (x : LookupResponse)
    → limiter_allows s ip now ≡ true
    → id ≤ session_id_mask
    → (lookup_at s.store id now).1 ≡ ok x
    → (lookup_session s ip id now).1 ≡ ok x
unfolding lookup_session check_rate_limit session_id
lookup_session-answer s ip id now x pass h e = rw (pass, small, e) refl
  where
    small : ltb session_id_mask id ≡ false
    small = ground arith

-- In a valid store, a viewer that the limiter lets through finds the endpoint of a host whose
-- registration was let through, until the registration's time is over, if the session number was
-- free and in range, and no other request came in between.
pub lookup_session-register :
    (s : AppState) (host_ip viewer_ip : IpAddr) (q : RegisterRequest) (token : List ℕ)
    (t unix now : ℕ)
    → IsValid t s.store
    → (lookup_at s.store q.session_id t).1 ≡ err not_found
    → q.session_id ≤ session_id_mask
    → limiter_allows s host_ip t ≡ true
    → limiter_allows (register s host_ip q token t unix).0 viewer_ip now ≡ true
    → t ≤ now
    → now < t + secs (ttl q.ttl_secs)
    → (lookup_session (register s host_ip q token t unix).0 viewer_ip q.session_id now).1
      ≡ ok (record { endpoint = q.endpoint; expires_at_unix = (unix + ttl q.ttl_secs) % 2 ^ 64 })
lookup_session-register s host_ip viewer_ip q token t unix now v free range host_pass viewer_pass o
      h =
    lookup_session-answer (register s host_ip q token t unix).0 viewer_ip q.session_id now _
      viewer_pass range
      (rw (register-store s host_ip q token t unix host_pass)
        (unfold run in lookup-run-register s.store q token t unix now [] v free o tt h))
