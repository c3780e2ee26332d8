-- ===== src/Server.antt =====
-- servers/controlis-server/src/lib.rs: the limit on requests per address and the four handlers.
-- The mutexes make a handler's locked part one step; times and tokens are arguments.
pub mod Limits
pub mod Handlers
use controlis.Prelude.{
  ℕ, ◌+◌, ◌-◌, ◌≡◌, ◌%◌, ◌^◌, Bool, true, false, Option, none, some, List, [], ◌∷◌, ltb, leb,
  if◌then◌else◌, Result, ok, err, ◌==◌, nat_eq, lookup, insert, retain,
}
use controlis.Net.{IpAddr, ip_eq, secs}
use controlis.Rendezvous.{
  RegisterRequest, RegisterResponse, RefreshRequest, LookupResponse, UnregisterRequest,
  RendezvousError, session_id_out_of_range, already_registered, not_found, token_mismatch,
  RendezvousStore, register_at, refresh_at, lookup_at, unregister_at, session_id,
}
use controlis.Rendezvous

abbrev pub window : ℕ
window = secs 60

pub record RateBucket : Type 0 where
  pub window_started : ℕ
  pub count : ℕ

pub record RateLimiter : Type 0 where
  pub buckets : List (IpAddr × RateBucket)

pub record AppState : Type 0 where
  pub store : RendezvousStore
  pub rate_limiter : RateLimiter
  pub max_requests_per_minute : ℕ

unfoldable pub new_state : ℕ → AppState
new_state max_requests = record {
  store = Rendezvous.new;
  rate_limiter = record { buckets = [] };
  max_requests_per_minute = max_requests;
}

abbrev pub recent : ℕ → RateBucket → Bool
recent now b = ltb (now - b.window_started) window

abbrev or_new : ℕ → Option RateBucket → RateBucket
or_new now none = record { window_started = now; count = 0 }
or_new now (some b) = b

-- The second look at the window's age.
abbrev restarted : ℕ → RateBucket → RateBucket
restarted now b =
    if leb window (now - b.window_started) then record { window_started = now; count = 0 } else b

-- The bucket that is stored, and whether the request goes on.
abbrev pub counted : ℕ → RateBucket → RateBucket × Bool
counted max_requests b =
    if leb max_requests b.count
    then (b, false)
    else (record { window_started = b.window_started; count = (b.count + 1) % 2 ^ 32 }, true)

unfoldable pub check : RateLimiter → IpAddr → ℕ → ℕ → RateLimiter × Bool
check l ip max_requests now =
    let buckets = retain (recent now) l.buckets in
    let r = counted max_requests (restarted now (or_new now (lookup ip buckets))) in
    if max_requests == 0 then (l, false) else (record { buckets = insert ip r.0 buckets }, r.1)

pub data ApiError : Type 0 where
  rendezvous : RendezvousError → ApiError
  rate_limited : ApiError

-- The status code of `into_response`.
abbrev pub status : ApiError → ℕ
status (rendezvous session_id_out_of_range) = 400
status (rendezvous already_registered) = 409
status (rendezvous not_found) = 404
status (rendezvous token_mismatch) = 403
status rate_limited = 429

unfoldable pub check_rate_limit : AppState → IpAddr → ℕ → AppState × Result (Unit {0}) ApiError
check_rate_limit s ip now =
    let r = check s.rate_limiter ip s.max_requests_per_minute now in
    (record s { rate_limiter = r.0 }, if r.1 then ok tt else err rate_limited)

abbrev from_rendezvous : {A : Type 0} → Result A RendezvousError → Result A ApiError
from_rendezvous (ok a) = ok a
from_rendezvous (err e) = err (rendezvous e)

abbrev Handled : Type 0 → Type 0
Handled A = AppState × Result A ApiError

-- `check_rate_limit(..)?` in front of the rest of a handler.
abbrev limited :
    {A : Type 0} → AppState × Result (Unit {0}) ApiError → (AppState → Handled A) → Handled A
limited (s, ok _) rest = rest s
limited (s, err e) rest = (s, err e)

-- The locked call on the store, whose errors `?` converts.
abbrev stored : {A : Type 0} → AppState → RendezvousStore × Result A RendezvousError → Handled A
stored s (store, r) = (record s { store = store }, from_rendezvous r)

unfoldable pub register :
    AppState → IpAddr → RegisterRequest → List ℕ → ℕ → ℕ → Handled RegisterResponse
register s ip request token now now_unix =
    limited (check_rate_limit s ip now)
      λ s. stored s (register_at s.store request token now now_unix)

unfoldable pub refresh : AppState → IpAddr → RefreshRequest → ℕ → ℕ → Handled RegisterResponse
refresh s ip request now now_unix =
    limited (check_rate_limit s ip now) λ s. stored s (refresh_at s.store request now now_unix)

abbrev looked_up : AppState → ℕ → Result ℕ RendezvousError → Handled LookupResponse
looked_up s now (err e) = (s, err (rendezvous e))
looked_up s now (ok id) = stored s (lookup_at s.store id now)

unfoldable pub lookup_session : AppState → IpAddr → ℕ → ℕ → Handled LookupResponse
lookup_session s ip id now =
    limited (check_rate_limit s ip now) λ s. looked_up s now (session_id id)

-- The handler answers 204 on success.
unfoldable pub unregister : AppState → IpAddr → UnregisterRequest → ℕ → Handled (Unit {0})
unregister s ip request now =
    limited (check_rate_limit s ip now) λ s. stored s (unregister_at s.store request now)
