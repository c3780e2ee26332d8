-- ===== src/Examples/Servers.antt =====
-- The rendezvous store and the server at concrete inputs.
use controlis.Prelude.{
  ℕ, ◌+◌, ◌*◌, ◌%◌, ◌^◌, ◌≤◌, ◌≡◌, ◌≢◌, refl, none, some, List, [], ◌∷◌, arith, codes, ok, err, All,
  lookup, insert, retain,
}
use controlis.Net.{v4, secs}
use controlis.Rendezvous
use controlis.Rendezvous.{
  EndpointDescriptor, RegisterRequest, UnregisterRequest, not_found, already_registered,
  max_ttl_secs, purge_expired_at, register_at, unregister_at, lookup_at, session_id_mask, ttl,
}
use controlis.Rendezvous.Invariant.{
  IsValid, Request, registers, unregisters, looks_up, counts, step, step-IsValid, run, Ordered,
  last_time, new-IsValid, run-IsValid,
}
use controlis.Rendezvous.Lease.{lookup-run_unrefreshed, refusal, lookup-step_refused}
use controlis.Rendezvous.Ownership.{Foreign, lookup-run-register}
use controlis.Server.{
  AppState, RateLimiter, check, new_state, window, register, check_rate_limit, lookup_session,
}
use controlis.Server.Limits.{passed, passed-le}
use controlis.Server.Handlers.{lookup_session-register}

abbrev endpoint : EndpointDescriptor
endpoint = record { endpoint_id = codes "e1"; relay_url = none; direct_addrs = [] }

abbrev offer : RegisterRequest
offer = record { session_id = 7; endpoint = endpoint; ttl_secs = some 60 }

abbrev token : List ℕ
token = 1 ∷ 1 ∷ []

abbrev thief : UnregisterRequest
thief = record { session_id = 7; token = (2 ∷ 1 ∷ []) }

abbrev meanwhile : List (ℕ × Request)
meanwhile = (5, unregisters thief) ∷ (9, counts) ∷ []

free_in_new : (lookup_at Rendezvous.new 7 0).1 ≡ err not_found
unfolding lookup_at purge_expired_at retain lookup
free_in_new = refl

thief-Foreign : offer.session_id ≡ 7 → (2 ∷ 1 ∷ []) ≢ token
thief-Foreign e h = cc

meanwhile-Foreign : All (λ c. Foreign 7 token c.1) meanwhile
meanwhile-Foreign = (thief-Foreign, (tt, tt))

meanwhile-Ordered : Ordered 0 (secs 30) meanwhile
meanwhile-Ordered = (omega arith, (omega arith, omega arith))

lookup-run-register_example :
    (lookup_at (run (register_at Rendezvous.new offer token 0 1000).0 meanwhile) 7 (secs 30)).1
    ≡ ok (record { endpoint = endpoint; expires_at_unix = (1000 + ttl (some 60)) % 2 ^ 64 })
lookup-run-register_example =
    lookup-run-register Rendezvous.new offer token 0 1000 (secs 30) meanwhile (new-IsValid 0)
      free_in_new meanwhile-Ordered meanwhile-Foreign (omega arith)

lookup-run_unrefreshed_example :
    (lookup_at
      (run
        (register_at Rendezvous.new offer token 0 1000).0
        ((3, looks_up 7) ∷ (secs 119, looks_up 7) ∷ []))
      7
      (secs 120)).1
    ≡ err not_found
lookup-run_unrefreshed_example =
    lookup-run_unrefreshed (register_at Rendezvous.new offer token 0 1000).0 0 (secs 120) 7
      ((3, looks_up 7) ∷ (secs 119, looks_up 7) ∷ [])
      (unfold step in
        step-IsValid Rendezvous.new 0 (registers offer token 1000) (omega arith) (new-IsValid 0))
      (omega arith, (omega arith, omega arith)) (tt, (tt, tt)) (omega arith)

lookup-step_refused_example :
    (lookup_at (step Rendezvous.new (0, unregisters thief)) 7 5).1
    ≡ (lookup_at Rendezvous.new 7 5).1
unfolding refusal unregister_at purge_expired_at retain lookup
lookup-step_refused_example =
    lookup-step_refused Rendezvous.new 0 (unregisters thief) not_found 7 5 (new-IsValid 0) refl
      (omega arith)

run-IsValid_example :
    IsValid
      (last_time 0 ((3, registers offer token 1000) ∷ []))
      (run Rendezvous.new ((3, registers offer token 1000) ∷ []))
run-IsValid_example =
    run-IsValid Rendezvous.new 0 9 ((3, registers offer token 1000) ∷ []) (omega arith, omega arith)
      (new-IsValid 0)

abbrev no_buckets : RateLimiter
no_buckets = record { buckets = [] }

passed-le_example :
    passed no_buckets (v4 5) 2 ((1, v4 5) ∷ (2, v4 9) ∷ (3, v4 5) ∷ (4, v4 5) ∷ []) * window + 2 * 0
    ≤ 2 * (secs 30 + window)
unfolding lookup
passed-le_example =
    passed-le no_buckets (v4 5) 2 0 (secs 30) ((1, v4 5) ∷ (2, v4 9) ∷ (3, v4 5) ∷ (4, v4 5) ∷ [])
      (omega arith) (omega arith)
      (omega arith, (omega arith, (omega arith, (omega arith, omega arith)))) tt refl

v4_other : v4 9 ≢ v4 5
v4_other e = cc

abbrev after_offer : AppState
after_offer = (register (new_state 60) (v4 9) offer token 0 1000).0

lookup_session-register_example :
    (lookup_session after_offer (v4 5) 7 (secs 30)).1
    ≡ ok (record { endpoint = endpoint; expires_at_unix = (1000 + ttl (some 60)) % 2 ^ 64 })
unfolding new_state check register check_rate_limit retain lookup insert
lookup_session-register_example =
    lookup_session-register (new_state 60) (v4 9) (v4 5) offer token 0 1000 (secs 30)
      (new-IsValid 0) free_in_new (omega arith) refl refl (omega arith) (omega arith)
