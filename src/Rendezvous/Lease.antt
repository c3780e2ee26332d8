-- ===== src/Rendezvous/Lease.antt =====
-- What a lookup answers: registrations end, and calls that are refused change no answer.
use controlis.Prelude.{
  ℕ, ◌+◌, ◌≤◌, ◌≡◌, ◌≢◌, refl, ◌∙◌, sym, ap, Bool, Option, none, some, List, [], ◌∷◌, arith,
  Distinct, All, lookup-insert, lookup-remove, nat_beq_iff, keep, lookup, nat_eq, ltb, Result, ok,
  err, lookup-retain, str_eq,
}
use controlis.Net.{secs}
use controlis.Rendezvous.{
  RegisterRequest, RefreshRequest, UnregisterRequest, RendezvousError, not_found, Registration,
  RendezvousStore, purge_expired_at, registration, renewal, registered, register_at, refreshed,
  refresh_at, found, lookup_at, unregistered, unregister_at, len_at, max_ttl_secs,
}
use controlis.Rendezvous.Invariant.{
  IsValid, purge-IsValid, Request, registers, refreshes, looks_up, unregisters, counts, step,
  step-IsValid, run, Ordered, last_time, run-IsValid,
}

abbrev pub alive : ℕ → Registration → Bool
alive now r = ltb now r.expires_at

-- A lookup sees the entry if it has not run out.
pub lookup_at-keep :
    (s : RendezvousStore) (id now : ℕ)
    → Distinct s.entries
    → (lookup_at s id now).1 ≡ found (keep (alive now) (lookup id s.entries))
unfolding lookup_at
lookup_at-keep s id now d = ap found (lookup-retain (alive now) id s.entries d)

pub lookup-purge :
    (s : RendezvousStore) (id now : ℕ)
    → Distinct s.entries
    → lookup id (purge_expired_at s now).entries ≡ keep (alive now) (lookup id s.entries)
unfolding purge_expired_at
lookup-purge s id now d = lookup-retain (alive now) id s.entries d

Ordered-last : (t now : ℕ) (cs : List (ℕ × Request)) → Ordered t now cs → last_time t cs ≤ now
Ordered-last t now [] o = o
Ordered-last t now ((u, c) ∷ cs) o = Ordered-last u now cs o.1

keep_expired :
    (now : ℕ) (o : Option Registration)
    → ((r : Registration) → o ≡ some r → r.expires_at ≤ now)
    → keep (alive now) o ≡ none
keep_expired now none h = refl
keep_expired now (some r) h = let over = h r refl in ground arith

-- A call that neither registers nor refreshes this session.
abbrev pub Quiet : ℕ → Request → Type 0
Quiet id (registers q token unix) = q.session_id ≢ id
Quiet id (refreshes q unix) = q.session_id ≢ id
Quiet id (looks_up j) = Unit
Quiet id (unregisters q) = Unit
Quiet id counts = Unit

registered_old :
    (s : RendezvousStore) (q : RegisterRequest) (token : List ℕ) (now unix id : ℕ)
    (o : Option Registration) (r : Registration)
    → q.session_id ≢ id
    → lookup id (registered s q token now unix o).0.entries ≡ some r
    → lookup id s.entries ≡ some r
registered_old s q token now unix id none r other e = ground (
  arith,
  lookup-insert q.session_id id (registration q token now unix) s.entries,
  nat_beq_iff q.session_id id,
)
registered_old s q token now unix id (some x) r other e = e

refreshed_old :
    (s : RendezvousStore) (q : RefreshRequest) (now unix id : ℕ) (o : Option Registration)
    (r : Registration)
    → q.session_id ≢ id
    → lookup id (refreshed s q now unix o).0.entries ≡ some r
    → lookup id s.entries ≡ some r
refreshed_old s q now unix id none r other e = e
refreshed_old s q now unix id (some x) r other e = ground (
  arith,
  lookup-insert q.session_id id (renewal x q now unix) s.entries,
  nat_beq_iff q.session_id id,
)

unregistered_old :
    (s : RendezvousStore) (q : UnregisterRequest) (id : ℕ) (o : Option Registration)
    (r : Registration)
    → Distinct s.entries
    → lookup id (unregistered s q o).0.entries ≡ some r
    → lookup id s.entries ≡ some r
unregistered_old s q id none r d e = e
unregistered_old s q id (some x) r d e =
    ground (arith, lookup-remove q.session_id id s.entries d, nat_beq_iff q.session_id id)

keep_old :
    (now : ℕ) (o : Option Registration) (r : Registration)
    → keep (alive now) o ≡ some r
    → o ≡ some r
keep_old now none r e = e
keep_old now (some x) r e = ground (arith, e)

-- A quiet call leaves no entry of the session but one that was there.
step_old :
    (s : RendezvousStore) (t now id : ℕ) (c : Request) (r : Registration)
    → IsValid t s
    → t ≤ now
    → Quiet id c
    → lookup id (step s (now, c)).entries ≡ some r
    → lookup id s.entries ≡ some r
unfolding step register_at refresh_at lookup_at unregister_at len_at
step_old s t now id c r v h quiet e =
    keep_old now (lookup id s.entries) r
      (sym (lookup-purge s id now v.distinct) ∙ by_call c quiet e)
  where
    by_call :
        (c : Request)
        → Quiet id c
        → lookup id (step s (now, c)).entries ≡ some r
        → lookup id (purge_expired_at s now).entries ≡ some r
    by_call (registers q token unix) quiet e = registered_old _ q token now unix id _ r quiet e
    by_call (refreshes q unix) quiet e = refreshed_old _ q now unix id _ r quiet e
    by_call (looks_up j) quiet e = e
    by_call (unregisters q) quiet e =
        unregistered_old _ q id _ r (purge-IsValid s now h v).distinct e
    by_call counts quiet e = e

run_old :
    (s : RendezvousStore) (t now id : ℕ) (cs : List (ℕ × Request)) (r : Registration)
    → IsValid t s
    → Ordered t now cs
    → All (λ c. Quiet id c.1) cs
    → lookup id (run s cs).entries ≡ some r
    → lookup id s.entries ≡ some r
unfolding run
run_old s t now id [] r v o quiet e = e
run_old s t now id ((u, c) ∷ cs) r v o quiet e =
    step_old s t u id c r v o.0 quiet.0
      (run_old (step s (u, c)) u now id cs r (step-IsValid s u c o.0 v) o.1 quiet.1 e)

-- A session of a valid store that is neither registered nor refreshed for two minutes is not found
-- after them, whatever else is called meanwhile in the order of the clock: lookups of it do not
-- keep it.
pub lookup-run_unrefreshed :
    (s : RendezvousStore) (t now id : ℕ) (cs : List (ℕ × Request))
    → IsValid t s
    → Ordered t now cs
    → All (λ c. Quiet id c.1) cs
    → t + secs max_ttl_secs ≤ now
    → (lookup_at (run s cs) id now).1 ≡ err not_found
lookup-run_unrefreshed s t now id cs v o quiet h =
    lookup_at-keep (run s cs) id now (run-IsValid s t now cs o v).distinct
    ∙ ap found (
        keep_expired now (lookup id (run s cs).entries)
          (λ r e. let bound = v.lifetime id r (run_old s t now id cs r v o quiet e) in omega arith))

-- The error that a call is answered with, if it is.
abbrev error_of : {A : Type 0} → Result A RendezvousError → Option RendezvousError
error_of (ok a) = none
error_of (err e) = some e

unfoldable pub refusal : RendezvousStore → ℕ × Request → Option RendezvousError
refusal s (now, registers q token unix) = error_of (register_at s q token now unix).1
refusal s (now, refreshes q unix) = error_of (refresh_at s q now unix).1
refusal s (now, looks_up id) = error_of (lookup_at s id now).1
refusal s (now, unregisters q) = error_of (unregister_at s q now).1
refusal s (now, counts) = none

registered_refused :
    (s : RendezvousStore) (q : RegisterRequest) (token : List ℕ) (now unix : ℕ)
    (o : Option Registration) (e : RendezvousError)
    → error_of (registered s q token now unix o).1 ≡ some e
    → (registered s q token now unix o).0 ≡ s
registered_refused s q token now unix none e h = cc
registered_refused s q token now unix (some r) e h = refl

refreshed_refused :
    (s : RendezvousStore) (q : RefreshRequest) (now unix : ℕ) (o : Option Registration)
    (e : RendezvousError)
    → error_of (refreshed s q now unix o).1 ≡ some e
    → (refreshed s q now unix o).0 ≡ s
refreshed_refused s q now unix none e h = refl
refreshed_refused s q now unix (some r) e h = ground arith

unregistered_refused :
    (s : RendezvousStore) (q : UnregisterRequest) (o : Option Registration) (e : RendezvousError)
    → error_of (unregistered s q o).1 ≡ some e
    → (unregistered s q o).0 ≡ s
unregistered_refused s q none e h = refl
unregistered_refused s q (some r) e h = ground arith

-- A refused call leaves the store as the purge at its start left it.
refused_purge :
    (s : RendezvousStore) (now : ℕ) (c : Request) (e : RendezvousError)
    → refusal s (now, c) ≡ some e
    → step s (now, c) ≡ purge_expired_at s now
unfolding refusal step register_at refresh_at lookup_at unregister_at len_at
refused_purge s now (registers q token unix) e h = registered_refused _ q token now unix _ e h
refused_purge s now (refreshes q unix) e h = refreshed_refused _ q now unix _ e h
refused_purge s now (looks_up id) e h = refl
refused_purge s now (unregisters q) e h = unregistered_refused _ q _ e h
refused_purge s now counts e h = refl

keep-keep :
    (now later : ℕ) (o : Option Registration)
    → now ≤ later
    → keep (alive later) (keep (alive now) o) ≡ keep (alive later) o
keep-keep now later none h = refl
keep-keep now later (some r) h = ground arith

-- A call on a valid store that is answered with an error changes no later lookup of any session.
pub lookup-step_refused :
    (s : RendezvousStore) (now : ℕ) (c : Request) (e : RendezvousError) (id later : ℕ)
    → IsValid now s
    → refusal s (now, c) ≡ some e
    → now ≤ later
    → (lookup_at (step s (now, c)) id later).1 ≡ (lookup_at s id later).1
lookup-step_refused s now c e id later v h le =
    ap (λ (x : RendezvousStore). (lookup_at x id later).1) (refused_purge s now c e h)
    ∙ lookup_at-keep (purge_expired_at s now) id later
        (purge-IsValid s now (omega arith) v).distinct
    ∙ ap (λ (o : Option Registration). found (keep (alive later) o))
        (lookup-purge s id now v.distinct)
    ∙ ap found (keep-keep now later (lookup id s.entries) le)
    ∙ sym (lookup_at-keep s id later v.distinct)
