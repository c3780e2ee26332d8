-- ===== src/Rendezvous/Ownership.antt =====
-- Only who holds a registration's token can change it while it runs.
use controlis.Prelude.{
  ℕ, ◌+◌, ◌≤◌, ◌<◌, ◌≡◌, ◌≢◌, ◌∙◌, ap, inl, inr, Option, none, some, List, [], ◌∷◌, arith, Distinct,
  keep, lookup, Option-cases, lookup-insert, nat_eq, nat_beq_iff, ok, err, All, lookup-remove,
  str_eq, str_beq_iff, ◌%◌, ◌^◌,
}
use controlis.Net.{secs}
use controlis.Rendezvous.{
  RegisterRequest, RefreshRequest, LookupResponse, UnregisterRequest, not_found, already_registered,
  Registration, RendezvousStore, ttl, purge_expired_at, registration, registered, register_at,
  renewal, refreshed, refresh_at, found, lookup_at, unregistered, unregister_at, len_at,
}
use controlis.Rendezvous.Invariant.{
  IsValid, purge-IsValid, step-IsValid, Request, registers, refreshes, looks_up, unregisters,
  counts, step, run, Ordered,
}
use controlis.Rendezvous.Lease.{alive, lookup_at-keep, lookup-purge}

-- A call that does not present this token for this session.
abbrev pub Foreign : ℕ → List ℕ → Request → Type 0
Foreign id token (registers q t unix) = Unit
Foreign id token (refreshes q unix) = q.session_id ≡ id → q.token ≢ token
Foreign id token (looks_up j) = Unit
Foreign id token (unregisters q) = q.session_id ≡ id → q.token ≢ token
Foreign id token counts = Unit

keep-alive :
    (now : ℕ) (o : Option Registration) (r : Registration)
    → o ≡ some r
    → now < r.expires_at
    → keep (alive now) o ≡ some r
keep-alive now none r e h = cc
keep-alive now (some q) r e h = ground arith

registered_keeps :
    (s : RendezvousStore) (q : RegisterRequest) (token : List ℕ) (now unix id : ℕ)
    (r : Registration)
    → lookup id s.entries ≡ some r
    → lookup id (registered s q token now unix (lookup q.session_id s.entries)).0.entries ≡ some r
registered_keeps s q token now unix id r e = elim (Option-cases (lookup q.session_id s.entries)) [
  | inl free ↦ rw free (
      ground (
        arith,
        lookup-insert q.session_id id (registration q token now unix) s.entries,
        nat_beq_iff q.session_id id,
      ))
  | inr (x, taken) ↦ rw taken e
]

refreshed_keeps :
    (s : RendezvousStore) (q : RefreshRequest) (now unix id : ℕ) (r : Registration)
    → (q.session_id ≡ id → q.token ≢ r.token)
    → lookup id s.entries ≡ some r
    → lookup id (refreshed s q now unix (lookup q.session_id s.entries)).0.entries ≡ some r
refreshed_keeps s q now unix id r f e = elim (Option-cases (lookup q.session_id s.entries)) [
  | inl missing ↦ rw missing e
  | inr (x, at) ↦ rw at (
      ground (
        arith,
        lookup-insert q.session_id id (renewal x q now unix) s.entries,
        nat_beq_iff q.session_id id,
        str_beq_iff x.token q.token,
      ))
]

unregistered_keeps :
    (s : RendezvousStore) (q : UnregisterRequest) (id : ℕ) (r : Registration)
    → Distinct s.entries
    → (q.session_id ≡ id → q.token ≢ r.token)
    → lookup id s.entries ≡ some r
    → lookup id (unregistered s q (lookup q.session_id s.entries)).0.entries ≡ some r
unregistered_keeps s q id r d f e = elim (Option-cases (lookup q.session_id s.entries)) [
  | inl missing ↦ rw missing e
  | inr (x, at) ↦ rw at (
      ground (
        arith,
        lookup-remove q.session_id id s.entries d,
        nat_beq_iff q.session_id id,
        str_beq_iff x.token q.token,
      ))
]

step_keeps :
    (s : RendezvousStore) (now : ℕ) (c : Request) (id : ℕ) (r : Registration)
    → IsValid now s
    → Foreign id r.token c
    → now < r.expires_at
    → lookup id s.entries ≡ some r
    → lookup id (step s (now, c)).entries ≡ some r
unfolding step register_at refresh_at lookup_at unregister_at len_at
step_keeps s now c id r v f h e = by_call c f
  where
    w : Distinct (purge_expired_at s now).entries
    w = (purge-IsValid s now (omega arith) v).distinct

    kept : lookup id (purge_expired_at s now).entries ≡ some r
    kept = lookup-purge s id now v.distinct ∙ keep-alive now (lookup id s.entries) r e h

    by_call : (c : Request) → Foreign id r.token c → lookup id (step s (now, c)).entries ≡ some r
    by_call (registers q token unix) f = registered_keeps _ q token now unix id r kept
    by_call (refreshes q unix) f = refreshed_keeps _ q now unix id r f kept
    by_call (looks_up j) f = kept
    by_call (unregisters q) f = unregistered_keeps _ q id r w f kept
    by_call counts f = kept

Ordered-le : (t now : ℕ) (cs : List (ℕ × Request)) → Ordered t now cs → t ≤ now
Ordered-le t now [] o = o
Ordered-le t now ((u, c) ∷ cs) o = omega (arith, Ordered-le u now cs o.1)

IsValid-later : (s : RendezvousStore) {t now : ℕ} → t ≤ now → IsValid t s → IsValid now s
IsValid-later s h v = record {
  distinct = v.distinct;
  lifetime = λ id r e. let old = v.lifetime id r e in omega arith;
}

run_keeps :
    (s : RendezvousStore) (t now : ℕ) (cs : List (ℕ × Request)) (id : ℕ) (r : Registration)
    → IsValid t s
    → Ordered t now cs
    → All (λ c. Foreign id r.token c.1) cs
    → now < r.expires_at
    → lookup id s.entries ≡ some r
    → (lookup_at (run s cs) id now).1 ≡ found (some r)
unfolding run
run_keeps s t now [] id r v o f h e =
    lookup_at-keep s id now v.distinct ∙ ap found (keep-alive now (lookup id s.entries) r e h)
run_keeps s t now ((u, c) ∷ cs) id r v o f h e =
    run_keeps (step s (u, c)) u now cs id r (step-IsValid s u c o.0 v) o.1 f.1 h
      (step_keeps s u c id r (IsValid-later s o.0 v) f.0 (omega (arith, Ordered-le u now cs o.1)) e)

-- The entry that a successful `register` leaves.
register_entry :
    (s : RendezvousStore) (q : RegisterRequest) (token : List ℕ) (t unix : ℕ)
    → IsValid t s
    → (lookup_at s q.session_id t).1 ≡ err not_found
    → lookup q.session_id (register_at s q token t unix).0.entries
      ≡ some (registration q token t unix)
unfolding register_at
register_entry s q token t unix v e =
    elim (Option-cases (lookup q.session_id (purge_expired_at s t).entries)) [
      | inl free ↦ rw free (
          ground (
            arith,
            lookup-insert q.session_id q.session_id (registration q token t unix)
                (purge_expired_at s t).entries,
            nat_beq_iff q.session_id q.session_id,
          ))
      | inr (x, taken) ↦ absurd (unfold lookup_at in cc (e, taken))
    ]

-- A host that registers, in a valid store, a session that is not in use is found, with the endpoint
-- that it gave, until its time is over, whatever calls other parties make in the order of the clock
-- that do not have its token.
pub lookup-run-register :
    (s : RendezvousStore) (q : RegisterRequest) (token : List ℕ) (t unix now : ℕ)
    (cs : List (ℕ × Request))
    → IsValid t s
    → (lookup_at s q.session_id t).1 ≡ err not_found
    → Ordered t now cs
    → All (λ c. Foreign q.session_id token c.1) cs
    → now < t + secs (ttl q.ttl_secs)
    → (lookup_at (run (register_at s q token t unix).0 cs) q.session_id now).1
      ≡ ok (record { endpoint = q.endpoint; expires_at_unix = (unix + ttl q.ttl_secs) % 2 ^ 64 })
lookup-run-register s q token t unix now cs v e o f h =
    run_keeps (register_at s q token t unix).0 t now cs q.session_id (registration q token t unix)
      (unfold step in step-IsValid s t (registers q token unix) (omega arith) v) o f h
      (register_entry s q token t unix v e)

register_at_taken :
    (s : RendezvousStore) (q : RegisterRequest) (token : List ℕ) (now unix : ℕ) (x : LookupResponse)
    → (lookup_at s q.session_id now).1 ≡ ok x
    → (register_at s q token now unix).1 ≡ err already_registered
unfolding register_at lookup_at
register_at_taken s q token now unix x e =
    elim (Option-cases (lookup q.session_id (purge_expired_at s now).entries)) [
      | inl free ↦ absurd (cc (e, free))
      | inr (r, taken) ↦ rw taken
    ]

-- After a host registered a session that was not in use, and until its time is over, whatever
-- calls other parties make that do not have its token, a call to register the session again is
-- answered by `already_registered`.
pub register-run-register :
    (s : RendezvousStore) (q again : RegisterRequest) (token other : List ℕ) (t unix now unix' : ℕ)
    (cs : List (ℕ × Request))
    → IsValid t s
    → (lookup_at s q.session_id t).1 ≡ err not_found
    → Ordered t now cs
    → All (λ c. Foreign q.session_id token c.1) cs
    → now < t + secs (ttl q.ttl_secs)
    → again.session_id ≡ q.session_id
    → (register_at (run (register_at s q token t unix).0 cs) again other now unix').1
      ≡ err already_registered
register-run-register s q again token other t unix now unix' cs v e o f h same =
    let after : RendezvousStore = run (register_at s q token t unix).0 cs in
    register_at_taken after again other now unix' _ (
      ap (λ (id : ℕ). (lookup_at after id now).1) same
      ∙ lookup-run-register s q token t unix now cs v e o f h)
