-- ===== src/Rendezvous/Invariant.antt =====
-- The store under any history of calls: each session id stands once, and no registration
-- outlives its last renewal by more than two minutes.
use controlis.Prelude.{
  ℕ, ◌+◌, ◌≤◌, ◌≡◌, inl, inr, Option, none, some, List, [], ◌∷◌, arith, Distinct, lookup, insert,
  remove, Bool-cases, insert-Distinct, nat_eq, remove-Distinct, retain-Distinct, insert_entries,
  remove_entries, retain_entries, str_eq, ◌==◌,
}
use controlis.Net.{secs}
use controlis.Rendezvous.{
  RegisterRequest, RefreshRequest, UnregisterRequest, Registration, RendezvousStore, new, ttl,
  purge_expired_at, registered, register_at, refreshed, refresh_at, lookup_at, unregistered,
  unregister_at, len_at, max_ttl_secs,
}

pub record IsValid (now : ℕ) (s : RendezvousStore) : Type 0 where
  pub distinct : Distinct s.entries
  pub lifetime :
      (id : ℕ) (r : Registration)
      → lookup id s.entries ≡ some r
      → r.expires_at ≤ now + secs max_ttl_secs

pub new-IsValid : (now : ℕ) → IsValid now new
unfolding lookup
new-IsValid now = record { distinct = tt; lifetime = λ id r e. absurd (cc) }

pub purge-IsValid :
    (s : RendezvousStore) {t : ℕ} (now : ℕ)
    → t ≤ now
    → IsValid t s
    → IsValid now (purge_expired_at s now)
unfolding purge_expired_at
purge-IsValid s now h v = record {
  distinct = retain-Distinct _ s.entries v.distinct;
  lifetime = λ id r e.
      let old = v.lifetime id r (retain_entries _ id r s.entries v.distinct e) in omega arith;
}

ttl-le : (o : Option ℕ) → ttl o ≤ max_ttl_secs
ttl-le none = omega arith
ttl-le (some n) = omega arith

-- Writing an entry that ends in time keeps the store valid.
pub insert-IsValid :
    (s : RendezvousStore) (id now : ℕ) (r : Registration)
    → r.expires_at ≤ now + secs max_ttl_secs
    → IsValid now s
    → IsValid now (record { entries = insert id r s.entries })
insert-IsValid s id now r h v = record {
  distinct = insert-Distinct id r s.entries v.distinct;
  lifetime = λ j q e.
      insert_entries (λ x. x.expires_at ≤ now + secs max_ttl_secs) id j r q s.entries h
        (v.lifetime j) e;
}

pub remove-IsValid :
    (s : RendezvousStore) (id now : ℕ)
    → IsValid now s
    → IsValid now (record { entries = remove id s.entries })
remove-IsValid s id now v = record {
  distinct = remove-Distinct id s.entries v.distinct;
  lifetime = λ j q e. v.lifetime j q (remove_entries id j q s.entries v.distinct e);
}

-- The calls of the server on its store, with what they read from the clocks and draw.
pub data Request : Type 0 where
  registers : RegisterRequest → List ℕ → ℕ → Request
  refreshes : RefreshRequest → ℕ → Request
  looks_up : ℕ → Request
  unregisters : UnregisterRequest → Request
  counts : Request

unfoldable pub step : RendezvousStore → ℕ × Request → RendezvousStore
step s (now, registers q token now_unix) = (register_at s q token now now_unix).0
step s (now, refreshes q now_unix) = (refresh_at s q now now_unix).0
step s (now, looks_up id) = (lookup_at s id now).0
step s (now, unregisters q) = (unregister_at s q now).0
step s (now, counts) = (len_at s now).0

unfoldable pub run : RendezvousStore → List (ℕ × Request) → RendezvousStore
run s [] = s
run s (c ∷ cs) = run (step s c) cs

-- The calls come in the order of the clock, from `t` on and not after `now`.
abbrev pub Ordered : ℕ → ℕ → List (ℕ × Request) → Type 0
Ordered t now [] = t ≤ now
Ordered t now ((s, c) ∷ cs) = (t ≤ s) × Ordered s now cs

registered-IsValid :
    (s : RendezvousStore) (q : RegisterRequest) (token : List ℕ) (now unix : ℕ)
    (o : Option Registration)
    → IsValid now s
    → IsValid now (registered s q token now unix o).0
registered-IsValid s q token now unix (some r) v = v
registered-IsValid s q token now unix none v =
    insert-IsValid s q.session_id now _ (omega (arith, ttl-le q.ttl_secs)) v

refreshed-IsValid :
    (s : RendezvousStore) (q : RefreshRequest) (now unix : ℕ) (o : Option Registration)
    → IsValid now s
    → IsValid now (refreshed s q now unix o).0
refreshed-IsValid s q now unix none v = v
refreshed-IsValid s q now unix (some r) v = elim (Bool-cases (r.token == q.token)) [
  | inl same ↦ rw same (insert-IsValid s q.session_id now _ (omega (arith, ttl-le q.ttl_secs)) v)
  | inr other ↦ rw other v
]

unregistered-IsValid :
    (s : RendezvousStore) (q : UnregisterRequest) (now : ℕ) (o : Option Registration)
    → IsValid now s
    → IsValid now (unregistered s q o).0
unregistered-IsValid s q now none v = v
unregistered-IsValid s q now (some r) v = elim (Bool-cases (r.token == q.token)) [
  | inl same ↦ rw same (remove-IsValid s q.session_id now v)
  | inr other ↦ rw other v
]

pub step-IsValid :
    (s : RendezvousStore) {t : ℕ} (now : ℕ) (c : Request)
    → t ≤ now
    → IsValid t s
    → IsValid now (step s (now, c))
unfolding step register_at refresh_at lookup_at unregister_at len_at
step-IsValid s now (registers q token unix) h v =
    registered-IsValid _ q token now unix _ (purge-IsValid s now h v)
step-IsValid s now (refreshes q unix) h v =
    refreshed-IsValid _ q now unix _ (purge-IsValid s now h v)
step-IsValid s now (looks_up id) h v = purge-IsValid s now h v
step-IsValid s now (unregisters q) h v = unregistered-IsValid _ q now _ (purge-IsValid s now h v)
step-IsValid s now counts h v = purge-IsValid s now h v

-- The time of the last call.
abbrev pub last_time : ℕ → List (ℕ × Request) → ℕ
last_time t [] = t
last_time t ((s, c) ∷ cs) = last_time s cs

-- A valid store stays valid under any calls in the order of the clock: each session id stands
-- once, and no registration ends more than two minutes after the last call.
pub run-IsValid :
    (s : RendezvousStore) (t now : ℕ) (cs : List (ℕ × Request))
    → Ordered t now cs
    → IsValid t s
    → IsValid (last_time t cs) (run s cs)
unfolding run
run-IsValid s t now [] o v = v
run-IsValid s t now ((u, c) ∷ cs) o v =
    run-IsValid (step s (u, c)) u now cs o.1 (step-IsValid s u c o.0 v)
