-- ===== src/Security/RateLimit/Runs.antt =====
-- Histories of calls on one guard: what `check` answers after them.
use controlis.Prelude.{
  ℕ, ◌≤◌, ◌<◌, ◌≡◌, ◌≢◌, refl, ◌∙◌, sym, ap, Option, none, some, List, [], ◌∷◌, arith, All,
  Distinct, keep, lookup, lookup-insert, lookup-remove,
}
use controlis.Net.{IpAddr, ip_eq}
use controlis.Security.RateLimit.{
  blocked, Record, BruteForceGuard, new, stays, expire, decide, check, fail_once, or_fresh,
  record_failure, record_success, max_block, until_decision,
}
use controlis.Security.RateLimit.Invariant.{
  RecordOk, IsValid, lookup-expire, expire-IsValid, check-IsValid, record_failure-IsValid,
  record_success-IsValid, IsValid-later,
}

-- The three public methods as calls, each at its time. A success carries a time only to order it.
pub data Call : Type 0 where
  checks fails succeeds : IpAddr → Call

unfoldable pub step : BruteForceGuard → ℕ × Call → BruteForceGuard
step g (now, checks ip) = (check g ip now).0
step g (now, fails ip) = record_failure g ip now
step g (now, succeeds ip) = record_success g ip

unfoldable pub run : BruteForceGuard → List (ℕ × Call) → BruteForceGuard
run g [] = g
run g (c ∷ cs) = run (step g c) cs

-- The calls come in the order of the clock, from `t` on and not after `now`.
abbrev pub Ordered : ℕ → ℕ → List (ℕ × Call) → Type 0
Ordered t now [] = t ≤ now
Ordered t now ((s, c) ∷ cs) = (t ≤ s) × Ordered s now cs

pub Ordered-le : (t now : ℕ) (cs : List (ℕ × Call)) → Ordered t now cs → t ≤ now
Ordered-le t now [] o = o
Ordered-le t now ((s, c) ∷ cs) o = omega (arith, Ordered-le s now cs o.1)

step-IsValid :
    (g : BruteForceGuard) {t : ℕ} (s : ℕ) (c : Call)
    → t ≤ s
    → IsValid t g
    → IsValid s (step g (s, c))
unfolding step
step-IsValid g s (checks ip) h v = check-IsValid g ip s h v
step-IsValid g s (fails ip) h v = record_failure-IsValid g ip s h v
step-IsValid g s (succeeds ip) h v =
    IsValid-later (record_success g ip) h (record_success-IsValid g ip v)

pub run-IsValid :
    (g : BruteForceGuard) (t now : ℕ) (cs : List (ℕ × Call))
    → Ordered t now cs
    → IsValid t g
    → IsValid now (run g cs)
unfolding run
run-IsValid g t now [] o v = IsValid-later g o v
run-IsValid g t now ((s, c) ∷ cs) o v =
    run-IsValid (step g (s, c)) s now cs o.1 (step-IsValid g s c o.0 v)

lookup_nil : (ip : IpAddr) (r : Record) → lookup ip new.records ≢ some r
unfolding lookup
lookup_nil ip r e = cc

pub new-IsValid : IsValid 0 new
new-IsValid = record { distinct = tt; entries = λ ip r e. absurd (lookup_nil ip r e) }

decide_bounds :
    (now wait : ℕ) (o : Option Record)
    → ((r : Record) → o ≡ some r → RecordOk now r)
    → decide now o ≡ blocked wait
    → (0 < wait) × (wait ≤ max_block)
decide_bounds now wait none v e = cc
decide_bounds now wait (some r) v e = go r.blocked_until refl e
  where
    ok : RecordOk now r
    ok = v r refl

    go :
        (b : Option ℕ)
        → r.blocked_until ≡ b
        → until_decision now b ≡ blocked wait
        → (0 < wait) × (wait ≤ max_block)
    go none h d = cc
    go (some u) h d = ground (arith, ok.window u h, ok.past)

-- Whatever a new guard was called with before, in the order of the clock, a blocked source is told
-- to wait for more than nothing and for at most fifteen minutes.
pub check-run_bounds :
    (ip : IpAddr) (now wait : ℕ) (cs : List (ℕ × Call))
    → Ordered 0 now cs
    → (check (run new cs) ip now).1 ≡ blocked wait
    → (0 < wait) × (wait ≤ max_block)
unfolding check
check-run_bounds ip now wait cs o e =
    let v = run-IsValid new 0 now cs o new-IsValid in
    let w : IsValid now (expire (run new cs) now) =
      expire-IsValid (run new cs) now (omega arith) v in
    decide_bounds now wait _ (w.entries ip) e

abbrev pub source : Call → IpAddr
source (checks ip) = ip
source (fails ip) = ip
source (succeeds ip) = ip

check-keep :
    (g : BruteForceGuard) (ip : IpAddr) (now : ℕ)
    → Distinct g.records
    → (check g ip now).1 ≡ decide now (keep (stays now) (lookup ip g.records))
unfolding check
check-keep g ip now d = ap (decide now) (lookup-expire g ip now d)

-- A purge at an earlier time drops nothing that a later decision would have used.
decide-keep-keep :
    (s now : ℕ) (o : Option Record)
    → s ≤ now
    → decide now (keep (stays now) (keep (stays s) o)) ≡ decide now (keep (stays now) o)
decide-keep-keep s now none h = refl
decide-keep-keep s now (some r) h = ground arith

step_other :
    (g : BruteForceGuard) (ip : IpAddr) (s now : ℕ) (c : Call)
    → s ≤ now
    → source c ≢ ip
    → IsValid s g
    → decide now (keep (stays now) (lookup ip (step g (s, c)).records))
      ≡ decide now (keep (stays now) (lookup ip g.records))
unfolding step check record_failure record_success
step_other g ip s now (checks j) h n v =
    ap (λ o. decide now (keep (stays now) o)) (lookup-expire g ip s v.distinct)
    ∙ decide-keep-keep s now (lookup ip g.records) h
step_other g ip s now (fails j) h n v =
    ap (λ o. decide now (keep (stays now) o))
      (ground (
        arith,
        lookup-insert j ip (fail_once s (or_fresh s (lookup j g.records))) g.records,
        ip_eq.beq_iff j ip,
      ))
step_other g ip s now (succeeds j) h n v =
    ap (λ o. decide now (keep (stays now) o))
      (ground (arith, lookup-remove j ip g.records v.distinct, ip_eq.beq_iff j ip))

-- The answer of a valid guard for a source does not depend on what other sources did meanwhile, in
-- the order of the clock.
pub check-run_others :
    (g : BruteForceGuard) (ip : IpAddr) (t now : ℕ) (cs : List (ℕ × Call))
    → Ordered t now cs
    → All (λ c. source c.1 ≢ ip) cs
    → IsValid t g
    → (check (run g cs) ip now).1 ≡ (check g ip now).1
unfolding run
check-run_others g ip t now [] o n v = refl
check-run_others g ip t now ((s, c) ∷ cs) o n v =
    check-run_others (step g (s, c)) ip s now cs o.1 n.1 w
    ∙ check-keep (step g (s, c)) ip now w.distinct
    ∙ step_other g ip s now c (Ordered-le s now cs o.1) n.0 (IsValid-later g o.0 v)
    ∙ sym (check-keep g ip now v.distinct)
  where
    w : IsValid s (step g (s, c))
    w = step-IsValid g s c o.0 v
