-- ===== src/Security/RateLimit/Budget.antt =====
-- How many wrong codes one source can try. The host asks `check` and reports each wrong code by
-- `record_failure` (authenticate in crates/session-host/src/session.rs).
use controlis.Prelude.{
  ℕ, zero, suc, ◌^◌, min, max, ◌+◌, ◌-◌, ◌*◌, ◌≤◌, ◌<◌, ◌≡◌, refl, Bool, true, false, Option, none,
  some, List, [], ◌∷◌, arith, Distinct, keep, lookup, lookup-insert, insert-Distinct, lookup-retain,
  retain-Distinct,
}
use controlis.Net.{IpAddr, ip_eq}
use controlis.Security.RateLimit.{
  GuardDecision, allow, blocked, Record, BruteForceGuard, stays, expire, decide, check, fail_once,
  or_fresh, record_failure, base_block, block_for,
}

-- What follows the answer of `check` when the code is wrong: whether the code was looked at, and
-- the guard afterwards.
abbrev pub answered : GuardDecision → BruteForceGuard → IpAddr → ℕ → BruteForceGuard × Bool
answered allow g ip now = (record_failure g ip now, true)
answered (blocked wait) g ip now = (g, false)

unfoldable pub guess : BruteForceGuard → IpAddr → ℕ → BruteForceGuard × Bool
guess g ip now = answered (check g ip now).1 (check g ip now).0 ip now

abbrev pub tally : Bool → ℕ → ℕ
tally true n = suc n
tally false n = n

-- How many of the attempts at these times were let through.
pub guesses : BruteForceGuard → IpAddr → List ℕ → ℕ
guesses g ip [] = 0
guesses g ip (now ∷ times) = tally (guess g ip now).1 (guesses (guess g ip now).0 ip times)

-- The same on the one entry that matters.
abbrev answered_entry : GuardDecision → Option Record → ℕ → Option Record × Bool
answered_entry allow o now = (some (fail_once now (or_fresh now o)), true)
answered_entry (blocked wait) o now = (o, false)

abbrev guess_entry : ℕ → Option Record → Option Record × Bool
guess_entry now o = answered_entry (decide now (keep (stays now) o)) (keep (stays now) o) now

abbrev SeesEntry : BruteForceGuard × Bool → Option Record × Bool → IpAddr → Type 0
SeesEntry (g, seen) (o, seen') ip = (lookup ip g.records ≡ o) × (seen ≡ seen') × Distinct g.records

answered-entry :
    (d : GuardDecision) (g : BruteForceGuard) (ip : IpAddr) (now : ℕ)
    → Distinct g.records
    → SeesEntry (answered d g ip now) (answered_entry d (lookup ip g.records) now) ip
unfolding record_failure
answered-entry allow g ip now d = (
  ground (
    arith,
    lookup-insert ip ip (fail_once now (or_fresh now (lookup ip g.records))) g.records,
    ip_eq.beq_iff ip ip,
  ),
  refl,
  insert-Distinct ip _ g.records d,
)
answered-entry (blocked wait) g ip now d = (refl, refl, d)

guess-entry :
    (g : BruteForceGuard) (ip : IpAddr) (now : ℕ)
    → Distinct g.records
    → SeesEntry (guess g ip now) (guess_entry now (lookup ip g.records)) ip
unfolding guess check expire
guess-entry g ip now d =
    rw (← lookup-retain (stays now) ip g.records d)
      (answered-entry _ (expire g now) ip now (retain-Distinct (stays now) g.records d))

-- With `n` codes looked at since time `t`, the entry shows that they took long enough.
abbrev PaidUntil : ℕ → ℕ → Record → Option ℕ → Type 0
PaidUntil t n r none = n * base_block + 5 * t ≤ 5 * r.last_seen + r.failures * base_block
PaidUntil t n r (some u) =
    (n * base_block + 5 * t ≤ 5 * max u r.last_seen + r.failures * base_block)
    × (r.last_seen < u → r.failures ≡ 0)

abbrev Paid : ℕ → ℕ → ℕ → Option Record → Type 0
Paid t n now none = (n ≡ 0) × (t ≤ now)
Paid t n now (some r) =
    (r.failures < 5)
    × (r.last_seen ≤ now)
    × (n * base_block + 5 * t ≤ 5 * r.last_seen + 5 * base_block)
    × PaidUntil t n r r.blocked_until

pow_pos : (k : ℕ) → 1 ≤ 2 ^ k
pow_pos zero = omega arith
pow_pos (suc k) = omega (arith, pow_pos k)

base-le-block_for : (b : ℕ) → base_block ≤ block_for b
base-le-block_for b = omega (arith, pow_pos (min b 6))

guess_entry-Paid :
    (t n now later : ℕ) (o : Option Record)
    → now ≤ later
    → Paid t n now o
    → Paid t (tally (guess_entry later o).1 n) later (guess_entry later o).0
guess_entry-Paid t n now later none h p = ground arith
guess_entry-Paid t n now later (some r) h p = ground (arith, base-le-block_for r.blocks)

-- The attempts come in the order of the clock, from `t` on and not after `end`.
abbrev pub Rising : ℕ → ℕ → List ℕ → Type 0
Rising t end [] = t ≤ end
Rising t end (s ∷ times) = (t ≤ s) × Rising s end times

Rising-le : (t end : ℕ) (times : List ℕ) → Rising t end times → t ≤ end
Rising-le t end [] r = r
Rising-le t end (s ∷ times) r = omega (arith, Rising-le s end times r.1)

Paid-total :
    (t n now end : ℕ) (o : Option Record)
    → now ≤ end
    → Paid t n now o
    → n * base_block + 5 * t ≤ 5 * end + 5 * base_block
Paid-total t n now end none h p = omega arith
Paid-total t n now end (some r) h p = omega arith

guesses_total :
    (g : BruteForceGuard) (ip : IpAddr) (t n now end : ℕ) (times : List ℕ)
    → Rising now end times
    → Distinct g.records
    → Paid t n now (lookup ip g.records)
    → (guesses g ip times + n) * base_block + 5 * t ≤ 5 * end + 5 * base_block
unfolding guesses
guesses_total g ip t n now end [] r d p = omega (arith, Paid-total t n now end _ r p)
guesses_total g ip t n now end (s ∷ times) r d p =
    tally_total (guess g ip s).1 _
      (guesses_total (guess g ip s).0 ip t _ s end times r.1 (guess-entry g ip s d).2 paid)
  where
    paid : Paid t (tally (guess g ip s).1 n) s (lookup ip (guess g ip s).0.records)
    paid =
        rw ((guess-entry g ip s d).0, (guess-entry g ip s d).1)
          (guess_entry-Paid t n now s (lookup ip g.records) r.0 p)

    tally_total :
        (seen : Bool) (m : ℕ)
        → (m + tally seen n) * base_block + 5 * t ≤ 5 * end + 5 * base_block
        → (tally seen m + n) * base_block + 5 * t ≤ 5 * end + 5 * base_block
    tally_total true m h = omega arith
    tally_total false m h = omega arith

-- A source without an entry, in a guard where no source stands twice, that tries wrong codes at
-- rising times between `start` and `end`, however it spaces them, has at most five of them looked
-- at for each fifteen seconds, and five more.
pub guesses-le :
    (g : BruteForceGuard) (ip : IpAddr) (start end : ℕ) (times : List ℕ)
    → Rising start end times
    → Distinct g.records
    → lookup ip g.records ≡ none
    → guesses g ip times * base_block ≤ 5 * (end - start + base_block)
guesses-le g ip start end times r d e = omega (
  arith,
  guesses_total g ip start 0 start end times r d (rw e (refl, omega arith)),
  Rising-le start end times r,
)
