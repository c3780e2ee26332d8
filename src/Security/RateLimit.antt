-- ===== src/Security/RateLimit.antt =====
-- crates/security/src/rate_limit.rs: the per-address limiter of failed attempts. `Instant`s are
-- nanoseconds; the counters are u32.
pub mod Invariant
pub mod Runs
pub mod Budget
use controlis.Prelude.{
  ℕ, ◌+◌, ◌-◌, ◌*◌, ◌^◌, ◌%◌, min, Bool, true, not, ◌||◌, Option, none, some, List, [], ltb, leb,
  if◌then◌else◌, lookup, insert, remove, retain,
}
use controlis.Net.{IpAddr, ip_eq, secs}

abbrev pub failures_before_block : ℕ
failures_before_block = 5

abbrev pub base_block : ℕ
base_block = secs 15

abbrev pub max_block : ℕ
max_block = secs 900

abbrev pub history_ttl : ℕ
history_ttl = secs 1800

pub data GuardDecision : Type 0 where
  allow : GuardDecision
  blocked : ℕ → GuardDecision

pub record Record : Type 0 where
  pub failures : ℕ
  pub blocks : ℕ
  pub blocked_until : Option ℕ
  pub last_seen : ℕ

pub record BruteForceGuard : Type 0 where
  pub records : List (IpAddr × Record)

abbrev pub new : BruteForceGuard
new = record { records = [] }

abbrev pub unblocked : ℕ → Option ℕ → Bool
unblocked now none = true
unblocked now (some until) = leb until now

-- The closure of `expire`: which records stay.
abbrev pub stays : ℕ → Record → Bool
stays now r = ltb (now - r.last_seen) history_ttl || not (unblocked now r.blocked_until)

unfoldable pub expire : BruteForceGuard → ℕ → BruteForceGuard
expire g now = record { records = retain (stays now) g.records }

abbrev until_decision : ℕ → Option ℕ → GuardDecision
until_decision now none = allow
until_decision now (some until) = if ltb now until then blocked (until - now) else allow

abbrev pub decide : ℕ → Option Record → GuardDecision
decide now none = allow
decide now (some r) = until_decision now r.blocked_until

unfoldable pub check : BruteForceGuard → IpAddr → ℕ → BruteForceGuard × GuardDecision
unfolding expire
check g source now = let g' = expire g now in (g', decide now (lookup source g'.records))

abbrev fresh_record : ℕ → Record
fresh_record now = record { failures = 0; blocks = 0; blocked_until = none; last_seen = now }

abbrev or_fresh : ℕ → Option Record → Record
or_fresh now none = fresh_record now
or_fresh now (some r) = r

abbrev pub block_for : ℕ → ℕ
block_for blocks = min (base_block * 2 ^ min blocks 6) max_block

-- One more failure on the entry; the fifth arms a block and starts the count again.
abbrev pub fail_once : ℕ → Record → Record
fail_once now r =
    let failures = (r.failures + 1) % 2 ^ 32 in
    if leb failures_before_block failures
    then record {
      failures = 0;
      blocks = (r.blocks + 1) % 2 ^ 32;
      blocked_until = some (now + block_for r.blocks);
      last_seen = now;
    }
    else record {
      failures = failures;
      blocks = r.blocks;
      blocked_until = r.blocked_until;
      last_seen = now;
    }

unfoldable pub record_failure : BruteForceGuard → IpAddr → ℕ → BruteForceGuard
record_failure g source now = record {
  records = insert source (fail_once now (or_fresh now (lookup source g.records))) g.records;
}

unfoldable pub record_success : BruteForceGuard → IpAddr → BruteForceGuard
record_success g source = record { records = remove source g.records }
