-- ===== src/Security/RateLimit/Invariant.antt =====
-- The limiter's entries stay well formed, and sources do not affect one another.
use controlis.Prelude.{
  ℕ, ◌+◌, ◌≤◌, ◌<◌, ◌≡◌, refl, Option, none, some, arith, Distinct, keep, lookup, insert-Distinct,
  remove-Distinct, lookup-retain, retain-Distinct, insert_entries, remove_entries, retain_entries,
}
use controlis.Net.{IpAddr, ip_eq}
use controlis.Security.RateLimit.{
  Record, BruteForceGuard, stays, expire, check, fail_once, or_fresh, record_failure,
  record_success, max_block,
}

-- An entry as it stands at time `now`: fewer than five failures, last seen in the past, and
-- blocked for at most fifteen minutes from then.
pub record RecordOk (now : ℕ) (r : Record) : Type 0 where
  pub counting : r.failures < 5
  pub past : r.last_seen ≤ now
  pub window : (u : ℕ) → r.blocked_until ≡ some u → u ≤ r.last_seen + max_block

pub record IsValid (now : ℕ) (g : BruteForceGuard) : Type 0 where
  pub distinct : Distinct g.records
  pub entries : (ip : IpAddr) (r : Record) → lookup ip g.records ≡ some r → RecordOk now r

pub RecordOk-later : {t now : ℕ} (r : Record) → t ≤ now → RecordOk t r → RecordOk now r
RecordOk-later r h v = record { counting = v.counting; past = omega arith; window = v.window }

pub lookup-expire :
    (g : BruteForceGuard) (ip : IpAddr) (now : ℕ)
    → Distinct g.records
    → lookup ip (expire g now).records ≡ keep (stays now) (lookup ip g.records)
unfolding expire
lookup-expire g ip now d = lookup-retain (stays now) ip g.records d

pub expire-IsValid :
    (g : BruteForceGuard) {t : ℕ} (now : ℕ) → t ≤ now → IsValid t g → IsValid now (expire g now)
unfolding expire
expire-IsValid g now h v = record {
  distinct = retain-Distinct (stays now) g.records v.distinct;
  entries = λ ip r e.
      RecordOk-later r h (v.entries ip r (retain_entries (stays now) ip r g.records v.distinct e));
}

or_fresh-RecordOk :
    (now : ℕ) (o : Option Record)
    → ((r : Record) → o ≡ some r → RecordOk now r)
    → RecordOk now (or_fresh now o)
or_fresh-RecordOk now none h = record {
  counting = omega arith;
  past = omega arith;
  window = λ u e. cc;
}
or_fresh-RecordOk now (some r) h = h r refl

fail_once-RecordOk : (now : ℕ) (r : Record) → RecordOk now r → RecordOk now (fail_once now r)
fail_once-RecordOk now r v = record {
  counting = ground (arith, v.counting);
  past = ground arith;
  window = λ u e. ground (arith, v.window u, v.past, v.counting);
}

pub record_failure-IsValid :
    (g : BruteForceGuard) (ip : IpAddr) {t : ℕ} (now : ℕ)
    → t ≤ now
    → IsValid t g
    → IsValid now (record_failure g ip now)
unfolding record_failure
record_failure-IsValid g ip now h v = record {
  distinct = insert-Distinct ip _ g.records v.distinct;
  entries = λ j r e.
      insert_entries (RecordOk now) ip j _ r g.records
        (fail_once-RecordOk now _ (
          or_fresh-RecordOk now (lookup ip g.records)
            (λ r e. RecordOk-later r h (v.entries ip r e))))
        (λ r e. RecordOk-later r h (v.entries j r e)) e;
}

pub record_success-IsValid :
    (g : BruteForceGuard) (ip : IpAddr) {t : ℕ} → IsValid t g → IsValid t (record_success g ip)
unfolding record_success
record_success-IsValid g ip v = record {
  distinct = remove-Distinct ip g.records v.distinct;
  entries = λ j r e. v.entries j r (remove_entries ip j r g.records v.distinct e);
}

pub check-IsValid :
    (g : BruteForceGuard) (ip : IpAddr) {t : ℕ} (now : ℕ)
    → t ≤ now
    → IsValid t g
    → IsValid now (check g ip now).0
unfolding check
check-IsValid g ip now h v = expire-IsValid g now h v

pub IsValid-later : (g : BruteForceGuard) {t now : ℕ} → t ≤ now → IsValid t g → IsValid now g
IsValid-later g h v = record {
  distinct = v.distinct;
  entries = λ ip r e. RecordOk-later r h (v.entries ip r e);
}
