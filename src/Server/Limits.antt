-- ===== src/Server/Limits.antt =====
-- `RateLimiter::check` over a run of requests: how many of one address go through.
use controlis.Prelude.{
  ℕ, zero, suc, ◌+◌, ◌*◌, ◌^◌, ◌≤◌, ◌<◌, ◌≡◌, ◌≢◌, refl, ◌∙◌, sym, ap, Bool, true, false, ◌&&◌,
  if◌then◌else◌, inl, inr, Bool-cases, Option, none, some, List, [], ◌∷◌, arith, ◌==◌, nat_eq,
  Distinct, keep, All, subst, lookup, insert, retain, lookup-insert, insert-Distinct, lookup-retain,
  retain-Distinct,
}
use controlis.Net.{IpAddr, ip_eq}
use controlis.Server.{window, RateBucket, RateLimiter, recent, or_new, restarted, counted, check}

-- Requests with their times, in the order of the clock, from `t` on and not after `end`.
abbrev pub Rising : ℕ → ℕ → List (ℕ × IpAddr) → Type 0
Rising t end [] = t ≤ end
Rising t end ((now, j) ∷ rs) = (t ≤ now) × Rising now end rs

Rising-le : (t end : ℕ) (rs : List (ℕ × IpAddr)) → Rising t end rs → t ≤ end
Rising-le t end [] r = r
Rising-le t end ((now, j) ∷ rs) r = omega (arith, Rising-le now end rs r.1)

abbrev pub one_if : Bool → ℕ
one_if true = 1
one_if false = 0

-- How many of the requests of `ip` go through.
pub passed : RateLimiter → IpAddr → ℕ → List (ℕ × IpAddr) → ℕ
passed l ip m [] = 0
passed l ip m ((now, j) ∷ rs) =
    let r = check l j m now in let rest = passed r.0 ip m rs in one_if ((j == ip) && r.1) + rest

mul_le : (m a b : ℕ) → a ≤ b → m * a ≤ m * b
mul_le zero a b h = omega arith
mul_le (suc m) a b h = omega (arith, mul_le m a b h)

-- What `check` does to the entry of the address that asks.
abbrev entry : ℕ → ℕ → Option RateBucket → RateBucket × Bool
entry m now o = counted m (restarted now (or_new now (keep (recent now) o)))

-- With `n` requests through since `start`, the entry shows that they took long enough.
abbrev Spent : ℕ → ℕ → ℕ → ℕ → Option RateBucket → Type 0
Spent start m n now none = n * window + m * start ≤ m * now
Spent start m n now (some b) =
    (n * window + m * start ≤ m * b.window_started + b.count * window)
    × (b.window_started ≤ now)
    × (b.count ≤ m)

entry-Spent :
    (start m n now later : ℕ) (o : Option RateBucket)
    → 0 < m
    → m < 2 ^ 32
    → now ≤ later
    → Spent start m n now o
    → Spent start m (one_if (entry m later o).1 + n) later (some (entry m later o).0)
entry-Spent start m n now later none p w h s = ground (arith, mul_le m now later h)
entry-Spent start m n now later (some b) p w h s = elim (Bool-cases (recent later b)) [
  | inl young ↦ ground arith
  | inr old ↦ ground (arith, mul_le m (b.window_started + window) later)
]

keep-Spent :
    (start m n now later : ℕ) (o : Option RateBucket)
    → now ≤ later
    → Spent start m n now o
    → Spent start m n later (keep (recent later) o)
keep-Spent start m n now later none h s = omega (arith, mul_le m now later h)
keep-Spent start m n now later (some b) h s =
    ground (arith, mul_le m (b.window_started + window) later)

not_zero : (m : ℕ) → 0 < m → (m == 0) ≡ false
not_zero m p = ground arith

pub check-positive :
    (l : RateLimiter) (j : IpAddr) (m now : ℕ)
    → 0 < m
    → Distinct l.buckets
    → check l j m now ≡ (
      record {
        buckets = insert j (entry m now (lookup j l.buckets)).0 (retain (recent now) l.buckets);
      },
      (entry m now (lookup j l.buckets)).1,
    )
unfolding check
check-positive l j m now p d = rw (not_zero m p, lookup-retain (recent now) j l.buckets d) refl

abbrev Tracks : RateLimiter → IpAddr → IpAddr → ℕ → ℕ → RateLimiter × Bool → Type 0
Tracks l j ip m now r =
    (lookup ip r.0.buckets ≡ (
      if j == ip
      then some (entry m now (lookup j l.buckets)).0
      else keep (recent now) (lookup ip l.buckets)))
    × (r.1 ≡ (entry m now (lookup j l.buckets)).1)
    × Distinct r.0.buckets

check-Tracks :
    (l : RateLimiter) (j ip : IpAddr) (m now : ℕ)
    → 0 < m
    → Distinct l.buckets
    → Tracks l j ip m now (check l j m now)
check-Tracks l j ip m now p d = subst (Tracks l j ip m now) (sym (check-positive l j m now p d)) (
  lookup-insert j ip _ _
      ∙ ap (λ o. if j == ip then some (entry m now (lookup j l.buckets)).0 else o)
          (lookup-retain (recent now) ip l.buckets d),
  refl,
  insert-Distinct j _ _ (retain-Distinct (recent now) l.buckets d),
)

-- What one request adds to the count, and the entry that it leaves.
check-Spent :
    (l : RateLimiter) (j ip : IpAddr) (start m n now t : ℕ)
    → 0 < m
    → m < 2 ^ 32
    → now ≤ t
    → Distinct l.buckets
    → Spent start m n now (lookup ip l.buckets)
    → Spent start m
        (one_if ((j == ip) && (check l j m t).1) + n)
        t
        (lookup ip (check l j m t).0.buckets)
check-Spent l j ip start m n now t p w h d s =
    let k = check-Tracks l j ip m t p d in
    elim (Bool-cases (j == ip)) [
      | inl own ↦
          rw (k.0, k.1, own)
            (entry-Spent start m n now t (lookup j l.buckets) p w h
              (subst (λ i. Spent start m n now (lookup i l.buckets)) (sym (same own)) s))
      | inr other ↦ rw (k.0, other, zero_add) (keep-Spent start m n now t (lookup ip l.buckets) h s)
    ]
  where
    zero_add : 0 + n ≡ n
    zero_add = omega arith

    same : (j == ip) ≡ true → j ≡ ip
    same e = ground (arith, ip_eq.beq_iff j ip)

passed_total :
    (l : RateLimiter) (ip : IpAddr) (start m n now end : ℕ) (rs : List (ℕ × IpAddr))
    → 0 < m
    → m < 2 ^ 32
    → Rising now end rs
    → Distinct l.buckets
    → Spent start m n now (lookup ip l.buckets)
    → (passed l ip m rs + n) * window + m * start ≤ m * end + m * window
unfolding passed
passed_total l ip start m n now end [] p w r d s = omega (arith, go (lookup ip l.buckets) s)
  where
    go :
        (o : Option RateBucket)
        → Spent start m n now o
        → n * window + m * start ≤ m * end + m * window
    go none s = omega (arith, mul_le m now end r)
    go (some b) s = omega (arith, mul_le m b.window_started end (omega arith))
passed_total l ip start m n now end ((t, j) ∷ rs) p w r d s = omega (
  arith,
  passed_total (check l j m t).0 ip start m _ t end rs p w r.1 (check-Tracks l j ip m t p d).2
      (check-Spent l j ip start m n now t p w r.0 d s),
)

-- An address without a bucket whose requests, among those of others and in the order of the clock,
-- come between `start` and `end` gets at most `m` of them through for each minute, and `m` more,
-- for a limit `m` that is not zero and fits in a `u32`, and buckets in which no address stands twice.
pub passed-le :
    (l : RateLimiter) (ip : IpAddr) (m start end : ℕ) (rs : List (ℕ × IpAddr))
    → 0 < m
    → m < 2 ^ 32
    → Rising start end rs
    → Distinct l.buckets
    → lookup ip l.buckets ≡ none
    → passed l ip m rs * window + m * start ≤ m * (end + window)
passed-le l ip m start end rs p w r d e =
    omega (arith, passed_total l ip start m 0 start end rs p w r d (rw e (omega arith)))

pub run : RateLimiter → ℕ → List (ℕ × IpAddr) → RateLimiter
run l m [] = l
run l m ((now, j) ∷ rs) = run (check l j m now).0 m rs

entry-keep :
    (m t now : ℕ) (o : Option RateBucket)
    → t ≤ now
    → (entry m now (keep (recent t) o)).1 ≡ (entry m now o).1
entry-keep m t now none h = refl
entry-keep m t now (some b) h = ground arith

check-run_step :
    (l : RateLimiter) (ip j : IpAddr) (m t now : ℕ)
    → 0 < m
    → t ≤ now
    → j ≢ ip
    → Distinct l.buckets
    → (check (check l j m t).0 ip m now).1 ≡ (check l ip m now).1
check-run_step l ip j m t now p h n d =
    let k = check-Tracks l j ip m t p d in
    (check-Tracks (check l j m t).0 ip ip m now p k.2).1
    ∙ ap (λ o. (entry m now o).1) (rw other at k.0)
    ∙ entry-keep m t now (lookup ip l.buckets) h
    ∙ sym (check-Tracks l ip ip m now p d).1
  where
    other : (j == ip) ≡ false
    other = ground (arith, ip_eq.beq_iff j ip)

-- Requests of other addresses in the order of the clock do not change the answer to an address, for
-- a limit that is not zero and buckets in which no address stands twice.
pub check-run :
    (l : RateLimiter) (ip : IpAddr) (m t now : ℕ) (rs : List (ℕ × IpAddr))
    → 0 < m
    → Rising t now rs
    → All (λ r. r.1 ≢ ip) rs
    → Distinct l.buckets
    → (check (run l m rs) ip m now).1 ≡ (check l ip m now).1
unfolding run
check-run l ip m t now [] p r n d = refl
check-run l ip m t now ((u, j) ∷ rs) p r n d =
    check-run (check l j m u).0 ip m u now rs p r.1 n.1 (check-Tracks l j ip m u p d).2
    ∙ check-run_step l ip j m u now p (Rising-le u now rs r.1) n.0 d
