-- ===== src/Net.antt =====
-- The standard library's addresses and clocks as the program uses them. An `Instant` and a
-- `Duration` are counts of nanoseconds, so `duration_since`, which stops at zero, is `-` on ℕ.
use controlis.Prelude.{ℕ, ◌*◌, ◌≡◌, ◌↔◌, Bool, false, arith, Eq, ◌==◌, nat_eq}

pub data IpAddr : Type 0 where
  v4 : ℕ → IpAddr
  v6 : ℕ → IpAddr

abbrev pub ip_beq : IpAddr → IpAddr → Bool
ip_beq (v4 a) (v4 b) = a == b
ip_beq (v6 a) (v6 b) = a == b
ip_beq _ _ = false

pub ip_beq_iff : (a b : IpAddr) → (ip_beq a b ≡ Bool.true) ↔ (a ≡ b)
ip_beq_iff a b = ground arith

instance abbrev pub ip_eq : Eq IpAddr
ip_eq = record { beq = ip_beq; beq_iff = ip_beq_iff }

pub record SocketAddrV4 : Type 0 where
  pub ip : ℕ
  pub port : ℕ

abbrev pub secs : ℕ → ℕ
secs n = n * 1_000_000_000
