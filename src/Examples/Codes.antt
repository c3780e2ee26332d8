-- ===== src/Examples/Codes.antt =====
-- Codes and the limit on guesses at concrete inputs.
use controlis.Prelude.{
  ℕ, ◌+◌, ◌-◌, ◌*◌, ◌^◌, ◌≤◌, ◌<◌, ◌≡◌, ◌≢◌, ◌↔◌, ◌⊎◌, refl, true, List, [], ◌∷◌, map, arith, codes,
  str_beq, str_beq_iff, ok, err, lookup, insert, retain, All,
}
use controlis.Net.{IpAddr, v4, SocketAddrV4, secs}
use controlis.Security.Code.{ConstantTimeEq}
use controlis.Security.ConnectCode.{
  ConnectCode, rendezvous, rendezvous_id_out_of_range, assemble_lan, generate_rendezvous, parse,
  verify,
}
use controlis.Security.ConnectCode.Digits.{bare}
use controlis.Security.ConnectCode.RoundTrip.{parse-assemble_lan, generate_rendezvous_cases}
use controlis.Security.ConnectCode.Tolerance.{careless, parse-careless}
use controlis.Security.ConnectCode.Verify.{Accepts, IsCanonical, verify_iff}
use controlis.Security.RateLimit
use controlis.Security.RateLimit.{base_block, max_block, blocked, check, expire, record_failure}
use controlis.Security.RateLimit.Budget.{guesses, guesses-le}
use controlis.Security.RateLimit.Runs.{
  Call, fails, run, step, check-run_bounds, check-run_others, new-IsValid, Ordered, source,
}

abbrev pub byte_compare : ConstantTimeEq
byte_compare = record { ct_eq = str_beq; ct_eq_iff = λ s t h. str_beq_iff s t }

abbrev pub lan_addr : SocketAddrV4
lan_addr = record { ip = 0xc0a80002; port = 21118 }

abbrev pub host_code : ConnectCode
host_code = assemble_lan lan_addr 12345

pub host_code-IsCanonical : IsCanonical host_code
host_code-IsCanonical = parse-assemble_lan lan_addr 12345 (omega arith, omega arith) (omega arith)

abbrev pub office : IpAddr
office = v4 5

abbrev pub cafe : IpAddr
cafe = v4 9

guesses-le_example :
    guesses RateLimit.new office (0 ∷ secs 1 ∷ secs 30 ∷ []) * base_block
    ≤ 5 * (secs 60 - 0 + base_block)
unfolding lookup
guesses-le_example =
    guesses-le RateLimit.new office 0 (secs 60) (0 ∷ secs 1 ∷ secs 30 ∷ [])
      (omega arith, (omega arith, (omega arith, omega arith))) tt refl

abbrev five_failures : List (ℕ × Call)
five_failures =
    (1, fails office)
    ∷ (2, fails office)
    ∷ (3, fails office)
    ∷ (4, fails office)
    ∷ (5, fails office)
    ∷ []

five_failures-Ordered : Ordered 0 6 five_failures
five_failures-Ordered =
    (omega arith, (omega arith, (omega arith, (omega arith, (omega arith, omega arith)))))

office-cafe : office ≢ cafe
office-cafe e = cc

five_failures-others : All (λ c. source c.1 ≢ cafe) five_failures
five_failures-others = (office-cafe, (office-cafe, (office-cafe, (office-cafe, (office-cafe, tt)))))

check-run_bounds_example : (0 < 14_999_999_999) × (14_999_999_999 ≤ max_block)
unfolding check expire record_failure run step lookup insert retain
check-run_bounds_example =
    check-run_bounds office 6 14_999_999_999 five_failures five_failures-Ordered refl

check-run_others_example :
    (check (run RateLimit.new five_failures) cafe 6).1 ≡ (check RateLimit.new cafe 6).1
check-run_others_example =
    check-run_others RateLimit.new cafe 0 6 five_failures five_failures-Ordered five_failures-others
      new-IsValid

verify_iff_example :
    (verify byte_compare host_code host_code.code ≡ true) ↔ Accepts host_code host_code.code
verify_iff_example = verify_iff byte_compare host_code host_code.code host_code-IsCanonical

parse-assemble_lan_example : parse host_code.code ≡ ok host_code
parse-assemble_lan_example =
    parse-assemble_lan lan_addr 12345 (omega arith, omega arith) (omega arith)

generate_rendezvous_cases_example :
    ((2 ^ 48 ≤ 77) × (generate_rendezvous 77 9 ≡ err rendezvous_id_out_of_range))
    ⊎ ((c : ConnectCode) × (generate_rendezvous 77 9 ≡ ok c)
        × (c.target ≡ rendezvous 77)
        × (parse c.code ≡ ok c))
generate_rendezvous_cases_example = generate_rendezvous_cases 77 9 (omega arith)

parse-careless_example : parse (map careless (bare (codes "0123-4567"))) ≡ parse (codes "0123-4567")
parse-careless_example = parse-careless (codes "0123-4567")
