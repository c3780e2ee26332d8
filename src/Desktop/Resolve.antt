-- ===== src/Desktop/Resolve.antt =====
-- A code that the host shows, as the viewer's window reads it
-- (apps/controlis-app/src-tauri/src/commands/viewer.rs).
use controlis.Prelude.{
  ℕ, ◌≡◌, ◌<◌, refl, sym, ◌∙◌, ap, true, none, List, [], ◌∷◌, ◌++◌, Result, ok, ◌>>=◌, ◌>>◌, ensure,
  arith, is_whitespace, Bool-cases, Option-cases, inl, inr, length, nat_beq, nat_eq, ◌^◌,
}
use controlis.Net.{SocketAddrV4}
use controlis.Security.ConnectCode.{
  ConnectCode, ConnectCodeError, is_separator, digit_of, normalize_from, normalize, parse,
  code_chars, wrong_length, from_value, fold_digits, assemble_lan, assemble_rendezvous, generate,
  from_payload,
}
use controlis.Security.ConnectCode.RoundTrip.{
  IsAddr, IsSecret, parse-assemble_lan, parse-assemble_rendezvous,
}
use controlis.Rendezvous.{session_id}
use controlis.Rendezvous.Client.{trim, trim_start, trim_end}
use controlis.Desktop.Target.{
  Addrs, of_code, at_session, lan_at, internet, manual_addr, resolve_target,
}

separator_skipped :
    (c : ℕ) (cs ds : List ℕ)
    → is_whitespace c ≡ true
    → normalize_from (c ∷ cs) ds ≡ normalize_from cs ds
unfolding normalize_from is_separator
separator_skipped c cs ds e = ground (arith, e)

normalize_from-trim_start :
    (cs ds : List ℕ) → normalize_from (trim_start is_whitespace cs) ds ≡ normalize_from cs ds
unfolding trim_start
normalize_from-trim_start [] ds = refl
normalize_from-trim_start (c ∷ cs) ds = elim (Bool-cases (is_whitespace c)) [
  | inl e ↦ rw (trim_start, e) (normalize_from-trim_start cs ds ∙ sym (separator_skipped c cs ds e))
  | inr e ↦ rw (trim_start, e) refl
]

trim_end_step :
    (c : ℕ) (cs rest ds : List ℕ)
    → trim_end is_whitespace cs ≡ rest
    → normalize_from (trim_end is_whitespace (c ∷ cs)) ds ≡ normalize_from (c ∷ rest) ds
unfolding trim_end normalize_from
trim_end_step c cs [] ds e = elim (Bool-cases (is_whitespace c)) [
  | inl w ↦ rw (trim_end, e, w) (sym (separator_skipped c [] ds w))
  | inr w ↦ rw (trim_end, e, w) refl
]
trim_end_step c cs (d ∷ more) ds e = rw (trim_end, e) refl

after :
    (c : ℕ) (cs rest : List ℕ)
    → ((ds : List ℕ) → normalize_from rest ds ≡ normalize_from cs ds)
    → (ds : List ℕ) → normalize_from (c ∷ rest) ds ≡ normalize_from (c ∷ cs) ds
unfolding normalize_from
after c cs rest same ds = elim (Option-cases (digit_of c)) [
  | inl e ↦ ground (arith, e, same ds)
  | inr (d, e) ↦ ground (arith, e, same ds, same (ds ++ (d ∷ [])))
]

normalize_from-trim_end :
    (cs ds : List ℕ) → normalize_from (trim_end is_whitespace cs) ds ≡ normalize_from cs ds
unfolding trim_end
normalize_from-trim_end [] ds = refl
normalize_from-trim_end (c ∷ cs) ds =
    trim_end_step c cs (trim_end is_whitespace cs) ds refl
    ∙ after c cs (trim_end is_whitespace cs) (normalize_from-trim_end cs) ds

abbrev parse_from : Result (List ℕ) ConnectCodeError → Result ConnectCode ConnectCodeError
parse_from r = do
  digits ← r
  ensure (nat_beq (length digits) code_chars) wrong_length
  from_value (fold_digits 0 digits)

-- White space around a code changes nothing.
pub parse-trim : (text : List ℕ) → parse (trim text) ≡ parse text
unfolding parse normalize trim
parse-trim text =
    ap parse_from (
      normalize_from-trim_end (trim_start is_whitespace text) []
      ∙ normalize_from-trim_start text [])

session_id_ok : (id : ℕ) → id < 2 ^ 48 → session_id id ≡ ok id
unfolding session_id
session_id_ok id h = ground arith

module _ (a : Addrs) where
  -- The code that a host shows for an IPv4 address with a port and a secret of 30 bits leads a viewer
  -- that types it to that address, with the code as the host has it and the key of its pin.
  pub resolve_target-generate :
      (addr : SocketAddrV4) (secret : ℕ)
      → IsAddr addr
      → IsSecret secret
      → resolve_target a (generate addr secret).code none
        ≡ ok (lan_at a (a.from_v4 addr) (generate addr secret))
  unfolding resolve_target generate manual_addr assemble_lan from_payload
  resolve_target-generate addr secret ha hs =
      ap (λ r. of_code a r none)
        (parse-trim (assemble_lan addr secret).code ∙ parse-assemble_lan addr secret ha hs)

  -- The code of a rendezvous leads to its session.
  pub resolve_target-generate_rendezvous :
      (id secret : ℕ)
      → id < 2 ^ 48
      → IsSecret secret
      → resolve_target a (assemble_rendezvous id secret).code none
        ≡ ok (internet id (assemble_rendezvous id secret).code)
  unfolding resolve_target manual_addr assemble_rendezvous from_payload
  resolve_target-generate_rendezvous id secret hi hs =
      ap (λ r. of_code a r none)
        (parse-trim (assemble_rendezvous id secret).code
          ∙ parse-assemble_rendezvous id secret hi hs)
      ∙ ap (at_session a (assemble_rendezvous id secret)) (session_id_ok id hi)
