-- ===== src/Session/Authenticate.antt =====
-- When `authenticate` lets a viewer in, and what each outcome does to the guard.
use controlis.Prelude.{
  ℕ, ◌≡◌, ◌≢◌, refl, ◌∙◌, sym, ap, Bool, true, false, Bool-cases, inl, inr, Option, none, some,
  List, [], ◌∷◌, arith, if◌then◌else◌, ◌==◌, nat_eq, nat_beq_iff,
}
use controlis.Protocol.Frame.{protocol_version}
use controlis.Protocol.Message.{
  VideoCodec, Hello, ControlMessage, hello, auth_request, auth_response, pending_approval,
}
use controlis.Security.Code.{ConstantTimeEq}
use controlis.Security.ConnectCode.{ConnectCode, verify}
use controlis.Security.RateLimit.{GuardDecision, allow, blocked, check}
use controlis.Session.{
  approve, AuthResult, granted, World, Peer, Times, recv_timeout, reject, await_approval, announced,
  decided, approved, verified, guarded, requested, greeted, authenticate, HostCommand, command_from,
  send_by, recv_from,
}

module _ {F : Type 0} (ct : ConstantTimeEq) (code : ConnectCode) (manual : Bool) (peer : Peer)
    (times : Times) where
  -- What must have happened for the result `granted codecs`.
  pub record Granted (w : World F) (codecs : List VideoCodec) : Type 0 where
    pub greeting : Hello
    pub text : List ℕ
    pub rest : List (Option (ControlMessage F))
    pub read : w.incoming ≡ some (hello greeting) ∷ some (auth_request text) ∷ rest
    pub version : greeting.protocol_version ≡ protocol_version
    pub offered : greeting.supported_codecs ≡ codecs
    pub unblocked : (check w.guard peer.ip times.checked_at).1 ≡ allow
    pub verifies : verify ct code text ≡ true
    pub consent : manual ≡ true → (later : List HostCommand) × (w.commands ≡ approve ∷ later)

  announced_granted :
      (h : Hello) (x : World F × Bool) (codecs : List VideoCodec)
      → (announced peer h x).1 ≡ granted codecs
      → h.supported_codecs ≡ codecs
  announced_granted h (w, true) codecs e = cc
  announced_granted h (w, false) codecs e = cc

  greeted_granted :
      (w : World F) (o : Option (ControlMessage F)) (codecs : List VideoCodec)
      → (greeted ct code manual peer times (w, o)).1 ≡ granted codecs
      → (h : Hello) × (o ≡ some (hello h))
        × (h.protocol_version ≡ protocol_version)
        × ((requested ct code manual peer times h (recv_timeout w)).1 ≡ granted codecs)
  unfolding reject
  greeted_granted w none codecs e = absurd (cc)
  greeted_granted w (some (hello h)) codecs e =
      elim (Bool-cases (h.protocol_version == protocol_version)) [
        | inl speaks ↦ (h, refl, spoken speaks, rw speaks at e)
        | inr other ↦ absurd (wrong (rw other at e))
      ]
    where
      spoken :
          (h.protocol_version == protocol_version) ≡ true → h.protocol_version ≡ protocol_version
      spoken t = ground (arith, nat_beq_iff h.protocol_version protocol_version)

      wrong : AuthResult.ended ≢ granted codecs
      wrong e = cc
  greeted_granted w (some m) codecs e = absurd (cc)

  requested_granted :
      (h : Hello) (w : World F) (o : Option (ControlMessage F)) (codecs : List VideoCodec)
      → (requested ct code manual peer times h (w, o)).1 ≡ granted codecs
      → (text : List ℕ) × (o ≡ some (auth_request text))
        × (guarded manual peer times h
            (record w { guard = (check w.guard peer.ip times.checked_at).0 })
            (check w.guard peer.ip times.checked_at).1
            (verify ct code text)).1
          ≡ granted codecs
  unfolding reject
  requested_granted h w none codecs e = absurd (cc)
  requested_granted h w (some (auth_request text)) codecs e = (text, refl, e)
  requested_granted h w (some m) codecs e = absurd (cc)

  guarded_granted :
      (h : Hello) (w : World F) (d : GuardDecision) (good : Bool) (codecs : List VideoCodec)
      → (guarded manual peer times h w d good).1 ≡ granted codecs
      → (d ≡ allow) × (good ≡ true) × ((verified manual peer times h w true).1 ≡ granted codecs)
  guarded_granted h w (blocked wait) good codecs e = absurd (cc)
  guarded_granted h w allow true codecs e = (refl, refl, e)
  guarded_granted h w allow false codecs e = absurd (cc)

  approved_granted :
      (h : Hello) (x : World F × Bool) (codecs : List VideoCodec)
      → (approved peer times h x).1 ≡ granted codecs
      → (x.1 ≡ true) × (h.supported_codecs ≡ codecs)
  approved_granted h (w, true) codecs e = (refl, announced_granted h _ codecs e)
  approved_granted h (w, false) codecs e = absurd (cc)

  command_approve :
      (w : World F) (cs : List HostCommand)
      → (decided peer (command_from cs w)).1 ≡ true
      → (later : List HostCommand) × (cs ≡ approve ∷ later)
  command_approve w [] e = absurd (cc)
  command_approve w (approve ∷ later) e = (later, refl)
  command_approve w (c ∷ later) e = absurd (cc)

  send-commands :
      (bs : List Bool) (w : World F) (m : ControlMessage F)
      → (send_by bs w m).0.commands ≡ w.commands
  send-commands [] w m = refl
  send-commands (true ∷ bs) w m = refl
  send-commands (false ∷ bs) w m = refl

  await_approval-consent :
      (w : World F)
      → (await_approval peer w).1 ≡ true
      → (later : List HostCommand) × (w.commands ≡ approve ∷ later)
  unfolding await_approval
  await_approval-consent w e =
      let (later, h) = command_approve _ _ e in
      (later, sym (send-commands w.sends w (auth_response pending_approval)) ∙ h)

  consents :
      (w : World F) (b : Bool)
      → (if b then await_approval peer w else (w, true)).1 ≡ true
      → b ≡ true
      → (later : List HostCommand) × (w.commands ≡ approve ∷ later)
  consents w true e t = await_approval-consent w e
  consents w false e t = absurd (cc)

  requests_granted :
      (w : World F) (h : Hello) (xs : List (Option (ControlMessage F))) (codecs : List VideoCodec)
      → w.incoming ≡ some (hello h) ∷ xs
      → h.protocol_version ≡ protocol_version
      → (requested ct code manual peer times h (recv_from xs (record w { incoming = xs }))).1
        ≡ granted codecs
      → Granted w codecs
  unfolding reject
  requests_granted w h [] codecs r v e = absurd (cc)
  requests_granted w h (o ∷ rest) codecs r v e =
      let (text, eo, e') = requested_granted h (record w { incoming = rest }) o codecs e in
      let (d, good, e'') =
        guarded_granted h
          (record w { incoming = rest; guard = (check w.guard peer.ip times.checked_at).0 }) _ _
          codecs e' in
      let (agreed, offered) = approved_granted h _ codecs e'' in
      record {
        greeting = h;
        text = text;
        rest = rest;
        read = r ∙ ap (λ o. some (hello h) ∷ o ∷ rest) eo;
        version = v;
        offered = offered;
        unblocked = d;
        verifies = good;
        consent = consents _ manual agreed;
      }

  -- A viewer is let in only if its first two messages were a `Hello` of the host's protocol
  -- version, with the codecs that the session then uses, and an `AuthRequest` whose text verifies,
  -- if the guard did not block its address, and, where approval is required, if the next command
  -- of the host's user was to approve.
  pub authenticate-granted :
      (w : World F) (codecs : List VideoCodec)
      → (authenticate ct code manual peer times w).1 ≡ granted codecs
      → Granted w codecs
  unfolding authenticate reject
  authenticate-granted w codecs e = go w.incoming refl e
    where
      go :
          (xs : List (Option (ControlMessage F)))
          → w.incoming ≡ xs
          → (greeted ct code manual peer times (recv_from xs w)).1 ≡ granted codecs
          → Granted w codecs
      go [] r e = absurd (cc)
      go (o ∷ xs) r e =
          let (h, eo, v, e') = greeted_granted (record w { incoming = xs }) o codecs e in
          requests_granted w h xs codecs (r ∙ ap (λ o. o ∷ xs) eo) v e'

  await_approval-agrees :
      (w : World F) (later : List HostCommand)
      → w.sends ≡ []
      → w.commands ≡ approve ∷ later
      → ((await_approval peer w).0.sends ≡ []) × ((await_approval peer w).1 ≡ true)
  unfolding await_approval
  await_approval-agrees w later s c = rw (s, c) (refl, refl)

  approved_grants :
      (h : Hello) (x : World F × Bool)
      → (x.0.sends ≡ []) × (x.1 ≡ true)
      → (approved peer times h x).1 ≡ granted h.supported_codecs
  approved_grants h (w, true) p = rw p.0 refl
  approved_grants h (w, false) p = absurd (cc (p.1))

  -- A viewer whose first two messages, address and code meet all that is asked, approval included,
  -- is let in with the codecs that it offered, if the sends succeed.
  pub authenticate-grants :
      (w : World F) (codecs : List VideoCodec)
      → w.sends ≡ []
      → Granted w codecs
      → (authenticate ct code manual peer times w).1 ≡ granted codecs
  unfolding authenticate
  authenticate-grants w codecs s g =
      rw (g.read, speaks, g.unblocked, g.verifies)
        (elim (Bool-cases manual) [
          | inl asks ↦ rw asks (
              approved_grants g.greeting _ (await_approval-agrees asked _ s (g.consent asks).1)
              ∙ ap granted g.offered)
          | inr trusts ↦ rw (trusts, s) (ap granted g.offered)
        ])
    where
      asked : World F
      asked = record w { incoming = g.rest; guard = (check w.guard peer.ip times.checked_at).0 }

      speaks : (g.greeting.protocol_version == protocol_version) ≡ true
      speaks = ground (arith, nat_beq_iff g.greeting.protocol_version protocol_version, g.version)
