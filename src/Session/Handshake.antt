-- ===== src/Session/Handshake.antt =====
-- Both ends of the handshake: what the viewer makes of the host's answers, and how a wrong code
-- counts against the limit on guesses.
use controlis.Prelude.{
  ℕ, ◌≡◌, refl, ◌∙◌, ap, Bool, true, false, Bool-cases, inl, inr, Option, none, some, List, [], ◌∷◌,
  ◌++◌, map, arith, ◌==◌, nat_eq, nat_beq_iff, Result, ok, err,
}
use controlis.Protocol.Frame.{protocol_version}
use controlis.Protocol.Message.{Hello, ControlMessage, hello, auth_request}
use controlis.Security.Code.{ConstantTimeEq}
use controlis.Security.ConnectCode.{ConnectCode, verify}
use controlis.Security.RateLimit.{GuardDecision, allow, blocked, check, record_failure}
use controlis.Security.RateLimit.Budget.{answered, guess}
use controlis.Session.{
  approve, AuthResult, granted, ended, World, Peer, Times, reject, await_approval, approved,
  verified, guarded, requested, greeted, authenticate, HostCommand, recv_from, send_by,
  wrong_version,
}
use controlis.Session.Viewer.{ViewerError, await_outcome}

module _ {F : Type 0} where
  -- A host that let the viewer in has told it so last, and the viewer reads on after that; a host
  -- that ended has told it why not.
  abbrev pub Agrees :
      List (Option (ControlMessage F))
      → AuthResult
      → Result (List (Option (ControlMessage F))) ViewerError
      → Type 0
  Agrees later (granted codecs) r = r ≡ ok later
  Agrees later ended r = (e : ViewerError) × (r ≡ err e)

  abbrev heard :
      World F
      → List (Option (ControlMessage F))
      → Result (List (Option (ControlMessage F))) ViewerError
  heard w later = await_outcome (map some w.sent ++ later)

  abbrev Told : List (Option (ControlMessage F)) → World F × AuthResult → Type 0
  Told later (w, r) = Agrees later r (heard w later)

  -- Nothing is sent yet, or only that the approval is pending; the sends succeed.
  abbrev Quiet : World F → Type 0
  Quiet w = (w.sends ≡ []) × (w.sent ≡ [])

  module _ (ct : ConstantTimeEq) (code : ConnectCode) (manual : Bool) (peer : Peer) (times : Times)
      (later : List (Option (ControlMessage F))) where
    reject-Told : (w : World F) (reason : List ℕ) → Quiet w → Told later (reject peer w reason)
    unfolding reject await_outcome
    reject-Told w reason q = rw (q.0, q.1) (_, refl)

    wrong_version-Told : (w : World F) (v : ℕ) → Quiet w → Told later (wrong_version peer w v)
    unfolding await_outcome
    wrong_version-Told w v q = rw (q.0, q.1) (_, refl)

    approval-Told :
        (w : World F) (h : Hello) (cs : List HostCommand)
        → Quiet w
        → w.commands ≡ cs
        → Told later (approved peer times h (await_approval peer w))
    unfolding await_outcome await_approval
    approval-Told w h [] q c = rw (q.0, q.1, c) (_, refl)
    approval-Told w h (approve ∷ cs) q c = rw (q.0, q.1, c) refl
    approval-Told w h (_ ∷ cs) q c = rw (q.0, q.1, c) (_, refl)

    approved-Told :
        (w : World F) (h : Hello) → Quiet w → Told later (approved peer times h (w, true))
    unfolding await_outcome
    approved-Told w h q = rw (q.0, q.1) refl

    verified-Told :
        (w : World F) (h : Hello) (b good : Bool)
        → Quiet w
        → Told later (verified b peer times h w good)
    unfolding await_outcome
    verified-Told w h b false q = rw (q.0, q.1) (_, refl)
    verified-Told w h true true q = approval-Told w h w.commands q refl
    verified-Told w h false true q = approved-Told w h q

    guarded-Told :
        (w : World F) (h : Hello) (d : GuardDecision) (good : Bool)
        → Quiet w
        → Told later (guarded manual peer times h w d good)
    unfolding await_outcome
    guarded-Told w h (blocked wait) good q = rw (q.0, q.1) (_, refl)
    guarded-Told w h allow good q = verified-Told w h manual good q

    requested-Told :
        (w : World F) (h : Hello) (o : Option (ControlMessage F))
        → Quiet w
        → Told later (requested ct code manual peer times h (w, o))
    requested-Told w h (some (auth_request text)) q = guarded-Told _ h _ _ q
    requested-Told w h (some m) q = reject-Told w _ q
    requested-Told w h none q = reject-Told w _ q

    next-Told :
        (w : World F) (h : Hello) (xs : List (Option (ControlMessage F)))
        → Quiet w
        → Told later (requested ct code manual peer times h (recv_from xs w))
    next-Told w h [] q = requested-Told w h none q
    next-Told w h (o ∷ xs) q = requested-Told (record w { incoming = xs }) h o q

    greeted-Told :
        (w : World F) (o : Option (ControlMessage F))
        → Quiet w
        → Told later (greeted ct code manual peer times (w, o))
    greeted-Told w (some (hello h)) q = elim (Bool-cases (h.protocol_version == protocol_version)) [
      | inl speaks ↦ rw speaks (next-Told w h w.incoming q)
      | inr other ↦ rw other (wrong_version-Told w h.protocol_version q)
    ]
    greeted-Told w (some m) q = reject-Told w _ q
    greeted-Told w none q = reject-Told w _ q

    -- Whatever a viewer sent: where the host let it in, reading the host's answers gets past the
    -- loop with all that follows them still to read, and where the host ended, the loop ends with
    -- an error. The sends of the host succeed, and it sent nothing before.
    pub await_outcome-authenticate :
        (w : World F)
        → Quiet w
        → Agrees later
            (authenticate ct code manual peer times w).1
            (await_outcome (map some (authenticate ct code manual peer times w).0.sent ++ later))
    unfolding authenticate
    await_outcome-authenticate w q = go w.incoming
      where
        go :
            (xs : List (Option (ControlMessage F)))
            → Told later (greeted ct code manual peer times (recv_from xs w))
        go [] = greeted-Told w none q
        go (o ∷ xs) = greeted-Told (record w { incoming = xs }) o q

  module _ (ct : ConstantTimeEq) (code : ConnectCode) (manual : Bool) (peer : Peer)
      (times : Times) where
    send-guard :
        (bs : List Bool) (w : World F) (m : ControlMessage F) → (send_by bs w m).0.guard ≡ w.guard
    send-guard [] w m = refl
    send-guard (true ∷ bs) w m = refl
    send-guard (false ∷ bs) w m = refl

    guarded-guard :
        (w : World F) (h : Hello) (d : GuardDecision)
        → times.failed_at ≡ times.checked_at
        → (guarded manual peer times h w d false).0.guard
          ≡ (answered d w.guard peer.ip times.checked_at).0
    guarded-guard w h (blocked wait) same = send-guard w.sends _ _
    guarded-guard w h allow same = send-guard w.sends _ _ ∙ ap (record_failure w.guard peer.ip) same

    -- A wrong code, in a well-formed handshake whose two clock readings agree, costs the viewer's
    -- address what one guess costs in the model that bounds the guesses.
    pub authenticate-guess :
        (w : World F) (h : Hello) (text : List ℕ) (rest : List (Option (ControlMessage F)))
        → w.incoming ≡ some (hello h) ∷ some (auth_request text) ∷ rest
        → h.protocol_version ≡ protocol_version
        → verify ct code text ≡ false
        → times.failed_at ≡ times.checked_at
        → (authenticate ct code manual peer times w).0.guard
          ≡ (guess w.guard peer.ip times.checked_at).0
    unfolding authenticate guess
    authenticate-guess w h text rest r v wrong same =
        rw (r, speaks, wrong)
          (guarded-guard
            (record w { incoming = rest; guard = (check w.guard peer.ip times.checked_at).0 }) h
            (check w.guard peer.ip times.checked_at).1 same)
      where
        speaks : (h.protocol_version == protocol_version) ≡ true
        speaks = ground (arith, nat_beq_iff h.protocol_version protocol_version)
