-- ===== src/Transport/Receive.antt =====
-- Control messages arrive whole and in order, however the stream is cut into reads.
use mathlib.Core.List.{append_assoc}
use controlis.Prelude.{
  ℕ, ◌≤◌, ◌≡◌, refl, sym, ap, ◌∙◌, true, false, inl, inr, none, some, List, [], ◌∷◌, ◌++◌, length,
  arith, Result, ok, ltb, All, Bool-cases, length-append, zero, suc, map, ◌>>=◌, Option-cases,
  Result-cases,
}
use controlis.Protocol.Frame.{Postcard, encode, decode, extend, max_message_len}
use controlis.Protocol.Frame.Stream.{frame, next_frame_cases}
use controlis.Transport.{
  TransportError, Read, bytes, failed, ControlReceiver, recv_from, recv, send,
}

-- The bytes that are still to be read, when no read fails.
abbrev pub unread : List Read → List ℕ
unread [] = []
unread (bytes b ∷ reads) = b ++ unread reads
unread (failed ∷ reads) = []

abbrev pub IsSound : Read → Type 0
IsSound (bytes b) = Unit
IsSound failed = ⊥

abbrev pub Sound : List Read → Type 0
Sound = All IsSound

-- What the peer has written and the program has not taken yet.
abbrev pub pending : ControlReceiver → List ℕ
pending r = r.decoder.buffer ++ unread r.recv

module _ {M : Type 0} (pc : Postcard M) where
  recv_from-frame :
      (reads : List Read) (xs : List ℕ) (body rest : List ℕ) (m : M)
      → pc.from_bytes body ≡ some m
      → length body ≤ max_message_len
      → Sound reads
      → xs ++ unread reads ≡ frame body ++ rest
      → (r : ControlReceiver) × (recv_from pc (record { buffer = xs }) reads ≡ (r, ok m))
        × (pending r ≡ rest)
        × Sound r.recv
  unfolding recv_from extend decode
  recv_from-frame [] xs body rest m e h s eq = elim (next_frame_cases xs [] body rest h eq) [
    | inl (short, _) ↦
        absurd (omega (arith, ap length eq, length-append xs [], length-append (frame body) rest))
    | inr (ws, p, q) ↦
        (record { recv = []; decoder = record { buffer = ws } }, rw p (rw e), sym q, tt)
  ]
  recv_from-frame (failed ∷ reads) xs body rest m e h s eq = absurd s.0
  recv_from-frame (bytes b ∷ reads) xs body rest m e h s eq =
      elim (next_frame_cases xs (b ++ unread reads) body rest h eq) [
        | inl (_, p) ↦
            let (r, q, t, u) =
              recv_from-frame reads (xs ++ b) body rest m e h s.1
                (append_assoc xs b (unread reads) ∙ eq) in
            (r, rw p q, t, u)
        | inr (ws, p, q) ↦ (
          record { recv = bytes b ∷ reads; decoder = record { buffer = ws } },
          rw p (rw e),
          sym q,
          s,
        )
      ]

  frame_inversion :
      (m : M) (b : List ℕ)
      → send pc true m ≡ ok b
      → (body : List ℕ) × (pc.from_bytes body ≡ some m)
        × (length body ≤ max_message_len)
        × (b ≡ frame body)
  unfolding send encode
  frame_inversion m b e = elim (Option-cases (pc.to_stdvec m)) [
    | inl none_ ↦ absurd (unserialized none_)
    | inr (body, p) ↦ elim (Bool-cases (ltb max_message_len (length body))) [
      | inl large ↦ absurd (too_large body p large)
      | inr fits ↦
          (body, pc.from_bytes-to_stdvec m body p, ground (arith, fits), framed body p fits)
    ]
  ]
    where
      unserialized : pc.to_stdvec m ≡ none → ⊥
      unserialized p = cc

      too_large :
          (body : List ℕ)
          → pc.to_stdvec m ≡ some body
          → ltb max_message_len (length body) ≡ true
          → ⊥
      too_large body p large = ground arith

      framed :
          (body : List ℕ)
          → pc.to_stdvec m ≡ some body
          → ltb max_message_len (length body) ≡ false
          → b ≡ frame body
      framed body p fits = ground arith

  -- One `recv` takes one message that was sent off the stream and leaves what follows it, if no read
  -- fails.
  pub recv-send :
      (r : ControlReceiver) (m : M) (b rest : List ℕ)
      → send pc true m ≡ ok b
      → Sound r.recv
      → pending r ≡ b ++ rest
      → (r' : ControlReceiver) × (recv pc r ≡ (r', ok m)) × (pending r' ≡ rest) × Sound r'.recv
  unfolding recv
  recv-send r m b rest e s p =
      let (body, d, h, f) = frame_inversion m b e in
      recv_from-frame r.recv r.decoder.buffer body rest m d h s
        (p ∙ ap (λ (x : List ℕ). x ++ rest) f)

  -- All that the peer's calls of `send` write, one after another.
  unfoldable pub send_each : List M → Result (List ℕ) TransportError
  send_each [] = ok []
  send_each (m ∷ ms) = do b ← send pc true m; t ← send_each ms; ok (b ++ t)

  -- The results of `n` calls of `recv`.
  unfoldable pub recv_each : ℕ → ControlReceiver → List (Result M TransportError)
  recv_each zero r = []
  recv_each (suc n) r = (recv pc r).1 ∷ recv_each n (recv pc r).0

  send_each_inversion :
      (m : M) (ms : List M) (s : List ℕ)
      → send_each (m ∷ ms) ≡ ok s
      → (b t : List ℕ) × (send pc true m ≡ ok b) × (send_each ms ≡ ok t) × (s ≡ b ++ t)
  unfolding send_each
  send_each_inversion m ms s e = elim (Result-cases (send pc true m)) [
    | inr (x, p) ↦ absurd (cc (e, p))
    | inl (b, p) ↦ elim (Result-cases (send_each ms)) [
      | inr (x, q) ↦ absurd (cc (e, p, q))
      | inl (t, q) ↦ (b, t, p, q, cc (e, p, q))
    ]
  ]

  -- Messages that were all sent are received one by one and in order, whatever the sizes of the
  -- reads, if no read fails.
  pub recv_each-send_each :
      (ms : List M) (s : List ℕ) (r : ControlReceiver)
      → send_each ms ≡ ok s
      → Sound r.recv
      → pending r ≡ s
      → recv_each (length ms) r ≡ map ok ms
  unfolding recv_each
  recv_each-send_each [] s r e h p = refl
  recv_each-send_each (m ∷ ms) s r e h p =
      let (b, t, sent, later, split) = send_each_inversion m ms s e in
      let (r', q, rest, sound) = recv-send r m b t sent h (p ∙ split) in
      rw q (ap (◌∷◌ (ok m)) (recv_each-send_each ms t r' later sound rest))
