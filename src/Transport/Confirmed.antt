-- ===== src/Transport/Confirmed.antt =====
-- internal/transport/transport.go: when the bootstrap gives a key.
use quantumcat.Base.{
  replicate, Bytes, Bool, true, false, ◌≡◌, refl, subst, ap, sym, ◌∙◌, if◌then◌else◌, Bool-cases,
  inl, inr, ◌⊎◌, List, [], ◌∷◌, arith,
}
use quantumcat.Crypto.{Crypto}
use quantumcat.Handshake.Client.{Client, ClientError, Result, ok, err, complete, accepted}
use quantumcat.Handshake.Client.Soundness.{IsProven, Outcome, complete-Outcome}
use quantumcat.Transport.{
  Event, cancelled, tick, reply, Boot, Progress, going, connected, stopped, receive, react,
  bootstrap,
}

pub Result-cases :
    (r : Result (Bytes × Bytes))
    → ((e : ClientError) × (r ≡ err e)) ⊎ ((k : Bytes × Bytes) × (r ≡ ok k))
Result-cases (err e) = inl (e, refl)
Result-cases (ok k) = inr (k, refl)

module _ (c : Crypto) where
  Outcome-err :
      (cl : Client) (packet : Bytes) (x : Client × Result (Bytes × Bytes)) (e : ClientError)
      → x.1 ≡ err e
      → Outcome c cl packet x
      → x.0 ≡ cl
  Outcome-err cl packet (cl', err d) e h o = o
  Outcome-err cl packet (cl', ok k) e h o = absurd cc

  Outcome-ok :
      (cl : Client) (packet psk finish : Bytes) (x : Client × Result (Bytes × Bytes))
      → x.1 ≡ ok (psk, finish)
      → Outcome c cl packet x
      → IsProven c cl packet psk finish
  Outcome-ok cl packet psk finish (cl', err e) h o = absurd cc
  Outcome-ok cl packet psk finish (cl', ok (k, f)) h o =
      let key : k ≡ psk = cc in
      let last : f ≡ finish = cc in
      subst (λ f. IsProven c cl packet psk f) last (subst (λ k. IsProven c cl packet k f) key o.0)

  -- A packet that does not complete changes nothing but the key, which is not in use yet.
  pub receive_failed :
      (b : Boot) (packet : Bytes) (taken : Bool) (e : ClientError)
      → b.finishing ≡ false
      → (complete c b.client packet).1 ≡ err e
      → receive c b packet taken ≡ (going (record b { psk = replicate 32 0 }), [])
  unfolding receive
  receive_failed b packet taken e f h =
      let same : (complete c b.client packet).0 ≡ b.client =
        Outcome-err b.client packet (complete c b.client packet) e h
          (complete-Outcome c b.client packet) in
      rw (receive, h) (ground (arith, same))

  -- The client that has proven a key waits for the acknowledgement.
  abbrev pub proven : Client → Bytes → Bytes → Bytes → Boot
  proven cl packet psk finish = record {
    client = (complete c cl packet).0;
    packet = finish;
    psk = psk;
    finishing = true;
  }

  pub receive_done :
      (b : Boot) (packet psk finish : Bytes) (taken : Bool)
      → b.finishing ≡ false
      → (complete c b.client packet).1 ≡ ok (psk, finish)
      → receive c b packet taken
        ≡ (if taken then going (proven b.client packet psk finish) else stopped, finish ∷ [])
  unfolding receive
  receive_done b packet psk finish taken f h = rw (receive, h) (ground arith)

  -- The loop behind one packet.
  abbrev pub resume : Progress × List Bytes → List Event → Progress
  resume (going b, sent) rest = (bootstrap c b rest).0
  resume (connected psk, sent) rest = connected psk
  resume (stopped, sent) rest = stopped

  pub bootstrap-reply :
      (b : Boot) (packet : Bytes) (taken : Bool) (rest : List Event)
      → (bootstrap c b (reply packet taken ∷ rest)).0 ≡ resume (receive c b packet taken) rest
  unfolding bootstrap react
  bootstrap-reply b packet taken rest = ground arith

  -- A packet of the list is the acknowledgement that the client expects.
  abbrev pub Acknowledged : Client → List Event → Type 0
  Acknowledged cl [] = ⊥
  Acknowledged cl (cancelled ∷ rest) = ⊥
  Acknowledged cl (tick taken ∷ rest) = Acknowledged cl rest
  Acknowledged cl (reply packet taken ∷ rest) = (accepted cl packet ≡ true) ⊎ Acknowledged cl rest

  -- A packet proves the key, and a later one acknowledges it, before the context ends.
  abbrev pub Confirmed : Client → Bytes → List Event → Type 0
  Confirmed cl psk [] = ⊥
  Confirmed cl psk (cancelled ∷ rest) = ⊥
  Confirmed cl psk (tick taken ∷ rest) = Confirmed cl psk rest
  Confirmed cl psk (reply packet taken ∷ rest) =
      ((finish : Bytes) × (IsProven c cl packet psk finish
          × Acknowledged (complete c cl packet).0 rest))
      ⊎ Confirmed cl psk rest

  finishing-Acknowledged :
      (b : Boot) (events : List Event) (psk : Bytes)
      → b.finishing ≡ true
      → (bootstrap c b events).0 ≡ connected psk
      → (b.psk ≡ psk) × Acknowledged b.client events
  unfolding bootstrap react receive
  finishing-Acknowledged b [] psk f h = absurd cc
  finishing-Acknowledged b (cancelled ∷ rest) psk f h = absurd cc
  finishing-Acknowledged b (tick true ∷ rest) psk f h = finishing-Acknowledged b rest psk f h
  finishing-Acknowledged b (tick false ∷ rest) psk f h = absurd cc
  finishing-Acknowledged b (reply packet taken ∷ rest) psk f h =
      elim (Bool-cases (accepted b.client packet)) [
        | inl shown ↦ (ground arith, inl shown)
        | inr ignored ↦
            let later : (bootstrap c b rest).0 ≡ connected psk = ground arith in
            let (key, acked) = finishing-Acknowledged b rest psk f later in (key, inr acked)
      ]

  continues :
      (taken : Bool) (cl : Client) (packet key finish : Bytes) (rest : List Event) {psk : Bytes}
      → resume (if taken then going (proven cl packet key finish) else stopped, finish ∷ []) rest
        ≡ connected psk
      → (bootstrap c (proven cl packet key finish) rest).0 ≡ connected psk
  continues true cl packet key finish rest h = h
  continues false cl packet key finish rest h = absurd cc

  -- When the loop that waits for the server's hello gives a key: a packet proved this key, by the
  -- pinned server's signature and the shared secret, and a later packet acknowledged it.
  pub bootstrap-Confirmed :
      (b : Boot) (events : List Event) (psk : Bytes)
      → b.finishing ≡ false
      → (bootstrap c b events).0 ≡ connected psk
      → Confirmed b.client psk events
  unfolding bootstrap react
  bootstrap-Confirmed b [] psk f h = absurd cc
  bootstrap-Confirmed b (cancelled ∷ rest) psk f h = absurd cc
  bootstrap-Confirmed b (tick true ∷ rest) psk f h = bootstrap-Confirmed b rest psk f h
  bootstrap-Confirmed b (tick false ∷ rest) psk f h = absurd cc
  bootstrap-Confirmed b (reply packet taken ∷ rest) psk f h =
      elim (Result-cases (complete c b.client packet).1) [
        | inl (e, failed) ↦
            let now = receive_failed b packet taken e f failed in
            let later : (bootstrap c (record b { psk = replicate 32 0 }) rest).0 ≡ connected psk =
              sym (ap (λ x. resume x rest) now) ∙ sym (bootstrap-reply b packet taken rest) ∙ h in
            inr (bootstrap-Confirmed (record b { psk = replicate 32 0 }) rest psk f later)
        | inr ((key, finish), done) ↦
            let now = receive_done b packet key finish taken f done in
            let later : (bootstrap c (proven b.client packet key finish) rest).0 ≡ connected psk =
              continues taken (b.client) packet key finish rest (
                sym (ap (λ x. resume x rest) now)
                ∙ sym (bootstrap-reply b packet taken rest)
                ∙ h) in
            let (same, acked) =
              finishing-Acknowledged (proven b.client packet key finish) rest psk refl later in
            inl (
              finish,
              (
                subst (λ k. IsProven c b.client packet k finish) same
                    (Outcome-ok b.client packet key finish (complete c b.client packet) done
                      (complete-Outcome c b.client packet)),
                acked,
              ),
            )
      ]
