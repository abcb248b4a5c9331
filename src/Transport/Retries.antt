-- ===== src/Transport/Retries.antt =====
-- internal/transport/transport.go: the bootstrap ends with a key in spite of what else arrives.
use quantumcat.Base.{
  replicate, Bytes, Bool, true, false, ◌≡◌, refl, ap, ◌∙◌, List, [], ◌∷◌, ◌++◌, All, arith,
}
use quantumcat.Crypto.{Crypto}
use quantumcat.Handshake.Client.{Client, ClientError, ok, err, complete, accepted}
use quantumcat.Transport.{
  Event, cancelled, tick, reply, Boot, connected, receive, react, bootstrap, started,
}
use quantumcat.Transport.Confirmed.{receive_failed, receive_done, proven, resume, bootstrap-reply}

module _ (c : Crypto) (cl : Client) where
  -- Nothing that ends the wait for the server's hello: a second passes and the packet sent again is
  -- taken, or a packet arrives that does not complete the handshake.
  abbrev pub IsNoise : Event → Type 0
  IsNoise cancelled = ⊥
  IsNoise (tick taken) = taken ≡ true
  IsNoise (reply packet taken) = (e : ClientError) × ((complete c cl packet).1 ≡ err e)

  -- The same for the wait for the acknowledgement.
  abbrev pub IsOther : Event → Type 0
  IsOther cancelled = ⊥
  IsOther (tick taken) = taken ≡ true
  IsOther (reply packet taken) = accepted cl packet ≡ false

  through_noise :
      (b : Boot) (noise rest : List Event)
      → b.client ≡ cl
      → b.finishing ≡ false
      → All IsNoise noise
      → (b' : Boot) × ((b'.client ≡ cl)
          × ((b'.finishing ≡ false)
              × ((bootstrap c b (noise ++ rest)).0 ≡ (bootstrap c b' rest).0)))
  unfolding bootstrap react
  through_noise b [] rest same f h = (b, (same, (f, refl)))
  through_noise b (cancelled ∷ noise) rest same f h = absurd (h.0)
  through_noise b (tick false ∷ noise) rest same f h = absurd cc
  through_noise b (tick true ∷ noise) rest same f h = through_noise b noise rest same f h.1
  through_noise b (reply packet taken ∷ noise) rest same f ((e, failed), h) =
      let now =
        receive_failed c b packet taken e f (ap (λ x. (complete c x packet).1) same ∙ failed) in
      let (b', (client, (wait, later))) =
        through_noise (record b { psk = replicate 32 0 }) noise rest same f h in
      (
        b',
        (
          client,
          (
            wait,
            bootstrap-reply c b packet taken (noise ++ rest)
                ∙ ap (λ x. resume c x (noise ++ rest)) now
                ∙ later,
          ),
        ),
      )

  through_others :
      (b : Boot) (others : List Event) (ack : Bytes) (taken : Bool) (rest : List Event)
      → b.client ≡ cl
      → b.finishing ≡ true
      → All IsOther others
      → accepted cl ack ≡ true
      → (bootstrap c b (others ++ (reply ack taken ∷ rest))).0 ≡ connected b.psk
  unfolding bootstrap react receive
  through_others b [] ack taken rest same f h yes_ack =
      let shown : accepted b.client ack ≡ true = ap (λ x. accepted x ack) same ∙ yes_ack in
      ground arith
  through_others b (cancelled ∷ others) ack taken rest same f h yes_ack = absurd h.0
  through_others b (tick false ∷ others) ack taken rest same f h yes_ack = absurd cc
  through_others b (tick true ∷ others) ack taken rest same f h yes_ack =
      through_others b others ack taken rest same f h.1 yes_ack
  through_others b (reply packet now ∷ others) ack taken rest same f (other, h) yes_ack =
      let ignored : accepted b.client packet ≡ false = ap (λ x. accepted x packet) same ∙ other in
      let later = through_others b others ack taken rest same f h yes_ack in ground arith

-- The bootstrap connects with the key of the first packet that completes the handshake, whatever
-- arrives before it without completing the handshake, and between it and the first packet that
-- acknowledges it, as long as the context does not end and every packet sent is taken.
pub connects_through :
    (c : Crypto) (cl : Client) (hello packet psk finish ack : Bytes)
    (noise others rest : List Event)
    → All (IsNoise c cl) noise
    → (complete c cl packet).1 ≡ ok (psk, finish)
    → All (IsOther c (complete c cl packet).0) others
    → accepted (complete c cl packet).0 ack ≡ true
    → (bootstrap c
        (started c cl hello)
        (noise ++ (reply packet true ∷ (others ++ (reply ack true ∷ rest))))).0
      ≡ connected psk
connects_through c cl hello packet psk finish ack noise others rest quiet done still acked =
    let after = others ++ (reply ack true ∷ rest) in
    let (b, (same, (wait, reached))) =
      through_noise c cl (started c cl hello) noise (reply packet true ∷ after) refl refl quiet in
    let now =
      receive_done c b packet psk finish true wait
        (ap (λ x. (complete c x packet).1) same ∙ done) in
    let client : (complete c b.client packet).0 ≡ (complete c cl packet).0 =
      ap (λ x. (complete c x packet).0) same in
    reached
    ∙ bootstrap-reply c b packet true after
    ∙ ap (λ x. resume c x after) now
    ∙ through_others c (complete c cl packet).0 (proven c b.client packet psk finish) others ack
        true rest client refl still acked
