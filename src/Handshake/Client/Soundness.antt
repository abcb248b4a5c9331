-- ===== src/Handshake/Client/Soundness.antt =====
-- When `Complete` of internal/protocol/handshake.go returns a key, and what it leaves otherwise.
use quantumcat.Base.{
  ◌-◌, ◌≡◌, refl, Bytes, bytes_eq, bytes_eq_iff, true, false, not, ◌==◌, some, length, drop, slice,
  arith, Option-cases, if_cases, not_eq_false, inl, inr,
}
use quantumcat.Crypto.{Crypto}
use quantumcat.Wire.{parse, verify, transcript, server_hello, server_context, proof_size}
use quantumcat.Handshake.{derive, proof, server_finished}
use quantumcat.Handshake.Client.{
  Client, Result, ok, err, complete, complete_payload, exchange, confirm, expected, decapsulate,
}

module _ (c : Crypto) where
  -- A server hello that the client has every reason to believe: it comes from the pinned server and
  -- its transport keys, the signature covers the transcript with the client's own hello, and the
  -- proof shows knowledge of the decapsulated secret.
  pub record IsProven (cl : Client) (packet psk finish : Bytes) : Type 0 where
    pub b : Bytes
    pub ss : Bytes
    pub hk : Bytes
    pub parsed : parse packet ≡ some (server_hello, b)
    pub pinned : expected c cl b ≡ true
    pub signed :
        verify c cl.server_public server_context
          (transcript c cl.hello cl.server cl.keys (slice 96 128 b) (slice 128 1696 b)).0
          (slice 1696 (length b - proof_size) b)
        ≡ true
    pub alive : cl.live ≡ true
    pub opened : cl.kem.decapsulate (slice 128 1696 b) ≡ some ss
    pub derived :
        derive c ss (transcript c cl.hello cl.server cl.keys (slice 96 128 b) (slice 128 1696 b)).1
        ≡ some (psk, hk)
    pub confirmed :
        proof c hk server_finished
          (transcript c cl.hello cl.server cl.keys (slice 96 128 b) (slice 128 1696 b)).1
        ≡ drop (length b - proof_size) b

  -- An error leaves the client as it was; a key comes with the proof, and ends the KEM.
  abbrev pub Outcome : Client → Bytes → Client × Result (Bytes × Bytes) → Type 0
  Outcome cl packet (cl', err e) = cl' ≡ cl
  Outcome cl packet (cl', ok (psk, finish)) = IsProven cl packet psk finish × (cl'.live ≡ false)

  confirm-Outcome :
      (cl : Client) (packet b ss psk hk : Bytes)
      → parse packet ≡ some (server_hello, b)
      → expected c cl b ≡ true
      → verify c cl.server_public server_context
          (transcript c cl.hello cl.server cl.keys (slice 96 128 b) (slice 128 1696 b)).0
          (slice 1696 (length b - proof_size) b)
        ≡ true
      → decapsulate c cl (slice 128 1696 b) ≡ some ss
      → derive c ss (transcript c cl.hello cl.server cl.keys (slice 96 128 b) (slice 128 1696 b)).1
        ≡ some (psk, hk)
      → Outcome cl packet (
          confirm c cl
            (transcript c cl.hello cl.server cl.keys (slice 96 128 b) (slice 128 1696 b)).1
            psk
            hk
            (drop (length b - proof_size) b))
  unfolding confirm
  confirm-Outcome cl packet b ss psk hk parsed pinned signed opened derived =
      let hash = (transcript c cl.hello cl.server cl.keys (slice 96 128 b) (slice 128 1696 b)).1 in
      if_cases (Outcome cl packet)
        (not (bytes_eq (proof c hk server_finished hash) (drop (length b - proof_size) b)))
        (λ _. refl)
        λ same. (
          record {
            b = b;
            ss = ss;
            hk = hk;
            parsed = parsed;
            pinned = pinned;
            signed = signed;
            alive = ground arith;
            opened = ground arith;
            derived = derived;
            confirmed = (bytes_eq_iff _ _).0 (not_eq_false _ same);
          },
          refl,
        )

  payload-Outcome :
      (cl : Client) (packet b : Bytes)
      → parse packet ≡ some (server_hello, b)
      → Outcome cl packet (complete_payload c cl b)
  unfolding complete_payload exchange
  payload-Outcome cl packet b parsed =
      let t = transcript c cl.hello cl.server cl.keys (slice 96 128 b) (slice 128 1696 b) in
      if_cases (Outcome cl packet) (not (expected c cl b)) (λ _. refl)
        λ pinned.
          if_cases (Outcome cl packet)
            (not
              (verify c cl.server_public server_context t.0 (slice 1696 (length b - proof_size) b)))
            (λ _. refl)
            λ signed. elim (Option-cases (decapsulate c cl (slice 128 1696 b))) [
              | inl e ↦ rw (e, exchange) refl
              | inr (ss, e) ↦
                  rw (e, exchange)
                    (elim (Option-cases (derive c ss t.1)) [
                      | inl d ↦ rw d refl
                      | inr ((psk, hk), d) ↦ rw d (
                          confirm-Outcome cl packet b ss psk hk parsed (not_eq_false _ pinned)
                            (not_eq_false _ signed) e d)
                    ])
            ]

  -- Every packet has one of the two outcomes.
  pub complete-Outcome : (cl : Client) (packet : Bytes) → Outcome cl packet (complete c cl packet)
  unfolding complete
  complete-Outcome cl packet = elim (Option-cases (parse packet)) [
    | inl e ↦ rw (e, complete) refl
    | inr ((kind, b), e) ↦
        rw (e, complete)
          (if_cases (Outcome cl packet) (not (kind == server_hello)) (λ _. refl)
            λ k. payload-Outcome cl packet b (ground arith))
  ]
