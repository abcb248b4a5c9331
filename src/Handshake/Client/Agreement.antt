-- ===== src/Handshake/Client/Agreement.antt =====
-- The two ends of internal/protocol/handshake.go agree: the server's answer completes at the client
-- whose hello it answers, the client's finish installs the entry, and both have one key.
use quantumcat.Base.{
  ◌-◌, ◌≡◌, ◌≢◌, refl, ap, ◌∙◌, Bytes, bytes_eq_iff, bytes_eq_self, true, false, some, [], ◌∷◌,
  ◌++◌, append-nil, length, length-append, take, drop, slice, take-append_left, drop-append_left,
  any, arith, Option-cases, inl, inr,
}
use quantumcat.Base.Assoc.{lookup, bytes_key}
use quantumcat.Crypto.{Crypto, HasSizes}
use quantumcat.Wire.{
  Keys, frame, parse, join, payload_size, peer_id, verify, transcript, lookup_peer, server_hello,
  client_finish, server_accepted, server_context,
}
use quantumcat.Wire.Framing.{parse-frame}
use quantumcat.Handshake.{derive, proof, server_finished, client_finished, accepted_label}
use quantumcat.Handshake.Server.{Server, Pending}
use quantumcat.Handshake.Server.Finish.{
  finish, finish_pending, begin_install, may_finish, is_competing, session_of,
}
use quantumcat.Handshake.Server.Hello.{Draws, Answer, answer}
use quantumcat.Handshake.Client.HelloParts.{
  hello_payload, length-payload, sid_part, wg_part, disco_part, nonce_part, ct_part, sig_part,
  tag_part,
}
use quantumcat.Handshake.Client.{
  Client, Result, ok, complete, complete_payload, exchange, confirm, expected, accepted,
}

-- What `answer` drew and computed.
record Drawn (c : Crypto) (d : Draws) (s : Server) (hello : Bytes) (a : Answer) : Type 0 where
  ss : Bytes
  ct : Bytes
  nonce : Bytes
  sig : Bytes
  sealed : d.encapsulate (drop 200 hello) ≡ some (ss, ct)
  drew : d.nonce ≡ some nonce
  hashed : a.hash ≡ (transcript c hello (peer_id c s.public) s.keys nonce ct).1
  derived : derive c ss a.hash ≡ some (a.psk, a.hk)
  signed :
      d.sign server_context (transcript c hello (peer_id c s.public) s.keys nonce ct).0 ≡ some sig
  sent :
      a.packet
      ≡ frame server_hello (
          join (
            peer_id c s.public
            ∷ s.keys.wg
            ∷ s.keys.disco
            ∷ nonce
            ∷ ct
            ∷ sig
            ∷ proof c a.hk server_finished a.hash
            ∷ []))

answer-Drawn :
    (c : Crypto) (d : Draws) (s : Server) (hello : Bytes) (a : Answer)
    → answer c d s hello ≡ some a
    → Drawn c d s hello a
unfolding answer
answer-Drawn c d s hello a h = elim (Option-cases (d.encapsulate (drop 200 hello))) [
  | inl e ↦ absurd (ground arith)
  | inr ((ss, ct), e) ↦ elim (Option-cases d.nonce) [
    | inl n ↦ absurd (ground arith)
    | inr (nonce, n) ↦
        let t = transcript c hello (peer_id c s.public) s.keys nonce ct in
        elim (Option-cases (derive c ss t.1)) [
          | inl k ↦ absurd (ground arith)
          | inr ((psk, hk), k) ↦ elim (Option-cases (d.sign server_context t.0)) [
            | inl g ↦ absurd (ground arith)
            | inr (sig, g) ↦
                let same : a.psk ≡ psk × a.hk ≡ hk × a.hash ≡ t.1 = ground arith in
                record {
                  ss = ss;
                  ct = ct;
                  nonce = nonce;
                  sig = sig;
                  sealed = e;
                  drew = n;
                  hashed = same.2;
                  derived = cc (same.0, same.1, same.2, k);
                  signed = g;
                  sent = ground arith;
                }
          ]
        ]
  ]
]

abbrev pub finish_payload : Crypto → Answer → Bytes
finish_payload c a = join (a.hash ∷ proof c a.hk client_finished a.hash ∷ [])

abbrev pub finish_of : Crypto → Answer → Bytes
finish_of c a = frame client_finish (finish_payload c a)

abbrev pub expected_ack : Crypto → Answer → Bytes
expected_ack c a = frame server_accepted (join (a.hash ∷ proof c a.hk accepted_label a.hash ∷ []))

-- A client that has paired with the server, and what is relied on: ML-KEM decapsulates what was
-- encapsulated to it, ML-DSA verifies what the identity signed, and all values have their sizes.
pub record IsLinked (c : Crypto) (d : Draws) (s : Server) (cl : Client) : Type 0 where
  pub sizes : HasSizes c
  pub alive : cl.live ≡ true
  pub pinned : cl.server_public ≡ s.public
  pub named : cl.server ≡ peer_id c s.public
  pub same_keys : cl.keys ≡ s.keys
  pub wg_32 : length s.keys.wg ≡ 32
  pub disco_32 : length s.keys.disco ≡ 32
  pub nonce_32 : (n : Bytes) → d.nonce ≡ some n → length n ≡ 32
  pub sealing :
      (ss ct : Bytes)
      → d.encapsulate (drop 200 cl.hello) ≡ some (ss, ct)
      → (length ct ≡ 1568) × (cl.kem.decapsulate ct ≡ some ss)
  pub signing :
      (msg sig : Bytes)
      → d.sign server_context msg ≡ some sig
      → verify c s.public server_context msg sig ≡ true

verify-length :
    (c : Crypto) (key label msg sig : Bytes) → verify c key label msg sig ≡ true → length sig ≡ 4627
unfolding verify
verify-length c key label msg sig h = ground arith

module _ (c : Crypto) (d : Draws) (s : Server) (cl : Client) (a : Answer) where
  abbrev completed : Client × Result (Bytes × Bytes)
  completed = (record cl { live = false; ack = expected_ack c a }, ok (a.psk, finish_of c a))

  confirm_answer : confirm c cl a.hash a.psk a.hk (proof c a.hk server_finished a.hash) ≡ completed
  unfolding confirm
  confirm_answer = rw (bytes_eq_self (proof c a.hk server_finished a.hash))

  module _ (v : IsLinked c d s cl) (w : Drawn c d s cl.hello a) where
    abbrev tag : Bytes
    tag = proof c a.hk server_finished a.hash

    abbrev sid : Bytes
    sid = peer_id c s.public

    abbrev body : Bytes
    body = hello_payload sid s.keys.wg s.keys.disco w.nonce w.ct w.sig tag

    sid_32 : length sid ≡ 32
    unfolding peer_id
    sid_32 = v.sizes.sha512_256_size _

    tag_48 : length tag ≡ 48
    unfolding proof
    tag_48 = v.sizes.hmac384_size _ _

    verified :
        verify c s.public server_context (transcript c cl.hello sid s.keys w.nonce w.ct).0 w.sig
        ≡ true
    verified = v.signing _ _ w.signed

    -- What holds of a hello with parts of the protocol's sizes, here.
    at_sizes {ℓ} :
        {P : Type ℓ}
        → (length sid ≡ 32
            → length s.keys.wg ≡ 32
            → length s.keys.disco ≡ 32
            → length w.nonce ≡ 32
            → length w.ct ≡ 1568
            → length w.sig ≡ 4627
            → length tag ≡ 48
            → P)
        → P
    at_sizes f =
        f sid_32 v.wg_32 v.disco_32 (v.nonce_32 w.nonce w.drew) (v.sealing w.ss w.ct w.sealed).0
          (verify-length c s.public server_context _ w.sig verified) tag_48

    length-body : length body ≡ 6371
    length-body = at_sizes (length-payload _ _ _ _ _ _ _)

    parse-packet : parse a.packet ≡ some (server_hello, body)
    parse-packet =
        ap parse w.sent
        ∙ unfold join in
          parse-frame server_hello body (rw length-body (unfold payload_size in refl))

    expected-body : expected c cl body ≡ true
    unfolding expected
    expected-body = ground (
      arith,
      bytes_eq_iff (take 32 body) cl.server,
      bytes_eq_iff (slice 32 64 body) cl.keys.wg,
      bytes_eq_iff (slice 64 96 body) cl.keys.disco,
      at_sizes (sid_part _ _ _ _ _ _ _),
      at_sizes (wg_part _ _ _ _ _ _ _),
      at_sizes (disco_part _ _ _ _ _ _ _),
      v.named,
      ap (λ (k : Keys). k.wg) v.same_keys,
      ap (λ (k : Keys). k.disco) v.same_keys,
    )

    same_transcript :
        transcript c cl.hello cl.server cl.keys (slice 96 128 body) (slice 128 1696 body)
        ≡ transcript c cl.hello sid s.keys w.nonce w.ct
    same_transcript = cc (
      at_sizes (nonce_part _ _ _ _ _ _ _),
      at_sizes (ct_part _ _ _ _ _ _ _),
      v.named,
      v.same_keys,
    )

    sig_end : length body - 48 ≡ 6323
    sig_end = omega (arith, length-body)

    good_signature :
        verify c cl.server_public server_context
          (transcript c cl.hello cl.server cl.keys (slice 96 128 body) (slice 128 1696 body)).0
          (slice 1696 (length body - 48) body)
        ≡ true
    good_signature =
        rw (sig_end, at_sizes (sig_part _ _ _ _ _ _ _), same_transcript, v.pinned) verified

    exchange_answer :
        exchange c cl
          (transcript c cl.hello cl.server cl.keys (slice 96 128 body) (slice 128 1696 body)).1
          (slice 128 1696 body)
          (drop (length body - 48) body)
        ≡ completed
    exchange_answer =
        rw
          (
            sig_end,
            at_sizes (tag_part _ _ _ _ _ _ _),
            same_transcript,
            at_sizes (ct_part _ _ _ _ _ _ _),
            ← w.hashed,
          )
          (unfold exchange in
            rw (v.alive, (v.sealing w.ss w.ct w.sealed).1, exchange)
              (rw (w.derived) confirm_answer))

    complete_body : complete_payload c cl body ≡ completed
    unfolding complete_payload
    complete_body = rw (expected-body, good_signature) exchange_answer

    complete_drawn : complete c cl a.packet ≡ completed
    complete_drawn = unfold complete in rw (parse-packet, complete) complete_body

-- The answer to the client's hello completes at the client: it gets the key of the server's entry,
-- sends the finish that the server expects, and will accept the server's acknowledgement.
pub complete-answer :
    (c : Crypto) (d : Draws) (s : Server) (cl : Client) (a : Answer)
    → IsLinked c d s cl
    → answer c d s cl.hello ≡ some a
    → complete c cl a.packet
      ≡ (record cl { live = false; ack = expected_ack c a }, ok (a.psk, finish_of c a))
complete-answer c d s cl a v e = complete_drawn c d s cl a v (answer-Drawn c d s cl.hello a e)

-- The entry that `answer` led to, ready to be installed.
pub record IsReady (c : Crypto) (t : Server) (source : Bytes) (a : Answer) (p : Pending)
    : Type 0 where
  pub hash_48 : length a.hash ≡ 48
  pub found : lookup a.hash t.pending ≡ some p
  pub from : p.source ≡ source
  pub key : p.hk ≡ a.hk
  pub psk : p.psk ≡ a.psk
  pub authorized : length (lookup_peer t.authorized p.peer) ≢ 0
  pub open_ : p.accepted ≡ false
  pub idle : p.installing ≡ false
  pub alone : any (is_competing p source) t.pending ≡ false

pending-ready :
    (c : Crypto) (t : Server) (source : Bytes) (a : Answer) (p : Pending)
    → IsReady c t source a p
    → (finish_pending c t source a.hash p (proof c a.hk client_finished a.hash)).1
      ≡ record { packet = some (expected_ack c a); session = some (session_of a.hash p) }
unfolding finish_pending may_finish begin_install
pending-ready c t source a p v = ground (
  arith,
  bytes_eq_iff p.source source,
  bytes_eq_iff (proof c p.hk client_finished a.hash) (proof c a.hk client_finished a.hash),
  ap (λ (k : Bytes). proof c k client_finished a.hash) v.key,
  ap (λ (k : Bytes). frame server_accepted (join (a.hash ∷ proof c k accepted_label a.hash ∷ [])))
      v.key,
)

finish-ready :
    (c : Crypto) (t : Server) (source : Bytes) (a : Answer) (p : Pending)
    → IsReady c t source a p
    → (finish c t source (finish_payload c a)).1
      ≡ record { packet = some (expected_ack c a); session = some (session_of a.hash p) }
unfolding finish join
finish-ready c t source a p v =
    let rest = proof c a.hk client_finished a.hash ++ [] in
    let h : take 48 (a.hash ++ rest) ≡ a.hash = take-append_left 48 a.hash rest v.hash_48 in
    let r : drop 48 (a.hash ++ rest) ≡ proof c a.hk client_finished a.hash =
      drop-append_left 48 a.hash rest v.hash_48 ∙ append-nil _ in
    let at : lookup (take 48 (a.hash ++ rest)) t.pending ≡ some p = rw h v.found in
    rw (at, finish) (rw (h, r) (pending-ready c t source a p v))

finish_size :
    (c : Crypto) (a : Answer)
    → HasSizes c
    → length a.hash ≡ 48
    → payload_size client_finish ≡ some (length (finish_payload c a))
unfolding payload_size proof join
finish_size c a v h = ap some (
    omega (
      arith,
      length-append a.hash (c.hmac384 a.hk (client_finished ++ a.hash) ++ []),
      length-append (c.hmac384 a.hk (client_finished ++ a.hash)) [],
      v.hmac384_size a.hk (client_finished ++ a.hash),
    ))

own_ack :
    (c : Crypto) (cl : Client) (a : Answer)
    → accepted (record cl { live = false; ack = expected_ack c a }) (expected_ack c a) ≡ true
unfolding accepted
own_ack c cl a = rw (bytes_eq_self (expected_ack c a)) (unfold frame in ground arith)

pub agreement :
    (c : Crypto) (d : Draws) (s t : Server) (cl : Client) (a : Answer) (source : Bytes)
    (p : Pending)
    → IsLinked c d s cl
    → answer c d s cl.hello ≡ some a
    → IsReady c t source a p
    → let (cl', r) = complete c cl a.packet in
      let (t', reply) = finish c t source (finish_payload c a) in
      (r ≡ ok (p.psk, finish_of c a))
      × (parse (finish_of c a) ≡ some (client_finish, finish_payload c a))
      × (reply ≡ record { packet = some (expected_ack c a); session = some (session_of a.hash p) })
      × (accepted cl' (expected_ack c a) ≡ true)
agreement c d s t cl a source p v e w =
    let done = complete-answer c d s cl a v e in
    (
      cc (ap (λ (x : Client × Result (Bytes × Bytes)). x.1) done, w.psk),
      parse-frame client_finish (finish_payload c a) (finish_size c a v.sizes w.hash_48),
      finish-ready c t source a p w,
      rw done (own_ack c cl a),
    )
