-- ===== src/Enclave/Framing.antt =====
-- What an answer of the Secure Enclave helper is: one frame each way.
use quantumcat.Base.{
  ℕ, ◌+◌, ◌≤◌, Bytes, read_be, Bool-cases, true, false, not, ◌||◌, ◌==◌, ltb, ◌≡◌, inl, inr, refl,
  subst, [], ◌∷◌, length, arith,
}
use quantumcat.Files.{ok}
use quantumcat.Enclave.{
  Machine, Helper, Context, request, content, read_reply, read_answer, send_request, call,
}

module _ (m : Machine) where
  -- The helper was open and the context live, the request's frame was sent, and the helper's frame has
  -- the status zero, these bytes, and a length that counts both.
  pub record Answered (ctx : Context m) (h : Helper) (op : ℕ) (payload : Bytes) (w : m.World)
      (bytes : Bytes) : Type 0 where
    pub live : h.closed ≡ false
    pub on : ctx w ≡ false
    pub sent : (m.write w h.process (request op payload)).1 ≡ true
    pub small : length payload ≤ 32767
    pub short : length bytes ≤ 32767
    pub size :
        read_be (m.read (m.write w h.process (request op payload)).0 h.process 4).1
        ≡ length bytes + 1
    pub framed :
        (m.read
          (m.read (m.write w h.process (request op payload)).0 h.process 4).0
          h.process
          (length bytes + 1)).1
        ≡ 0 ∷ bytes

  content-eq : (reply bytes : Bytes) → content reply ≡ ok bytes → reply ≡ 0 ∷ bytes
  unfolding content
  content-eq [] bytes h = cc
  content-eq (s ∷ body) bytes h = elim (Bool-cases (s == 0)) [
    | inl t ↦ let here : s ≡ 0 = ground arith in let there : body ≡ bytes = ground arith in cc
    | inr f ↦ absurd (ground arith)
  ]

  read_reply-eq :
      (p n : ℕ) (w : m.World) (bytes : Bytes)
      → (read_reply m p n w).1 ≡ ok bytes
      → (n ≡ length bytes + 1) × ((m.read w p n).1 ≡ 0 ∷ bytes)
  unfolding read_reply
  read_reply-eq p n w bytes h = elim (Bool-cases (length (m.read w p n).1 == n)) [
    | inl t ↦
        let good : content (m.read w p n).1 ≡ ok bytes = ground arith in
        let there : (m.read w p n).1 ≡ 0 ∷ bytes = content-eq _ bytes good in
        let long : length (m.read w p n).1 ≡ length bytes + 1 = rw (there) (omega arith) in
        let same : length (m.read w p n).1 ≡ n = ground arith in (omega arith, there)
    | inr f ↦ absurd (ground arith)
  ]

  read_answer-eq :
      (p : ℕ) (w : m.World) (bytes : Bytes)
      → (read_answer m p w).1 ≡ ok bytes
      → (read_be (m.read w p 4).1 ≡ length bytes + 1)
        × ((length bytes ≤ 32767) × ((m.read (m.read w p 4).0 p (length bytes + 1)).1 ≡ 0 ∷ bytes))
  unfolding read_answer
  read_answer-eq p w bytes h = elim (Bool-cases (not (length (m.read w p 4).1 == 4))) [
    | inl t ↦ absurd (ground arith)
    | inr four ↦
        elim (Bool-cases
          (ltb (read_be (m.read w p 4).1) 1 || ltb 32768 (read_be (m.read w p 4).1))) [
            | inl t ↦ absurd (ground arith)
            | inr fits ↦
                let good : (read_reply m p (read_be (m.read w p 4).1) (m.read w p 4).0).1
                    ≡ ok bytes =
                  ground arith in
                let (n, framed) = read_reply-eq p _ _ bytes good in
                (
                  n,
                  (ground arith, subst (λ k. (m.read (m.read w p 4).0 p k).1 ≡ 0 ∷ bytes) n framed),
                )
          ]
  ]

  -- A call gives bytes only when the helper is not closed, the context is live, the payload has at
  -- most 32767 bytes, the request's frame was written, and the helper's frame has a length that
  -- counts one byte more than these at most 32767 bytes, and the status zero before them.
  pub call-Answered :
      (ctx : Context m) (h : Helper) (op : ℕ) (payload : Bytes) (w v : m.World) (bytes : Bytes)
      → call m ctx h op payload w ≡ (v, ok bytes)
      → Answered ctx h op payload w bytes
  unfolding call send_request
  call-Answered ctx h op payload w v bytes e =
      let done : (call m ctx h op payload w).1 ≡ ok bytes = rw (e) refl in
      elim (Bool-cases (h.closed || ctx w)) [
        | inl t ↦ absurd (ground arith)
        | inr f ↦ elim (Bool-cases (ltb 32767 (length payload))) [
          | inl t ↦ absurd (ground arith)
          | inr small ↦ elim (Bool-cases (m.write w h.process (request op payload)).1) [
            | inl sent ↦
                let good : (read_answer m h.process (m.write w h.process (request op payload)).0).1
                    ≡ ok bytes =
                  ground arith in
                let (n, (short, framed)) = read_answer-eq h.process _ bytes good in
                record {
                  live = ground arith;
                  on = ground arith;
                  sent = sent;
                  small = ground arith;
                  short = short;
                  size = n;
                  framed = framed;
                }
            | inr bad ↦ absurd (ground arith)
          ]
        ]
      ]
