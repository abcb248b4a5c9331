-- ===== src/Wire/Layout.antt =====
-- What the transcript of internal/protocol/wire.go binds, and the text form of a peer identity.
use quantumcat.Base.{
  ◌≡◌, refl, ap, Bytes, bytes_eq, some, List, [], ◌++◌, length, length-append, take, drop,
  take-append_left, drop-append_left, append-nil, arith,
}
use quantumcat.Crypto.{Crypto}
use quantumcat.Wire.{Keys, join, transcript, id_string, parse_id}

module _ {ℓ} {A : Type ℓ} where
  pub append_inj :
      (xs us ys vs : List A) → length xs ≡ length us → xs ++ ys ≡ us ++ vs → (xs ≡ us) × (ys ≡ vs)
  append_inj xs us ys vs h e = (
    cc (
      take-append_left (length us) xs ys h,
      take-append_left (length us) us vs refl,
      ap (take (length us)) e,
    ),
    cc (
      drop-append_left (length us) xs ys h,
      drop-append_left (length us) us vs refl,
      ap (drop (length us)) e,
    ),
  )

-- What a transcript is made of, at the sizes of the protocol.
pub record Parts : Type 0 where
  pub hello : Bytes
  pub server : Bytes
  pub keys : Keys
  pub nonce : Bytes
  pub ciphertext : Bytes

pub record IsSized (p : Parts) : Type 0 where
  pub server_32 : length p.server ≡ 32
  pub wg_32 : length p.keys.wg ≡ 32
  pub disco_32 : length p.keys.disco ≡ 32
  pub nonce_32 : length p.nonce ≡ 32
  pub ciphertext_1568 : length p.ciphertext ≡ 1568
  pub hello_1768 : length p.hello ≡ 1768

module _ (c : Crypto) where
  abbrev pub transcript_of : Parts → Bytes
  transcript_of p = (transcript c p.hello p.server p.keys p.nonce p.ciphertext).0

  -- The transcript has the 3483 bytes that the protocol states.
  pub length-transcript : (p : Parts) → IsSized p → length (transcript_of p) ≡ 3483
  unfolding transcript join
  length-transcript p s = omega (
    arith,
    length-append p.server
        (p.keys.wg ++ (p.keys.disco ++ (p.nonce ++ (p.ciphertext ++ (p.hello ++ []))))),
    length-append p.keys.wg (p.keys.disco ++ (p.nonce ++ (p.ciphertext ++ (p.hello ++ [])))),
    length-append p.keys.disco (p.nonce ++ (p.ciphertext ++ (p.hello ++ []))),
    length-append p.nonce (p.ciphertext ++ (p.hello ++ [])),
    length-append p.ciphertext (p.hello ++ []),
    length-append p.hello [],
  )

  abbrev body : Parts → Bytes
  body p = p.server ++ (p.keys.wg ++ (p.keys.disco ++ (p.nonce ++ (p.ciphertext ++ p.hello))))

  behind_header : (p : Parts) → drop 19 (transcript_of p) ≡ body p
  unfolding transcript join
  behind_header p = rw (append-nil p.hello)

  -- No two sets of parts have one transcript: a signature on it covers each part.
  pub transcript_inj :
      (p q : Parts) → IsSized p → IsSized q → transcript_of p ≡ transcript_of q → p ≡ q
  transcript_inj p q s t e =
      let tails : body p ≡ body q = cc (behind_header p, behind_header q, ap (drop 19) e) in
      let a = append_inj p.server q.server _ _ (omega arith) tails in
      let b = append_inj p.keys.wg q.keys.wg _ _ (omega arith) a.1 in
      let d = append_inj p.keys.disco q.keys.disco _ _ (omega arith) b.1 in
      let n = append_inj p.nonce q.nonce _ _ (omega arith) d.1 in
      let f = append_inj p.ciphertext q.ciphertext _ _ (omega arith) n.1 in
      λ i. record {
        hello = f.1 i;
        server = a.0 i;
        keys = record { wg = b.0 i; disco = d.0 i };
        nonce = n.0 i;
        ciphertext = f.0 i;
      }

  -- The text of an identity parses back to it.
  pub parse_id-id_string :
      (id : Bytes)
      → c.base32_decode (c.base32_encode id) ≡ some id
      → length id ≡ 32
      → parse_id c (id_string c id) ≡ some id
  unfolding parse_id id_string bytes_eq
  parse_id-id_string id h k = ground arith
