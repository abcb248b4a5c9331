-- ===== src/Handshake/Client/HelloParts.antt =====
-- The payload of a ServerHello of internal/protocol/handshake.go, and where its parts stand.
use quantumcat.Base.{
  ◌∙◌, ◌≡◌, Bytes, [], ◌++◌, append-nil, length, length-append, take, drop, slice,
  slice-append_step, slice-append_head, take-append_left, drop-append_left, drop-append_step, arith,
}

abbrev pub hello_payload : Bytes → Bytes → Bytes → Bytes → Bytes → Bytes → Bytes → Bytes
hello_payload sid wg disco nonce ct sig tag =
    sid ++ (wg ++ (disco ++ (nonce ++ (ct ++ (sig ++ (tag ++ []))))))

-- The parts of a server hello, at their sizes.
module _ (sid wg disco nonce ct sig tag : Bytes) (sid_32 : length sid ≡ 32) (wg_32 : length wg ≡ 32)
    (disco_32 : length disco ≡ 32) (nonce_32 : length nonce ≡ 32) (ct_1568 : length ct ≡ 1568)
    (sig_4627 : length sig ≡ 4627) (tag_48 : length tag ≡ 48) where
  abbrev payload : Bytes
  payload = hello_payload sid wg disco nonce ct sig tag

  pub length-payload : length payload ≡ 6371
  length-payload = omega (
    arith,
    length-append sid (wg ++ (disco ++ (nonce ++ (ct ++ (sig ++ (tag ++ [])))))),
    length-append wg (disco ++ (nonce ++ (ct ++ (sig ++ (tag ++ []))))),
    length-append disco (nonce ++ (ct ++ (sig ++ (tag ++ [])))),
    length-append nonce (ct ++ (sig ++ (tag ++ []))),
    length-append ct (sig ++ (tag ++ [])),
    length-append sig (tag ++ []),
    length-append tag [],
  )

  pub sid_part : take 32 payload ≡ sid
  sid_part = take-append_left 32 sid _ sid_32

  pub wg_part : slice 32 64 payload ≡ wg
  wg_part = slice-append_step 32 32 64 sid _ sid_32 (omega arith) ∙ slice-append_head 32 wg _ wg_32

  pub disco_part : slice 64 96 payload ≡ disco
  disco_part =
      slice-append_step 32 64 96 sid _ sid_32 (omega arith)
      ∙ slice-append_step 32 32 64 wg _ wg_32 (omega arith)
      ∙ slice-append_head 32 disco _ disco_32

  pub nonce_part : slice 96 128 payload ≡ nonce
  nonce_part =
      slice-append_step 32 96 128 sid _ sid_32 (omega arith)
      ∙ slice-append_step 32 64 96 wg _ wg_32 (omega arith)
      ∙ slice-append_step 32 32 64 disco _ disco_32 (omega arith)
      ∙ slice-append_head 32 nonce _ nonce_32

  pub ct_part : slice 128 1696 payload ≡ ct
  ct_part =
      slice-append_step 32 128 1696 sid _ sid_32 (omega arith)
      ∙ slice-append_step 32 96 1664 wg _ wg_32 (omega arith)
      ∙ slice-append_step 32 64 1632 disco _ disco_32 (omega arith)
      ∙ slice-append_step 32 32 1600 nonce _ nonce_32 (omega arith)
      ∙ slice-append_head 1568 ct _ ct_1568

  pub sig_part : slice 1696 6323 payload ≡ sig
  sig_part =
      slice-append_step 32 1696 6323 sid _ sid_32 (omega arith)
      ∙ slice-append_step 32 1664 6291 wg _ wg_32 (omega arith)
      ∙ slice-append_step 32 1632 6259 disco _ disco_32 (omega arith)
      ∙ slice-append_step 32 1600 6227 nonce _ nonce_32 (omega arith)
      ∙ slice-append_step 1568 1568 6195 ct _ ct_1568 (omega arith)
      ∙ slice-append_head 4627 sig _ sig_4627

  pub tag_part : drop 6323 payload ≡ tag
  tag_part =
      drop-append_step 32 6323 sid _ sid_32 (omega arith)
      ∙ drop-append_step 32 6291 wg _ wg_32 (omega arith)
      ∙ drop-append_step 32 6259 disco _ disco_32 (omega arith)
      ∙ drop-append_step 32 6227 nonce _ nonce_32 (omega arith)
      ∙ drop-append_step 1568 6195 ct _ ct_1568 (omega arith)
      ∙ drop-append_left 4627 sig _ sig_4627
      ∙ append-nil tag
