-- ===== src/Wire/Tests.antt =====
-- Runs of internal/protocol/wire.go, and the theorems at concrete inputs.
use quantumcat.Base.{
  ℕ, ◌≡◌, refl, Bytes, bytes_eq, put_u16, read_be, replicate, length-replicate, slice, All, true,
  none, some, [], length, arith,
}
use quantumcat.Crypto.{Crypto}
use quantumcat.Wire.{frame, parse, valid_frame, payload_size, byte_at, client_finish}
use quantumcat.Wire.Framing.{frame-parse, IsByte}
use quantumcat.Wire.Layout.{Parts, IsSized, transcript_inj}

abbrev digest : Bytes
digest = replicate 96 1

-- A finish of 96 bytes is a frame; one byte less is not.
finish_frame : parse (frame client_finish digest) ≡ some (client_finish, digest)
unfolding parse valid_frame frame payload_size byte_at slice bytes_eq put_u16 read_be
finish_frame = refl

short_finish : parse (frame client_finish (replicate 95 1)) ≡ none
unfolding parse valid_frame frame payload_size byte_at slice bytes_eq put_u16 read_be
short_finish = refl

digest_size : payload_size client_finish ≡ some (length digest)
unfolding payload_size
digest_size = refl

frame_bytes : All IsByte (frame client_finish digest)
unfolding frame put_u16
frame_bytes = omega arith

frame-parse_example :
    (frame client_finish digest ≡ frame client_finish digest)
    × (payload_size client_finish ≡ some (length digest))
frame-parse_example =
    frame-parse (frame client_finish digest) digest client_finish frame_bytes finish_frame

abbrev plain : Crypto
plain = record {
  sha512_256 = λ m. replicate 32 7;
  sha384 = λ m. replicate 48 9;
  hmac384 = λ k m. replicate 48 5;
  hkdf_extract = λ ss salt. some [];
  hkdf_expand = λ prk info n. some (replicate n 3);
  mldsa_verify = λ key label msg sig. true;
  base32_encode = λ b. b;
  base32_decode = λ b. some b;
}

sized : (n b : ℕ) → length (replicate n b) ≡ n
sized n b = length-replicate n b

abbrev parts : Parts
parts = record {
  hello = replicate 1768 1;
  server = replicate 32 2;
  keys = record { wg = replicate 32 3; disco = replicate 32 4 };
  nonce = replicate 32 5;
  ciphertext = replicate 1568 6;
}

parts-IsSized : IsSized parts
parts-IsSized = record {
  server_32 = sized 32 2;
  wg_32 = sized 32 3;
  disco_32 = sized 32 4;
  nonce_32 = sized 32 5;
  ciphertext_1568 = sized 1568 6;
  hello_1768 = sized 1768 1;
}

transcript_inj_example : parts ≡ parts
transcript_inj_example = transcript_inj plain parts parts parts-IsSized parts-IsSized refl
