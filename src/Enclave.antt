-- ===== src/Enclave.antt =====
-- internal/crypto/provider/se/se.go: the helper process that holds keys in the Secure Enclave. It is
-- found and started only when it is trusted, and it is asked over two pipes. What the processes do is a
-- parameter; an error is only known as one, not by its text.
pub mod Identity
pub mod Framing
pub mod Chosen
mod Tests
use Prim.Native.Nat.{bit_and}
use quantumcat.Base.{
  ℕ, ◌+◌, Bytes, ascii, put_u32, read_be, Bool, true, false, not, ◌||◌, ◌==◌, ltb, if◌then◌else◌,
  Option, none, some, List, [], ◌∷◌, ◌++◌, length,
}
use quantumcat.Files.{FilePath, Result, ok, err, refused, refuse_if, ◌>>=◌, ◌>>◌, Os}
use quantumcat.Trust.{trust_path, trust_ancestors}

-- The program's own place: its user is the one of `Os`.
pub record Place : Type 0 where
  pub getenv : Bytes → Bytes
  -- os.Executable
  pub executable : Result Bytes
  -- filepath.Join(filepath.Dir(file), name), and what the operating system makes of a path's text.
  pub beside : Bytes → Bytes → Bytes
  pub resolve : Bytes → FilePath

-- An absolute path's text starts with `/`.
unfoldable pub is_abs : Bytes → Bool
is_abs [] = false
is_abs (c ∷ rest) = c == 47

abbrev is_empty : Bytes → Bool
is_empty [] = true
is_empty (c ∷ rest) = false

module _ (os : Os) (place : Place) where
  unfoldable pub configured : Bytes
  configured =
      if os.euid == 0
      then []
      else if is_empty (place.getenv (ascii "QCAT_ENCLAVE_HELPER"))
      then place.getenv (ascii "QCAT_SE_HELPER")
      else place.getenv (ascii "QCAT_ENCLAVE_HELPER")

  unfoldable pub candidate : Result Bytes
  candidate =
      if is_empty configured
      then (do exe ← place.executable; ok (place.beside exe (ascii "qcat-se")))
      else ok configured

  unfoldable pub helper_path : Result Bytes
  helper_path = do path ← candidate; refuse_if (not (is_abs path)); ok path

  unfoldable pub trusted_helper : os.State → FilePath → Result (Unit {0})
  trusted_helper s path = do
    trust_path os s path false
    info ← os.stat s path
    refuse_if (bit_and info.perm 73 == 0)
    trust_ancestors os s path

  -- What Open starts.
  unfoldable pub chosen_helper : os.State → Result FilePath
  chosen_helper s = do
    path ← helper_path
    trusted_helper s (place.resolve path)
    ok (place.resolve path)

-- Processes and the pipes to them, from outside; each call may take time, in which a process goes on.
pub record Machine : Type 1 where
  pub World : Type 0
  pub write : World → ℕ → Bytes → World × Bool
  -- What comes before the pipe ends, of this many bytes.
  pub read : World → ℕ → ℕ → World × Bytes
  pub exited : World → ℕ → Bool
  pub kill : World → ℕ → World
  pub close_in : World → ℕ → World
  pub close_out : World → ℕ → World

pub record Helper : Type 0 where
  pub process : ℕ
  pub closed : Bool

-- The length that a frame begins with, and its first byte, the operation.
unfoldable pub request : ℕ → Bytes → Bytes
request op payload = put_u32 (length payload + 1) ++ (op ∷ payload)

-- The answer's first byte says whether the rest is an error's text.
unfoldable pub content : Bytes → Result Bytes
content [] = err refused
content (status ∷ body) = if status == 0 then ok body else err refused

module _ (m : Machine) where
  -- Whether a context has ended, asked in a world.
  abbrev pub Context : Type 0
  Context = m.World → Bool

  unfoldable pub read_reply : ℕ → ℕ → m.World → m.World × Result Bytes
  read_reply p n w =
      let (v, reply) = m.read w p n in (v, if length reply == n then content reply else err refused)

  unfoldable pub read_answer : ℕ → m.World → m.World × Result Bytes
  read_answer p w =
      let (v, size) = m.read w p 4 in
      if not (length size == 4)
      then (v, err refused)
      else if ltb (read_be size) 1 || ltb 32768 (read_be size)
      then (v, err refused)
      else read_reply p (read_be size) v

  unfoldable pub send_request : ℕ → ℕ → Bytes → m.World → m.World × Result Bytes
  send_request p op payload w =
      if ltb 32767 (length payload)
      then (w, err refused)
      else let (v, sent) = m.write w p (request op payload) in
        if sent then read_answer p v else (v, err refused)

  -- The function after the context kills the process, and the call waits for it.
  unfoldable pub after_call : Context → ℕ → m.World → m.World
  after_call ctx p w = if ctx w then m.kill w p else w

  unfoldable pub call : Context → Helper → ℕ → Bytes → m.World → m.World × Result Bytes
  call ctx h op payload w =
      if h.closed || ctx w
      then (w, err refused)
      else let (v, reply) = send_request h.process op payload w in
        (after_call ctx h.process v, reply)

  unfoldable pub close : Helper → m.World → m.World × Helper
  close h w = if h.closed then (w, h) else (
    m.close_out (m.kill (m.close_in w h.process) h.process) h.process,
    record h { closed = true },
  )

  unfoldable pub generate_identity : Context → Helper → m.World → m.World × Result Bytes
  generate_identity ctx h w = call ctx h 1 [] w

  unfoldable pub load_reference : Context → Helper → Bytes → m.World → m.World × Result Bytes
  load_reference ctx h ref w = call ctx h 2 ref w

  unfoldable pub helper_key : Context → Helper → m.World → m.World × Result Bytes
  helper_key ctx h w = call ctx h 3 [] w

  unfoldable pub helper_sign : Context → Helper → Bytes → Bytes → m.World → m.World × Result Bytes
  helper_sign ctx h label msg w =
      if ltb 255 (length label)
      then (w, err refused)
      else call ctx h 4 (length label ∷ (label ++ msg)) w

  unfoldable pub capabilities : Context → Helper → m.World → m.World × Result Bytes
  capabilities ctx h w = call ctx h 9 [] w

  -- A key of one connection in a helper of its own.
  unfoldable pub start_kem : Helper → m.World → Result Bytes → m.World × Result Helper
  start_kem h w (err e) = ((close h w).0, err e)
  start_kem h w (ok reply) = (w, ok h)

  unfoldable pub new_kem : Context → Helper → m.World → m.World × Result Helper
  new_kem ctx h w = let (v, reply) = call ctx h 5 [] w in start_kem h v reply

  unfoldable pub kem_key : Context → Helper → m.World → m.World × Result Bytes
  kem_key ctx h w = call ctx h 6 [] w

  unfoldable pub kem_decapsulate : Context → Helper → Bytes → m.World → m.World × Result Bytes
  kem_decapsulate ctx h ct w = call ctx h 7 ct w
