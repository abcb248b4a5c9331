-- ===== src/Enclave/Identity.antt =====
-- internal/crypto/provider/se/identity.go: an identity of the Secure Enclave over its helper, which is
-- started again when it failed.
pub mod Pinned
pub mod Signed
mod Settled
pub mod History
pub mod Recovery
use quantumcat.Base.{
  Bytes, bytes_eq, Bool, true, false, not, ◌&&◌, ◌||◌, if◌then◌else◌, Option, none, some, List, [],
  ◌∷◌,
}
use quantumcat.Files.{Result, ok, err, refused}
use quantumcat.Enclave.{Machine, Helper, Context, close, load_reference, helper_key, helper_sign}

-- `public` is nil as long as no key is known, and Go's append leaves it nil for an empty key; `[]` is nil.
pub record Identity : Type 0 where
  pub helper : Option Helper
  pub ref : Bytes
  pub public : Bytes
  pub closed : Bool

abbrev pub is_nil : Bytes → Bool
is_nil [] = true
is_nil (c ∷ rest) = false

-- What each operation leaves, and what it returns.
abbrev pub Returns : Machine → Type 0 → Type 0
Returns m T = m.World × (Identity × Result T)

-- `open_helper` starts a helper.
module _ (m : Machine) (open_helper : m.World → m.World × Result Helper) where
  unfoldable pub load_key : Identity → Helper → m.World → Result Bytes → Returns m (Unit {0})
  load_key i h w (err e) = ((close m h w).0, (i, err e))
  load_key i h w (ok key) =
      if not (is_nil i.public) && not (bytes_eq i.public key)
      then ((close m h w).0, (i, err refused))
      else (w, (record i { public = key; helper = some h }, ok tt))

  unfoldable pub load_ref :
      Context m → Identity → Helper → m.World → Result Bytes → Returns m (Unit {0})
  load_ref ctx i h w (err e) = ((close m h w).0, (i, err e))
  load_ref ctx i h w (ok reply) = let (v, key) = helper_key m ctx h w in load_key i h v key

  unfoldable pub load_helper : Context m → Identity → m.World → Result Helper → Returns m (Unit {0})
  load_helper ctx i w (err e) = (w, (i, err e))
  load_helper ctx i w (ok h) =
      let (v, reply) = load_reference m ctx h i.ref w in load_ref ctx i h v reply

  unfoldable pub load : Context m → Identity → m.World → Returns m (Unit {0})
  load ctx i w =
      if ctx w then (w, (i, err refused)) else let (v, h) = open_helper w in load_helper ctx i v h

  unfoldable pub close_held : Option Helper → m.World → m.World
  close_held none w = w
  close_held (some h) w = (close m h w).0

  unfoldable pub close_identity : Identity → m.World → m.World × Identity
  close_identity i w = (close_held i.helper w, record i { closed = true; helper = none; ref = [] })

  unfoldable pub finish_open : m.World → Identity → Result (Unit {0}) → m.World × Result Identity
  finish_open w i (err e) = ((close_identity i w).0, err e)
  finish_open w i (ok done) = (w, ok i)

  unfoldable pub open_identity : Context m → Bytes → m.World → m.World × Result Identity
  open_identity ctx ref w =
      let (v, loaded) =
        load ctx (record { helper = none; ref = ref; public = []; closed = false }) w in
      finish_open v loaded.0 loaded.1

  unfoldable pub public_key : Context m → Identity → m.World → Result Bytes
  public_key ctx i w = if i.closed || ctx w then err refused else ok i.public

  unfoldable pub drop_exited : Identity → Option Helper → m.World → m.World × Identity
  drop_exited i none w = (w, i)
  drop_exited i (some h) w =
      if m.exited w h.process then ((close m h w).0, record i { helper = none }) else (w, i)

  -- After an error the pipe may be out of step, and the helper is given up.
  unfoldable pub settle_sign : Identity → Helper → m.World → Result Bytes → Returns m Bytes
  settle_sign i h w (err e) = ((close m h w).0, (record i { helper = none }, err e))
  settle_sign i h w (ok signature) = (w, (i, ok signature))

  unfoldable pub sign_with :
      Context m → Bytes → Bytes → Identity → Helper → m.World → Returns m Bytes
  sign_with ctx label msg i h w =
      let (v, signature) = helper_sign m ctx h label msg w in settle_sign i h v signature

  -- A load that succeeds has set the helper.
  unfoldable pub sign_held :
      Context m → Bytes → Bytes → Identity → Option Helper → m.World → Returns m Bytes
  sign_held ctx label msg i none w = (w, (i, err refused))
  sign_held ctx label msg i (some h) w = sign_with ctx label msg i h w

  unfoldable pub sign_loaded :
      Context m → Bytes → Bytes → Identity → m.World → Result (Unit {0}) → Returns m Bytes
  sign_loaded ctx label msg i w (err e) = (w, (i, err e))
  sign_loaded ctx label msg i w (ok done) = sign_held ctx label msg i i.helper w

  unfoldable pub sign_ready :
      Context m → Bytes → Bytes → Identity → Option Helper → m.World → Returns m Bytes
  sign_ready ctx label msg i none w =
      let (v, loaded) = load ctx i w in sign_loaded ctx label msg loaded.0 v loaded.1
  sign_ready ctx label msg i (some h) w = sign_with ctx label msg i h w

  unfoldable pub sign : Context m → Bytes → Bytes → Identity → m.World → Returns m Bytes
  sign ctx label msg i w =
      if i.closed || ctx w
      then (w, (i, err refused))
      else let (v, j) = drop_exited i i.helper w in sign_ready ctx label msg j j.helper v
