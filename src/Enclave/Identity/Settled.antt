-- ===== src/Enclave/Identity/Settled.antt =====
-- What an identity of the Secure Enclave holds when signing has failed.
use quantumcat.Base.{Bytes, false, ◌||◌, ◌≡◌, inl, inr, refl, ap, ◌∙◌, Option, none, some}
use quantumcat.Files.{Result, Refusal, ok, err}
use quantumcat.Enclave.{Machine, Helper, Context}
use quantumcat.Enclave.Identity.{
  Identity, load, settle_sign, sign_with, sign_held, sign_loaded, sign_ready, sign,
}
use quantumcat.Enclave.Identity.Pinned.{load-Loads}

module _ (m : Machine) (open_helper : m.World → m.World × Result Helper) (ctx : Context m)
    (label msg : Bytes) where
  -- After an error no helper is held.
  abbrev pub Settled : Identity × Result Bytes → Type 0
  Settled r = (e : Refusal) → r.1 ≡ err e → r.0.helper ≡ none

  settle_sign-Settled :
      (i : Identity) (h : Helper) (w : m.World) (r : Result Bytes)
      → Settled (settle_sign m open_helper i h w r).1
  unfolding settle_sign
  settle_sign-Settled i h w (err why) e bad = refl
  settle_sign-Settled i h w (ok sig) e bad = absurd cc

  sign_held-Settled :
      (i : Identity) (held : Option Helper) (w : m.World)
      → i.helper ≡ held
      → Settled (sign_held m open_helper ctx label msg i held w).1
  unfolding sign_held sign_with
  sign_held-Settled i none w eq e bad = eq
  sign_held-Settled i (some h) w eq e bad = settle_sign-Settled i h _ _ e bad

  sign_loaded-Settled :
      (i : Identity) (w : m.World) (r : Result (Unit {0}))
      → ((e : Refusal) → r ≡ err e → i.helper ≡ none)
      → Settled (sign_loaded m open_helper ctx label msg i w r).1
  unfolding sign_loaded
  sign_loaded-Settled i w (err why) before e bad = before why refl
  sign_loaded-Settled i w (ok done) before e bad = sign_held-Settled i i.helper w refl e bad

  load-unheld :
      (i : Identity) (w : m.World) (e : Refusal)
      → i.helper ≡ none
      → (load m open_helper ctx i w).1.1 ≡ err e
      → (load m open_helper ctx i w).1.0.helper ≡ none
  load-unheld i w e empty bad = elim (load-Loads m open_helper ctx i w) [
    | inl (why, same) ↦ ap (λ r. r.0.helper) same ∙ empty
    | inr (h, (key, (v, (known, same)))) ↦ absurd (let good = ap (λ r. r.1) same in cc)
  ]

  sign_ready-Settled :
      (i : Identity) (held : Option Helper) (w : m.World)
      → i.helper ≡ held
      → Settled (sign_ready m open_helper ctx label msg i held w).1
  unfolding sign_ready sign_with
  sign_ready-Settled i none w eq = sign_loaded-Settled _ _ _ (λ e bad. load-unheld i w e eq bad)
  sign_ready-Settled i (some h) w eq = settle_sign-Settled i h _ _

  pub sign-Settled :
      (i : Identity) (w : m.World)
      → (i.closed || ctx w) ≡ false
      → Settled (sign m open_helper ctx label msg i w).1
  unfolding sign
  sign-Settled i w live = rw (live) (sign_ready-Settled _ _ _ refl)
