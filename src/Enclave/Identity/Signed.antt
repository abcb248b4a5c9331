-- ===== src/Enclave/Identity/Signed.antt =====
-- Where the signatures of an identity of the Secure Enclave come from.
use quantumcat.Base.{
  Bytes, Bool-cases, false, ◌||◌, ◌≡◌, ◌⊎◌, inl, inr, refl, ap, ◌∙◌, Option, none, some, arith,
}
use quantumcat.Files.{Result, Refusal, ok, err, refused}
use quantumcat.Enclave.{Machine, Helper, Context, helper_sign}
use quantumcat.Enclave.Identity.{
  Identity, is_nil, drop_exited, settle_sign, sign_with, sign_held, sign_loaded, sign_ready, sign,
  load,
}
use quantumcat.Enclave.Identity.Pinned.{
  Vouched, IsPinned, without_helper, load-Loads, Loads-IsPinned, drop_exited-IsPinned,
}

module _ (m : Machine) (open_helper : m.World → m.World × Result Helper) where
  -- Which helper signs, and in which world: the one that is held, or one that is loaded first.
  abbrev pub Reached : Context m → Identity → m.World → Helper → m.World → Type 0
  Reached ctx i w h u =
      ((i.helper ≡ some h) × (u ≡ w))
      ⊎ ((i.helper ≡ none)
          × ((j : Identity) × ((load m open_helper ctx i w ≡ (u, (j, ok tt)))
                × (j.helper ≡ some h))))

  -- The same from before a helper that has exited is given up.
  abbrev pub MadeBy : Context m → Identity → m.World → Helper → m.World → Type 0
  MadeBy ctx i w =
      Reached ctx (drop_exited m open_helper i i.helper w).1
        (drop_exited m open_helper i i.helper w).0

  -- What signing leaves, and where a signature comes from.
  pub record Signs (ctx : Context m) (R : Helper → m.World → Type 0) (ref key label msg : Bytes)
      (r : Identity × Result Bytes) : Type 0 where
    pub pinned : IsPinned m open_helper ref key r.0
    pub source :
        (sig : Bytes)
        → r.1 ≡ ok sig
        → (h : Helper) × (Vouched m open_helper ref key h
            × ((u : m.World) × (R h u × ((helper_sign m ctx h label msg u).1 ≡ ok sig))))

  module _ {ref key label msg : Bytes} (ctx : Context m) (R : Helper → m.World → Type 0) where
    unsigned-Signs :
        (i : Identity) (e : Refusal)
        → IsPinned m open_helper ref key i
        → Signs ctx R ref key label msg (i, err e)
    unsigned-Signs i e p = record { pinned = p; source = λ sig h. cc }

    settle_sign-Signs :
        (i : Identity) (h : Helper) (w v : m.World) (r : Result Bytes)
        → IsPinned m open_helper ref key i
        → Vouched m open_helper ref key h
        → R h w
        → (helper_sign m ctx h label msg w).1 ≡ r
        → Signs ctx R ref key label msg (settle_sign m open_helper i h v r).1
    unfolding settle_sign
    settle_sign-Signs i h w v (err e) p q here from =
        unsigned-Signs _ e (without_helper m open_helper ref key i p)
    settle_sign-Signs i h w v (ok sig) p q here from = record {
      pinned = p;
      source = λ s eq. (h, (q, (w, (here, from ∙ eq))));
    }

    sign_held-Signs :
        (i : Identity) (held : Option Helper) (w : m.World)
        → i.helper ≡ held
        → ((h : Helper) → i.helper ≡ some h → R h w)
        → IsPinned m open_helper ref key i
        → Signs ctx R ref key label msg (sign_held m open_helper ctx label msg i held w).1
    unfolding sign_held sign_with
    sign_held-Signs i none w e here p = unsigned-Signs i refused p
    sign_held-Signs i (some h) w e here p =
        settle_sign-Signs i h w _ _ p (p.vouched h e) (here h e) refl

    sign_loaded-Signs :
        (i : Identity) (w : m.World) (r : Result (Unit {0}))
        → (r ≡ ok tt → (h : Helper) → i.helper ≡ some h → R h w)
        → IsPinned m open_helper ref key i
        → Signs ctx R ref key label msg (sign_loaded m open_helper ctx label msg i w r).1
    unfolding sign_loaded
    sign_loaded-Signs i w (err e) here p = unsigned-Signs i e p
    sign_loaded-Signs i w (ok done) here p = sign_held-Signs i i.helper w refl (here refl) p

  module _ {ref key label msg : Bytes} where
    sign_ready-Signs :
        (ctx : Context m) (i : Identity) (held : Option Helper) (w : m.World)
        → is_nil key ≡ false
        → i.closed ≡ false
        → i.helper ≡ held
        → IsPinned m open_helper ref key i
        → Signs ctx
            (Reached ctx i w)
            ref
            key
            label
            msg
            (sign_ready m open_helper ctx label msg i held w).1
    unfolding sign_ready sign_with
    sign_ready-Signs ctx i none w k live e p =
        let l = load m open_helper ctx i w in
        sign_loaded-Signs ctx (Reached ctx i w) _ _ _
          (λ good h held. inr (e, (l.1.0, (ap (λ r. (l.0, (l.1.0, r))) good, held))))
          (Loads-IsPinned m open_helper i _ k live p (load-Loads m open_helper ctx i w))
    sign_ready-Signs ctx i (some h) w k live e p =
        settle_sign-Signs ctx (Reached ctx i w) i h w _ _ p (p.vouched h e) (inl (e, refl)) refl

    -- An identity that is pinned stays pinned, and a signature is one of a helper that holds the key.
    pub sign-Signs :
        (ctx : Context m) (i : Identity) (w : m.World)
        → is_nil key ≡ false
        → IsPinned m open_helper ref key i
        → Signs ctx (MadeBy ctx i w) ref key label msg (sign m open_helper ctx label msg i w).1
    unfolding sign
    sign-Signs ctx i w k p = elim (Bool-cases (i.closed || ctx w)) [
      | inl t ↦ rw (t) (unsigned-Signs ctx (MadeBy ctx i w) i refused p)
      | inr f ↦
          let (q, same) = drop_exited-IsPinned m open_helper i i.helper w p in
          let live : (drop_exited m open_helper i i.helper w).1.closed ≡ false =
            same ∙ ground arith in
          rw (f) (sign_ready-Signs ctx _ _ _ k live refl q)
    ]
