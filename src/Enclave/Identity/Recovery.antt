-- ===== src/Enclave/Identity/Recovery.antt =====
-- After a failure an identity of the Secure Enclave signs again, with a new helper.
use quantumcat.Base.{
  Bytes, bytes_eq_self, Bool-cases, false, not, ◌&&◌, ◌||◌, ◌≡◌, inl, inr, refl, sym, subst, ◌∙◌,
  Option, if◌then◌else◌, none, some, arith,
}
use quantumcat.Files.{Result, Refusal, ok, err, refused}
use quantumcat.Enclave.{Machine, Helper, Context, load_reference, helper_key, helper_sign}
use quantumcat.Enclave.Identity.{
  Identity, is_nil, load_key, load_ref, load_helper, load, drop_exited, settle_sign, sign_with,
  sign_held, sign_loaded, sign_ready, sign,
}
use quantumcat.Enclave.Identity.Pinned.{Loads, load-Loads}

module _ (m : Machine) (open_helper : m.World → m.World × Result Helper) where
  -- It has given up its helper, and still knows the reference and the key.
  record Recovers (i j : Identity) : Type 0 where
    no_helper : j.helper ≡ none
    ref_stays : j.ref ≡ i.ref
    open_stays : j.closed ≡ i.closed

  settle_sign-Recovers :
      (i : Identity) (h : Helper) (w : m.World) (r : Result Bytes) (e : Refusal)
      → (settle_sign m open_helper i h w r).1.1 ≡ err e
      → Recovers i (settle_sign m open_helper i h w r).1.0
  unfolding settle_sign
  settle_sign-Recovers i h w (err e) f t = record {
    no_helper = refl;
    ref_stays = refl;
    open_stays = refl;
  }
  settle_sign-Recovers i h w (ok sig) f t = absurd cc

  sign_loaded-Recovers :
      (ctx : Context m) (label msg : Bytes) (i : Identity) (w : m.World)
      (loaded : Identity × Result (Unit {0})) (e : Refusal)
      → i.helper ≡ none
      → Loads m open_helper i loaded
      → (sign_loaded m open_helper ctx label msg loaded.0 w loaded.1).1.1 ≡ err e
      → Recovers i (sign_loaded m open_helper ctx label msg loaded.0 w loaded.1).1.0
  unfolding sign_loaded sign_held sign_with
  sign_loaded-Recovers ctx label msg i w loaded e n l t =
      let P : Identity × Result (Unit {0}) → Type 0 = λ u.
        (sign_loaded m open_helper ctx label msg u.0 w u.1).1.1 ≡ err e
        → Recovers i (sign_loaded m open_helper ctx label msg u.0 w u.1).1.0 in
      elim l [
        | inl (f, same) ↦
            subst P (sym same) (λ h. record { no_helper = n; ref_stays = refl; open_stays = refl })
              t
        | inr (h, (key, (v, (known, same)))) ↦
            subst P (sym same)
              (λ failed.
                let kept =
                  settle_sign-Recovers (record i { public = key; helper = some h }) h _ _ e
                    failed in
                record {
                  no_helper = kept.no_helper;
                  ref_stays = kept.ref_stays;
                  open_stays = kept.open_stays;
                })
              t
      ]

  sign_ready-Recovers :
      (ctx : Context m) (label msg : Bytes) (i : Identity) (held : Option Helper) (w : m.World)
      (e : Refusal)
      → i.helper ≡ held
      → (sign_ready m open_helper ctx label msg i held w).1.1 ≡ err e
      → Recovers i (sign_ready m open_helper ctx label msg i held w).1.0
  unfolding sign_ready sign_with
  sign_ready-Recovers ctx label msg i none w e n t =
      sign_loaded-Recovers ctx label msg i _ _ e n (load-Loads m open_helper ctx i w) t
  sign_ready-Recovers ctx label msg i (some h) w e n t = settle_sign-Recovers i h _ _ e t

  drop_exited-stays :
      (i : Identity) (held : Option Helper) (w : m.World)
      → ((drop_exited m open_helper i held w).1.ref ≡ i.ref)
        × ((drop_exited m open_helper i held w).1.closed ≡ i.closed)
  unfolding drop_exited
  drop_exited-stays i none w = (refl, refl)
  drop_exited-stays i (some h) w = elim (Bool-cases (m.exited w h.process)) [
    | inl t ↦ rw (t) (refl, refl)
    | inr f ↦ rw (f) (refl, refl)
  ]

  failed-Recovers :
      (ctx : Context m) (label msg : Bytes) (i : Identity) (w : m.World) (e : Refusal)
      → i.closed ≡ false
      → ctx w ≡ false
      → (sign m open_helper ctx label msg i w).1.1 ≡ err e
      → Recovers i (sign m open_helper ctx label msg i w).1.0
  unfolding sign
  failed-Recovers ctx label msg i w e live on t =
      let still : (i.closed || ctx w) ≡ false = ground arith in
      let (ref_same, closed_same) = drop_exited-stays i i.helper w in
      let t' : (sign_ready m open_helper ctx label msg (drop_exited m open_helper i i.helper w).1
            (drop_exited m open_helper i i.helper w).1.helper
            (drop_exited m open_helper i i.helper w).0).1.1
          ≡ err e =
        subst
          (λ b.
            (if b
              then (w, (i, err refused))
              else sign_ready m open_helper ctx label msg (drop_exited m open_helper i i.helper w).1
                  (drop_exited m open_helper i i.helper w).1.helper
                  (drop_exited m open_helper i i.helper w).0).1.1
            ≡ err e)
          still t in
      let kept = sign_ready-Recovers ctx label msg _ _ _ e refl t' in
      rw (still) (record {
        no_helper = kept.no_helper;
        ref_stays = kept.ref_stays ∙ ref_same;
        open_stays = kept.open_stays ∙ closed_same;
      })

  sign_afresh :
      (ctx : Context m) (label msg : Bytes) (i : Identity) (h : Helper) (reply sig : Bytes)
      (w w1 w2 w3 w4 : m.World)
      → i.closed ≡ false
      → i.helper ≡ none
      → ctx w ≡ false
      → open_helper w ≡ (w1, ok h)
      → load_reference m ctx h i.ref w1 ≡ (w2, ok reply)
      → helper_key m ctx h w2 ≡ (w3, ok i.public)
      → helper_sign m ctx h label msg w3 ≡ (w4, ok sig)
      → sign m open_helper ctx label msg i w ≡ (w4, (record i { helper = some h }, ok sig))
  unfolding sign drop_exited sign_ready load load_helper load_ref load_key sign_loaded sign_held
      sign_with settle_sign
  sign_afresh ctx label msg i h reply sig w w1 w2 w3 w4 live n on o l k s =
      let same : (not (is_nil i.public) && false) ≡ false = ground arith in
      rw (live, n, on, o, l, k, bytes_eq_self i.public, same, s) refl

  -- Signing with an open identity failed under a live context: then signing with it succeeds under a
  -- live context as soon as a new helper starts, loads the reference, gives the known key and signs,
  -- and the identity holds this helper.
  pub signs_again :
      (ctx later : Context m) (label msg again : Bytes) (i j : Identity) (h : Helper) (e : Refusal)
      (reply sig : Bytes) (v u w w1 w2 w3 w4 : m.World)
      → i.closed ≡ false
      → ctx v ≡ false
      → sign m open_helper ctx label msg i v ≡ (u, (j, err e))
      → later w ≡ false
      → open_helper w ≡ (w1, ok h)
      → load_reference m later h i.ref w1 ≡ (w2, ok reply)
      → helper_key m later h w2 ≡ (w3, ok j.public)
      → helper_sign m later h label again w3 ≡ (w4, ok sig)
      → sign m open_helper later label again j w ≡ (w4, (record j { helper = some h }, ok sig))
  signs_again ctx later label msg again i j h e reply sig v u w w1 w2 w3 w4 live on failed next o l
        k s =
      let kept : Recovers i j =
        subst (λ r. Recovers i r.1.0) failed
          (failed-Recovers ctx label msg i v e live on (rw (failed) refl)) in
      sign_afresh later label again j h reply sig w w1 w2 w3 w4 (kept.open_stays ∙ live)
        kept.no_helper next o (rw (kept.ref_stays) l) k s
