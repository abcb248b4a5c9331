-- ===== src/Enclave/Identity/Pinned.antt =====
-- What an identity of the Secure Enclave keeps: its public key, and helpers that proved to hold it.
use quantumcat.Base.{
  Bytes, bytes_eq, bytes_eq→eq, true, false, not, ◌&&◌, ◌≡◌, ◌⊎◌, inl, inr, refl, sym, subst, ◌∙◌,
  Bool-cases, Option, none, some, arith,
}
use quantumcat.Files.{Result, Refusal, ok, err, refused}
use quantumcat.Enclave.{Machine, Helper, Context, load_reference, helper_key}
use quantumcat.Enclave.Identity.{
  Identity, is_nil, load_key, load_ref, load_helper, load, drop_exited,
}

module _ (m : Machine) (open_helper : m.World → m.World × Result Helper) where
  -- A helper that was started, then loaded the reference, then gave the key, one call behind the other
  -- under one context.
  pub record Vouched (ref key : Bytes) (h : Helper) : Type 0 where
    pub context : Context m
    pub start_world : m.World
    pub load_world : m.World
    pub started : open_helper start_world ≡ (load_world, ok h)
    pub key_world : m.World
    pub reply : Bytes
    pub loaded : load_reference m context h ref load_world ≡ (key_world, ok reply)
    pub gave : (helper_key m context h key_world).1 ≡ ok key

  pub record IsPinned (ref key : Bytes) (i : Identity) : Type 0 where
    pub same_key : i.public ≡ key
    pub same_ref : i.closed ≡ false → i.ref ≡ ref
    pub vouched : (h : Helper) → i.helper ≡ some h → Vouched ref key h

  -- A load fails and changes nothing, or has a helper that holds the key, which is the known one.
  abbrev pub Loads : Identity → Identity × Result (Unit {0}) → Type 0
  Loads i r =
      ((e : Refusal) × (r ≡ (i, err e)))
      ⊎ ((h : Helper) × ((key : Bytes) × (Vouched i.ref key h
              × (((is_nil i.public ≡ true) ⊎ (i.public ≡ key))
                  × (r ≡ (record i { public = key; helper = some h }, ok tt))))))

  known_key :
      (known key : Bytes)
      → (not (is_nil known) && not (bytes_eq known key)) ≡ false
      → (is_nil known ≡ true) ⊎ (known ≡ key)
  known_key known key h = elim (Bool-cases (is_nil known)) [
    | inl t ↦ inl t
    | inr f ↦ inr (bytes_eq→eq known key (ground arith))
  ]

  load_key-Loads :
      (i : Identity) (h : Helper) (w : m.World) (r : Result Bytes)
      → ((key : Bytes) → r ≡ ok key → Vouched i.ref key h)
      → Loads i (load_key m open_helper i h w r).1
  unfolding load_key
  load_key-Loads i h w (err e) v = inl (e, refl)
  load_key-Loads i h w (ok key) v =
      elim (Bool-cases (not (is_nil i.public) && not (bytes_eq i.public key))) [
        | inl t ↦ inl (refused, rw (t))
        | inr f ↦ inr (h, (key, (v key refl, (known_key i.public key f, rw (f)))))
      ]

  load_ref-Loads :
      (ctx : Context m) (i : Identity) (h : Helper) (w0 w1 w : m.World) (r : Result Bytes)
      → open_helper w0 ≡ (w1, ok h)
      → load_reference m ctx h i.ref w1 ≡ (w, r)
      → Loads i (load_ref m open_helper ctx i h w r).1
  unfolding load_ref
  load_ref-Loads ctx i h w0 w1 w (err e) start from = inl (e, refl)
  load_ref-Loads ctx i h w0 w1 w (ok reply) start from = load_key-Loads i h _ _ (λ key given.
      record {
        context = ctx;
        start_world = w0;
        load_world = w1;
        started = start;
        key_world = w;
        reply = reply;
        loaded = from;
        gave = given;
      })

  load_helper-Loads :
      (ctx : Context m) (i : Identity) (w0 w : m.World) (r : Result Helper)
      → open_helper w0 ≡ (w, r)
      → Loads i (load_helper m open_helper ctx i w r).1
  unfolding load_helper
  load_helper-Loads ctx i w0 w (err e) start = inl (e, refl)
  load_helper-Loads ctx i w0 w (ok h) start = load_ref-Loads ctx i h w0 w _ _ start refl

  pub load-Loads :
      (ctx : Context m) (i : Identity) (w : m.World) → Loads i (load m open_helper ctx i w).1
  unfolding load
  load-Loads ctx i w = elim (Bool-cases (ctx w)) [
    | inl t ↦ inl (refused, rw (t))
    | inr f ↦ rw (f) (load_helper-Loads ctx i w _ _ refl)
  ]

  pub without_helper :
      (ref key : Bytes) (i : Identity)
      → IsPinned ref key i
      → IsPinned ref key (record i { helper = none })
  without_helper ref key i p = record {
    same_key = p.same_key;
    same_ref = p.same_ref;
    vouched = λ h none_held. cc;
  }

  module _ {ref key : Bytes} where
    -- A load keeps what is pinned.
    pub Loads-IsPinned :
        (i : Identity) (r : Identity × Result (Unit {0}))
        → is_nil key ≡ false
        → i.closed ≡ false
        → IsPinned ref key i
        → Loads i r
        → IsPinned ref key r.0
    Loads-IsPinned i r k live p l = elim l [
      | inl (e, same) ↦ subst (λ u. IsPinned ref key u.0) (sym same) p
      | inr (h, (got, (v, (known, same)))) ↦
          let here : got ≡ key = elim known [
            | inl t ↦
                absurd
                  (let bad : is_nil key ≡ true = subst (λ u. is_nil u ≡ true) p.same_key t in cc)
            | inr s ↦ sym s ∙ p.same_key
          ] in
          let good : Vouched ref key h =
            subst (λ u. Vouched ref u h) here (subst (λ u. Vouched u got h) (p.same_ref live) v) in
          let kept : IsPinned ref key (record i { public = got; helper = some h }) = record {
            same_key = here;
            same_ref = p.same_ref;
            vouched = λ g eq. let one : h ≡ g = cc in subst (Vouched ref key) one good;
          } in
          subst (λ u. IsPinned ref key u.0) (sym same) kept
    ]

    pub drop_exited-IsPinned :
        (i : Identity) (held : Option Helper) (w : m.World)
        → IsPinned ref key i
        → IsPinned ref key (drop_exited m open_helper i held w).1
          × ((drop_exited m open_helper i held w).1.closed ≡ i.closed)
    unfolding drop_exited
    drop_exited-IsPinned i none w p = (p, refl)
    drop_exited-IsPinned i (some h) w p = elim (Bool-cases (m.exited w h.process)) [
      | inl t ↦ rw (t) (without_helper ref key i p, refl)
      | inr f ↦ rw (f) (p, refl)
    ]
