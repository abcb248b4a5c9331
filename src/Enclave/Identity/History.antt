-- ===== src/Enclave/Identity/History.antt =====
-- The life of an identity of the Secure Enclave: what it was opened with stays, whatever is asked of it
-- and whatever happens to the helpers meanwhile.
use quantumcat.Base.{
  Bytes, Bool, Bool-cases, true, false, if◌then◌else◌, ◌||◌, ◌≡◌, inl, inr, refl, sym, subst, ◌∙◌,
  none, some, List, [], ◌∷◌, arith,
}
use quantumcat.Files.{Result, ok, err}
use quantumcat.Enclave.{Machine, Helper, Context}
use quantumcat.Enclave.Identity.{
  Identity, is_nil, finish_open, open_identity, close_identity, public_key, sign,
}
use quantumcat.Enclave.Identity.Pinned.{Vouched, IsPinned, load-Loads}
use quantumcat.Enclave.Identity.Signed.{sign-Signs}

module _ (m : Machine) (open_helper : m.World → m.World × Result Helper) where
  pub data Event : Type 0 where
    signs : Context m → Bytes → Bytes → Event
    closes : Event
    -- Other things happen, to the processes too.
    passes : (m.World → m.World) → Event

  unfoldable pub step : Event → m.World → Identity → m.World × Identity
  step (signs ctx label msg) w i =
      let (v, returned) = sign m open_helper ctx label msg i w in (v, returned.0)
  step closes w i = close_identity m open_helper i w
  step (passes change) w i = (change w, i)

  unfoldable pub run : List Event → m.World → Identity → m.World × Identity
  run [] w i = (w, i)
  run (e ∷ es) w i = let (v, j) = step e w i in run es v j

  open_identity-IsPinned :
      (ctx : Context m) (ref : Bytes) (w : m.World) (i : Identity)
      → (open_identity m open_helper ctx ref w).1 ≡ ok i
      → IsPinned m open_helper ref i.public i
  unfolding open_identity finish_open
  open_identity-IsPinned ctx ref w i h =
      elim (load-Loads m open_helper ctx
        (record { helper = none; ref = ref; public = []; closed = false }) w) [
          | inl (e, same) ↦
              absurd
                (let bad : (open_identity m open_helper ctx ref w).1 ≡ err e = rw (same) refl in cc)
          | inr (g, (key, (v, (known, same)))) ↦
              let this : i ≡ record { helper = some g; ref = ref; public = key; closed = false } =
                let there : (open_identity m open_helper ctx ref w).1
                    ≡ ok (record { helper = some g; ref = ref; public = key; closed = false }) =
                  rw (same) refl in
                cc in
              subst (λ u. IsPinned m open_helper ref u.public u) (sym this)
                (record {
                  same_key = refl;
                  same_ref = λ live. refl;
                  vouched =
                      λ f eq. let one : g ≡ f = cc in subst (Vouched m open_helper ref key) one v;
                })
        ]

  step-IsPinned :
      {ref key : Bytes} (e : Event) (w : m.World) (i : Identity)
      → is_nil key ≡ false
      → IsPinned m open_helper ref key i
      → IsPinned m open_helper ref key (step e w i).1
  unfolding step close_identity
  step-IsPinned (signs ctx label msg) w i k p =
      (sign-Signs m open_helper {label = label} {msg = msg} ctx i w k p).pinned
  step-IsPinned closes w i k p = record {
    same_key = p.same_key;
    same_ref = λ live. cc;
    vouched = λ h held. cc;
  }
  step-IsPinned (passes change) w i k p = p

  run-IsPinned :
      {ref key : Bytes} (es : List Event) (w : m.World) (i : Identity)
      → is_nil key ≡ false
      → IsPinned m open_helper ref key i
      → IsPinned m open_helper ref key (run es w i).1
  unfolding run
  run-IsPinned [] w i k p = p
  run-IsPinned (e ∷ es) w i k p = run-IsPinned es _ _ k (step-IsPinned e w i k p)

  -- An identity that was opened with a key that is not empty, whatever was signed with it and
  -- whatever happened to its helpers since: a public key that it returns is the one it was opened
  -- with.
  pub pinned_key :
      (ctx later : Context m) (ref : Bytes) (w v : m.World) (i : Identity) (es : List Event)
      (key : Bytes)
      → open_identity m open_helper ctx ref w ≡ (v, ok i)
      → is_nil i.public ≡ false
      → public_key m open_helper later (run es v i).1 (run es v i).0 ≡ ok key
      → key ≡ i.public
  unfolding public_key
  pinned_key ctx later ref w v i es key o k h =
      let p : IsPinned m open_helper ref i.public (run es v i).1 =
        run-IsPinned es v i k (open_identity-IsPinned ctx ref w i (rw (o) refl)) in
      let here : (run es v i).1.public ≡ key =
        elim (Bool-cases ((run es v i).1.closed || later (run es v i).0)) [
          | inl t ↦ absurd (ground arith)
          | inr f ↦ ground arith
        ] in
      sym here ∙ p.same_key

  -- Whether the last signing that reached a helper succeeded; `b` is what was so before.
  abbrev signed_well : Result Bytes → Bool
  signed_well (ok sig) = true
  signed_well (err e) = false

  abbrev pub after_event : Event → m.World → Identity → Bool → Bool
  after_event (signs ctx label msg) w i b =
      if i.closed || ctx w then b else signed_well (sign m open_helper ctx label msg i w).1.1
  after_event closes w i b = b
  after_event (passes change) w i b = b

  unfoldable pub in_step : List Event → m.World → Identity → Bool → Bool
  in_step [] w i b = b
  in_step (e ∷ es) w i b = let (v, j) = step e w i in in_step es v j (after_event e w i b)

  -- A helper is held only while the flag is set.
  abbrev InStep : Identity → Bool → Type 0
  InStep i b = (h : Helper) → i.helper ≡ some h → b ≡ true
