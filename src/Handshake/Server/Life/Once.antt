-- ===== src/Handshake/Server/Life/Once.antt =====
-- A server of internal/protocol/handshake.go hands out the key of a pending handshake at most once,
-- in any life.
use quantumcat.Base.{
  ℕ, zero, suc, ◌+◌, ◌≤◌, ◌<◌, ◌≡◌, refl, sym, subst, ◌∙◌, Bytes, Bool, true, false, not, ◌==◌,
  some, List, [], ◌∷◌, All, keep_if, keep_if-All, count_if, arith, Bool-cases, Option-cases,
  if_cases, inl, inr, ◌⊎◌,
}
use quantumcat.Base.Assoc.{
  lookup, insert, bytes_key, lookup-All, insert-All, erase-All, lookup-keep_if,
}
use quantumcat.Base.Counts.{All-map, insert-All_only}
use quantumcat.Crypto.{Crypto}
use quantumcat.Wire.{Keys, Peers}
use quantumcat.Handshake.Server.{
  Server, Pending, Callback, Reply, expire, is_live, close, install_result, installed, zero_key,
}
use quantumcat.Handshake.Server.Finish.{is_kept, session_of}
use quantumcat.Handshake.Server.Hello.{Draws, Packet, entry_of}
use quantumcat.Handshake.Server.Handle.{handle}
use quantumcat.Handshake.Server.Handle.Bounds.{
  IsBounded, handle-IsBounded, expire-IsBounded, install_result-IsBounded,
}
use quantumcat.Handshake.Server.Steps.{Step, rest, admit, install, handle-Step}
use quantumcat.Handshake.Server.Steps.Invariant.{
  Entries, IsBelow, IsSound, IsSoundServer, has_ident, handle-IsSound, expire-IsSound,
  install_result-IsSound, keep_if-IsSound,
}
use quantumcat.Handshake.Server.Life.{
  Life, Event, receives, reports, expires, closes, holds, IsOnce, report, step, run, with_session,
  new_life,
}

abbrev IsHandedBelow : ℕ → Callback → Type 0
IsHandedBelow n cb = cb.ident < n

-- An entry that was handed out is marked.
abbrev IsMarked : List Callback → Bytes × Pending → Type 0
IsMarked cbs (h, p) = holds p.ident cbs ≡ true → p.installing ≡ true

pub record IsTracked (next : ℕ) (es : Entries) (cbs : List Callback) : Type 0 where
  pub once : IsOnce cbs
  pub older : All (IsHandedBelow next) cbs
  pub marked : All (IsMarked cbs) es

holds_below :
    (next n : ℕ) (cbs : List Callback)
    → All (IsHandedBelow next) cbs
    → next ≤ n
    → holds n cbs ≡ false
unfolding holds
holds_below next n [] h le = refl
holds_below next n (cb ∷ cbs) h le = ground (arith, h.0, holds_below next n cbs h.1 le)

expire-IsTracked :
    (s : Server) (now : ℕ) (cbs : List Callback)
    → IsTracked s.next s.pending cbs
    → IsTracked (expire s now).next (expire s now).pending cbs
unfolding expire
expire-IsTracked s now cbs v = record {
  once = v.once;
  older = v.older;
  marked = keep_if-All (IsMarked cbs) (is_live now) s.pending v.marked;
}

admit-IsTracked :
    (next : ℕ) (es : Entries) (cbs : List Callback) (h : Bytes) (p : Pending)
    → p.ident ≡ next
    → IsTracked next es cbs
    → IsTracked (next + 1) (insert h p es) cbs
admit-IsTracked next es cbs h p i v = record {
  once = v.once;
  older = All-map (IsHandedBelow next) (IsHandedBelow (next + 1)) cbs (λ x lt. omega arith) v.older;
  marked =
      insert-All (IsMarked cbs) h p es
        (λ j e. ground (arith, holds_below next p.ident cbs v.older (omega arith))) v.marked;
}

-- The entry that is handed out was not marked, so it is new among the callbacks.
install-IsTracked :
    (next : ℕ) (es : Entries) (cbs : List Callback) (h source : Bytes) (p : Pending)
    → lookup h es ≡ some p
    → p.installing ≡ false
    → IsSound next es
    → IsTracked next es cbs
    → IsTracked next
        (insert h (record p { installing = true }) (keep_if (is_kept p source) es))
        ((session_of h p).callback ∷ cbs)
unfolding holds
install-IsTracked next es cbs h source p found idle sound v =
    let kept = keep_if (is_kept p source) es in
    let cbs' = (session_of h p).callback ∷ cbs in
    let marked = (lookup-All (IsMarked cbs) h p es v.marked found).1 in
    record {
      once = (ground (arith, marked), v.once);
      older = ((lookup-All (IsBelow next) h p es sound.below found).1, v.older);
      marked =
          insert-All_only (has_ident p.ident) (IsMarked cbs') h (record p { installing = true }) p
            kept ((keep_if-IsSound next (is_kept p source) es sound).distinct p.ident)
            (lookup-keep_if (is_kept p source) h p es (λ j. ground arith) found) (λ j. ground arith)
            (λ j _. refl)
            (All-map (IsMarked cbs) (λ x. has_ident p.ident x ≡ false → IsMarked cbs' x) kept
              (λ x m no e. m (ground arith))
              (keep_if-All (IsMarked cbs) (is_kept p source) es v.marked));
    }

install_result-IsTracked :
    (s : Server) (cb : Callback) (done : Bool) (cbs : List Callback)
    → IsTracked s.next s.pending cbs
    → IsTracked (install_result s cb done).next (install_result s cb done).pending cbs
unfolding install_result
install_result-IsTracked s cb done cbs v = elim (Option-cases (lookup cb.hash s.pending)) [
  | inl e ↦ rw (e, install_result) v
  | inr (p, e) ↦
      let q : Pending = record p { psk = zero_key; accepted = true } in
      let P : Server → Type 0 = λ t. IsTracked t.next t.pending cbs in
      rw (e, install_result)
        (if_cases P (not (p.ident == cb.ident)) (λ _. v)
          λ _.
            if_cases P done
              (λ _. record {
                once = v.once;
                older = v.older;
                marked =
                    insert-All (IsMarked cbs) cb.hash q s.pending
                      (λ j. (lookup-All (IsMarked cbs) cb.hash p s.pending v.marked e).1) v.marked;
              })
              λ _. record {
                once = v.once;
                older = v.older;
                marked = erase-All (IsMarked cbs) cb.hash s.pending v.marked;
              })
]

-- A report runs one callback, and leaves the entries that the callbacks were made for.
report_server :
    (s : Server) (cbs : List Callback) (i : ℕ) (done : Bool)
    → ((report s cbs i done).0 ≡ s)
      ⊎ ((cb : Callback) × ((report s cbs i done).0 ≡ install_result s cb done))
unfolding report installed
report_server s [] i done = inl refl
report_server s (cb ∷ cbs) zero done = elim (Bool-cases cb.fired) [
  | inl e ↦ inl (ground arith)
  | inr e ↦ inr (cb, ground arith)
]
report_server s (cb ∷ cbs) (suc i) done = report_server s cbs i done

holds-report :
    (s : Server) (cbs : List Callback) (i n : ℕ) (done : Bool)
    → holds n (report s cbs i done).1 ≡ holds n cbs
unfolding report installed holds
holds-report s [] i n done = refl
holds-report s (cb ∷ cbs) zero n done = ground arith
holds-report s (cb ∷ cbs) (suc i) n done = ground (arith, holds-report s cbs i n done)

report-IsOnce :
    (s : Server) (cbs : List Callback) (i : ℕ) (done : Bool)
    → IsOnce cbs
    → IsOnce (report s cbs i done).1
unfolding report installed
report-IsOnce s [] i done h = tt
report-IsOnce s (cb ∷ cbs) zero done h = ground arith
report-IsOnce s (cb ∷ cbs) (suc i) done h =
    (rw (holds-report s cbs i cb.ident done) h.0, report-IsOnce s cbs i done h.1)

report_older :
    (next : ℕ) (s : Server) (cbs : List Callback) (i : ℕ) (done : Bool)
    → All (IsHandedBelow next) cbs
    → All (IsHandedBelow next) (report s cbs i done).1
unfolding report installed
report_older next s [] i done h = tt
report_older next s (cb ∷ cbs) zero done h = (ground arith, h.1)
report_older next s (cb ∷ cbs) (suc i) done h = (h.0, report_older next s cbs i done h.1)

report-IsTracked :
    (s : Server) (cbs : List Callback) (i : ℕ) (done : Bool)
    → IsTracked s.next s.pending cbs
    → let (t, cbs') = report s cbs i done in IsTracked t.next t.pending cbs'
report-IsTracked s cbs i done v = record {
  once = report-IsOnce s cbs i done v.once;
  older = report_older _ s cbs i done moved.older;
  marked =
      All-map (IsMarked cbs) (IsMarked (report s cbs i done).1) (report s cbs i done).0.pending
        (λ x m e. m (sym (holds-report s cbs i x.1.ident done) ∙ e)) moved.marked;
}
  where
    moved : IsTracked (report s cbs i done).0.next (report s cbs i done).0.pending cbs
    moved = elim (report_server s cbs i done) [
      | inl e ↦ subst (λ t. IsTracked t.next t.pending cbs) (sym e) v
      | inr (cb, e) ↦
          subst (λ t. IsTracked t.next t.pending cbs) (sym e)
            (install_result-IsTracked s cb done cbs v)
    ]

Step-IsTracked :
    (c : Crypto) (d : Draws) {s t : Server} {m : Packet} {r : Reply} (cbs : List Callback)
    → Step c d s m t r
    → IsSoundServer s
    → IsTracked s.next s.pending cbs
    → IsTracked t.next t.pending (with_session r.session cbs)
Step-IsTracked c d cbs (rest p y n e) sound v = rw (p, n, e) v
Step-IsTracked c d {s} {m = m} cbs (admit id key a auth few p y n e) sound v =
    rw (p, n, e) (admit-IsTracked s.next s.pending cbs a.hash (entry_of c d s m id a) refl v)
Step-IsTracked c d {s} {m = m} cbs (install h p found proven a i none_ q y n e) sound v =
    rw (q, n, e) (install-IsTracked s.next s.pending cbs h m.source p found i sound v)

-- What holds of a server with the callbacks that it has handed out.
pub record IsGood (l : Life) : Type 0 where
  pub bounded : IsBounded l.server
  pub sound : IsSoundServer l.server
  pub tracked : IsTracked l.server.next l.server.pending l.handed

-- Clocks do not show Go's zero time.
abbrev pub IsTimed : Event → Type 0
IsTimed (receives d source packet now) = 0 < now
IsTimed _ = Unit {0}

module _ (c : Crypto) where
  receive-IsTracked :
      (d : Draws) (l : Life) (source packet : Bytes) (now : ℕ)
      → IsGood l
      → let (t, r) = handle c d l.server source packet now in
        IsTracked t.next t.pending (with_session r.session l.handed)
  receive-IsTracked d l source packet now v = elim (handle-Step c d l.server source packet now) [
    | inl e ↦ rw e v.tracked
    | inr (kind, b, e, st) ↦
        Step-IsTracked c d l.handed st (expire-IsSound l.server now v.sound)
          (expire-IsTracked l.server now l.handed v.tracked)
  ]

  close-IsGood : (l : Life) → IsGood l → IsGood (record l { server = close l.server })
  unfolding close
  close-IsGood l v = record {
    bounded = record {
      pending_256 = omega arith;
      replay_19264 = omega arith;
      limits_4096 = omega arith;
      peers_4096 = omega arith;
      limits_started = tt;
      peers_started = tt;
    };
    sound = record {
      below = tt;
      distinct = λ n. unfold count_if in omega arith;
      quota = λ n. unfold count_if in omega arith;
      one = λ n. unfold count_if in omega arith;
      wiped = tt;
    };
    tracked = record { once = v.tracked.once; older = v.tracked.older; marked = tt };
  }

  report-IsGood : (l : Life) (i : ℕ) (done : Bool) → IsGood l → IsGood (step c l (reports i done))
  unfolding step
  report-IsGood l i done v = record {
    bounded = elim (report_server l.server l.handed i done) [
      | inl e ↦ rw e v.bounded
      | inr (cb, e) ↦ rw e (install_result-IsBounded l.server cb done v.bounded)
    ];
    sound = elim (report_server l.server l.handed i done) [
      | inl e ↦ rw e v.sound
      | inr (cb, e) ↦ rw e (install_result-IsSound l.server cb done v.sound)
    ];
    tracked = report-IsTracked l.server l.handed i done v.tracked;
  }

  step-IsGood : (l : Life) (e : Event) → IsTimed e → IsGood l → IsGood (step c l e)
  unfolding step
  step-IsGood l (receives d source packet now) t v = record {
    bounded = handle-IsBounded c d l.server source packet now t v.bounded;
    sound = handle-IsSound c d l.server source packet now v.sound;
    tracked = receive-IsTracked d l source packet now v;
  }
  step-IsGood l (reports i done) t v = report-IsGood l i done v
  step-IsGood l (expires now) t v = record {
    bounded = expire-IsBounded l.server now v.bounded;
    sound = expire-IsSound l.server now v.sound;
    tracked = expire-IsTracked l.server now l.handed v.tracked;
  }
  step-IsGood l closes t v = close-IsGood l v

  run_from : (l : Life) (es : List Event) → All IsTimed es → IsGood l → IsGood (run c l es)
  unfolding run
  run_from l [] t v = v
  run_from l (e ∷ es) t v = run_from (step c l e) es t.1 (step-IsGood l e t.0 v)

  new-IsGood : (public : Bytes) (keys : Keys) (peers : Peers) → IsGood (new_life public keys peers)
  new-IsGood public keys peers = record {
    bounded = record {
      pending_256 = omega arith;
      replay_19264 = omega arith;
      limits_4096 = omega arith;
      peers_4096 = omega arith;
      limits_started = tt;
      peers_started = tt;
    };
    sound = record {
      below = tt;
      distinct = λ n. unfold count_if in omega arith;
      quota = λ n. unfold count_if in omega arith;
      one = λ n. unfold count_if in omega arith;
      wiped = tt;
    };
    tracked = record { once = tt; older = tt; marked = tt };
  }

  -- From a new server on, whatever is received, reported and expired in whichever order: the caches
  -- are bounded, the invariant of the pending handshakes holds, and no two callbacks, each of which
  -- comes with a pre-shared key, were handed out for one handshake.
  pub run-IsGood :
      (public : Bytes) (keys : Keys) (peers : Peers) (es : List Event)
      → All IsTimed es
      → IsGood (run c (new_life public keys peers) es)
  run-IsGood public keys peers es t =
      run_from (new_life public keys peers) es t (new-IsGood public keys peers)
