-- ===== src/Handshake/Server/Steps/Invariant.antt =====
-- The invariant of the pending handshakes of internal/protocol/handshake.go, kept by every step.
use quantumcat.Base.{
  ℕ, ◌+◌, ◌≤◌, ◌<◌, ◌≡◌, refl, sym, subst, ◌∙◌, Bytes, bytes_eq, bytes_eq_iff, Bool, true, false,
  not, ◌&&◌, ◌==◌, some, List, All, keep_if, keep_if-All, count_if, count_if-keep_if, arith,
  Bool-cases, Option-cases, if_cases, inl, inr,
}
use quantumcat.Base.Assoc.{
  lookup, insert, erase, bytes_key, lookup-All, insert-All, erase-All, lookup-keep_if,
}
use quantumcat.Base.Counts.{
  count_if-le, count_if_none, All-keep_if, All-map, count-insert, count-insert_no,
  count-insert_same, count-erase,
}
use quantumcat.Crypto.{Crypto}
use quantumcat.Handshake.Server.{
  Server, Pending, Callback, Reply, expire, is_live, install_result, zero_key,
}
use quantumcat.Handshake.Server.Finish.{is_kept, may_finish}
use quantumcat.Handshake.Server.Hello.{Draws, Packet, is_owned, entry_of}
use quantumcat.Handshake.Server.Handle.{handle}
use quantumcat.Handshake.Server.Steps.{Step, rest, admit, install, handle-Step}

abbrev pub Entries : Type 0
Entries = List (Bytes × Pending)

abbrev pub has_ident : ℕ → Bytes × Pending → Bool
has_ident n (h, p) = p.ident == n

-- An installation of this source that is outstanding.
abbrev pub is_outstanding : Bytes → Bytes × Pending → Bool
is_outstanding source (h, p) = bytes_eq p.source source && (p.installing && not p.accepted)

abbrev pub IsBelow : ℕ → Bytes × Pending → Type 0
IsBelow n (h, p) = p.ident < n

abbrev pub IsWiped : Bytes × Pending → Type 0
IsWiped (h, p) = p.accepted ≡ true → p.psk ≡ zero_key

-- Allocation numbers are distinct and below the next; an identity owns at most eight handshakes; a
-- source has at most one installation outstanding; an accepted entry has no pre-shared key left.
pub record IsSound (next : ℕ) (es : Entries) : Type 0 where
  pub below : All (IsBelow next) es
  pub distinct : (n : ℕ) → count_if (has_ident n) es ≤ 1
  pub quota : (id : Bytes) → count_if (is_owned id) es ≤ 8
  pub one : (source : Bytes) → count_if (is_outstanding source) es ≤ 1
  pub wiped : All IsWiped es

pub keep_if-IsSound :
    (next : ℕ) (q : Bytes × Pending → Bool) (es : Entries)
    → IsSound next es
    → IsSound next (keep_if q es)
keep_if-IsSound next q es v = record {
  below = keep_if-All (IsBelow next) q es v.below;
  distinct = λ n. omega (arith, v.distinct n, count_if-keep_if (has_ident n) q es);
  quota = λ id. omega (arith, v.quota id, count_if-keep_if (is_owned id) q es);
  one = λ src. omega (arith, v.one src, count_if-keep_if (is_outstanding src) q es);
  wiped = keep_if-All IsWiped q es v.wiped;
}

erase-IsSound : (next : ℕ) (h : Bytes) (es : Entries) → IsSound next es → IsSound next (erase h es)
erase-IsSound next h es v = record {
  below = erase-All (IsBelow next) h es v.below;
  distinct = λ n. omega (arith, v.distinct n, count-erase (has_ident n) h es);
  quota = λ id. omega (arith, v.quota id, count-erase (is_owned id) h es);
  one = λ src. omega (arith, v.one src, count-erase (is_outstanding src) h es);
  wiped = erase-All IsWiped h es v.wiped;
}

no_ident : (next : ℕ) (es : Entries) → All (IsBelow next) es → count_if (has_ident next) es ≡ 0
no_ident next es h =
    count_if_none (has_ident next) es
      (All-map (IsBelow next) (λ x. has_ident next x ≡ false) es (λ x lt. ground arith) h)

-- A new entry, of an identity that owns fewer than eight.
module _ (next : ℕ) (h : Bytes) (p : Pending) (es : Entries) where
  admit-IsSound :
      p.ident ≡ next
      → p.accepted ≡ false
      → p.installing ≡ false
      → count_if (is_owned p.peer) es < 8
      → IsSound next es
      → IsSound (next + 1) (insert h p es)
  admit-IsSound i a g few v = record {
    below =
        insert-All (IsBelow (next + 1)) h p es (λ j. omega arith)
          (All-map (IsBelow next) (IsBelow (next + 1)) es (λ x lt. omega arith) v.below);
    distinct = λ n. elim (Bool-cases (p.ident == n)) [
      | inl e ↦ ground (
        arith,
        count-insert (has_ident n) h p es,
        no_ident next es v.below,
        same n (ground arith),
      )
      | inr e ↦ omega (arith, v.distinct n, count-insert_no (has_ident n) h p es (λ j. e))
    ];
    quota = λ id. elim (Bool-cases (bytes_eq p.peer id)) [
      | inl e ↦
          let eq : p.peer ≡ id = (bytes_eq_iff p.peer id).0 e in
          omega (
            arith,
            count-insert (is_owned id) h p es,
            subst (λ x. count_if (is_owned x) es < 8) eq few,
          )
      | inr e ↦ omega (arith, v.quota id, count-insert_no (is_owned id) h p es (λ j. e))
    ];
    one = λ src.
        omega (arith, v.one src, count-insert_no (is_outstanding src) h p es (λ j. ground arith));
    wiped = insert-All IsWiped h p es (λ j e. cc) v.wiped;
  }
    where
      same : (n : ℕ) → n ≡ next → count_if (has_ident n) es ≡ count_if (has_ident next) es
      same n e = rw e

-- A rewrite of a found entry that keeps its number, owner and source.
module _ (next : ℕ) (h : Bytes) (p p' : Pending) (es : Entries) where
  rewrite-IsSound :
      lookup h es ≡ some p
      → p'.ident ≡ p.ident
      → p'.peer ≡ p.peer
      → (p.ident < next)
      → ((source : Bytes) → count_if (is_outstanding source) (insert h p' es) ≤ 1)
      → (p'.accepted ≡ true → p'.psk ≡ zero_key)
      → IsSound next es
      → IsSound next (insert h p' es)
  rewrite-IsSound found i o lt one w v = record {
    below = insert-All (IsBelow next) h p' es (λ j. omega arith) v.below;
    distinct = λ n.
        omega (arith, v.distinct n, count-insert_same (has_ident n) h p' p es found (λ j. rw i));
    quota = λ id.
        omega (arith, v.quota id, count-insert_same (is_owned id) h p' p es found (λ j. rw o));
    one = one;
    wiped = insert-All IsWiped h p' es (λ j. w) v.wiped;
  }

below_found :
    (next : ℕ) (h : Bytes) (p : Pending) (es : Entries)
    → IsSound next es
    → lookup h es ≡ some p
    → p.ident < next
below_found next h p es v found = (lookup-All (IsBelow next) h p es v.below found).1

-- The start of an installation, behind the removal of the source's other entries.
module _ (next : ℕ) (h source : Bytes) (p : Pending) (es : Entries) where
  abbrev kept : Entries
  kept = keep_if (is_kept p source) es

  abbrev marked : Pending
  marked = record p { installing = true }

  kept_found : lookup h es ≡ some p → lookup h kept ≡ some p
  kept_found found = lookup-keep_if (is_kept p source) h p es (λ j. ground arith) found

  -- What is left of the source is the entry itself.
  one_source :
      IsSound next es
      → lookup h es ≡ some p
      → count_if (is_outstanding source) (insert h marked kept) ≤ 1
  one_source v found = omega (
    arith,
    count_if-le (is_outstanding source) (has_ident p.ident) (insert h marked kept) (
        insert-All (λ x. is_outstanding source x ≡ true → has_ident p.ident x ≡ true) h marked kept
          (λ j _. ground arith)
          (All-map (λ x. is_kept p source x ≡ true)
            (λ x. is_outstanding source x ≡ true → has_ident p.ident x ≡ true) kept
            (λ x k o. ground arith) (All-keep_if (is_kept p source) es))),
    count-insert_same (has_ident p.ident) h marked p kept (kept_found found) (λ j. refl),
    (keep_if-IsSound next (is_kept p source) es v).distinct p.ident,
  )

  install-IsSound :
      p.source ≡ source
      → lookup h es ≡ some p
      → IsSound next es
      → (p.accepted ≡ true → p.psk ≡ zero_key)
      → IsSound next (insert h marked kept)
  install-IsSound from found v w =
      let v' = keep_if-IsSound next (is_kept p source) es v in
      rewrite-IsSound next h p marked kept (kept_found found) refl refl
        (below_found next h p es v found)
        (λ src. elim (Bool-cases (bytes_eq p.source src)) [
          | inl e ↦
              subst (λ x. count_if (is_outstanding x) (insert h marked kept) ≤ 1)
                (sym from ∙ (bytes_eq_iff p.source src).0 e) (one_source v found)
          | inr e ↦
              omega
                (arith, v'.one src, count-insert_no (is_outstanding src) h marked kept (λ j. rw e))
        ])
        w v'

may_finish_source :
    (c : Crypto) (s : Server) (source h : Bytes) (p : Pending) (tag : Bytes)
    → may_finish c s source h p tag ≡ true
    → p.source ≡ source
unfolding may_finish
may_finish_source c s source h p tag e = ground (arith, bytes_eq_iff p.source source)

-- The state of a server in which the invariant holds.
abbrev pub IsSoundServer : Server → Type 0
IsSoundServer s = IsSound s.next s.pending

pub expire-IsSound : (s : Server) (now : ℕ) → IsSoundServer s → IsSoundServer (expire s now)
unfolding expire
expire-IsSound s now v = keep_if-IsSound s.next (is_live now) s.pending v

-- The callback accepts an entry, drops it, or finds that it is no longer there.
pub install_result-IsSound :
    (s : Server) (cb : Callback) (done : Bool)
    → IsSoundServer s
    → IsSoundServer (install_result s cb done)
unfolding install_result
install_result-IsSound s cb done v = elim (Option-cases (lookup cb.hash s.pending)) [
  | inl e ↦ rw (e, install_result) v
  | inr (p, e) ↦
      let q : Pending = record p { psk = zero_key; accepted = true } in
      rw (e, install_result)
        (if_cases IsSoundServer (not (p.ident == cb.ident)) (λ _. v)
          λ _.
            if_cases IsSoundServer done
              (λ _.
                rewrite-IsSound s.next cb.hash p q s.pending e refl refl
                  (below_found s.next cb.hash p s.pending v e)
                  (λ src. omega (
                    arith,
                    v.one src,
                    count-insert_no (is_outstanding src) cb.hash q s.pending (λ j. ground arith),
                  ))
                  (λ _. refl) v)
              λ _. erase-IsSound s.next cb.hash s.pending v)
]

module _ (c : Crypto) (d : Draws) where
  pub Step-IsSound :
      {s t : Server} {m : Packet} {r : Reply} → Step c d s m t r → IsSoundServer s → IsSoundServer t
  Step-IsSound (rest p y n e) v = rw (p, n) v
  Step-IsSound {s} {m = m} (admit id key a auth few p y n e) v =
      rw (p, n) (admit-IsSound s.next a.hash (entry_of c d s m id a) s.pending refl refl refl few v)
  Step-IsSound {s} {m = m} (install h p found proven a i any_ q y n e) v =
      rw (q, n)
        (install-IsSound s.next h m.source p s.pending (may_finish_source c s m.source h p _ proven)
          found v (λ x. cc))

  -- Whatever packet comes, from whichever source and at any time.
  pub handle-IsSound :
      (s : Server) (source packet : Bytes) (now : ℕ)
      → IsSoundServer s
      → IsSoundServer (handle c d s source packet now).0
  handle-IsSound s source packet now v = elim (handle-Step c d s source packet now) [
    | inl e ↦ rw e v
    | inr (kind, b, e, step) ↦ Step-IsSound step (expire-IsSound s now v)
  ]
