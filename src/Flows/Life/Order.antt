-- ===== src/Flows/Life/Order.antt =====
-- Which datagrams go into the connection of a source, and in which order.
use quantumcat.Base.{
  Bytes, bytes_eq, bytes_eq→eq, Bool, Bool-cases, true, false, if◌then◌else◌, ◌≡◌, inl, inr, refl,
  sym, ap, subst, ◌∙◌, Option, none, some, List, [], ◌∷◌, ◌++◌, append_assoc, append-nil,
}
use quantumcat.Base.Assoc.{lookup, bytes_key, lookup-insert}
use quantumcat.Flows.Life.Subsequence.{
  IsSubsequence, keep_last, part_of, whole, after, before_same, front,
}
use quantumcat.Flows.Life.{
  Flow, Listener, waits, makes_room, tries_again, stopped, Forward, Note, reads, sends, delivers,
  Moved, set_flow,
}

-- What the loop read from a source, and what went into the connection of a source.
unfoldable pub received : Bytes → List Note → List Bytes
received source [] = []
received source (reads s p ∷ rest) =
    let later = received source rest in if bytes_eq s source then p ∷ later else later
received source (sends s p ∷ rest) = received source rest
received source (delivers s p ∷ rest) = received source rest

unfoldable pub sent : Bytes → List Note → List Bytes
sent source [] = []
sent source (reads s p ∷ rest) = sent source rest
sent source (sends s p ∷ rest) =
    let later = sent source rest in if bytes_eq s source then p ∷ later else later
sent source (delivers s p ∷ rest) = sent source rest

abbrev pub queue_in : Option Flow → List Bytes
queue_in none = []
queue_in (some f) = f.queue

abbrev pub only_if : Bool → Bytes → List Bytes
only_if b p = if b then p ∷ [] else []

-- What the loop holds for a source.
abbrev pub in_hand : Bytes → Listener → List Bytes
in_hand source waits = []
in_hand source (makes_room s p) = only_if (bytes_eq s source) p
in_hand source (tries_again s p) = only_if (bytes_eq s source) p
in_hand source stopped = []

-- What may still be sent for a source.
abbrev pub held : Bytes → Forward → List Bytes
held source s = queue_in (lookup source s.flows) ++ in_hand source s.listener

pub none_sent : (source : Bytes) → sent source [] ≡ []
unfolding sent
none_sent source = refl

pub none_received : (source : Bytes) → received source [] ≡ []
unfolding received
none_received source = refl

module _ (source : Bytes) where
  -- A move sends from what is held, and holds what it received.
  abbrev pub Keeps : Forward → Moved → Type 0
  Keeps s r =
      (before all : List Bytes)
      → IsSubsequence (before ++ held source s) all
      → IsSubsequence ((before ++ sent source r.1) ++ held source r.0) (all ++ received source r.1)

  -- Nothing was sent or received, and what is held is part of what was.
  pub quiet :
      (s t : Forward) (notes : List Note)
      → sent source notes ≡ []
      → received source notes ≡ []
      → IsSubsequence (held source t) (held source s)
      → Keeps s (t, notes)
  quiet s t notes no_sent no_received part before all h =
      let kept : IsSubsequence (before ++ held source t) all = part_of h _ (after before part) in
      let right : all ++ received source notes ≡ all =
        ap (λ l. all ++ l) no_received ∙ append-nil all in
      let left : before ++ sent source notes ≡ before =
        ap (λ l. before ++ l) no_sent ∙ append-nil before in
      subst (λ x. IsSubsequence ((before ++ sent source notes) ++ held source t) x) (sym right)
        (subst (λ x. IsSubsequence (x ++ held source t) all) (sym left) kept)

  pub idle : (s : Forward) → Keeps s (s, [])
  idle s = quiet s s [] (none_sent source) (none_received source) (whole (held source s))

  -- A flow's record and the loop's place change.
  pub held-set_flow :
      (other : Bytes) (g : Flow) (l : Listener) (s : Forward)
      → held source (record (set_flow other g s) { listener = l })
        ≡ (if bytes_eq other source then g.queue else queue_in (lookup source s.flows))
          ++ in_hand source l
  unfolding set_flow
  held-set_flow other g l s = elim (Bool-cases (bytes_eq other source)) [
    | inl t ↦ rw (lookup-insert other source g s.flows, t) refl
    | inr f ↦ rw (lookup-insert other source g s.flows, f) refl
  ]

  pub found_here :
      (other : Bytes) (o : Option Flow) (s : Forward)
      → bytes_eq other source ≡ true
      → lookup other s.flows ≡ o
      → lookup source s.flows ≡ o
  found_here other o s t there =
      ap (λ k. lookup k s.flows) (sym (bytes_eq→eq other source t)) ∙ there

  -- A change of a flow that is there, and of the loop's place, keeps a part.
  pub part_flow :
      (other : Bytes) (f g : Flow) (l : Listener) (s : Forward)
      → lookup other s.flows ≡ some f
      → (bytes_eq other source ≡ true
          → IsSubsequence (g.queue ++ in_hand source l) (f.queue ++ in_hand source s.listener))
      → (bytes_eq other source ≡ false → in_hand source l ≡ in_hand source s.listener)
      → IsSubsequence (held source (record (set_flow other g s) { listener = l })) (held source s)
  part_flow other f g l s there part same = elim (Bool-cases (bytes_eq other source)) [
    | inl t ↦
        let e1 : held source (record (set_flow other g s) { listener = l })
            ≡ g.queue ++ in_hand source l =
          held-set_flow other g l s ∙ rw (t) refl in
        let e2 : held source s ≡ f.queue ++ in_hand source s.listener =
          ap (λ o. queue_in o ++ in_hand source s.listener) (found_here other (some f) s t there) in
        subst (λ x. IsSubsequence x (held source s)) (sym e1)
          (subst (λ y. IsSubsequence (g.queue ++ in_hand source l) y) (sym e2) (part t))
    | inr o ↦
        let e1 : held source (record (set_flow other g s) { listener = l }) ≡ held source s =
          held-set_flow other g l s
          ∙ (rw (o) (ap (λ h. queue_in (lookup source s.flows) ++ h) (same o))) in
        subst (λ x. IsSubsequence x (held source s)) (sym e1) (whole (held source s))
  ]

  pub quiet_flow :
      (other : Bytes) (f g : Flow) (s : Forward) (notes : List Note)
      → sent source notes ≡ []
      → received source notes ≡ []
      → lookup other s.flows ≡ some f
      → IsSubsequence g.queue f.queue
      → Keeps s (set_flow other g s, notes)
  unfolding set_flow
  quiet_flow other f g s notes ns nr there part = quiet s (set_flow other g s) notes ns nr (
      part_flow other f g s.listener s there (λ t. before_same part (in_hand source s.listener))
        (λ o. refl))

  -- The first of a queue is sent.
  pub emits :
      (other packet : Bytes) (f g : Flow) (s : Forward)
      → lookup other s.flows ≡ some f
      → f.queue ≡ packet ∷ g.queue
      → Keeps s (set_flow other g s, sends other packet ∷ [])
  unfolding sent received set_flow
  emits other packet f g s there q before all h = elim (Bool-cases (bytes_eq other source)) [
    | inl t ↦
        let e1 : held source (set_flow other g s) ≡ g.queue ++ in_hand source s.listener =
          held-set_flow other g s.listener s ∙ rw (t) refl in
        let e2 : held source s ≡ (packet ∷ g.queue) ++ in_hand source s.listener =
          ap (λ o. queue_in o ++ in_hand source s.listener) (found_here other (some f) s t there)
          ∙ ap (λ l. l ++ in_hand source s.listener) q in
        let moved : (before ++ (packet ∷ [])) ++ (g.queue ++ in_hand source s.listener)
            ≡ before ++ held source s =
          append_assoc before (packet ∷ []) (g.queue ++ in_hand source s.listener)
          ∙ ap (λ l. before ++ l) (sym e2) in
        rw (t) (
          subst
            (λ x. IsSubsequence ((before ++ (packet ∷ [])) ++ held source (set_flow other g s)) x)
            (sym (append-nil all))
            (subst (λ x. IsSubsequence x all)
              (sym (ap (λ l. (before ++ (packet ∷ [])) ++ l) e1 ∙ moved)) h))
    | inr o ↦
        let e1 : held source (set_flow other g s) ≡ held source s =
          held-set_flow other g s.listener s ∙ rw (o) refl in
        rw (o) (
          subst (λ x. IsSubsequence ((before ++ []) ++ held source (set_flow other g s)) x)
            (sym (append-nil all))
            (subst (λ x. IsSubsequence x all)
              (sym (
                ap (λ l. l ++ held source (set_flow other g s)) (append-nil before)
                ∙ ap (λ l. before ++ l) e1))
              h))
  ]

  -- A datagram is received and held, or not held.
  pub gains :
      (other packet : Bytes) (s t : Forward)
      → held source t ≡ held source s ++ only_if (bytes_eq other source) packet
      → Keeps s (t, reads other packet ∷ [])
  unfolding sent received
  gains other packet s t e before all h = elim (Bool-cases (bytes_eq other source)) [
    | inl b ↦
        let longer : (before ++ []) ++ held source t ≡ (before ++ held source s) ++ (packet ∷ []) =
          ap (λ l. l ++ held source t) (append-nil before)
          ∙ (ap (λ l. before ++ l) (e ∙ rw (b) refl)
              ∙ sym (append_assoc before (held source s) (packet ∷ []))) in
        rw (b)
          (subst (λ x. IsSubsequence x (all ++ (packet ∷ []))) (sym longer) (keep_last packet h))
    | inr b ↦
        let same : (before ++ []) ++ held source t ≡ before ++ held source s =
          ap (λ l. l ++ held source t) (append-nil before)
          ∙ ap (λ l. before ++ l) (e ∙ (rw (b) (append-nil (held source s)))) in
        rw (b) (
          subst (λ x. IsSubsequence x (all ++ [])) (sym same)
            (subst (IsSubsequence (before ++ held source s)) (sym (append-nil all)) h))
  ]

  pub loses : (other packet : Bytes) (s : Forward) → Keeps s (s, reads other packet ∷ [])
  unfolding sent received
  loses other packet s before all h =
      let same : (before ++ []) ++ held source s ≡ before ++ held source s =
        ap (λ l. l ++ held source s) (append-nil before) in
      subst (λ x. IsSubsequence x (all ++ only_if (bytes_eq other source) packet)) (sym same)
        (part_of (front all (only_if (bytes_eq other source) packet)) _ h)
