-- ===== src/Flows/Queue.antt =====
-- internal/proxy/udp.go: the limits of the flows, and which datagrams a full queue keeps.
use quantumcat.Base.{
  ℕ, zero, suc, ◌+◌, ◌-◌, ◌≤◌, ◌≡◌, refl, ap, sym, ◌∙◌, Bytes, ltb, leb, if_cases, some, List, [],
  ◌∷◌, ◌++◌, append_assoc, length, length-append, length-drop, drop, drop_all, append-nil, map, All,
  arith, Option-cases, inl, inr,
}
use quantumcat.Base.Assoc.{
  lookup, insert, bytes_key, length-insert, length-insert-member, length-erase, lookup-member,
  insert-All, erase-All, lookup-All, lookup-insert_self,
}
use quantumcat.Udp.{max_datagram}
use quantumcat.Flows.{
  Flows, max_flows, queue_depth, push, enqueue, receive, take_next, Event, datagram, taken, ended,
  step, run,
}

abbrev Short : Bytes × List Bytes → Type 0
Short (source, queue) = length queue ≤ queue_depth

abbrev pub IsBounded : Flows → Type 0
IsBounded flows = (length flows ≤ max_flows) × All Short flows

length-enqueue :
    (packet : Bytes) (before after : ℕ) (queue : List Bytes)
    → length queue ≤ queue_depth
    → length (enqueue packet before after queue) ≤ queue_depth
unfolding enqueue push
length-enqueue packet before after queue h =
    let rest = drop after (drop 1 (drop before queue)) in
    let left : length rest ≤ queue_depth = omega (
      arith,
      h,
      length-drop after (drop 1 (drop before queue)),
      length-drop 1 (drop before queue),
      length-drop before queue,
    ) in
    ground (arith, length-append queue (packet ∷ []), length-append rest (packet ∷ []), left)

receive-IsBounded :
    (source packet : Bytes) (before after : ℕ) (flows : Flows)
    → IsBounded flows
    → IsBounded (receive source packet before after flows)
unfolding receive
receive-IsBounded source packet before after flows (few, h) =
    if_cases IsBounded (ltb max_datagram (length packet)) (λ e. (few, h))
      (λ e. elim (Option-cases (lookup source flows)) [
        | inl missing ↦
            let q = enqueue packet before after [] in
            let short : length q ≤ queue_depth =
              length-enqueue packet before after [] (omega arith) in
            rw (missing) (
              if_cases IsBounded (leb max_flows (length flows)) (λ e. (few, h))
                (λ room. (
                  ground (arith, length-insert source q flows),
                  insert-All Short source q flows (λ k. short) h,
                )))
        | inr (queue, found) ↦
            let q = enqueue packet before after queue in
            let short : length q ≤ queue_depth =
              length-enqueue packet before after queue
                (lookup-All Short source queue flows h found).1 in
            rw (found) (
              omega (
                arith,
                few,
                length-insert-member source q flows (lookup-member source queue flows found),
              ),
              insert-All Short source q flows (λ k. short) h,
            )
      ])

take_next-IsBounded :
    (source : Bytes) (flows : Flows) → IsBounded flows → IsBounded (take_next source flows)
unfolding take_next
take_next-IsBounded source flows (few, h) = elim (Option-cases (lookup source flows)) [
  | inl missing ↦ rw (take_next, missing) (few, h)
  | inr (queue, found) ↦
      let short : length (drop 1 queue) ≤ queue_depth =
        omega (arith, length-drop 1 queue, (lookup-All Short source queue flows h found).1) in
      rw (take_next, found)
        (
          omega (
            arith,
            few,
            length-insert-member source (drop 1 queue) flows
                (lookup-member source queue flows found),
          ),
          insert-All Short source (drop 1 queue) flows (λ k. short) h,
        )
]

-- Whatever arrives, from whom and in which order, and whenever flows take datagrams or end: at most
-- 128 flows with at most three datagrams each, when there were no more before.
pub run-IsBounded :
    (events : List Event) (flows : Flows) → IsBounded flows → IsBounded (run events flows)
unfolding run step
run-IsBounded [] flows v = v
run-IsBounded (datagram source packet before after ∷ rest) flows v =
    run-IsBounded rest _ (receive-IsBounded source packet before after flows v)
run-IsBounded (taken source ∷ rest) flows v =
    run-IsBounded rest _ (take_next-IsBounded source flows v)
run-IsBounded (ended source ∷ rest) flows (few, h) =
    run-IsBounded rest _
      (omega (arith, few, length-erase source flows), erase-All Short source flows h)

-- The last three datagrams of a list.
abbrev pub latest : List Bytes → List Bytes
latest queue = drop (length queue - queue_depth) queue

drop-drop : (k m : ℕ) (xs : List Bytes) → drop m (drop k xs) ≡ drop (k + m) xs
drop-drop zero m xs = ap (λ n. drop n xs) (omega arith)
drop-drop (suc k) m [] = drop_all m [] (omega arith) ∙ sym (drop_all (suc k + m) [] (omega arith))
drop-drop (suc k) m (x ∷ xs) =
    let same : suc (k + m) ≡ suc k + m = omega arith in
    drop-drop k m xs ∙ ap (λ n. drop n (x ∷ xs)) same

drop-append_le : (k : ℕ) (xs ys : List Bytes) → k ≤ length xs → drop k (xs ++ ys) ≡ drop k xs ++ ys
drop-append_le zero xs ys h = refl
drop-append_le (suc k) [] ys h = absurd (omega arith)
drop-append_le (suc k) (x ∷ xs) ys h = drop-append_le k xs ys (omega arith)

latest-append : (xs ys : List Bytes) → latest (latest xs ++ ys) ≡ latest (xs ++ ys)
latest-append xs ys =
    let k = length xs - queue_depth in
    let whole : k + (length (drop k xs ++ ys) - queue_depth) ≡ length (xs ++ ys) - queue_depth =
      omega (arith, length-append (drop k xs) ys, length-append xs ys, length-drop k xs) in
    ap (drop (length (drop k xs ++ ys) - queue_depth)) (sym (drop-append_le k xs ys (omega arith)))
    ∙ drop-drop k (length (drop k xs ++ ys) - queue_depth) (xs ++ ys)
    ∙ ap (λ n. drop n (xs ++ ys)) whole

-- One datagram more, when the flow takes none.
enqueue-latest :
    (packet : Bytes) (queue : List Bytes)
    → length queue ≤ queue_depth
    → enqueue packet 0 0 queue ≡ latest (queue ++ (packet ∷ []))
unfolding enqueue push
enqueue-latest packet [] h = refl
enqueue-latest packet (a ∷ []) h = refl
enqueue-latest packet (a ∷ (b ∷ [])) h = refl
enqueue-latest packet (a ∷ (b ∷ (c ∷ []))) h = refl
enqueue-latest packet (a ∷ (b ∷ (c ∷ (d ∷ rest)))) h = absurd (omega arith)

-- Datagrams of one source while its flow takes none.
abbrev pub burst : Bytes → List Bytes → List Event
burst source packets = map (λ p. datagram source p 0 0) packets

-- A burst of datagrams of at most 65507 bytes for a flow whose queue has at most three: the queue holds
-- the last three of what it held and what arrived, in order.
pub burst_keeps_latest :
    (source : Bytes) (packets queue : List Bytes) (flows : Flows)
    → All (λ p. length p ≤ max_datagram) packets
    → length queue ≤ queue_depth
    → lookup source flows ≡ some queue
    → lookup source (run (burst source packets) flows) ≡ some (latest (queue ++ packets))
unfolding run step receive
burst_keeps_latest source [] queue flows small short there =
    let full : length (queue ++ []) - queue_depth ≡ 0 =
      omega (arith, length-append queue (let none_more : List Bytes = [] in none_more)) in
    there ∙ ap some (sym (append-nil queue)) ∙ rw full
burst_keeps_latest source (p ∷ rest) queue flows (fits, small) short there =
    let q = enqueue p 0 0 queue in
    let ih =
      burst_keeps_latest source rest q (insert source q flows) small
        (length-enqueue p 0 0 queue short) (lookup-insert_self source q flows) in
    let now : receive source p 0 0 flows ≡ insert source q flows =
      rw (receive, there) (ground arith) in
    let joined : latest (q ++ rest) ≡ latest (queue ++ (p ∷ rest)) =
      ap (λ l. latest (l ++ rest)) (enqueue-latest p queue short)
      ∙ latest-append (queue ++ (p ∷ [])) rest
      ∙ ap latest (append_assoc queue (p ∷ []) rest) in
    ap (λ f. lookup source (run (burst source rest) f)) now ∙ ih ∙ ap some joined
