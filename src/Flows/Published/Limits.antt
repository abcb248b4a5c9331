-- ===== src/Flows/Published/Limits.antt =====
-- How many connections are in progress, and where they lead.
use quantumcat.Base.{
  ℕ, ◌≤◌, Bytes, Bool, Bool-cases, Option-cases, true, false, not, ◌&&◌, ◌||◌, ◌==◌, leb, ltb, none,
  some, List, [], ◌∷◌, length, All, ◌≡◌, inl, inr, refl, sym, subst, ◌∙◌, keep_if, arith,
}
use quantumcat.Base.Assoc.{
  lookup, insert, member, number_key, length-insert, length-insert-member, length-erase,
  lookup-member, insert-All, erase-All, lookup-All, lookup-insert,
}
use quantumcat.Socks.{Net, validate_target}
use quantumcat.Services.{Targets}
use quantumcat.Udp.{max_datagram}
use quantumcat.Flows.{max_flows}
use quantumcat.Flows.Published.{
  configure_targets, Relay, Publication, publish, take_slot, accept_port, finish_relay, dial_relay,
  Turn, arrives, dials, returns, cancels, turn, turns, pump,
}

-- A connection in progress has the valid target that its port is configured for.
abbrev pub Leads : Net → Targets → ℕ × Relay → Type 0
Leads net ts (n, r) = (lookup r.port ts ≡ some r.target) × (validate_target net r.target ≡ true)

abbrev pub IsPublished : Net → Targets → Publication → Type 0
IsPublished net ts s =
    ((port : ℕ) → lookup port s.configured ≡ lookup port ts)
    × ((length s.active ≤ max_flows) × All (Leads net ts) s.active)

Valid : Net → ℕ × Bytes → Type 0
Valid net t = validate_target net t.1 ≡ true

configure_targets-eq-some :
    (net : Net) (port : ℕ) (target : Bytes) (rest ts : Targets)
    → configure_targets net ((port, target) ∷ rest) ≡ some ts
    → (us : Targets) × ((configure_targets net rest ≡ some us)
        × ((validate_target net target ≡ true) × (insert port target us ≡ ts)))
unfolding configure_targets
configure_targets-eq-some net port target rest ts h =
    elim (Bool-cases (port == 0 || not (validate_target net target))) [
      | inl bad ↦ absurd (
          let e : configure_targets net ((port, target) ∷ rest) ≡ none =
            rw (configure_targets, bad) refl in
          cc)
      | inr good ↦ elim (Option-cases (configure_targets net rest)) [
        | inl none_there ↦ absurd (
            let e : configure_targets net ((port, target) ∷ rest) ≡ none =
              rw (configure_targets, good, none_there) refl in
            cc)
        | inr (us, there) ↦
            let made : configure_targets net ((port, target) ∷ rest)
                ≡ some (insert port target us) =
              rw (configure_targets, good, there) refl in
            (us, (there, (ground arith, cc)))
      ]
    ]

configure_targets-All :
    (net : Net) (targets ts : Targets)
    → configure_targets net targets ≡ some ts
    → All (Valid net) ts
unfolding configure_targets Valid
configure_targets-All net [] ts h =
    let same : [] ≡ ts = ground arith in subst (All (Valid net)) same tt
configure_targets-All net ((port, target) ∷ rest) ts h =
    let (us, (there, (valid, same))) = configure_targets-eq-some net port target rest ts h in
    subst (All (Valid net)) same
      (insert-All (Valid net) port target us (λ j. valid) (configure_targets-All net rest us there))

configure_targets-lookup :
    (net : Net) (targets ts : Targets) (port : ℕ)
    → configure_targets net targets ≡ some ts
    → lookup port ts ≡ lookup port targets
unfolding configure_targets lookup
configure_targets-lookup net [] ts port h =
    let same : [] ≡ ts = ground arith in subst (λ u. lookup port u ≡ none) same refl
configure_targets-lookup net ((first, target) ∷ rest) ts port h =
    let (us, (there, (valid, same))) = configure_targets-eq-some net first target rest ts h in
    let later : lookup port us ≡ lookup port rest =
      configure_targets-lookup net rest us port there in
    let whole : lookup port (insert first target us) ≡ lookup port ((first, target) ∷ rest) =
      ground (arith, lookup-insert first port target us, later) in
    subst (λ u. lookup port u ≡ lookup port ((first, target) ∷ rest)) same whole

-- The targets that are found are valid.
abbrev AllValid : Net → Targets → Type 0
AllValid net ts =
    (port : ℕ) (target : Bytes) → lookup port ts ≡ some target → validate_target net target ≡ true

module _ (net : Net) (ts : Targets) (valid : AllValid net ts) where
  take_slot-IsPublished :
      (n port : ℕ) (target : Bytes) (slot : Bool) (s : Publication)
      → lookup port ts ≡ some target
      → IsPublished net ts s
      → IsPublished net ts (take_slot n port target slot s)
  unfolding take_slot Valid
  take_slot-IsPublished n port target slot s found (same, (few, lead)) =
      elim (Bool-cases (leb max_flows (length s.active) || (s.cancelled && not slot))) [
        | inl t ↦ rw (take_slot, t) (same, (few, lead))
        | inr f ↦
            let r : Relay = record { port = port; target = target; dialed = false } in
            let room : length (insert n r s.active) ≤ max_flows =
              ground (arith, length-insert n r s.active) in
            let good = valid port target found in
            rw (take_slot, f)
              (same, (room, insert-All (Leads net ts) n r s.active (λ k. (found, good)) lead))
      ]

  accept_port-IsPublished :
      (n port : ℕ) (slot : Bool) (s : Publication)
      → IsPublished net ts s
      → IsPublished net ts (accept_port n port slot s)
  unfolding accept_port
  accept_port-IsPublished n port slot s before = elim (Bool-cases (member n s.active)) [
    | inl t ↦ rw (accept_port, t) before
    | inr f ↦ elim (Option-cases (lookup port s.configured)) [
      | inl u ↦ rw (accept_port, f, u) before
      | inr (target, u) ↦
          let found : lookup port ts ≡ some target = sym (before.0 port) ∙ u in
          rw (accept_port, f, u) (take_slot-IsPublished n port target slot s found before)
    ]
  ]

  finish_relay-IsPublished :
      (n : ℕ) (s : Publication) → IsPublished net ts s → IsPublished net ts (finish_relay n s)
  unfolding finish_relay
  finish_relay-IsPublished n s (same, (few, lead)) = elim (Bool-cases (member n s.active)) [
    | inl t ↦
        rw (finish_relay, t)
          (
            same,
            (omega (arith, few, length-erase n s.active), erase-All (Leads net ts) n s.active lead),
          )
    | inr f ↦ rw (finish_relay, f) (same, (few, lead))
  ]

  dial_relay-IsPublished :
      (n : ℕ) (good : Bool) (s : Publication)
      → IsPublished net ts s
      → IsPublished net ts (dial_relay n good s)
  unfolding dial_relay
  dial_relay-IsPublished n good s before = elim (Option-cases (lookup n s.active)) [
    | inl t ↦ rw (dial_relay, t) before
    | inr (r, t) ↦ elim (Bool-cases good) [
      | inl g ↦
          let dialed : Relay = record r { dialed = true } in
          let (j, leads) = lookup-All (Leads net ts) n r s.active before.1.1 t in
          let size : length (insert n dialed s.active) ≡ length s.active =
            length-insert-member n dialed s.active (lookup-member n r s.active t) in
          rw (dial_relay, t, g)
            (
              before.0,
              (
                omega (arith, size, before.1.0),
                insert-All (Leads net ts) n dialed s.active (λ k. leads) before.1.1,
              ),
            )
      | inr g ↦ rw (dial_relay, t, g) (finish_relay-IsPublished n s before)
    ]
  ]

  turns-IsPublished :
      (list : List Turn) (s : Publication)
      → IsPublished net ts s
      → IsPublished net ts (turns list s)
  unfolding turns turn
  turns-IsPublished [] s before = before
  turns-IsPublished (arrives n port slot ∷ rest) s before =
      turns-IsPublished rest _ (accept_port-IsPublished n port slot s before)
  turns-IsPublished (dials n good ∷ rest) s before =
      turns-IsPublished rest _ (dial_relay-IsPublished n good s before)
  turns-IsPublished (returns n ∷ rest) s before =
      turns-IsPublished rest _ (finish_relay-IsPublished n s before)
  turns-IsPublished (cancels ∷ rest) s before = turns-IsPublished rest _ before

-- Targets that are accepted are published, and connections come, are dialed and return in any order,
-- the context ending at any time: at most 128 connections are in progress, and each has the target
-- that the accepted targets give for its port, which is valid.
pub publish-IsPublished :
    (net : Net) (targets : Targets) (s : Publication) (list : List Turn)
    → publish net targets ≡ some s
    → IsPublished net targets (turns list s)
unfolding publish Valid
publish-IsPublished net targets s list h = elim (Option-cases (configure_targets net targets)) [
  | inl none_there ↦
      absurd (let e : publish net targets ≡ none = rw (publish, none_there) refl in cc)
  | inr (ts, there) ↦
      let start : Publication = record {
        configured = ts;
        cancelled = false;
        active = [];
        closed = 0;
      } in
      let made : publish net targets ≡ some start = rw (publish, there) refl in
      let same : start ≡ s = cc in
      let found = λ (port : ℕ). configure_targets-lookup net targets ts port there in
      let valid : AllValid net targets = λ port target here.
        (lookup-All (Valid net) port target ts (configure_targets-All net targets ts there)
          (found port ∙ here)).1 in
      subst (λ (t : Publication). IsPublished net targets (turns list t)) same
        (turns-IsPublished net targets valid list start (found, (omega arith, tt)))
]

-- A pump whose writes are complete sends what it reads, but for datagrams of more than 65507 bytes.
pump_complete :
    (packets : List Bytes)
    → pump (λ p. true) packets ≡ keep_if (λ p. not (ltb max_datagram (length p))) packets
unfolding pump keep_if
pump_complete [] = refl
pump_complete (p ∷ rest) = ground (arith, pump_complete rest)
