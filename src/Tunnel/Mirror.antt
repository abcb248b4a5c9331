-- ===== src/Tunnel/Mirror.antt =====
-- The table of routes is what the operating system has.
use quantumcat.Base.{
  Bytes, bytes_eq, bytes_eq_self, bytes_eq→eq, Bool, Bool-cases, true, false, not, ◌&&◌,
  if◌then◌else◌, ◌≡◌, inl, inr, refl, sym, ap, ◌∙◌, List, [], ◌∷◌, any, keep_if, arith,
}
use quantumcat.Tunnel.{
  System, Tunnel, has_route, agrees, route_command, set_route, peer_route, drop_routes,
}

pub any-keep_if :
    (b addr : Bytes) (xs : List Bytes)
    → any (bytes_eq b) (keep_if (λ a. not (bytes_eq addr a)) xs)
      ≡ (not (bytes_eq b addr) && any (bytes_eq b) xs)
unfolding any keep_if
any-keep_if b addr [] = ground arith
any-keep_if b addr (x ∷ xs) = elim (Bool-cases (bytes_eq addr x)) [
  | inl t ↦
      let alike : bytes_eq b addr ≡ bytes_eq b x = ap (bytes_eq b) (bytes_eq→eq addr x t) in
      let later = any-keep_if b addr xs in
      let agree : (not (bytes_eq b addr) && any (bytes_eq b) xs)
          ≡ (not (bytes_eq b addr) && (if bytes_eq b x then true else any (bytes_eq b) xs)) =
        elim (Bool-cases (bytes_eq b x)) [ inl u ↦ rw (alike, u) refl | inr u ↦ rw (u) refl ] in
      rw (t) (later ∙ agree)
  | inr f ↦ rw (f) (elim (Bool-cases (bytes_eq b x)) [
    | inl u ↦
        let other : bytes_eq b addr ≡ false = elim (Bool-cases (bytes_eq b addr)) [
          | inl v ↦
              let e : x ≡ addr = sym (bytes_eq→eq b x u) ∙ bytes_eq→eq b addr v in
              let g : bytes_eq addr x ≡ true = ap (bytes_eq addr) e ∙ bytes_eq_self addr in
              absurd cc
          | inr v ↦ v
        ] in
        rw (u, other) refl
    | inr u ↦ rw (u) (any-keep_if b addr xs)
  ])
]

-- What the commands do to the routes of the operating system.
pub record IsRouter (os : System) (routed : os.World → Bytes → Bool) : Type 0 where
  pub changed :
      (w : os.World) (name addr : Bytes) (add : Bool)
      → (os.command w (route_command os.darwin name addr add)).1 ≡ true
      → (b : Bytes)
      → routed (os.command w (route_command os.darwin name addr add)).0 b
        ≡ (if bytes_eq b addr then add else routed w b)
  pub kept :
      (w : os.World) (name addr : Bytes) (add : Bool)
      → (os.command w (route_command os.darwin name addr add)).1 ≡ false
      → (b : Bytes) → routed (os.command w (route_command os.darwin name addr add)).0 b ≡ routed w b

pub has_route-set_route :
    (routes : List Bytes) (addr b : Bytes) (add : Bool)
    → has_route (set_route routes addr add) b
      ≡ (if bytes_eq b addr then add else has_route routes b)
unfolding has_route set_route any
has_route-set_route routes addr b true = refl
has_route-set_route routes addr b false = elim (Bool-cases (bytes_eq b addr)) [
  | inl t ↦ any-keep_if b addr routes ∙ rw (t) refl
  | inr f ↦ any-keep_if b addr routes ∙ rw (f) refl
]

both :
    (r : Bytes) (rs : List Bytes) (b : Bytes) (x : Bool)
    → (not (has_route rs b) && (not (bytes_eq b r) && x)) ≡ (not (has_route (r ∷ rs) b) && x)
unfolding has_route any
both r rs b x = elim (Bool-cases (bytes_eq b r)) [
  | inl t ↦ rw (t) (ground arith)
  | inr f ↦ rw (f) refl
]

module _ (os : System) (routed : os.World → Bytes → Bool) (router : IsRouter os routed) where
  -- The table has an address exactly if the operating system has a route to it.
  abbrev pub Mirrors : os.World → Tunnel → Type 0
  Mirrors w t = (b : Bytes) → routed w b ≡ has_route t.routes b

  peer_route-Mirrors :
      (w : os.World) (t : Tunnel) (addr : Bytes) (add : Bool)
      → Mirrors w t
      → Mirrors (peer_route os w t addr add).0 (peer_route os w t addr add).1.0
  unfolding peer_route
  peer_route-Mirrors w t addr add m = elim (Bool-cases (not (os.private addr))) [
    | inl bad ↦ rw (bad) m
    | inr good ↦ elim (Bool-cases (agrees (has_route t.routes addr) add)) [
      | inl known ↦ rw (good, known) m
      | inr new ↦ elim (Bool-cases (os.command w (route_command os.darwin t.name addr add)).1) [
        | inl done ↦
            rw (good, new, done)
              (λ b.
                router.changed w t.name addr add done b
                ∙ (ap (λ x. if bytes_eq b addr then add else x) (m b)
                    ∙ sym (has_route-set_route t.routes addr b add)))
        | inr failed ↦ rw (good, new, failed) (λ b. router.kept w t.name addr add failed b ∙ m b)
      ]
    ]
  ]

  -- Peers that come and go, in any order.
  unfoldable pub peer_routes : List (Bytes × Bool) → os.World → Tunnel → os.World × Tunnel
  peer_routes [] w t = (w, t)
  peer_routes (c ∷ cs) w t = let (v, r) = peer_route os w t c.0 c.1 in peer_routes cs v r.0

  peer_routes-Mirrors :
      (cs : List (Bytes × Bool)) (w : os.World) (t : Tunnel)
      → Mirrors w t
      → Mirrors (peer_routes cs w t).0 (peer_routes cs w t).1
  unfolding peer_routes
  peer_routes-Mirrors [] w t m = m
  peer_routes-Mirrors (c ∷ cs) w t m = peer_routes-Mirrors cs _ _ (peer_route-Mirrors w t c.0 c.1 m)

  drop_routes-Mirrors :
      (rs : List Bytes) (w : os.World) (t : Tunnel)
      → Mirrors w t
      → Mirrors (drop_routes os rs w t).0 (drop_routes os rs w t).1.0
  unfolding drop_routes
  drop_routes-Mirrors [] w t m = m
  drop_routes-Mirrors (r ∷ rs) w t m = drop_routes-Mirrors rs _ _ (peer_route-Mirrors w t r false m)

  deleted :
      (w : os.World) (t : Tunnel) (addr b : Bytes)
      → (peer_route os w t addr false).1.1 ≡ true
      → has_route (peer_route os w t addr false).1.0.routes b
        ≡ (not (bytes_eq b addr) && has_route t.routes b)
  unfolding peer_route
  deleted w t addr b h = elim (Bool-cases (not (os.private addr))) [
    | inl bad ↦
        absurd
          (let f : (peer_route os w t addr false).1.1 ≡ false = rw (peer_route, bad) refl in cc)
    | inr good ↦ elim (Bool-cases (agrees (has_route t.routes addr) false)) [
      | inl known ↦
          let absent : has_route t.routes addr ≡ false = ground arith in
          rw (good, known)
            (elim (Bool-cases (bytes_eq b addr)) [
              | inl t' ↦
                  let here : b ≡ addr = bytes_eq→eq b addr t' in
                  let gone : has_route t.routes b ≡ false = ap (has_route t.routes) here ∙ absent in
                  rw (gone, t') refl
              | inr f ↦ rw (f) refl
            ])
      | inr new ↦ elim (Bool-cases (os.command w (route_command os.darwin t.name addr false)).1) [
        | inl done ↦
            let split : (if bytes_eq b addr then false else has_route t.routes b)
                ≡ (not (bytes_eq b addr) && has_route t.routes b) =
              elim (Bool-cases (bytes_eq b addr)) [ inl t' ↦ rw (t') refl | inr f ↦ rw (f) refl ] in
            rw (good, new, done) (has_route-set_route t.routes addr b false ∙ split)
        | inr failed ↦ absurd (
            let f : (peer_route os w t addr false).1.1 ≡ false =
              rw (peer_route, good, new, failed) refl in
            cc)
      ]
    ]
  ]

  dropped :
      (rs : List Bytes) (w : os.World) (t : Tunnel) (b : Bytes)
      → (drop_routes os rs w t).1.1 ≡ true
      → has_route (drop_routes os rs w t).1.0.routes b
        ≡ (not (has_route rs b) && has_route t.routes b)
  unfolding drop_routes has_route any
  dropped [] w t b h = refl
  dropped (r ∷ rs) w t b h =
      let first : (peer_route os w t r false).1.1 ≡ true = ground arith in
      let rest : (drop_routes os rs (peer_route os w t r false).0
            (peer_route os w t r false).1.0).1.1
          ≡ true =
        ground arith in
      let later = dropped rs _ _ b rest in
      let one = deleted w t r b first in
      later ∙ (ap (λ x. not (has_route rs b) && x) one ∙ both r rs b (has_route t.routes b))

  -- The table and the operating system agree after peers came and went.
  pub mirrored :
      (cs : List (Bytes × Bool)) (w : os.World) (t : Tunnel)
      → ((b : Bytes) → routed w b ≡ false)
      → t.routes ≡ []
      → Mirrors (peer_routes cs w t).0 (peer_routes cs w t).1
  unfolding has_route any
  mirrored cs w t none_yet empty = peer_routes-Mirrors cs w t (λ b. rw (empty) (none_yet b))

  -- Peers of a new tunnel came and went, in any order, and then the loop of Close deleted the routes
  -- without an error: the operating system has no route any more. Its routes are what the successful
  -- commands made of none.
  pub closed_leaves_none :
      (cs : List (Bytes × Bool)) (w v : os.World) (t s : Tunnel) (b : Bytes)
      → ((b : Bytes) → routed w b ≡ false)
      → t.routes ≡ []
      → drop_routes os (peer_routes cs w t).1.routes (peer_routes cs w t).0 (peer_routes cs w t).1
        ≡ (v, (s, true))
      → routed v b ≡ false
  closed_leaves_none cs w v t s b none_yet empty h =
      let gone =
        dropped (peer_routes cs w t).1.routes (peer_routes cs w t).0 (peer_routes cs w t).1 b
          (rw (h) refl) in
      let nothing : (not (has_route (peer_routes cs w t).1.routes b)
            && has_route (peer_routes cs w t).1.routes b)
          ≡ false =
        ground arith in
      ap (λ x. routed x.0 b) (sym h)
      ∙ (drop_routes-Mirrors (peer_routes cs w t).1.routes _ _ (mirrored cs w t none_yet empty) b
          ∙ (gone ∙ nothing))
