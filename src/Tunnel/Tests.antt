-- ===== src/Tunnel/Tests.antt =====
-- A tunnel's routes on concrete inputs.
use quantumcat.Base.{
  Bytes, bytes_eq, Bool, true, false, if◌then◌else◌, ◌≡◌, refl, List, [], ◌∷◌, any, keep_if,
}
use quantumcat.Tunnel.{System, Tunnel, has_route, route_command, set_route, peer_route, drop_routes}
use quantumcat.Tunnel.Mirror.{IsRouter, has_route-set_route, peer_routes, closed_leaves_none}

-- The commands of macOS, over the list of the routes; every one succeeds.
abbrev toy_command : List Bytes → List Bytes → List Bytes × Bool
toy_command w (path ∷ flag ∷ verb ∷ family ∷ addr ∷ rest) =
    (set_route w addr (bytes_eq verb (97 ∷ 100 ∷ 100 ∷ [])), true)
toy_command w other = (w, false)

abbrev toy_system : System
toy_system = record {
  World = List Bytes;
  darwin = true;
  private = λ addr. true;
  command = toy_command;
  close_device = λ w. (w, true);
}

toy_changed :
    (w : List Bytes) (name addr b : Bytes) (add : Bool)
    → has_route (toy_command w (route_command true name addr add)).0 b
      ≡ (if bytes_eq b addr then add else has_route w b)
unfolding route_command bytes_eq
toy_changed w name addr b true = has_route-set_route w addr b true
toy_changed w name addr b false = has_route-set_route w addr b false

toy_kept :
    (w : List Bytes) (name addr b : Bytes) (add : Bool)
    → (toy_command w (route_command true name addr add)).1 ≡ false
    → has_route (toy_command w (route_command true name addr add)).0 b ≡ has_route w b
unfolding route_command
toy_kept w name addr b true h = absurd cc
toy_kept w name addr b false h = absurd cc

toy_router : IsRouter toy_system has_route
toy_router = record {
  changed = λ w name addr add h b. toy_changed w name addr b add;
  kept = λ w name addr add h b. toy_kept w name addr b add h;
}

abbrev toy_tunnel : Tunnel
toy_tunnel = record { name = 117 ∷ []; routes = [] }

abbrev first_peer : Bytes
first_peer = 1 ∷ []

abbrev second_peer : Bytes
second_peer = 2 ∷ []

-- Two come, one of them twice, and one goes.
abbrev changes : List (Bytes × Bool)
changes = (first_peer, true) ∷ (second_peer, true) ∷ (second_peer, true) ∷ (first_peer, false) ∷ []

one_is_left :
    peer_routes toy_system has_route toy_router changes [] toy_tunnel
    ≡ (second_peer ∷ [], record toy_tunnel { routes = second_peer ∷ [] })
unfolding peer_routes peer_route has_route any bytes_eq route_command set_route keep_if
one_is_left = refl

closes :
    drop_routes toy_system
      (peer_routes toy_system has_route toy_router changes [] toy_tunnel).1.routes
      (peer_routes toy_system has_route toy_router changes [] toy_tunnel).0
      (peer_routes toy_system has_route toy_router changes [] toy_tunnel).1
    ≡ ([], (toy_tunnel, true))
unfolding drop_routes peer_routes peer_route has_route any bytes_eq route_command set_route keep_if
closes = refl

no_route : (b : Bytes) → has_route [] b ≡ false
unfolding has_route any
no_route b = refl

closed_leaves_none_example : has_route [] second_peer ≡ false
closed_leaves_none_example =
    closed_leaves_none toy_system has_route toy_router changes [] [] toy_tunnel toy_tunnel
      second_peer no_route refl closes
