-- ===== src/Tunnel.antt =====
-- internal/tunnel/tunnel.go: the addresses of a tunnel device and the routes to its peers. The commands
-- that set them are the operating system's; an address is its text.
pub mod Mirror
mod Tests
use quantumcat.Base.{
  Bytes, ascii, bytes_eq, Bool, true, false, not, ◌&&◌, ◌==◌, if◌then◌else◌, List, [], ◌∷◌, ◌++◌,
  any, keep_if,
}

pub record System : Type 1 where
  pub World : Type 0
  pub darwin : Bool
  -- `Is6` together with `IsPrivate`.
  pub private : Bytes → Bool
  -- A command with its arguments; the flag says that it succeeded.
  pub command : World → List Bytes → World × Bool
  pub close_device : World → World × Bool

-- The map of routes has only true entries: it is a set.
pub record Tunnel : Type 0 where
  pub name : Bytes
  pub routes : List Bytes

unfoldable pub has_route : List Bytes → Bytes → Bool
has_route routes addr = any (bytes_eq addr) routes

abbrev pub agrees : Bool → Bool → Bool
agrees a b = if a then b else not b

abbrev pub host_prefix : Bytes → Bytes
host_prefix addr = addr ++ ascii "/128"

unfoldable pub route_command : Bool → Bytes → Bytes → Bool → List Bytes
route_command darwin name addr add =
    let verb = if add then ascii "add" else ascii "delete" in
    if darwin
    then ascii "/sbin/route"
      ∷ ascii "-n"
      ∷ verb
      ∷ ascii "-inet6"
      ∷ addr
      ∷ ascii "-interface"
      ∷ name
      ∷ []
    else ascii "/sbin/ip"
      ∷ ascii "-6"
      ∷ ascii "route"
      ∷ verb
      ∷ host_prefix addr
      ∷ ascii "dev"
      ∷ name
      ∷ []

unfoldable pub set_route : List Bytes → Bytes → Bool → List Bytes
set_route routes addr add =
    if add then addr ∷ routes else keep_if (λ a. not (bytes_eq addr a)) routes

module _ (os : System) where
  unfoldable pub configure : os.World → Tunnel → Bytes → os.World × Bool
  configure w t addr =
      if not (os.private addr)
      then (w, false)
      else if os.darwin
      then os.command w (
          ascii "/sbin/ifconfig"
          ∷ t.name
          ∷ ascii "inet6"
          ∷ addr
          ∷ ascii "prefixlen"
          ∷ ascii "128"
          ∷ ascii "up"
          ∷ [])
      else let (v, done) = os.command w (
          ascii "/sbin/ip"
          ∷ ascii "-6"
          ∷ ascii "addr"
          ∷ ascii "add"
          ∷ host_prefix addr
          ∷ ascii "dev"
          ∷ t.name
          ∷ []) in
        if done
        then os.command v
            (ascii "/sbin/ip" ∷ ascii "link" ∷ ascii "set" ∷ ascii "dev" ∷ t.name ∷ ascii "up" ∷ [])
        else (v, false)

  unfoldable pub peer_route : os.World → Tunnel → Bytes → Bool → os.World × (Tunnel × Bool)
  peer_route w t addr add =
      if not (os.private addr)
      then (w, (t, false))
      else if agrees (has_route t.routes addr) add
      then (w, (t, true))
      else let (v, done) = os.command w (route_command os.darwin t.name addr add) in
        if done
        then (v, (record t { routes = set_route t.routes addr add }, true))
        else (v, (t, false))

  -- The loop of Close over the routes that there were.
  unfoldable pub drop_routes : List Bytes → os.World → Tunnel → os.World × (Tunnel × Bool)
  drop_routes [] w t = (w, (t, true))
  drop_routes (addr ∷ rest) w t =
      let (v, first) = peer_route w t addr false in
      let (u, later) = drop_routes rest v first.0 in (u, (later.0, first.1 && later.1))

  unfoldable pub close_tunnel : os.World → Tunnel → os.World × (Tunnel × Bool)
  close_tunnel w t =
      let (v, dropped) = drop_routes t.routes w t in
      let (u, done) = os.close_device v in (u, (dropped.0, dropped.1 && done))
