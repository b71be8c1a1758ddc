-- ===== src/Api/Router/Runs.antt =====
-- Runs of the server: requests to any routes, by anybody and in any order, each with whatever calls
-- failing, while the clock and the device change in between.
use shuosc_network_server_ba.Common.{ℕ, ◌≤◌, ◌≡◌, Bool, List, count}
use shuosc_network_server_ba.Common.Text.{Text, contains}
use shuosc_network_server_ba.World.{Device}
use shuosc_network_server_ba.Store.Rows.{one_if}
use shuosc_network_server_ba.Store.Peers.Counts.{leases}
use shuosc_network_server_ba.Admin.Invites.{overused}
use shuosc_network_server_ba.Peer.Manager.Reconcile.{reconcile}
use shuosc_network_server_ba.Api.Router.Reconciles.{reconcile-Consistent, reconcile-Within}
use shuosc_network_server_ba.Api.Router.{Settings, Request, Server, serve}
use shuosc_network_server_ba.Api.Router.Leases.{Consistent, serve-Consistent}
use shuosc_network_server_ba.Api.Router.Uses.{serve-Within}
use shuosc_network_server_ba.Api.Router.Within.{Within}

-- A request, a round of the reconciliation loop, or a change from outside. Each is done before the next
-- one begins.
pub data Event (c : Settings) : Server → Server → Type 0 where
  serves : (s : Server) (req : Request) → Event c s (serve c req s).1
  reconciles : (s : Server) → Event c s (record s { world = (reconcile c.env s.world).1 })
  outside :
      (s : Server) (device : Device) (now : ℕ) (faults : List Bool)
      → Event c s
          (record s { world = record s.world { device = device; now = now; faults = faults } })

pub data Serving (c : Settings) : Server → Server → Type 0 where
  started : (s : Server) → Serving c s s
  later : {r s t : Server} → Serving c r s → Event c s t → Serving c r t

Event-safe :
    (c : Settings) {s t : Server}
    → Event c s t
    → Consistent s.world × Within s.world
    → Consistent t.world × Within t.world
Event-safe c (serves s req) (h, k) = (serve-Consistent c req s h, serve-Within c req s k)
Event-safe c (reconciles s) (h, k) =
    ((reconcile-Consistent c.env).at s.world h, (reconcile-Within c.env).at s.world k)
Event-safe c (outside s device now faults) h = h

Serving-safe :
    (c : Settings) {s t : Server}
    → Serving c s t
    → Consistent s.world × Within s.world
    → Consistent t.world × Within t.world
Serving-safe c (started s) h = h
Serving-safe c (later r e) h = Event-safe c e (Serving-safe c r h)

-- From a database in which no two rows have an id or a key in common, an allocator in which the
-- addresses of the active peers are in use, each by one, and no overused invite: after any requests to
-- all routes and rounds of Reconcile, served one after another and with whatever calls failing, an
-- address is leased to at most one active peer, and to none unless it is in use in the allocator; and no
-- invite is used more often than it may be.
pub Serving-invariant :
    (c : Settings) (s t : Server) (ip : Text)
    → Consistent s.world
    → Within s.world
    → Serving c s t
    → (count (leases ip) t.world.db.peers ≤ one_if (contains t.world.ipam.used ip))
      × (count overused t.world.db.invites ≡ 0)
Serving-invariant c s t ip h k r =
    let (consistent, within) = Serving-safe c r (h, k) in (consistent.leased ip, within.within)
