-- ===== src/Api/Router/Within.antt =====
-- The steps of the services of internal/ and how often an invite is used.
use shuosc_network_server_ba.Common.{ℕ, ◌≤◌, String, ◌≡◌, Option, none, some, List, arith}
use shuosc_network_server_ba.Common.Text.{Text}
use shuosc_network_server_ba.Model.{User, Peer}
use shuosc_network_server_ba.World.{
  World, Db, Error, Env, WgConfig, Result, ok, err, Action, query, query_rows, call, exec, modify,
  configure_device, on_error, after_error, ignore,
}
use shuosc_network_server_ba.World.Rules.{
  Keeps, Keeps-pure, Keeps-fail, Keeps-lift, Keeps-gets, Keeps-if, Keeps-check, Keeps-bind,
}
use shuosc_network_server_ba.Store.Users.{
  NewUser, insert_user, set_user, register_with_invite, transaction,
}
use shuosc_network_server_ba.Store.Peers.{NewPeer, insert_peer, set_peer, set_key}
use shuosc_network_server_ba.Auth.{stop_on}
use shuosc_network_server_ba.Admin.Invites.{IsWithin, register_with_invite-IsWithin}
use shuosc_network_server_ba.Peer.Ipam.{Ipam}
use shuosc_network_server_ba.Peer.Manager.{allocate_ip, take_address, release_ip, refuse}
use shuosc_network_server_ba.Api.Router.Data.{
  Keeps-map_error, Keeps-query_data, Keeps-query_rows_data, Keeps-call_data, Keeps-configure_data,
  Keeps-exec_data, Keeps-committed,
}

abbrev pub Within : World → Type 0
Within w = IsWithin w.db

-- A statement on another table.
abbrev Spares : {A : Type 0} → (ℕ → Db → Result (A × Db)) → Type 0
Spares {A} f =
    (now : ℕ) (db db' : Db) (a : A)
    → f now db ≡ ok (a, db')
    → (db'.invites ≡ db.invites) × (db.next_id ≤ db'.next_id)

pub insert_user-Spares : (n : NewUser) → Spares (insert_user n)
unfolding insert_user
insert_user-Spares n now db db' u e = ground (arith, e)

pub set_user-Spares : (id : ℕ) (f : ℕ → User → User) → Spares (set_user id f)
unfolding set_user
set_user-Spares id f now db db' u e = ground (arith, e)

pub insert_peer-Spares : (n : NewPeer) → Spares (insert_peer n)
unfolding insert_peer
insert_peer-Spares n now db db' p e = ground (arith, e)

pub set_peer-Spares : (id : ℕ) (f : ℕ → Peer → Peer) → Spares (set_peer id f)
unfolding set_peer
set_peer-Spares id f now db db' p e = ground (arith, e)

pub set_key-Spares : (id : ℕ) (key : String) → Spares (set_key id key)
unfolding set_key set_peer
set_key-Spares id key now db db' p e = ground (arith, e)

spared-IsWithin :
    (db db' : Db)
    → IsWithin db
    → (db'.invites ≡ db.invites) × (db.next_id ≤ db'.next_id)
    → IsWithin db'
spared-IsWithin db db' h (same, grown) = record {
  ids = λ id. rw same (h.ids id);
  fresh = λ id l. rw same (h.fresh id (omega (arith, l, grown)));
  within = rw same h.within;
}

pub Within-closed : (v w : World) → Within v → w.db ≡ v.db → w.ipam ≡ v.ipam → Within w
Within-closed v w h db ipam = rw db h

pub Keeps-Spares : {A : Type 0} (f : ℕ → Db → Result (A × Db)) → Spares f → Keeps Within (exec f)
Keeps-Spares f spares =
    Keeps-exec_data Within Within-closed f
      λ w a db h e. spared-IsWithin w.db db h (spares w.now w.db db a e)

pub Keeps-query : {A : Type 0} (f : Db → A) → Keeps Within (query f)
Keeps-query f = Keeps-query_data Within Within-closed f

pub Keeps-query_rows : {A : Type 0} (f : Db → List A) → Keeps Within (query_rows f)
Keeps-query_rows f = Keeps-query_rows_data Within Within-closed f

pub Keeps-call : (e : Error) → Keeps Within (call e)
Keeps-call e = Keeps-call_data Within Within-closed e

pub Keeps-configure : (env : Env) (cfg : WgConfig) → Keeps Within (configure_device env cfg)
Keeps-configure env cfg = Keeps-configure_data Within Within-closed env cfg

pub Keeps-key : (key : ℕ) → Keeps Within (modify (λ w. record w { server_key = key }))
unfolding modify
Keeps-key key = record { at = λ w h. h }

pub Keeps-transaction :
    {A : Type 0} (body : Action A) → Keeps Within body → Keeps Within (transaction body)
unfolding transaction
Keeps-transaction body k = Keeps-bind _ _ (Keeps-call _) λ _.
    Keeps-committed Within Within-closed (λ v w h l. h) body
      (Keeps-bind body _ k λ a. Keeps-bind _ _ (Keeps-call _) λ _. Keeps-pure a)

pub Keeps-stop_on : (e : Option Error) → Keeps Within (stop_on e)
Keeps-stop_on none = Keeps-pure tt
Keeps-stop_on (some e) = Keeps-fail e

pub Keeps-refuse : (e : Option Error) → Keeps Within (refuse e)
Keeps-refuse none = Keeps-pure tt
Keeps-refuse (some e) = Keeps-fail e

pub Keeps-release_ip : (ip : Text) → Keeps Within (release_ip ip)
unfolding release_ip modify
Keeps-release_ip ip = record { at = λ w h. h }

taken-Within : (r : Option (Text × Ipam)) (w : World) → Within w → Within (take_address r w).1
unfolding take_address
taken-Within none w h = h
taken-Within (some x) w h = h

pub Keeps-allocate_ip : Keeps Within allocate_ip
unfolding allocate_ip
Keeps-allocate_ip = record { at = λ w h. taken-Within _ w h }

pub Keeps-ignore : {A : Type 0} (m : Action A) → Keeps Within m → Keeps Within (ignore m)
unfolding ignore
Keeps-ignore m k = record { at = λ w h. k.at w h }

cleaned-Within :
    {A : Type 0} (r : Result A) (cleanup : Action (Unit {0})) (w : World)
    → Keeps Within cleanup
    → Within w
    → Within (after_error r cleanup w).1
unfolding after_error
cleaned-Within (ok a) cleanup w k h = h
cleaned-Within (err e) cleanup w k h = k.at w h

pub Keeps-on_error :
    {A : Type 0} (m : Action A) (cleanup : Action (Unit {0}))
    → Keeps Within m
    → Keeps Within cleanup
    → Keeps Within (on_error m cleanup)
unfolding on_error
Keeps-on_error m cleanup k l = record { at = λ w h. cleaned-Within _ cleanup _ l (k.at w h) }

pub Keeps-register_with_invite :
    (n : NewUser) (code : String) → Keeps Within (register_with_invite n code)
Keeps-register_with_invite n code = record { at = λ w h. register_with_invite-IsWithin w n code h }

pub ruleset within_rules = (
  Keeps-pure, Keeps-fail, Keeps-lift, Keeps-gets, Keeps-if, Keeps-check, Keeps-bind, Keeps-query,
  Keeps-query_rows, Keeps-call, Keeps-configure, Keeps-Spares, Keeps-transaction, Keeps-stop_on,
  Keeps-refuse, Keeps-map_error, Keeps-release_ip, Keeps-allocate_ip, Keeps-ignore, Keeps-on_error,
  Keeps-register_with_invite, insert_user-Spares, set_user-Spares, insert_peer-Spares,
  set_peer-Spares, set_key-Spares,
)
