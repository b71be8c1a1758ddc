-- ===== src/Peer/Manager/Reconcile/Device.antt =====
-- The device after Reconcile of internal/peer/manager.go.
use shuosc_network_server_ba.Common.{
  ℕ, ◌≡◌, refl, sym, ap, subst, ◌∙◌, Option, none, some, List, [], ◌∷◌, ◌++◌, All, arith,
}
use shuosc_network_server_ba.Common.Text.{Text}
use shuosc_network_server_ba.Model.{Peer}
use shuosc_network_server_ba.World.{
  World, Env, Device, WgPeer, PeerConfig, WgConfig, ok, Action, pure, ◌>>=◌, ◌>>◌, configure_device,
  read_device, call, exec, gets,
}
use shuosc_network_server_ba.World.Rules.{Keeps, Keeps-bind, Keeps-pure, bind-ok, ok_injective}
use shuosc_network_server_ba.World.Triples.{Triple-configure, Triple-ok}
use shuosc_network_server_ba.Store.Peers.{list_active, update_last_seen, set_peer}
use shuosc_network_server_ba.Peer.Manager.{reserve_ip, keep_reserved, peers_config}
use shuosc_network_server_ba.Peer.Manager.Reconcile.{
  reserve_all, compare_rows, touch, apply_changes, wg_by_key, re_add, reconcile, surplus,
}
use shuosc_network_server_ba.Peer.Manager.Reconcile.Changes.{
  on_device, listed, told, absent, IsReadable, told-changes,
}

-- A device takes the changes of a configuration one after another, as wgctrl documents it for a
-- configuration that does not replace the peers.
abbrev pub TakesChanges : Env → Type 0
TakesChanges env =
    (cs : List PeerConfig) (d d' : Device)
    → env.configure (peers_config cs) d ≡ some d'
    → (k : ℕ) → on_device k d'.peers ≡ told k cs (on_device k d.peers)

pub pure-ok : {A : Type 0} (a b : A) (w w' : World) → pure a w ≡ (ok b, w') → (b ≡ a) × (w' ≡ w)
unfolding pure
pure-ok a b w w' e = ground arith

read_device-ok :
    (w w' : World) (d : Device)
    → read_device w ≡ (ok d, w')
    → (d ≡ w.device) × (w'.device ≡ w.device)
unfolding read_device call ◌>>=◌ gets
read_device-ok w w' d e = ground arith

-- The steps before the changes leave the device alone.
module _ (env : Env) where
  abbrev On : Device → World → Type 0
  On d w = w.device ≡ d

  reserve_ip-On : (d : Device) (t : Text) → Keeps (On d) (reserve_ip env t)
  unfolding reserve_ip keep_reserved
  reserve_ip-On d t = record { at = λ w h. ground (arith, h) }

  reserve_all-On : (d : Device) (ps : List Peer) → Keeps (On d) (reserve_all env ps)
  unfolding reserve_all
  reserve_all-On d [] = Keeps-pure tt
  reserve_all-On d (p ∷ ps) =
      Keeps-bind _ _ (reserve_ip-On d p.assigned_ip) (λ _. reserve_all-On d ps)

  touch-device : (p : Peer) (o : Option ℕ) (w : World) → (touch p o w).1.device ≡ w.device
  unfolding touch pure update_last_seen exec call ◌>>=◌ set_peer
  touch-device p none w = refl
  touch-device p (some t) w = ground arith

  -- The second loop returns the changes for the rows that the device lacks.
  abbrev Compared : List PeerConfig → Device → Action (List PeerConfig) → Type 0
  Compared cs d m =
      (w w' : World) (ds : List PeerConfig)
      → w.device ≡ d
      → m w ≡ (ok ds, w')
      → (ds ≡ cs) × (w'.device ≡ d)

  compare-step :
      (d : Device) (p : Peer) (rest : Action (List PeerConfig)) (cs : List PeerConfig)
      (o : Option WgPeer)
      → Compared cs d rest
      → Compared
          (elim o [ none ↦ re_add env p ++ cs | some q ↦ cs ])
          d
          (elim o [
            | none ↦ (do more ← rest; pure (re_add env p ++ more))
            | some q ↦ (do touch p q.last_handshake; rest)
          ])
  compare-step d p rest cs none k w w' ds h e =
      let (more, u, first_part, second_part) =
        bind-ok rest (λ more. pure (re_add env p ++ more)) w w' ds e in
      let (is_more, device) = k w u more h first_part in
      let (is_ds, is_w') = pure-ok (re_add env p ++ more) ds u w' second_part in
      (is_ds ∙ ap (λ x. re_add env p ++ x) is_more, ap (λ x. x.device) is_w' ∙ device)
  compare-step d p rest cs (some q) k w w' ds h e =
      let (t, u, first_part, second_part) =
        bind-ok (touch p q.last_handshake) (λ _. rest) w w' ds e in
      k u w' ds (sym (ap (λ x. x.1.device) first_part) ∙ touch-device p q.last_handshake w ∙ h)
        second_part

  compare_rows-Compared :
      (d : Device) (wg : List WgPeer) (ps : List Peer)
      → Compared (absent env wg ps) d (compare_rows env wg ps)
  unfolding compare_rows
  compare_rows-Compared d wg [] = λ w w' ds h e.
      let (is_nil, is_w') = pure-ok [] ds w w' e in (is_nil, ap (λ x. x.device) is_w' ∙ h)
  compare_rows-Compared d wg (p ∷ ps) =
      compare-step d p (compare_rows env wg ps) (absent env wg ps) (wg_by_key env p.public_key wg)
        (compare_rows-Compared d wg ps)

  pub configure-ok :
      (cfg : WgConfig) (w w' : World)
      → configure_device env cfg w ≡ (ok tt, w')
      → env.configure cfg w.device ≡ some w'.device
  configure-ok cfg w w' e =
      subst (λ (v : World). env.configure cfg w.device ≡ some v.device) (ap (λ x. x.1) e)
        (Triple-ok _ (λ v. v.device ≡ w.device) (λ _ v. env.configure cfg w.device ≡ some v.device)
          (λ _. Unit)
          (Triple-configure env cfg _ _ _ (λ v v' h s. tt)
            λ v v' h made o. subst (λ d. env.configure cfg d ≡ some v'.device) h made)
          w tt refl (ap (λ x. x.0) e))

  -- The changes have been made where the last step returns.
  apply_changes-ok :
      TakesChanges env
      → (cs : List PeerConfig) (w w' : World) → apply_changes env cs w ≡ (ok tt, w')
      → (k : ℕ) → on_device k w'.device.peers ≡ told k cs (on_device k w.device.peers)
  unfolding apply_changes
  apply_changes-ok takes [] w w' e k = ap (λ x. on_device k x.device.peers) (pure-ok tt tt w w' e).1
  apply_changes-ok takes (c ∷ cs) w w' e k =
      takes (c ∷ cs) w.device w'.device (configure-ok (peers_config (c ∷ cs)) w w' e) k

module _ (env : Env) (takes : TakesChanges env)
    (reads : (k : ℕ) → env.parse_key (env.key_text k) ≡ some k) where
  -- From the reading of the device on.
  changes-told :
      (rows : List Peer) (v w : World)
      → All (IsReadable env) rows
      → (do
        device ← read_device
        missing ← compare_rows env device.peers rows
        apply_changes env (missing ++ surplus env rows device.peers))
          v
        ≡ (ok tt, w)
      → (k : ℕ) → on_device k w.device.peers ≡ listed (env.key_text k) rows
  changes-told rows v w readable e k =
      let (d, a, read, rest) = bind-ok read_device _ v w tt e in
      let (is_d, kept) = read_device-ok v a d read in
      let (missing, b, compared, applied) = bind-ok (compare_rows env d.peers rows) _ a w tt rest in
      let (is_missing, device) =
        compare_rows-Compared env d d.peers rows a b missing (kept ∙ sym is_d) compared in
      apply_changes-ok env takes (missing ++ surplus env rows d.peers) b w applied k
      ∙ ap (λ x. told k (missing ++ surplus env rows d.peers) (on_device k x.peers)) device
      ∙ ap (λ cs. told k (cs ++ surplus env rows d.peers) (on_device k d.peers)) is_missing
      ∙ told-changes env reads k d.peers rows readable

  reconcile-told :
      (u w : World) (rows : List Peer)
      → (list_active u).0 ≡ ok rows
      → All (IsReadable env) rows
      → reconcile env u ≡ (ok tt, w)
      → (k : ℕ) → on_device k w.device.peers ≡ listed (env.key_text k) rows
  unfolding reconcile
  reconcile-told u w rows came readable e k =
      let (rows', a, queried, rest) = bind-ok list_active _ u w tt e in
      let is_rows = ok_injective rows' rows (sym (ap (λ x. x.0) queried) ∙ came) in
      let (t, b, reserved, changed) = bind-ok (reserve_all env rows') _ a w tt rest in
      changes-told rows' b w (subst (All (IsReadable env)) (sym is_rows) readable) changed k
      ∙ ap (listed (env.key_text k)) is_rows

-- If the rows that ListActive reads have keys and addresses that can be read, then after Reconcile has
-- returned the device has the key of a peer exactly if one of these rows has its text. They are all
-- active rows unless a call fails while they come (list_active-whole), which ListActive does not see. This
-- supposes that the text of a key reads back as the key, and that the device takes the changes it is
-- told.
pub reconcile-devices :
    (u : World) (env : Env) (rows : List Peer)
    → ((k : ℕ) → env.parse_key (env.key_text k) ≡ some k)
    → TakesChanges env
    → (list_active u).0 ≡ ok rows
    → All (IsReadable env) rows
    → (reconcile env u).0 ≡ ok tt
    → (k : ℕ) → on_device k (reconcile env u).1.device.peers ≡ listed (env.key_text k) rows
reconcile-devices u env rows reads takes came readable e k =
    reconcile-told env takes reads u _ rows came readable (ap (λ r. (r, (reconcile env u).1)) e) k
