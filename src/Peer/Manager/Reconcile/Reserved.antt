-- ===== src/Peer/Manager/Reconcile/Reserved.antt =====
-- After Reconcile, the allocator knows the addresses of the active rows.
use shuosc_network_server_ba.Common.{
  ℕ, ◌<◌, ◌^◌, ◌≡◌, refl, sym, ap, ◌∙◌, subst, true, Option, none, some, List, [], ◌∷◌, ◌++◌, All,
  arith,
}
use shuosc_network_server_ba.Common.Text.{Text, contains, contains-add}
use shuosc_network_server_ba.Model.{Peer}
use shuosc_network_server_ba.World.{
  World, Env, WgPeer, PeerConfig, WgConfig, Result, ok, err, Action, pure, ◌>>=◌, ◌>>◌,
  configure_device, read_device, call, exec,
}
use shuosc_network_server_ba.World.Rules.{
  Keeps, Keeps-bind, Keeps-pure, read_device-Same, bind-ok, ok_injective,
}
use shuosc_network_server_ba.World.Triples.{Triple, After, Triple-bind, Triple-keeps, Triple-ok}
use shuosc_network_server_ba.World.Statements.{Triple-from}
use shuosc_network_server_ba.Store.Peers.{list_active, update_last_seen, set_peer}
use shuosc_network_server_ba.Peer.Ipam.{Ipam, reserve}
use shuosc_network_server_ba.Peer.Ipam.Dotted.{dotted}
use shuosc_network_server_ba.Peer.Ipam.Reservation.{parse_ip-dotted, reserve-some, used-reserve}
use shuosc_network_server_ba.Peer.Manager.{reserve_ip, keep_reserved, peers_config}
use shuosc_network_server_ba.Peer.Manager.Reconcile.{
  reserve_all, compare_rows, touch, apply_changes, wg_by_key, re_add, reconcile, surplus,
}

-- The address of a row is the text of a 32-bit address, as Allocate writes it.
pub record IsDotted (p : Peer) : Type 0 where
  pub address : ℕ
  pub fits : address < 2 ^ 32
  pub text : p.assigned_ip ≡ dotted address

pub reserve-grows :
    (env : Env) (i i' : Ipam) (t u : Text)
    → reserve env.ip6 t i ≡ some i'
    → contains i.used u ≡ true
    → contains i'.used u ≡ true
reserve-grows env i i' t u e h =
    let (a, parsed, inside, after) = reserve-some env.ip6 t i i' e in
    rw (after, contains-add, h) ground arith

reserve-holds :
    (env : Env) (p : Peer) (i i' : Ipam)
    → IsDotted p
    → reserve env.ip6 p.assigned_ip i ≡ some i'
    → contains i'.used p.assigned_ip ≡ true
reserve-holds env p i i' d e = rw d.text (
    used-reserve env.ip6 i i' p.assigned_ip e d.address
      (rw d.text (parse_ip-dotted env.ip6 d.address d.fits)))

module _ (env : Env) where
  kept_grows :
      (t u : Text) (w : World) (o : Option Ipam)
      → reserve env.ip6 t w.ipam ≡ o
      → contains w.ipam.used u ≡ true
      → contains (keep_reserved o w).1.ipam.used u ≡ true
  unfolding keep_reserved
  kept_grows t u w none e h = h
  kept_grows t u w (some i) e h = reserve-grows env w.ipam i t u e h

  reserve_ip-grows : (t u : Text) → Keeps (λ w. contains w.ipam.used u ≡ true) (reserve_ip env t)
  unfolding reserve_ip
  reserve_ip-grows t u = record { at = λ w h. kept_grows t u w _ refl h }

  reserve_all-grows :
      (ps : List Peer) (u : Text) → Keeps (λ w. contains w.ipam.used u ≡ true) (reserve_all env ps)
  unfolding reserve_all
  reserve_all-grows [] u = Keeps-pure tt
  reserve_all-grows (p ∷ ps) u =
      Keeps-bind _ _ (reserve_ip-grows p.assigned_ip u) (λ _. reserve_all-grows ps u)

  kept_holds :
      (p : Peer) (w : World) (o : Option Ipam)
      → IsDotted p
      → reserve env.ip6 p.assigned_ip w.ipam ≡ o
      → After
          (λ _ v. contains v.ipam.used p.assigned_ip ≡ true)
          (λ _. Unit {0})
          (keep_reserved o w).0
          (keep_reserved o w).1
  unfolding keep_reserved
  kept_holds p w none d e = tt
  kept_holds p w (some i) d e = reserve-holds env p w.ipam i d e

  abbrev InUse : List Peer → World → Type 0
  InUse ps w = All (λ (p : Peer). contains w.ipam.used p.assigned_ip ≡ true) ps

  together :
      (q : World → Type 0) (ps : List Peer) (r : Result (Unit {0})) (w : World)
      → q w
      → After (λ _ v. InUse ps v) (λ _. Unit {0}) r w
      → After (λ _ v. q v × InUse ps v) (λ _. Unit {0}) r w
  together q ps (ok t) w h k = (h, k)
  together q ps (err e) w h k = tt

  reserve_all-InUse :
      (ps : List Peer)
      → All IsDotted ps
      → Triple (λ _. Unit {0}) (reserve_all env ps) (λ _ w. InUse ps w) (λ _. Unit {0})
  unfolding reserve_all reserve_ip pure
  reserve_all-InUse [] d = record { at = λ w h. tt }
  reserve_all-InUse (p ∷ ps) d =
      Triple-bind _ _ _ (λ _ w. contains w.ipam.used p.assigned_ip ≡ true) _ _
        (record { at = λ w h. kept_holds p w _ d.0 refl })
        λ _. record {
          at = λ w h.
              together (λ v. contains v.ipam.used p.assigned_ip ≡ true) ps _ _
                ((reserve_all-grows ps p.assigned_ip).at w h) ((reserve_all-InUse ps d.1).at w tt);
        }

-- The later steps leave the allocator alone.
abbrev Holds : (Ipam → Type 0) → World → Type 0
Holds q w = q w.ipam

configure-ipam :
    (env : Env) (cfg : WgConfig) (w : World) → (configure_device env cfg w).1.ipam ≡ w.ipam
unfolding configure_device call ◌>>=◌
configure-ipam env cfg w = ground arith

last_seen-ipam : (id t : ℕ) (w : World) → (update_last_seen id t w).1.ipam ≡ w.ipam
unfolding update_last_seen exec call ◌>>=◌ set_peer
last_seen-ipam id t w = ground arith

module _ (q : Ipam → Type 0) where
  touch-Holds : (p : Peer) (o : Option ℕ) → Keeps (Holds q) (touch p o)
  unfolding touch
  touch-Holds p none = Keeps-pure tt
  touch-Holds p (some t) = record { at = λ w h. subst q (sym (last_seen-ipam p.id t w)) h }

module _ (q : Ipam → Type 0) (env : Env) where
  configure-Holds : (cfg : WgConfig) → Keeps (Holds q) (configure_device env cfg)
  configure-Holds cfg = record { at = λ w h. subst q (sym (configure-ipam env cfg w)) h }

  compare-Holds :
      (p : Peer) (rest : Action (List PeerConfig)) (o : Option WgPeer)
      → Keeps (Holds q) rest
      → Keeps (Holds q) (elim o [
        | none ↦ (do more ← rest; pure (re_add env p ++ more))
        | some x ↦ (do touch p x.last_handshake; rest)
      ])
  compare-Holds p rest none k = Keeps-bind _ _ k (λ more. Keeps-pure _)
  compare-Holds p rest (some x) k = Keeps-bind _ _ (touch-Holds q p x.last_handshake) (λ _. k)

  compare_rows-Holds :
      (wg : List WgPeer) (ps : List Peer) → Keeps (Holds q) (compare_rows env wg ps)
  unfolding compare_rows
  compare_rows-Holds wg [] = Keeps-pure []
  compare_rows-Holds wg (p ∷ ps) =
      compare-Holds p (compare_rows env wg ps) (wg_by_key env p.public_key wg)
        (compare_rows-Holds wg ps)

  changes-Holds : (cs : List PeerConfig) → Keeps (Holds q) (apply_changes env cs)
  unfolding apply_changes
  changes-Holds [] = Keeps-pure tt
  changes-Holds (c ∷ cs) = configure-Holds (peers_config (c ∷ cs))

read_device-Holds : (q : Ipam → Type 0) → Keeps (Holds q) read_device
read_device-Holds q = record { at = λ w h. subst q (sym (read_device-Same w).ipam) h }

KnownAddresses : List Peer → Ipam → Type 0
KnownAddresses ps i = All (λ (p : Peer). contains i.used p.assigned_ip ≡ true) ps

-- Behind the query.
rest-InUse :
    (env : Env) (rows : List Peer) (a : World)
    → All IsDotted rows
    → Triple
        (λ w. w ≡ a)
        (do
          reserve_all env rows
          device ← read_device
          missing ← compare_rows env device.peers rows
          apply_changes env (missing ++ surplus env rows device.peers))
        (λ _ w. KnownAddresses rows w.ipam)
        (λ _. Unit {0})
unfolding KnownAddresses
rest-InUse env rows a dotted_rows =
    Triple-bind _ _ _ (λ _ w. KnownAddresses rows w.ipam) _ _
      (Triple-from _ _ _ _ _ (λ w s. tt) (reserve_all-InUse env rows dotted_rows))
      λ _.
        Triple-keeps _ _ _
          (Keeps-bind _ _ (read_device-Holds (KnownAddresses rows)) λ device.
            Keeps-bind _ _ (compare_rows-Holds (KnownAddresses rows) env device.peers rows)
              λ missing. changes-Holds (KnownAddresses rows) env _)
          (λ w h. tt)

reconciled-InUse :
    (u w : World) (env : Env) (rows : List Peer)
    → (list_active u).0 ≡ ok rows
    → All IsDotted rows
    → reconcile env u ≡ (ok tt, w)
    → KnownAddresses rows w.ipam
unfolding reconcile
reconciled-InUse u w env rows came dotted_rows e =
    let (rows', a, queried, rest) = bind-ok list_active _ u w tt e in
    let is_rows = ok_injective rows' rows (sym (ap (λ x. x.0) queried) ∙ came) in
    subst (λ ps. KnownAddresses ps w.ipam) is_rows
      (subst (λ (v : World). KnownAddresses rows' v.ipam) (ap (λ x. x.1) rest)
        (Triple-ok _ _ _ _ (rest-InUse env rows' a (subst (All IsDotted) (sym is_rows) dotted_rows))
          a tt refl (ap (λ x. x.0) rest)))

-- If the addresses of the rows that ListActive reads are texts as Allocate writes them, then after
-- Reconcile has returned, also on a new allocator, each of these addresses is in use. The rows are all
-- active rows unless a call fails while they come (list_active-whole), which ListActive does not see.
pub reconcile-InUse :
    (u : World) (env : Env) (rows : List Peer)
    → (list_active u).0 ≡ ok rows
    → All IsDotted rows
    → (reconcile env u).0 ≡ ok tt
    → All (λ (p : Peer). contains (reconcile env u).1.ipam.used p.assigned_ip ≡ true) rows
unfolding KnownAddresses
reconcile-InUse u env rows came dotted_rows e =
    reconciled-InUse u _ env rows came dotted_rows (ap (λ r. (r, (reconcile env u).1)) e)
