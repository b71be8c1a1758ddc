-- ===== src/Peer/Manager/Server/Restored.antt =====
-- The device after the operations on the server's key and interface in internal/peer/manager.go.
use shuosc_network_server_ba.Common.{
  ℕ, ◌≡◌, refl, sym, ap, subst, ◌∙◌, Bool, true, false, some, List, [], ◌∷◌, ◌==◌, All, arith,
  select, if◌then◌else◌,
}
use shuosc_network_server_ba.Model.{Peer}
use shuosc_network_server_ba.World.{
  World, Env, Device, WgConfig, ok, configure_device, modify, gets,
}
use shuosc_network_server_ba.World.Rules.{Same, bind-ok, ok_injective, query_rows-Same}
use shuosc_network_server_ba.Store.Peers.{list_active, is_active_peer}
use shuosc_network_server_ba.Peer.Manager.Reconcile.Changes.{
  on_device, listed, told, IsReadable, text_eq_lem,
}
use shuosc_network_server_ba.Peer.Manager.Reconcile.Device.{pure-ok, configure-ok}
use shuosc_network_server_ba.Peer.Manager.Server.{
  restored, restored_with, rotate_server_key, enable_wg, disable_wg, set_wg_enabled,
}

-- A device takes a configuration that replaces its key and its peers, as wgctrl documents it: it starts
-- with no peer and takes the given ones one after another.
abbrev pub TakesAll : Env → Type 0
TakesAll env =
    (cfg : WgConfig) (d d' : Device) (key : ℕ)
    → cfg.replace_peers ≡ true
    → cfg.private_key ≡ some key
    → env.configure cfg d ≡ some d'
    → (d'.private_key ≡ key) × ((k : ℕ) → on_device k d'.peers ≡ told k cfg.peers false)

-- The device has a private key, and the key of a peer exactly if a row has its text.
pub record IsRestored (env : Env) (key : ℕ) (rows : List Peer) (d : Device) : Type 0 where
  pub private_key : d.private_key ≡ key
  pub peers : (k : ℕ) → on_device k d.peers ≡ listed (env.key_text k) rows

abbrev restart : ℕ → World → World
restart key w = record w { server_key = key }

modify-ok : (f : World → World) (w w' : World) (t : Unit {0}) → modify f w ≡ (ok t, w') → w' ≡ f w
unfolding modify
modify-ok f w w' t e = sym (ap (λ x. x.1) e)

gets-ok : {A : Type 0} (f : World → A) (w w' : World) (a : A) → gets f w ≡ (ok a, w') → a ≡ f w
unfolding gets
gets-ok f w w' a e = ground arith

list_active-Same : (u w : World) → (list_active u).1 ≡ w → Same u w
unfolding list_active
list_active-Same u w e = subst (Same u) e (query_rows-Same (λ db. select is_active_peer db.peers) u)

module _ (env : Env) (reads : (k : ℕ) → env.parse_key (env.key_text k) ≡ some k)
    (takes : TakesAll env) where
  told-restored :
      (k : ℕ) (replace b : Bool) (ps : List Peer)
      → All (IsReadable env) ps
      → told k (restored env replace ps) b ≡ (if listed (env.key_text k) ps then true else b)
  unfolding restored restored_with
  told-restored k replace b [] r = refl
  told-restored k replace b (p ∷ ps) r =
      rw
        (
          r.0.text,
          reads r.0.key,
          r.0.readable,
          text_eq_lem env reads r.0.key k,
          told-restored k replace (if r.0.key == k then true else b) ps r.1,
        )
        ground arith

  configured-IsRestored :
      (cfg : WgConfig) (v w : World) (key : ℕ) (replace : Bool) (rows : List Peer)
      → cfg.replace_peers ≡ true
      → cfg.private_key ≡ some key
      → cfg.peers ≡ restored env replace rows
      → All (IsReadable env) rows
      → configure_device env cfg v ≡ (ok tt, w)
      → IsRestored env key rows w.device
  configured-IsRestored cfg v w key replace rows all named listed_rows readable e =
      let (private, peers) =
        takes cfg v.device w.device key all named (configure-ok env cfg v w e) in
      record {
        private_key = private;
        peers = λ k.
            peers k
            ∙ ap (λ cs. told k cs false) listed_rows
            ∙ told-restored k replace false rows readable
            ∙ ground arith;
      }

  rotated :
      (u w : World) (rows : List Peer) (new_key answer : ℕ)
      → (list_active u).0 ≡ ok rows
      → All (IsReadable env) rows
      → rotate_server_key env new_key u ≡ (ok answer, w)
      → (answer ≡ env.public_key new_key)
        × (w.server_key ≡ new_key)
        × IsRestored env new_key rows w.device
  unfolding rotate_server_key
  rotated u w rows new_key answer came readable e =
      let (rows', a, queried, rest) = bind-ok list_active _ u w answer e in
      let is_rows = ok_injective rows' rows (sym (ap (λ x. x.0) queried) ∙ came) in
      let (t, b, made, more) = bind-ok (configure_device env _) _ a w answer rest in
      let (t', c, modified, answered) = bind-ok (modify (restart new_key)) _ b w answer more in
      let (is_answer, is_w) = pure-ok (env.public_key new_key) answer c w answered in
      let is_c = modify-ok (restart new_key) b c t' modified in
      (
        is_answer,
        ap (λ v. v.server_key) (is_w ∙ is_c),
        subst (IsRestored env new_key rows) (sym (ap (λ v. v.device) (is_w ∙ is_c))) (
            configured-IsRestored _ a b new_key true _ refl refl (ap (restored env true) is_rows)
              readable made),
      )

  enabled :
      (u w : World) (rows : List Peer) (port : ℕ)
      → (list_active u).0 ≡ ok rows
      → All (IsReadable env) rows
      → enable_wg env port u ≡ (ok tt, w)
      → IsRestored env u.server_key rows w.device
  unfolding enable_wg
  enabled u w rows port came readable e =
      let (rows', a, queried, rest) = bind-ok list_active _ u w tt e in
      let is_rows = ok_injective rows' rows (sym (ap (λ x. x.0) queried) ∙ came) in
      let same = list_active-Same u a (ap (λ x. x.1) queried) in
      let (key, b, got, made) = bind-ok (gets (λ v. v.server_key)) _ a w tt rest in
      configured-IsRestored _ b w u.server_key false _ refl
        (ap some (gets-ok (λ v. v.server_key) a b key got ∙ same.server_key))
        (ap (restored env false) is_rows) readable made

-- If the rows that ListActive reads have keys and addresses that can be read, then after
-- RotateServerKey has returned it has answered with the public key of the new key, the manager and the
-- device have the new key, also on a device that was disabled, and the device has the key of a peer
-- exactly if one of these rows has its text. They are all active rows unless a call fails while they
-- come (list_active-whole), which ListActive does not see. This supposes that the text of a key reads back as
-- the key, and that the device takes a configuration that replaces key and peers.
pub rotate_server_key-ok :
    (u : World) (env : Env) (rows : List Peer) (new_key answer : ℕ)
    → ((k : ℕ) → env.parse_key (env.key_text k) ≡ some k)
    → TakesAll env
    → (list_active u).0 ≡ ok rows
    → All (IsReadable env) rows
    → (rotate_server_key env new_key u).0 ≡ ok answer
    → (answer ≡ env.public_key new_key)
      × ((rotate_server_key env new_key u).1.server_key ≡ new_key)
      × IsRestored env new_key rows (rotate_server_key env new_key u).1.device
rotate_server_key-ok u env rows new_key answer reads takes came readable e =
    rotated env reads takes u _ rows new_key answer came readable
      (ap (λ r. (r, (rotate_server_key env new_key u).1)) e)

-- If the rows that ListActive reads have keys and addresses that can be read, then after SetWGEnabled has
-- returned, an enabled device has the key of the manager, and the key of a peer exactly if one of these
-- rows has its text; a disabled one has the zero key and no peer. The rows are all active rows unless a
-- call fails while they come (list_active-whole), which ListActive does not see. This supposes what RotateServerKey
-- does.
pub set_wg_enabled-ok :
    (u : World) (env : Env) (rows : List Peer) (port : ℕ) (on : Bool)
    → ((k : ℕ) → env.parse_key (env.key_text k) ≡ some k)
    → TakesAll env
    → (list_active u).0 ≡ ok rows
    → All (IsReadable env) rows
    → (set_wg_enabled env port on u).0 ≡ ok tt
    → IsRestored env
        (if on then u.server_key else 0)
        (if on then rows else [])
        (set_wg_enabled env port on u).1.device
unfolding set_wg_enabled disable_wg restored
set_wg_enabled-ok u env rows port true reads takes came readable e =
    enabled env reads takes u _ rows port came readable (ap (λ r. (r, (enable_wg env port u).1)) e)
set_wg_enabled-ok u env rows port false reads takes came readable e =
    configured-IsRestored env reads takes _ u _ 0 false [] refl refl refl tt
      (ap (λ r. (r, (disable_wg env u).1)) e)
