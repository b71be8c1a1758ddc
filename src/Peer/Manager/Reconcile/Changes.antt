-- ===== src/Peer/Manager/Reconcile/Changes.antt =====
-- The list of changes that Reconcile of internal/peer/manager.go hands to the device.
use shuosc_network_server_ba.Common.{
  ℕ, ◌≡◌, refl, sym, ap, ◌∙◌, String, Bool, true, false, not, ◌&&◌, Option, none, some, List, [],
  ◌∷◌, ◌++◌, ◌==◌, ==_iff, All, arith, first, str_eq, eq_iff, if◌then◌else◌,
}
use shuosc_network_server_ba.Model.{Peer}
use shuosc_network_server_ba.World.{Env, WgPeer, PeerConfig}
use shuosc_network_server_ba.Store.Peers.{has_key}
use shuosc_network_server_ba.Peer.Ipam.{Ip, parse_ip}
use shuosc_network_server_ba.Peer.Manager.{remove_config}
use shuosc_network_server_ba.Peer.Manager.Reconcile.{wg_by_key, re_add, missing_config, surplus}

-- Whether a device has a peer with a key.
abbrev pub on_device : ℕ → List WgPeer → Bool
on_device k [] = false
on_device k (q ∷ qs) = if q.public_key == k then true else on_device k qs

-- Whether a row has the text of a key.
abbrev pub listed : String → List Peer → Bool
listed t [] = false
listed t (p ∷ ps) = if has_key t p then true else listed t ps

-- Whether a device has the key after changes, if it does or does not before: the last change of a key
-- decides.
abbrev pub told : ℕ → List PeerConfig → Bool → Bool
told k [] b = b
told k (c ∷ cs) b = told k cs (if c.public_key == k then not c.remove else b)

-- The changes for the rows that the device lacks.
abbrev pub absent : Env → List WgPeer → List Peer → List PeerConfig
absent env wg [] = []
absent env wg (p ∷ ps) = elim (wg_by_key env p.public_key wg) [
  | none ↦ re_add env p ++ absent env wg ps
  | some q ↦ absent env wg ps
]

-- A row has the text of a key, as AddPeer and ReplaceKey write it, and an address that can be read.
pub record IsReadable (env : Env) (p : Peer) : Type 0 where
  pub key : ℕ
  pub text : p.public_key ≡ env.key_text key
  pub address : Ip
  pub readable : parse_ip env.ip6 p.assigned_ip ≡ some address

found : {A : Type 0} → Option A → Bool
found none = false
found (some a) = true

told-append :
    (k : ℕ) (cs ds : List PeerConfig) (b : Bool) → told k (cs ++ ds) b ≡ told k ds (told k cs b)
told-append k [] ds b = refl
told-append k (c ∷ cs) ds b = told-append k cs ds _

found-first : (t : String) (ps : List Peer) → found (first (has_key t) ps) ≡ listed t ps
unfolding found
found-first t [] = refl
found-first t (p ∷ ps) = ground (arith, found-first t ps)

module _ (env : Env) (reads : (k : ℕ) → env.parse_key (env.key_text k) ≡ some k) where
  same_text : (a b : ℕ) → env.key_text a ≡ env.key_text b → a ≡ b
  same_text a b e = Option-some (sym (reads a) ∙ ap env.parse_key e ∙ reads b)
    where
      Option-some : {x y : ℕ} → some x ≡ some y → x ≡ y
      Option-some e = ground arith

  pub text_eq_lem : (a b : ℕ) → str_eq (env.key_text a) (env.key_text b) ≡ (a == b)
  text_eq_lem a b =
      ground (arith, eq_iff (env.key_text a) (env.key_text b), ==_iff a b, same_text a b)

  found-wg_by_key :
      (k : ℕ) (qs : List WgPeer) → found (wg_by_key env (env.key_text k) qs) ≡ on_device k qs
  unfolding found
  found-wg_by_key k [] = refl
  found-wg_by_key k (q ∷ qs) = ground (arith, found-wg_by_key k qs, text_eq_lem q.public_key k)

  -- What the third loop does to a key.
  abbrev pub kept_or_removed : Bool → Bool → Bool → Bool
  kept_or_removed row device b = if row then b else if device then false else b

  listed_same :
      (a k : ℕ) (rows : List Peer)
      → (a == k) ≡ true
      → listed (env.key_text a) rows ≡ listed (env.key_text k) rows
  listed_same a k rows e = ap (λ n. listed (env.key_text n) rows) ((==_iff a k).0 e)

  on_device_same : (a k : ℕ) (qs : List WgPeer) → (a == k) ≡ true → on_device a qs ≡ on_device k qs
  on_device_same a k qs e = ap (λ n. on_device n qs) ((==_iff a k).0 e)

  module _ (k : ℕ) (rows : List Peer) where
    told-surplus_step :
        (q : WgPeer) (qs : List WgPeer) (b : Bool) (row : Option Peer) (later : Option WgPeer)
        → found row ≡ listed (env.key_text q.public_key) rows
        → found later ≡ on_device q.public_key qs
        → ((c : Bool)
            → told k (surplus env rows qs) c
              ≡ kept_or_removed (listed (env.key_text k) rows) (on_device k qs) c)
        → told k
            (elim row [
              | some p ↦ surplus env rows qs
              | none ↦ elim later [
                | some x ↦ surplus env rows qs
                | none ↦ remove_config q.public_key ∷ surplus env rows qs
              ]
            ])
            b
          ≡ kept_or_removed (listed (env.key_text k) rows) (on_device k (q ∷ qs)) b
    unfolding found
    told-surplus_step q qs b (some p) later r l ih =
        ground (arith, ih b, listed_same q.public_key k rows, on_device_same q.public_key k qs)
    told-surplus_step q qs b none (some x) r l ih =
        ground (arith, ih b, listed_same q.public_key k rows, on_device_same q.public_key k qs)
    told-surplus_step q qs b none none r l ih =
        rw (ih (if q.public_key == k then false else b)) ground
          (arith, listed_same q.public_key k rows, on_device_same q.public_key k qs)

    pub told-surplus :
        (qs : List WgPeer) (b : Bool)
        → told k (surplus env rows qs) b
          ≡ kept_or_removed (listed (env.key_text k) rows) (on_device k qs) b
    unfolding surplus
    told-surplus [] b = ground arith
    told-surplus (q ∷ qs) b =
        told-surplus_step q qs b _ _ (found-first (env.key_text q.public_key) rows)
          (found-wg_by_key q.public_key qs) (told-surplus qs)

  module _ (k : ℕ) where
    re_add-lem :
        (p : Peer) (cs : List PeerConfig) (b : Bool) (r : IsReadable env p)
        → told k (re_add env p ++ cs) b ≡ told k cs (if r.key == k then true else b)
    unfolding re_add missing_config
    re_add-lem p cs b r = rw (r.text, reads r.key, r.readable) refl

    told-absent_step :
        (wg : List WgPeer) (p : Peer) (ps : List Peer) (b : Bool) (o : Option WgPeer)
        → (r : IsReadable env p) → found o ≡ on_device r.key wg
        → ((c : Bool)
            → told k (absent env wg ps) c
              ≡ (if listed (env.key_text k) ps && not (on_device k wg) then true else c))
        → told k (elim o [ none ↦ re_add env p ++ absent env wg ps | some q ↦ absent env wg ps ]) b
          ≡ (if listed (env.key_text k) (p ∷ ps) && not (on_device k wg) then true else b)
    unfolding found
    told-absent_step wg p ps b none r h ih =
        rw
          (
            re_add-lem p (absent env wg ps) b r,
            ih (if r.key == k then true else b),
            r.text,
            text_eq_lem r.key k,
          )
          ground (arith, on_device_same r.key k wg)
    told-absent_step wg p ps b (some q) r h ih =
        rw (ih b, r.text, text_eq_lem r.key k) ground (arith, on_device_same r.key k wg)

    pub told-absent :
        (wg : List WgPeer) (ps : List Peer) (b : Bool)
        → All (IsReadable env) ps
        → told k (absent env wg ps) b
          ≡ (if listed (env.key_text k) ps && not (on_device k wg) then true else b)
    told-absent wg [] b r = refl
    told-absent wg (p ∷ ps) b r =
        told-absent_step wg p ps b _ r.0 (rw r.0.text (found-wg_by_key r.0.key wg))
          (λ c. told-absent wg ps c r.1)

    -- What all changes do: the device has a key afterwards if a row has its text.
    pub told-changes :
        (wg : List WgPeer) (rows : List Peer)
        → All (IsReadable env) rows
        → told k (absent env wg rows ++ surplus env rows wg) (on_device k wg)
          ≡ listed (env.key_text k) rows
    told-changes wg rows r =
        rw
          (
            told-append k (absent env wg rows) (surplus env rows wg) (on_device k wg),
            told-absent wg rows (on_device k wg) r,
            told-surplus k rows wg,
          )
          ground arith
