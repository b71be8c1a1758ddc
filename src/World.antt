-- ===== src/World.antt =====
-- What the services share: the database, the WireGuard device, the address allocator, the clock, and
-- the calls into them. pgx, wgctrl and the kernel are not part of the repository. Which of their
-- calls fail is the list `faults` of the world, one entry for each call to come (none left: no call
-- fails); how a device takes a configuration, and the parsing of uuids and keys, are the
-- environment `Env`.
pub mod Rules
pub mod Triples
pub mod Gates
pub mod Statements
use shuosc_network_server_ba.Common.{
  ℕ, String, Bool, true, false, Option, none, some, List, [], ◌∷◌, if◌then◌else◌,
}
use shuosc_network_server_ba.Common.Text.{Text}
use shuosc_network_server_ba.Model.{User, Peer, InviteCode}
use shuosc_network_server_ba.Peer.Ipam.{Ip, Ip6Text, Ipam}

-- The tables of migrations/001_init.sql. `next_id` is the next value of gen_random_uuid(), which
-- gives no id twice.
pub record Db : Type 0 where
  pub users : List User
  pub invites : List InviteCode
  pub peers : List Peer
  pub next_id : ℕ

-- wgtypes.Peer and wgtypes.Device. Keys are numbers, and 0 is the zero key.
pub record WgPeer : Type 0 where
  pub public_key : ℕ
  pub allowed_ips : List (Option Ip)
  pub last_handshake : Option ℕ

pub record Device : Type 0 where
  pub private_key : ℕ
  pub listen_port : ℕ
  pub peers : List WgPeer

-- wgtypes.PeerConfig and wgtypes.Config. An allowed IP is a /32, and `none` the nil net.IP.
pub record PeerConfig : Type 0 where
  pub public_key : ℕ
  pub remove : Bool
  pub replace_allowed_ips : Bool
  pub allowed_ips : List (Option Ip)

pub record WgConfig : Type 0 where
  pub private_key : Option ℕ
  pub listen_port : Option ℕ
  pub replace_peers : Bool
  pub peers : List PeerConfig

-- What the code calls and the repository does not hold: github.com/google/uuid, wgtypes, the kernel;
-- and the text of the endpoint that the manager is given as a function.
pub record Env : Type 0 where
  pub parse_uuid : String → Option ℕ
  pub uuid_text : ℕ → String
  pub parse_key : String → Option ℕ
  pub key_text : ℕ → String
  pub public_key : ℕ → ℕ
  pub ip6 : Ip6Text
  pub endpoint : String
  pub configure : WgConfig → Device → Option Device

pub record World : Type 0 where
  pub db : Db
  pub device : Device
  pub ipam : Ipam
  pub server_key : ℕ
  pub now : ℕ
  pub faults : List Bool

-- The errors of the packages. `db_failure` and `wg_failure` are those of pgx and wgctrl.
pub data Error : Type 0 where
  db_failure wg_failure invalid_uuid invalid_key : Error
  no_ip_available invalid_ip : Error
  too_many_peers peer_exists peer_revoked no_active_peer account_inactive : Error
  store_student_id_taken invite_unavailable bootstrap_closed : Error
  invalid_credentials token_expired bad_token student_id_taken invalid_invite hash_failure
        sign_failure :
      Error
  rand_failure password_too_short password_too_long password_missing_letter password_missing_digit :
      Error
  user_not_found peer_not_found invite_not_found not_admin : Error
  invalid_status invalid_max_peers invalid_max_uses invalid_expiry invite_used : Error
  invalid_password password_too_weak password_reuse : Error
  invalid_email invalid_phone invalid_wechat invalid_telegram display_name_too_long : Error

pub data Result {ℓ} (A : Type ℓ) : Type ℓ where
  ok : A → Result A
  err : Error → Result A

-- An operation on the world. What was written before an error stays written.
abbrev pub Action : Type 0 → Type 0
Action A = World → Result A × World

module _ {A : Type 0} where
  unfoldable pub pure : A → Action A
  pure a w = (ok a, w)

  unfoldable pub fail : Error → Action A
  fail e w = (err e, w)

  -- A pure step that may fail.
  unfoldable pub lift : Result A → Action A
  lift r w = (r, w)

  unfoldable pub gets : (World → A) → Action A
  gets f w = (ok (f w), w)

unfoldable pub modify : (World → World) → Action (Unit {0})
modify f w = (ok tt, f w)

module _ {A B : Type 0} where
  abbrev pub continue : Result A → (A → Action B) → Action B
  continue (ok a) f w = f a w
  continue (err e) f w = (err e, w)

  infixl 5 ◌>>=◌ ◌>>◌
  unfoldable pub ◌>>=◌ : Action A → (A → Action B) → Action B
  ◌>>=◌ m f w = let (r, w') = m w in continue r f w'

  abbrev pub ◌>>◌ : Action A → Action B → Action B
  m >> n = m >>= λ _. n

-- `if cond { return nil, e }`
abbrev pub check : Bool → Error → Action (Unit {0})
check true e = fail e
check false e = pure tt

abbrev pub or_fail {ℓ} : {A : Type ℓ} → Option A → Error → Result A
or_fail none e = err e
or_fail (some a) e = ok a

-- One call of pgx or wgctrl: whether it fails is the next entry of `faults`.
unfoldable pub next_fault : Error → List Bool → World → Result (Unit {0}) × World
next_fault e [] w = (ok tt, w)
next_fault e (true ∷ later) w = (err e, record w { faults = later })
next_fault e (false ∷ later) w = (ok tt, record w { faults = later })

unfoldable pub call : Error → Action (Unit {0})
unfolding next_fault
call e w = next_fault e w.faults w

-- A query of the database, and a statement that changes it at a time or is refused by it.
unfoldable pub query : {A : Type 0} → (Db → A) → Action A
query f = do call db_failure; gets (λ w. f w.db)

-- `for rows.Next()`: where Next fails, the loop ends as behind the last row, since rows.Err() is not
-- asked afterwards; each row takes an entry of `faults`.
abbrev pub rows_read : {A : Type 0} → List Bool → List A → List A × List Bool
rows_read [] rows = (rows, [])
rows_read (fault ∷ later) [] = ([], fault ∷ later)
rows_read (true ∷ later) (row ∷ rows) = ([], later)
rows_read (false ∷ later) (row ∷ rows) =
    let (found, left) = rows_read later rows in (row ∷ found, left)

unfoldable pub read_rows : {A : Type 0} → List A → Action (List A)
read_rows rows w =
    let (found, left) = rows_read w.faults rows in (ok found, record w { faults = left })

-- A query of many rows.
unfoldable pub query_rows : {A : Type 0} → (Db → List A) → Action (List A)
query_rows f = do rows ← query f; read_rows rows

unfoldable pub write_db : {A : Type 0} → Result (A × Db) → Action A
write_db (ok (a, db)) w = (ok a, record w { db = db })
write_db (err e) w = (err e, w)

unfoldable pub exec : {A : Type 0} → (ℕ → Db → Result (A × Db)) → Action A
unfolding write_db
exec f = do call db_failure; λ w. write_db (f w.now w.db) w

-- wgctrl's ConfigureDevice and Device on the one interface.
unfoldable pub write_device : Option Device → Action (Unit {0})
write_device none w = (err wg_failure, w)
write_device (some d) w = (ok tt, record w { device = d })

unfoldable pub configure_device : Env → WgConfig → Action (Unit {0})
unfolding write_device
configure_device env cfg = do call wg_failure; λ w. write_device (env.configure cfg w.device) w

unfoldable pub read_device : Action Device
read_device = do call wg_failure; gets (λ w. w.device)

-- `if err := m; err != nil { cleanup; return err }`: the results of the cleanup are dropped.
unfoldable pub after_error : {A : Type 0} → Result A → Action (Unit {0}) → World → Result A × World
after_error (ok a) cleanup w = (ok a, w)
after_error (err e) cleanup w = (err e, (cleanup w).1)

unfoldable pub on_error : {A : Type 0} → Action A → Action (Unit {0}) → Action A
unfolding after_error
on_error m cleanup w = let (r, w') = m w in after_error r cleanup w'

-- `_ = m`: an error of `m` is dropped.
unfoldable pub ignore : {A : Type 0} → Action A → Action (Unit {0})
ignore m w = (ok tt, (m w).1)
