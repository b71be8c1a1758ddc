-- ===== src/Store/Invites/States.antt =====
-- The state of an invite by internal/model/invite.go and by the SQL of internal/store/invite_store.go.
use shuosc_network_server_ba.Common.{
  ℕ, ◌<◌, String, ◌≡◌, ◌≢◌, ◌↔◌, refl, Bool, true, false, ◌&&◌, not, some, arith, str_eq, eq_iff,
  leb, ltb, if◌then◌else◌,
}
use shuosc_network_server_ba.Model.{InviteCode, is_available, state, has_expired}
use shuosc_network_server_ba.Store.Users.{expired_by}
use shuosc_network_server_ba.Store.Invites.{listed_as, counted_state, sql_expired}

abbrev model_state : Bool → Bool → String
model_state b c = if b then "used_up" else if c then "expired" else "available"

available_cases :
    (b c : Bool)
    → ((if b then false else if c then false else true) ≡ true) ↔ (model_state b c ≡ "available")
available_cases true c = (λ e. ground arith, λ e. (eq_iff "used_up" "available").1 e)
available_cases false true = (λ e. ground arith, λ e. (eq_iff "expired" "available").1 e)
available_cases false false = ground arith

left-not : (a b : ℕ) → ltb a b ≡ not (leb b a)
left-not a b = ground arith

abbrev sql_state : Bool → Bool → String
sql_state b c = if b then "used_up" else if c && not b then "expired" else "available"

state_cases :
    (b c : Bool)
    → ((not b && not c) ≡ str_eq (sql_state b c) "available")
      × (b ≡ str_eq (sql_state b c) "used_up")
      × ((c && not b) ≡ str_eq (sql_state b c) "expired")
state_cases true true = (refl, refl, refl)
state_cases true false = (refl, refl, refl)
state_cases false true = (refl, refl, refl)
state_cases false false = (refl, refl, refl)

module _ (now : ℕ) (i : InviteCode) where
  -- IsAvailable and State of the model agree.
  pub state-available : (is_available now i ≡ true) ↔ (state now i ≡ "available")
  unfolding is_available state
  state-available = available_cases (leb i.max_uses i.use_count) (has_expired now i.expires_at)

  -- The list of a state holds the invites that the counts place in it.
  pub listed_as-counted_state :
      (listed_as "available" now i ≡ str_eq (counted_state now i) "available")
      × (listed_as "used_up" now i ≡ str_eq (counted_state now i) "used_up")
      × (listed_as "expired" now i ≡ str_eq (counted_state now i) "expired")
  unfolding listed_as counted_state
  listed_as-counted_state =
      rw (left-not i.use_count i.max_uses)
        (state_cases (leb i.max_uses i.use_count) (sql_expired now i.expires_at))

  -- Away from the instant of expiry, the SQL and the model agree on the state of an invite.
  counted_state-state : i.expires_at ≢ some now → counted_state now i ≡ state now i
  unfolding counted_state state
  counted_state-state away = ground arith

  -- At that instant they differ, for an invite with uses left: the model calls it available, while the
  -- SQL counts it as expired and the registering transaction refuses it.
  pub state-at_expiry :
      i.expires_at ≡ some now
      → i.use_count < i.max_uses
      → (state now i ≡ "available")
        × (counted_state now i ≡ "expired")
        × (expired_by now i.expires_at ≡ true)
  unfolding counted_state state
  state-at_expiry here left = ground arith
