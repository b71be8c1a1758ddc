-- ===== src/Config/Overrides.antt =====
-- The overrides of the environment, and what Load accepts.
use shuosc_network_server_ba.Common.{
  String, ◌≡◌, refl, Bool, true, false, Option, none, some, if◌then◌else◌, Bool-cases, inl, inr,
}
use shuosc_network_server_ba.Common.Words.{is_empty, trim_space}
use shuosc_network_server_ba.Config.{
  Config, override, override_text, or_else, discovery_secret, apply_env_overrides,
}

or_else-twice : {A : Type 0} (o : Option A) (a : A) → or_else o (or_else o a) ≡ or_else o a
or_else-twice none a = refl
or_else-twice (some b) a = refl

override-twice :
    {A : Type 0} (value : String) (parse : String → Option A) (old : A)
    → override value parse (override value parse old) ≡ override value parse old
unfolding override
override-twice value parse old = twice (is_empty (trim_space value)) (parse (trim_space value)) old
  where
    twice :
        {A : Type 0} (b : Bool) (o : Option A) (a : A)
        → (if b then (if b then a else or_else o a) else or_else o (if b then a else or_else o a))
          ≡ (if b then a else or_else o a)
    twice true o a = refl
    twice false o a = or_else-twice o a

discovery_secret-twice :
    (getenv : String → String) (old : String)
    → discovery_secret getenv (discovery_secret getenv old) ≡ discovery_secret getenv old
unfolding discovery_secret
discovery_secret-twice getenv old =
    elim (Bool-cases (is_empty (trim_space (getenv "SCNET_DISCOVERY_SECRET")))) [
      | inr set ↦ rw set refl
      | inl unset ↦ elim (Bool-cases (is_empty old)) [
        | inr given ↦ rw (unset, given, given) refl
        | inl blank ↦
            elim (Bool-cases (is_empty (override_text (getenv "SCNET_AGENT_TOKEN") old))) [
              | inl still ↦ rw (unset, blank, still) (override-twice _ _ old)
              | inr token ↦ rw (unset, blank, token) refl
            ]
      ]
    ]

-- A configuration that the server can start with.
pub record IsComplete (cfg : Config) : Type 0 where
  pub database_password : is_empty cfg.database.password ≡ false
  pub private_key : is_empty cfg.wireguard.private_key ≡ false
  pub jwt_secret : is_empty cfg.jwt.secret ≡ false

module _ (getenv : String → String) where
  -- The environment has its way at once: overriding again changes nothing.
  pub apply_env_overrides-idempotent :
      (cfg : Config)
      → apply_env_overrides getenv (apply_env_overrides getenv cfg) ≡ apply_env_overrides getenv cfg
  unfolding apply_env_overrides
  apply_env_overrides-idempotent cfg = simp (override-twice, discovery_secret-twice) refl
