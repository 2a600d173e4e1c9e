-- ===== src/Security.antt =====
-- api/security.py and the check of the settings of config.py: who may call an operation. Keys are ASCII
-- texts, on which `secrets.compare_digest` is equality; an empty header is a falsy text.
use schema_sentry.Prelude.{
  List, String, Bool, true, false, not, Option, none, some, ◌==◌, ◌&&◌, String_eq, if◌then◌else◌,
  ◌≡◌, ◌⊎◌, arith, ap, ◌≢◌,
}
use schema_sentry.Prelude.Result.{Result, ok, err}

pub data Environment : Type 0 where
  development test production : Environment

pub record Settings : Type 0 where
  pub environment : Environment
  pub api_key : String
  pub auth_disabled : Bool
  pub trust_proxy_auth : Bool
  pub slack_webhook_url : Option String
  pub email_to : List String
  pub dashboard_base_url : String

pub data Mechanism : Type 0 where
  api_key proxy bypass : Mechanism

pub record OperatorIdentity : Type 0 where
  pub subject : String
  pub mechanism : Mechanism

pub data SettingsError : Type 0 where
  auth_disabled_in_production : SettingsError

abbrev is_production : Environment → Bool
is_production development = false
is_production test = false
is_production production = true

abbrev is_development : Environment → Bool
is_development development = true
is_development test = false
is_development production = false

unfoldable pub protect_production_authentication : Settings → Result SettingsError Settings
protect_production_authentication s =
    if is_production s.environment && s.auth_disabled then err auth_disabled_in_production else ok s

-- `x_api_key and compare_digest(x_api_key, …)`
abbrev key_matches : String → Option String → Bool
key_matches expected none = false
key_matches expected (some key) = not (key == "") && key == expected

-- the 401 of a request without a proxy's user
by_proxy : Bool → Option String → Option OperatorIdentity
by_proxy trusted none = none
by_proxy trusted (some user) =
    if trusted && not (user == "")
    then some (record { subject = user; mechanism = proxy })
    else none

-- `none` is the 401
unfoldable pub require_operator : Settings → Option String → Option String → Option OperatorIdentity
unfolding by_proxy
require_operator s x_api_key x_authenticated_user =
    if is_development s.environment && s.auth_disabled
    then some (record { subject = "local-development"; mechanism = bypass })
    else if key_matches s.api_key x_api_key
    then some (record { subject = "api-client"; mechanism = Mechanism.api_key })
    else by_proxy s.trust_proxy_auth x_authenticated_user

-- In production, whatever the other settings are, a caller is admitted only with a key that is not empty
-- and is the configured one, or under the name that a trusted proxy gave and that is not empty.
pub require_operator_production :
    (s : Settings) (key user : Option String) (who : OperatorIdentity)
    → s.environment ≡ production
    → require_operator s key user ≡ some who
    → ((key ≡ some s.api_key) × (s.api_key ≢ "") × (who.mechanism ≡ Mechanism.api_key))
      ⊎ ((s.trust_proxy_auth ≡ true)
          × (user ≡ some who.subject)
          × (who.subject ≢ "")
          × (who.mechanism ≡ proxy))
unfolding require_operator by_proxy
require_operator_production s none none who live h = ground (arith, ap is_development live, h)
require_operator_production s none (some u) who live h =
    ground (arith, ap is_development live, String_eq.test_iff u "", h)
require_operator_production s (some k) none who live h =
    ground
      (arith, ap is_development live, String_eq.test_iff k "", String_eq.test_iff k s.api_key, h)
require_operator_production s (some k) (some u) who live h = ground (
  arith,
  ap is_development live,
  String_eq.test_iff k "",
  String_eq.test_iff k s.api_key,
  String_eq.test_iff u "",
  h,
)
