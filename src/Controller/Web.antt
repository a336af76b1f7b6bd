-- ===== src/Controller/Web.antt =====
-- `create_app` of tv_controller/service.py: the guard before every request and the session. The pages
-- that routes show are left out, but not what they ask of the manager, and so is the route that captures
-- a profile. What a browser sends is a `Visit`; the identifiers and the token that the request makes up
-- stand in it. `session` is the session of the browser that asks.
pub mod Handlers
pub mod Serving
pub mod Guards
pub mod Refines
pub mod Effects
pub mod Exact
use tv_safety_cleaner.Prelude.{
  ℕ, suc, ◌<>◌, String, Bool, true, false, Option, none, some, List, [], ◌∷◌, ◌++◌, not, ◌&&◌, ◌||◌,
  ◌==◌, string_eq, if◌then◌else◌, contains, is_empty, strip, show, split_lines, length, all, ltb,
  codes, nat_eq,
}
use tv_safety_cleaner.Prelude.Integers.{ℤ, pos, negsuc, int_of, show_int}
use tv_safety_cleaner.Prelude.Dict.{Dict, get_or}
use tv_safety_cleaner.Exec.{
  Exec, Result, ok, err, Error, refusal, value_error, os_error, adb_error, other, message, chain,
  pure, raise, lift, raise_if, ◌>>=◌, ◌>>◌,
}
use tv_safety_cleaner.Controller.Journal.{or_missing}
use tv_safety_cleaner.Controller.Names.{UrlLib, parse_package_input}
use tv_safety_cleaner.Controller.RateLimit.{RateLimiter, allow}
use tv_safety_cleaner.Controller.Settings.{
  NetLib, Address, validate_downloader_endpoint, validate_adb_host, save_settings as save_to,
  load_settings,
}
use tv_safety_cleaner.Controller.Jobs.{
  Manager, Host, StateProfile, ApkSettings, require_sideload, check_tv,
}
use tv_safety_cleaner.Controller.Jobs.Start.{
  start_install, start_uninstall, start_update, start_download, start_check_update,
  start_set_enabled, start_rollback,
}
use tv_safety_cleaner.Controller.Jobs.Profiles.{get_profile, profile_preview, start_profile_apply}
use tv_safety_cleaner.Controller.Jobs.Archives.{delete_local_apk}
use tv_safety_cleaner.Controller.Service.{clear_tasks}

-- The routes; `page` is a section, with the profile that it previews if there is one.
pub data Route : Type 0 where
  static login_form login logout live : Route
  page : (profile : Option String) → Route
  preflight clear_finished download delete install uninstall : Route
  check_update update package_state rollback profile_apply save_settings : Route

pub record Visit : Type 0 where
  pub route : Route
  pub remote : String
  pub form : Dict String
  pub now : ℕ
  pub task : ℕ → String
  pub token : String

pub record Session : Type 0 where
  pub authenticated : Bool
  pub csrf_token : Option String

pub record App (W : Type 0) : Type 0 where
  pub manager : Manager W
  pub session : Session
  pub limiter : RateLimiter

-- `shown` is a page or a redirect; `answered` is `action_response`, a JSON object or a flash by what
-- the browser wants.
pub data Response : Type 0 where
  shown : (place : String) → Response
  answered : (status : ℕ) (text : String) (task : Option String) → Response
  aborted : (status : ℕ) → Response
  crashed : (text : String) → Response

-- What the application is created with.
pub record Config : Type 0 where
  pub net : NetLib
  pub allow_lan : Bool
  pub trusted_cidrs : List String
  pub check_password : String → Bool

abbrev pub field : String → Visit → String
field key v = get_or "" key v.form

abbrev pub is_post : Route → Bool
is_post static = false
is_post login_form = false
is_post live = false
is_post (page _) = false
is_post _ = true

-- The endpoints that need no login.
abbrev pub is_open : Route → Bool
is_open static = true
is_open login_form = true
is_open login = true
is_open _ = false

abbrev in_any : NetLib → Address → List String → Bool
in_any lib client [] = false
in_any lib client (cidr ∷ cidrs) =
    let others = in_any lib client cidrs in
    elim (lib.in_network client cidr) [ none ↦ false | some inside ↦ inside || others ]

-- `_valid_cidr`
unfoldable pub valid_cidr : NetLib → String → List String → Bool
valid_cidr lib address trusted = elim (lib.ip_address address) [
  | none ↦ false
  | some client ↦ in_any lib client trusted
]

abbrev pub local_cidrs : List String
local_cidrs = "127.0.0.0/8" ∷ "::1/128" ∷ []

abbrev pub is_trusted : Config → Visit → Bool
is_trusted config v =
    valid_cidr config.net v.remote (if config.allow_lan then config.trusted_cidrs else local_cidrs)

-- What the check of the token answers; `hmac.compare_digest` raises on a text that is not ASCII.
abbrev pub check_token : Session → Visit → Option Response
check_token session v = elim session.csrf_token [
  | none ↦ some (aborted 400)
  | some expected ↦
      if is_empty expected || is_empty (field "csrf_token" v)
      then some (aborted 400)
      else if not (all (λ c. ltb c 128) (codes (field "csrf_token" v)))
      then some (crashed "comparing strings with non-ASCII characters is not supported")
      else if field "csrf_token" v == expected
      then none
      else some (aborted 400)
]

abbrev check_login : Session → Visit → Option Response
check_login session v =
    if not (is_open v.route) && not session.authenticated then some (shown "login_form") else none

abbrev or_else : Option Response → Option Response → Option Response
or_else none next = next
or_else (some response) next = some response

-- `protect_request`: a response in place of the handler's, or nothing.
unfoldable pub protect_request : Config → Session → Visit → Option Response
unfolding valid_cidr get_or
protect_request config session v =
    if not (is_trusted config v)
    then some (aborted 403)
    else or_else (if is_post v.route then check_token session v else none) (check_login session v)

-- `_csrf_token`
abbrev pub with_token : String → Session → Session
with_token token session = elim session.csrf_token [
  | none ↦ record session { csrf_token = some token }
  | some _ ↦ session
]

abbrev pub fresh_session : Session
fresh_session = record { authenticated = false; csrf_token = none }
