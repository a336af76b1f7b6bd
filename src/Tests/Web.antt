-- ===== src/Tests/Web.antt =====
-- Requests of browsers to the web application of the controller.
use tv_safety_cleaner.Prelude.{
  String, ◌≡◌, ◌⊎◌, refl, Bool, true, false, some, [], ◌∷◌, String_discrete, ℕ_discrete, strip,
  ◌<>◌, show,
}
use tv_safety_cleaner.Prelude.Dict.{Dict, get_or, lookup, insert}
use tv_safety_cleaner.Prelude.Integers.{int_of}
use tv_safety_cleaner.Exec.{ok}
use tv_safety_cleaner.Controller.Device.{PackageState}
use tv_safety_cleaner.Controller.RateLimit.{allow, without_old}
use tv_safety_cleaner.Controller.Settings.{
  NetLib, validate_adb_host, validate_downloader_endpoint, rpartition, rstrip_marks,
  default_settings, save_settings, load_settings, load_settings-save_settings,
}
use tv_safety_cleaner.Prelude.Json.{Json}
use tv_safety_cleaner.Controller.Web.{
  Response, Route, Visit, App, Config, field, is_trusted, protect_request, valid_cidr, install,
  login,
}
use tv_safety_cleaner.Controller.Web.Serving.{serve_visit, handle_route, log_in}
use tv_safety_cleaner.Controller.Web.Guards.{
  unconfirmed, has_token, serve_visit-Unwelcome, serve_visit-authenticated,
}
use tv_safety_cleaner.Controller.Web.Effects.{Admitted, IsStopped, asked}
use tv_safety_cleaner.Controller.Web.Exact.{serve_visit-Does}
use tv_safety_cleaner.Tests.Data.{tv_host, manager_with, one_applied, a_task}

-- Every address is private and in every network, and every endpoint the approved one.
abbrev home_net : NetLib
home_net = record {
  ip_address = λ text. some (record { text = text; is_private = true });
  in_network = λ _ _. some true;
  parse_endpoint = λ _. record {
    scheme = "https";
    hostname = "online-apk-downloader.com";
    path = "/apk-ajax&packageDownload";
    query = "";
  };
}

abbrev home : Config
home = record { net = home_net; allow_lan = false; trusted_cidrs = []; check_password = λ _. true }

abbrev visit : Route → Dict String → Visit
visit route form = record {
  route = route;
  remote = "127.0.0.1";
  form = ("csrf_token", "token") ∷ form;
  now = 100;
  task = λ _. a_task;
  token = "next";
}

abbrev app_with : Bool → App PackageState
app_with authenticated = record {
  manager = manager_with true one_applied;
  session = record { authenticated = authenticated; csrf_token = some "token" };
  limiter = record { limit = 5; window = 60; events = [] };
}

no_confirmation : field "confirmation" (visit install (("file", "a-2.apk") ∷ [])) ≡ ""
unfolding get_or lookup String_discrete
no_confirmation = refl

serve_visit-Unwelcome_example :
    (serve_visit tv_host home (visit install (("file", "a-2.apk") ∷ [])) (app_with true)).1.manager
    ≡ manager_with true one_applied
serve_visit-Unwelcome_example =
    serve_visit-Unwelcome tv_host home (visit install (("file", "a-2.apk") ∷ [])) (app_with true)
      (unconfirmed "install-apk" refl (rw no_confirmation (λ e. cc e)))

logged_in :
    (serve_visit tv_host home
      (visit login (("password", "secret") ∷ []))
      (app_with false)).1.session.authenticated
    ≡ true
unfolding serve_visit protect_request handle_route log_in allow without_old insert get_or lookup
    String_discrete ℕ_discrete valid_cidr
logged_in = refl

serve_visit-authenticated_example :
    (false ≡ true)
    ⊎ ((login ≡ login)
        × (is_trusted home (visit login (("password", "secret") ∷ [])) ≡ true)
        × (has_token (app_with false).session (visit login (("password", "secret") ∷ [])) ≡ true)
        × ((allow 100 ("login:" <> "127.0.0.1") (app_with false).limiter).0 ≡ true)
        × (true ≡ true))
serve_visit-authenticated_example =
    serve_visit-authenticated tv_host home (visit login (("password", "secret") ∷ []))
      (app_with false) logged_in

abbrev installing : Visit
installing = visit install (("file", "a-2.apk") ∷ ("confirmation", "install-apk") ∷ [])

serve_visit-Does_example :
    (IsStopped home (app_with true).session installing
      × ((response : Response) × (serve_visit tv_host home installing (app_with true)
            ≡ (response, app_with true))))
    ⊎ (Admitted home (app_with true).session installing
        × ((serve_visit tv_host home installing (app_with true)).1.manager
            ≡ asked tv_host home installing install (manager_with true one_applied)))
serve_visit-Does_example = serve_visit-Does tv_host home installing (app_with true)

default_endpoint :
    validate_downloader_endpoint home_net default_settings.downloader_endpoint
    ≡ ok default_settings.downloader_endpoint
unfolding validate_downloader_endpoint rstrip_marks strip String_discrete ℕ_discrete
default_endpoint = refl

default_host : validate_adb_host home_net default_settings.adb_host ≡ ok default_settings.adb_host
unfolding validate_adb_host strip int_of rpartition ℕ_discrete show
default_host = refl

load_settings-save_settings_example :
    (saved : Dict Json) × (save_settings home_net default_settings ≡ ok saved)
    × (load_settings home_net (some saved) ≡ default_settings)
load_settings-save_settings_example =
    load_settings-save_settings home_net default_settings default_endpoint default_host
