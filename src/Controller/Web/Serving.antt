-- ===== src/Controller/Web/Serving.antt =====
-- Login, and the way of a request through the guard to its handler.
use tv_safety_cleaner.Prelude.{◌<>◌, true, none, some, not, string_eq, if◌then◌else◌, nat_eq}
use tv_safety_cleaner.Prelude.Dict.{get_or}
use tv_safety_cleaner.Exec.{}
use tv_safety_cleaner.Controller.RateLimit.{allow}
use tv_safety_cleaner.Controller.Settings.{}
use tv_safety_cleaner.Controller.Jobs.{Manager, Host}
use tv_safety_cleaner.Controller.Jobs.Start.{}
use tv_safety_cleaner.Controller.Web.{
  Route, static, login_form, login, logout, live, page, save_settings, Visit, App, Response, shown,
  aborted, Config, field, protect_request, with_token, fresh_session,
}
use tv_safety_cleaner.Controller.Web.Handlers.{action, handler_of, page_error, respond, save}

module _ {W : Type 0} (host : Host W) (config : Config) where
  -- `login`
  unfoldable pub log_in : Visit → App W → Response × App W
  unfolding allow get_or
  log_in v app =
      let (allowed, limiter) = allow v.now ("login:" <> v.remote) app.limiter in
      let tried = record app { limiter = limiter } in
      if not allowed
      then (aborted 429, tried)
      else if not (config.check_password (field "password" v))
      then (shown "login_form?error=invalid", tried)
      else (
        shown "index",
        record tried { session = record { authenticated = true; csrf_token = some v.token } },
      )

  abbrev acted : App W → Response × Manager W → Response × App W
  acted app (response, manager) = (response, record app { manager = manager })

  -- A page's forms carry the session's token.
  abbrev with_page_token : Visit → App W → App W
  with_page_token v app = record app { session = with_token v.token app.session }

  -- The handler of a route.
  unfoldable pub handle_route : Route → Visit → App W → Response × App W
  unfolding log_in action save
  handle_route static v app = (shown "static", app)
  handle_route login_form v app =
      if app.session.authenticated
      then (shown "index", app)
      else (shown "login_form", with_page_token v app)
  handle_route login v app = log_in v app
  handle_route logout v app = (shown "login_form", record app { session = fresh_session })
  handle_route live v app = (shown "live", app)
  handle_route save_settings v app =
      (shown "section", record app { manager = save config.net v app.manager })
  handle_route (page profile) v app =
      acted (with_page_token v app) (respond page_error (action host (page profile) v) app.manager)
  handle_route route v app =
      acted app (respond (handler_of route) (action host route v) app.manager)

  -- A request, with the guard before it.
  unfoldable pub serve_visit : Visit → App W → Response × App W
  unfolding protect_request handle_route
  serve_visit v app = elim (protect_request config app.session v) [
    | some response ↦ (response, app)
    | none ↦ handle_route v.route v app
  ]
