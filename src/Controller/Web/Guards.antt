-- ===== src/Controller/Web/Guards.antt =====
-- What the guard of tv_controller/service.py and the confirmations protect, over all routes.
use tv_safety_cleaner.Prelude.{
  String, ◌≡◌, ◌≢◌, ◌⊎◌, inl, inr, refl, Bool, true, false, Option, none, some, ◌==◌, string_eq,
  arith, ◌<>◌, sym, Option-cases, strip,
}
use tv_safety_cleaner.Prelude.Integers.{ℤ, int_of, show_int}
use tv_safety_cleaner.Prelude.Dict.{get_or}
use mathlib.Core.Path.{subst}
use tv_safety_cleaner.Exec.{ok, ◌>>=◌}
use tv_safety_cleaner.Controller.RateLimit.{allow}
use tv_safety_cleaner.Controller.Jobs.{Host, Manager, StateProfile}
use tv_safety_cleaner.Controller.Jobs.Profiles.{get_profile}
use tv_safety_cleaner.Controller.Web.{
  Route, Visit, Session, App, Config, Response, field, is_post, is_open, is_trusted,
  protect_request, with_token, install, uninstall, update, delete, package_state, rollback,
  profile_apply, login, static, login_form, logout, live, page, preflight, clear_finished, download,
  check_update, save_settings,
}
use tv_safety_cleaner.Controller.Web.Handlers.{action}
use tv_safety_cleaner.Controller.Web.Serving.{log_in, handle_route, serve_visit}

-- The form carries the token of the session.
abbrev pub has_token : Session → Visit → Bool
has_token session v = elim session.csrf_token [
  | none ↦ false
  | some token ↦ field "csrf_token" v == token
]

-- The text that a route wants before it acts.
abbrev pub wanted : Route → Option String
wanted Route.install = some "install-apk"
wanted Route.uninstall = some "uninstall-user-app"
wanted Route.update = some "update-apk"
wanted Route.delete = some "delete-local-apk"
wanted Route.package_state = some "change-user-package-state"
wanted _ = none

-- A request that is not from a trusted address, that posts without the token, that is not logged in, or
-- that lacks the confirmation of its route; for a profile that is the name of the profile as it is read.
pub data Unwelcome {W : Type 0} (host : Host W) (config : Config) (session : Session) (v : Visit)
    (s : Manager W) : Type 0 where
  untrusted : is_trusted config v ≡ false → Unwelcome host config session v s
  forged : is_post v.route ≡ true → has_token session v ≡ false → Unwelcome host config session v s
  not_logged_in : session.authenticated ≡ false → Unwelcome host config session v s
  unconfirmed :
      (text : String)
      → wanted v.route ≡ some text
      → field "confirmation" v ≢ text
      → Unwelcome host config session v s
  unconfirmed_profile :
      (profile : StateProfile)
      → v.route ≡ profile_apply
      → get_profile host (field "profile_id" v) s ≡ (ok profile, s)
      → strip (field "confirmation" v) ≢ profile.name
      → Unwelcome host config session v s
  unconfirmed_rollback :
      (i : ℤ)
      → v.route ≡ rollback
      → int_of (get_or "0" "operation_id" v.form) ≡ some i
      → field "confirmation" v ≢ "rollback-" <> show_int i
      → Unwelcome host config session v s

module _ (config : Config) (session : Session) (v : Visit) where
  -- What the guard has found out where it lets a request pass.
  pub guard_passed :
      protect_request config session v ≡ none
      → (is_trusted config v ≡ true)
        × (is_post v.route ≡ true → has_token session v ≡ true)
        × (session.authenticated ≡ false → is_open v.route ≡ true)
  unfolding protect_request
  guard_passed h = ground arith

module _ {W : Type 0} (host : Host W) (config : Config) (v : Visit) (app : App W) where
  abbrev Untouched : Response × App W → Type 0
  Untouched answer = answer.1.manager ≡ app.manager

  pub log_in-Untouched : Untouched (log_in host config v app)
  unfolding log_in
  log_in-Untouched = ground arith

  pub open-Untouched : (r : Route) → is_open r ≡ true → Untouched (handle_route host config r v app)
  unfolding handle_route
  open-Untouched static h = refl
  open-Untouched login_form h = ground arith
  open-Untouched login h = log_in-Untouched
  open-Untouched logout h = cc
  open-Untouched live h = cc
  open-Untouched (page profile) h = cc
  open-Untouched preflight h = cc
  open-Untouched clear_finished h = cc
  open-Untouched download h = cc
  open-Untouched delete h = cc
  open-Untouched install h = cc
  open-Untouched uninstall h = cc
  open-Untouched check_update h = cc
  open-Untouched update h = cc
  open-Untouched package_state h = cc
  open-Untouched rollback h = cc
  open-Untouched profile_apply h = cc
  open-Untouched save_settings h = cc

  unconfirmed-Untouched :
      (r : Route) (text : String)
      → wanted r ≡ some text
      → field "confirmation" v ≢ text
      → Untouched (handle_route host config r v app)
  unfolding handle_route action ◌>>=◌
  unconfirmed-Untouched static text w h = cc
  unconfirmed-Untouched login_form text w h = cc
  unconfirmed-Untouched login text w h = cc
  unconfirmed-Untouched logout text w h = cc
  unconfirmed-Untouched live text w h = cc
  unconfirmed-Untouched (page profile) text w h = cc
  unconfirmed-Untouched preflight text w h = cc
  unconfirmed-Untouched clear_finished text w h = cc
  unconfirmed-Untouched download text w h = cc
  unconfirmed-Untouched delete text w h = ground arith
  unconfirmed-Untouched install text w h = ground arith
  unconfirmed-Untouched uninstall text w h = ground arith
  unconfirmed-Untouched check_update text w h = cc
  unconfirmed-Untouched update text w h = ground arith
  unconfirmed-Untouched package_state text w h = ground arith
  unconfirmed-Untouched rollback text w h = cc
  unconfirmed-Untouched profile_apply text w h = cc
  unconfirmed-Untouched save_settings text w h = cc

  unconfirmed_rollback-Untouched :
      (i : ℤ)
      → int_of (get_or "0" "operation_id" v.form) ≡ some i
      → field "confirmation" v ≢ "rollback-" <> show_int i
      → Untouched (handle_route host config rollback v app)
  unfolding handle_route action ◌>>=◌
  unconfirmed_rollback-Untouched i e h = ground arith

  unconfirmed_profile-Untouched :
      (profile : StateProfile)
      → get_profile host (field "profile_id" v) app.manager ≡ (ok profile, app.manager)
      → strip (field "confirmation" v) ≢ profile.name
      → Untouched (handle_route host config profile_apply v app)
  unfolding handle_route action ◌>>=◌
  unconfirmed_profile-Untouched profile e h = ground arith

  -- A request is answered by the guard, which changes nothing, or by its handler.
  pub serve_visit-cases :
      ((serve_visit host config v app).1 ≡ app)
      ⊎ ((serve_visit host config v app).1 ≡ (handle_route host config v.route v app).1)
  unfolding serve_visit
  serve_visit-cases = ground arith

  -- The guard's response leaves the application as it was, so what a handler leaves alone is left alone.
  serve_visit-Untouched :
      (protect_request config app.session v ≡ none
        → Untouched (handle_route host config v.route v app))
      → Untouched (serve_visit host config v app)
  unfolding serve_visit
  serve_visit-Untouched h = answered (protect_request config app.session v) h
    where
      answered :
          (o : Option Response)
          → (o ≡ none → Untouched (handle_route host config v.route v app))
          → Untouched (elim o as (λ _. Response × App W) [
            | some response ↦ (response, app)
            | none ↦ handle_route host config v.route v app
          ])
      answered none k = k refl
      answered (some response) k = refl

module _ {W : Type 0} (host : Host W) (config : Config) (v : Visit) (app : App W) where
  abbrev LoggedIn : Route → Type 0
  LoggedIn r =
      (app.session.authenticated ≡ true)
      ⊎ ((r ≡ login)
          × ((allow v.now ("login:" <> v.remote) app.limiter).0 ≡ true)
          × (config.check_password (field "password" v) ≡ true))

  with_token-authenticated :
      (token : String) (s : Session) → (with_token token s).authenticated ≡ s.authenticated
  with_token-authenticated token s = ground arith

  handle_route-LoggedIn :
      (r : Route) → (handle_route host config r v app).1.session.authenticated ≡ true → LoggedIn r
  unfolding handle_route log_in
  handle_route-LoggedIn static h = inl h
  handle_route-LoggedIn login_form h = ground (arith, with_token-authenticated v.token app.session)
  handle_route-LoggedIn login h = ground arith
  handle_route-LoggedIn logout h = cc
  handle_route-LoggedIn live h = inl h
  handle_route-LoggedIn (page profile) h =
      inl (rw (sym (with_token-authenticated v.token app.session)) h)
  handle_route-LoggedIn preflight h = inl h
  handle_route-LoggedIn clear_finished h = inl h
  handle_route-LoggedIn download h = inl h
  handle_route-LoggedIn delete h = inl h
  handle_route-LoggedIn install h = inl h
  handle_route-LoggedIn uninstall h = inl h
  handle_route-LoggedIn check_update h = inl h
  handle_route-LoggedIn update h = inl h
  handle_route-LoggedIn package_state h = inl h
  handle_route-LoggedIn rollback h = inl h
  handle_route-LoggedIn profile_apply h = inl h
  handle_route-LoggedIn save_settings h = inl h

module _ {W : Type 0} (host : Host W) (config : Config) where
  -- A request that is not from a trusted address, that posts without the session's token, that is not
  -- logged in, or that lacks the confirmation of its route, which for a rollback is that of its operation
  -- and to apply a profile the name of that profile, leaves
  -- the manager as it was: no call of the television, no journal row, no task, no thread and no change of
  -- the settings.
  pub serve_visit-Unwelcome :
      (v : Visit) (app : App W)
      → Unwelcome host config app.session v app.manager
      → (serve_visit host config v app).1.manager ≡ app.manager
  serve_visit-Unwelcome v app (untrusted h) =
      serve_visit-Untouched host config v app
        λ passed. let (trusted, _, _) = guard_passed config app.session v passed in cc
  serve_visit-Unwelcome v app (forged post h) =
      serve_visit-Untouched host config v app
        λ passed. let (_, token, _) = guard_passed config app.session v passed in cc (token post, h)
  serve_visit-Unwelcome v app (not_logged_in h) = serve_visit-Untouched host config v app λ passed.
      let (_, _, opened) = guard_passed config app.session v passed in
      open-Untouched host config v app v.route (opened h)
  serve_visit-Unwelcome v app (unconfirmed text w h) =
      serve_visit-Untouched host config v app
        λ _. unconfirmed-Untouched host config v app v.route text w h
  serve_visit-Unwelcome v app (unconfirmed_profile profile r e h) =
      serve_visit-Untouched host config v app λ _.
        subst (λ route. Untouched host config v app (handle_route host config route v app)) (sym r)
          (unconfirmed_profile-Untouched host config v app profile e h)
  serve_visit-Unwelcome v app (unconfirmed_rollback i r e h) =
      serve_visit-Untouched host config v app λ _.
        subst (λ route. Untouched host config v app (handle_route host config route v app)) (sym r)
          (unconfirmed_rollback-Untouched host config v app i e h)

  -- A session that is logged in after a request was so before, or the request was a login, from a
  -- trusted address, with the session's token, within the rate limit and with the right password.
  pub serve_visit-authenticated :
      (v : Visit) (app : App W)
      → (serve_visit host config v app).1.session.authenticated ≡ true
      → (app.session.authenticated ≡ true)
        ⊎ ((v.route ≡ login)
            × (is_trusted config v ≡ true)
            × (has_token app.session v ≡ true)
            × ((allow v.now ("login:" <> v.remote) app.limiter).0 ≡ true)
            × (config.check_password (field "password" v) ≡ true))
  unfolding serve_visit
  serve_visit-authenticated v app h = elim (Option-cases (protect_request config app.session v)) [
    | inr (response, stopped) ↦ inl (ground (arith, stopped))
    | inl passed ↦ elim (handle_route-LoggedIn host config v app v.route (ground (arith, passed))) [
      | inl before ↦ inl before
      | inr (r, allowed, checked) ↦
          let (trusted, token, _) = guard_passed config app.session v passed in
          inr (r, trusted, token (rw r refl), allowed, checked)
    ]
  ]
