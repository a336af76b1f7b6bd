-- ===== src/Controller/Web/Exact.antt =====
-- What every route of the web application does to the manager, compared with what it stands for.
use tv_safety_cleaner.Prelude.{
  Bool-cases, ℕ, suc, ◌<>◌, String, Bool, true, false, Option, none, some, List, [], ◌∷◌, ◌≡◌, refl,
  ◌⊎◌, inl, inr, ◌∙◌, string_eq, arith,
}
use tv_safety_cleaner.Prelude.Integers.{ℤ, pos, negsuc, int_of}
use tv_safety_cleaner.Prelude.Dict.{get_or}
use tv_safety_cleaner.Exec.{Exec, Result, ok, err, value_error, pure, lift, continue, ◌>>=◌}
use tv_safety_cleaner.Controller.Jobs.{Manager, Host, require_sideload, consult}
use tv_safety_cleaner.Controller.Jobs.Start.{start_download}
use tv_safety_cleaner.Controller.Jobs.Profiles.{get_profile}
use tv_safety_cleaner.Controller.Service.{serve}
use tv_safety_cleaner.Controller.Web.{
  Route, Session, is_trusted, Visit, App, Config, Response, field, is_post, is_open,
  protect_request, static, login_form, login, logout, live, page, preflight, clear_finished,
  download, delete, install, uninstall, check_update, update, package_state, rollback,
  profile_apply, save_settings,
}
use tv_safety_cleaner.Controller.Web.Guards.{
  has_token, guard_passed, log_in-Untouched, open-Untouched,
}
use tv_safety_cleaner.Controller.Web.Handlers.{
  action, start_downloads, parse_package_inputs, save, apk_download, journal_rollback,
  confirmed_rollback, apply_found, apply_profile, number_in,
}
use tv_safety_cleaner.Controller.Web.Serving.{handle_route, serve_visit}
use tv_safety_cleaner.Controller.Web.Effects.{
  downloads, roll_back, asked_rollback, applied_profile, asked_profile, asked_downloads, asked,
  Admitted, IsStopped,
}

module _ {S A B : Type 0} where
  -- The state after two actions, where the second one's is known.
  bind-state :
      (m : Exec S A) (f : A → Exec S B) (after : A → S → S) (s : S)
      → ((a : A) (t : S) → (f a t).1 ≡ after a t)
      → ((m >>= f) s).1 ≡ (elim (m s).0 [ ok a ↦ after a (m s).1 | err _ ↦ (m s).1 ])
  unfolding ◌>>=◌
  bind-state m f after s known = continued (m s).0 (m s).1
    where
      continued :
          (r : Result A) (t : S) → (continue f (r, t)).1 ≡ (elim r [ ok a ↦ after a t | err _ ↦ t ])
      continued (ok a) t = known a t
      continued (err e) t = refl

module _ {S A : Type 0} where
  -- Where a computation's result does not matter.
  state_only : (r : Result A × S) → (elim r.0 as (λ _. S) [ ok _ ↦ r.1 | err _ ↦ r.1 ]) ≡ r.1
  state_only (ok _, t) = refl
  state_only (err _, t) = refl

module _ {W : Type 0} (host : Host W) (v : Visit) where
  start_downloads-state :
      (task : ℕ → String) (n : ℕ) (packages : List String) (s : Manager W)
      → (start_downloads host task n packages s).1 ≡ downloads host task n packages s
  unfolding start_downloads serve pure
  start_downloads-state task n [] s = refl
  start_downloads-state task n (p ∷ packages) s =
      bind-state (start_download host (task n) p) _ (λ _ t. downloads host task (suc n) packages t)
        s
        λ first t.
          bind-state (start_downloads host task (suc n) packages) _ (λ _ u. u) t (λ _ u. refl)
          ∙ (state_only (start_downloads host task (suc n) packages t)
              ∙ start_downloads-state task (suc n) packages t)

  downloads-Does : (s : Manager W) → (apk_download host v s).1 ≡ asked_downloads host v s
  unfolding lift pure
  downloads-Does s =
      bind-state (lift (parse_package_inputs host.lib (field "packages" v))) _
        (downloads host v.task 0) s
        λ packages t.
          bind-state (start_downloads host v.task 0 packages) _ (λ _ u. u) t (λ _ u. refl)
          ∙ (state_only (start_downloads host v.task 0 packages t)
              ∙ start_downloads-state v.task 0 packages t)

  roll_back-state :
      (i : ℤ) (s : Manager W) → (confirmed_rollback host v i s).1 ≡ roll_back host v i s
  unfolding serve ◌>>=◌
  roll_back-state (pos i) s = ground arith
  roll_back-state (negsuc n) s = unfold require_sideload consult in ground arith

  rollback-Does : (s : Manager W) → (journal_rollback host v s).1 ≡ asked_rollback host v s
  unfolding lift
  rollback-Does s =
      bind-state (lift (number_in (get_or "0" "operation_id" v.form))) _ (roll_back host v) s
        roll_back-state
      ∙ parsed (int_of (get_or "0" "operation_id" v.form))
    where
      parsed :
          (n : Option ℤ)
          → (elim (elim n as (λ _. Result ℤ) [
            | none ↦ err (
                value_error (
                  "invalid literal for int() with base 10: '"
                  <> get_or "0" "operation_id" v.form
                  <> "'"))
            | some i ↦ ok i
          ])
              as (λ _. Manager W) [ ok i ↦ roll_back host v i s | err _ ↦ s ])
            ≡ (elim n [ none ↦ s | some i ↦ roll_back host v i s ])
      parsed none = refl
      parsed (some i) = refl

  profile-Does : (s : Manager W) → (apply_profile host v s).1 ≡ asked_profile host v s
  unfolding serve
  profile-Does s =
      bind-state (get_profile host (field "profile_id" v)) (apply_found host v)
        (applied_profile host v) s (λ profile t. unfold ◌>>=◌ in ground arith)
      ∙ (unfold get_profile consult in refl)

module _ {W : Type 0} (host : Host W) (config : Config) (v : Visit) (app : App W) where
  abbrev Does : Route → Type 0
  Does r = (handle_route host config r v app).1.manager ≡ asked host config v r app.manager

  handle_route-Does : (r : Route) → Does r
  unfolding handle_route action serve ◌>>=◌
  handle_route-Does static = refl
  handle_route-Does login_form = open-Untouched host config v app login_form refl
  handle_route-Does login = log_in-Untouched host config v app
  handle_route-Does logout = refl
  handle_route-Does live = refl
  handle_route-Does (page none) = ground arith
  handle_route-Does (page (some profile)) = ground arith
  handle_route-Does preflight = ground arith
  handle_route-Does clear_finished = ground arith
  handle_route-Does download = downloads-Does host v app.manager
  handle_route-Does delete = ground arith
  handle_route-Does install = ground arith
  handle_route-Does uninstall = ground arith
  handle_route-Does check_update = ground arith
  handle_route-Does update = ground arith
  handle_route-Does package_state = ground arith
  handle_route-Does rollback = rollback-Does host v app.manager
  handle_route-Does profile_apply = profile-Does host v app.manager
  handle_route-Does save_settings = unfold save in ground arith

-- Where the guard answers, it has a reason.
guard-IsStopped :
    (config : Config) (session : Session) (v : Visit) {response : Response}
    → protect_request config session v ≡ some response
    → IsStopped config session v
unfolding protect_request
guard-IsStopped config session v {response} h = elim (Bool-cases (is_trusted config v)) [
  | inr untrusted ↦ inl untrusted
  | inl trusted ↦ elim (Bool-cases (is_post v.route)) [
    | inr reads ↦ inr (inr (ground arith, ground arith))
    | inl posts ↦ ground arith
  ]
]

module _ {W : Type 0} (host : Host W) (config : Config) where
  -- A request either is answered by the guard, since it comes from an address that is not trusted, posts
  -- with a bad token, or is not logged in where its route asks for that, and then leaves the application
  -- as it was; or it comes
  -- from a trusted address, with the session's token if it posts and with a session that is logged in
  -- if its route asks for that, and then it does to the manager exactly what its route stands for: the
  -- one request of the abstract service, with the form's fields, if the form has the route's
  -- confirmation and nothing otherwise; the downloads up to the first that is refused; or the change of
  -- the settings. The routes are those that are modelled, which leaves out the capture of a profile.
  pub serve_visit-Does :
      (v : Visit) (app : App W)
      → (IsStopped config app.session v
          × ((response : Response) × (serve_visit host config v app ≡ (response, app))))
        ⊎ (Admitted config app.session v
            × ((serve_visit host config v app).1.manager ≡ asked host config v v.route app.manager))
  unfolding serve_visit
  serve_visit-Does v app = served (protect_request config app.session v) refl
    where
      posted :
          (b : Bool)
          → is_post v.route ≡ b
          → (is_post v.route ≡ true → has_token app.session v ≡ true)
          → (is_post v.route ≡ false) ⊎ (has_token app.session v ≡ true)
      posted true e k = inr (k e)
      posted false e k = inl e

      opened :
          (b : Bool)
          → app.session.authenticated ≡ b
          → (app.session.authenticated ≡ false → is_open v.route ≡ true)
          → (is_open v.route ≡ true) ⊎ (app.session.authenticated ≡ true)
      opened true e k = inr e
      opened false e k = inl (k e)

      admitted : protect_request config app.session v ≡ none → Admitted config app.session v
      admitted passed =
          let (trusted, token, open_or_in) = guard_passed config app.session v passed in
          record {
            trusted = trusted;
            token = posted (is_post v.route) refl token;
            authenticated = opened app.session.authenticated refl open_or_in;
          }

      answer : Option Response → Response × App W
      answer o = elim o [
        | some response ↦ (response, app)
        | none ↦ handle_route host config v.route v app
      ]

      served :
          (o : Option Response)
          → protect_request config app.session v ≡ o
          → (IsStopped config app.session v
              × ((response : Response) × (answer o ≡ (response, app))))
            ⊎ (Admitted config app.session v
                × ((answer o).1.manager ≡ asked host config v v.route app.manager))
      served (some response) e = inl (guard-IsStopped config app.session v e, (response, refl))
      served none e = inr (admitted e, handle_route-Does host config v app v.route)
