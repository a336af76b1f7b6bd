-- ===== src/Controller/Web/Refines.antt =====
-- The web application refines the abstract service: whatever a request does to the manager is a sequence
-- of the service's steps.
use tv_safety_cleaner.Prelude.{
  ℕ, suc, String, Bool, true, false, none, some, List, [], ◌∷◌, ◌≡◌, refl, inl, inr,
}
use tv_safety_cleaner.Prelude.Integers.{ℤ, pos, negsuc}
use tv_safety_cleaner.Exec.{
  Exec, Result, ok, err, chain, Error, pure, lift, raise_if, continue, ◌>>=◌,
}
use tv_safety_cleaner.Controller.Jobs.{Manager, Host, require_sideload, check_tv, consult}
use tv_safety_cleaner.Controller.Jobs.Start.{
  start_install, start_uninstall, start_update, start_download, start_check_update,
  start_set_enabled, start_rollback,
}
use tv_safety_cleaner.Controller.Jobs.Profiles.{get_profile, profile_preview, start_profile_apply}
use tv_safety_cleaner.Controller.Jobs.Archives.{delete_local_apk}
use tv_safety_cleaner.Controller.Service.{
  Request, serve, clear_tasks, requested, configured, Steps, stays, goes_on,
}
use tv_safety_cleaner.Controller.Settings.{save_settings as save_to, load_settings}
use tv_safety_cleaner.Prelude.Dict.{Dict}
use tv_safety_cleaner.Prelude.Json.{Json}
use tv_safety_cleaner.Controller.Web.Guards.{log_in-Untouched, open-Untouched, serve_visit-cases}
use tv_safety_cleaner.Controller.Web.{
  Route, Visit, App, Config, static, login_form, login, logout, live, page, preflight,
  clear_finished, download, delete, install, uninstall, check_update, update, package_state,
  rollback, profile_apply, save_settings,
}
use tv_safety_cleaner.Controller.Web.Handlers.{
  action, start_downloads, save, settings_of, rollback_by,
}
use tv_safety_cleaner.Controller.Web.Serving.{handle_route, log_in, serve_visit}

module _ {W : Type 0} (host : Host W) where
  Steps-trans : {s t u : Manager W} → Steps host s t → Steps host t u → Steps host s u
  Steps-trans h (stays _) = h
  Steps-trans h (goes_on k step) = goes_on (Steps-trans h k) step

-- What the action does to the manager is a sequence of steps, however it ends.
record Refines {W A : Type 0} (host : Host W) (m : Exec (Manager W) A) : Type 0 where
  at : (s : Manager W) → Steps host s (m s).1

module _ {W A : Type 0} (host : Host W) where
  Refines-pure : (a : A) → Refines host (pure a)
  unfolding pure
  Refines-pure a = record { at = λ s. stays s }

  Refines-lift : (r : Result A) → Refines host (lift r)
  unfolding lift
  Refines-lift r = record { at = λ s. stays s }

  Refines-consult : (f : Manager W → Result A) → Refines host (consult f)
  unfolding consult
  Refines-consult f = record { at = λ s. stays s }

  -- An action that does what a request does.
  Refines-request :
      (r : Request) (m : Exec (Manager W) A)
      → ((s : Manager W) → (m s).1 ≡ serve host r s)
      → Refines host m
  Refines-request r m same = record { at = λ s. rw (same s) (goes_on (stays s) (requested r s)) }

module _ {W : Type 0} (host : Host W) where
  Refines-raise_if : (b : Bool) (e : Error) → Refines host (raise_if b e)
  unfolding raise_if
  Refines-raise_if true e = record { at = λ s. stays s }
  Refines-raise_if false e = record { at = λ s. stays s }

module _ {W A B : Type 0} (host : Host W) where
  Refines-bind :
      (m : Exec (Manager W) A) (f : A → Exec (Manager W) B)
      → Refines host m
      → ((a : A) → Refines host (f a))
      → Refines host (m >>= f)
  unfolding ◌>>=◌
  Refines-bind m f h k = record { at = λ s. Steps-trans host (h.at s) (continued (m s).0 (m s).1) }
    where
      continued : (r : Result A) (t : Manager W) → Steps host t (continue f (r, t)).1
      continued (ok a) t = (k a).at t
      continued (err e) t = stays t

module _ {W : Type 0} (host : Host W) where
  Refines-install : (task name : String) → Refines host (start_install host task name)
  unfolding serve
  Refines-install task name = Refines-request host (Request.install task name) _ λ s. refl

  Refines-uninstall : (task text : String) → Refines host (start_uninstall host task text)
  unfolding serve
  Refines-uninstall task text = Refines-request host (Request.uninstall task text) _ λ s. refl

  Refines-update : (task text : String) → Refines host (start_update host task text)
  unfolding serve
  Refines-update task text = Refines-request host (Request.update task text) _ λ s. refl

  Refines-download : (task text : String) → Refines host (start_download host task text)
  unfolding serve
  Refines-download task text = Refines-request host (Request.download task text) _ λ s. refl

  Refines-check_update : (task text : String) → Refines host (start_check_update host task text)
  unfolding serve
  Refines-check_update task text = Refines-request host (Request.check_update task text) _ λ s. refl

  Refines-set_enabled :
      (task text : String) (enabled : Bool)
      → Refines host (start_set_enabled host task text enabled)
  unfolding serve
  Refines-set_enabled task text enabled =
      Refines-request host (Request.set_enabled task text enabled) _ λ s. refl

  Refines-rollback : (task : String) (i : ℕ) → Refines host (start_rollback host task i)
  unfolding serve
  Refines-rollback task i = Refines-request host (Request.rollback task i) _ λ s. refl

  Refines-profile_apply : (task i : String) → Refines host (start_profile_apply host task i)
  unfolding serve
  Refines-profile_apply task i = Refines-request host (Request.profile_apply task i) _ λ s. refl

  Refines-preview : (i : String) → Refines host (profile_preview host i)
  unfolding serve
  Refines-preview i = Refines-request host (Request.preview i) _ λ s. refl

  Refines-delete : (name : String) → Refines host (delete_local_apk host name)
  unfolding serve
  Refines-delete name = Refines-request host (Request.delete_apk name) _ λ s. refl

  Refines-preflight : Refines host (check_tv host)
  unfolding serve
  Refines-preflight = Refines-request host Request.preflight _ λ s. refl

  Refines-clear : Refines host clear_tasks
  unfolding serve
  Refines-clear = Refines-request host Request.clear_finished _ λ s. refl

ruleset step_rules = (
  Refines-pure, Refines-lift, Refines-consult, Refines-raise_if, Refines-bind, Refines-install,
  Refines-uninstall, Refines-update, Refines-download, Refines-check_update, Refines-set_enabled,
  Refines-rollback, Refines-profile_apply, Refines-preview, Refines-delete, Refines-preflight,
  Refines-clear,
)

module _ {W : Type 0} (host : Host W) where
  Refines-start_downloads :
      (task : ℕ → String) (n : ℕ) (packages : List String)
      → Refines host (start_downloads host task n packages)
  unfolding start_downloads
  Refines-start_downloads task n [] = Refines-pure host []
  Refines-start_downloads task n (p ∷ packages) =
      let others = Refines-start_downloads task (suc n) packages in search step_rules depth 12

  Refines-action : (r : Route) (v : Visit) → Refines host (action host r v)
  unfolding action
  Refines-action download v = search (step_rules, Refines-start_downloads) depth 12
  Refines-action delete v = search step_rules depth 12
  Refines-action install v = search step_rules depth 12
  Refines-action uninstall v = search step_rules depth 12
  Refines-action check_update v = search step_rules depth 12
  Refines-action update v = search step_rules depth 12
  Refines-action package_state v = search step_rules depth 12
  Refines-action rollback v = search (step_rules, by) depth 12
    where
      by : (i : ℤ) → Refines host (rollback_by host (v.task 0) i)
      by (pos i) = search step_rules depth 12
      by (negsuc n) = unfold require_sideload in search step_rules depth 12
  Refines-action profile_apply v = unfold get_profile in search step_rules depth 12
  Refines-action preflight v = search step_rules depth 12
  Refines-action clear_finished v = search step_rules depth 12
  Refines-action (page (some profile)) v = search step_rules depth 12
  Refines-action (page none) v = search step_rules depth 12
  Refines-action static v = search step_rules depth 12
  Refines-action login_form v = search step_rules depth 12
  Refines-action login v = search step_rules depth 12
  Refines-action logout v = search step_rules depth 12
  Refines-action live v = search step_rules depth 12
  Refines-action save_settings v = search step_rules depth 12

module _ {W : Type 0} (host : Host W) (config : Config) (v : Visit) (app : App W) where
  save-Steps : (s : Manager W) → Steps host s (save config.net v s)
  unfolding save
  save-Steps s = written (chain (settings_of config.net v) (save_to config.net))
    where
      written :
          (r : Result (Dict Json))
          → Steps host s (elim r as (λ _. Manager W) [
            | err e ↦ s
            | ok saved ↦ record s { settings = load_settings config.net (some saved) }
          ])
      written (ok saved) = goes_on (stays s) (configured _ s)
      written (err e) = stays s

  log_in-Steps : Steps host app.manager (log_in host config v app).1.manager
  unfolding log_in
  log_in-Steps = rw (log_in-Untouched host config v app) (stays app.manager)

  handle_route-Steps :
      (r : Route) → Steps host app.manager (handle_route host config r v app).1.manager
  unfolding handle_route
  handle_route-Steps static = stays _
  handle_route-Steps login_form =
      rw (open-Untouched host config v app login_form refl) (stays app.manager)
  handle_route-Steps login = log_in-Steps
  handle_route-Steps logout = stays _
  handle_route-Steps live = stays _
  handle_route-Steps save_settings = save-Steps app.manager
  handle_route-Steps (page profile) = (Refines-action host (page profile) v).at app.manager
  handle_route-Steps preflight = (Refines-action host preflight v).at app.manager
  handle_route-Steps clear_finished = (Refines-action host clear_finished v).at app.manager
  handle_route-Steps download = (Refines-action host download v).at app.manager
  handle_route-Steps delete = (Refines-action host delete v).at app.manager
  handle_route-Steps install = (Refines-action host install v).at app.manager
  handle_route-Steps uninstall = (Refines-action host uninstall v).at app.manager
  handle_route-Steps check_update = (Refines-action host check_update v).at app.manager
  handle_route-Steps update = (Refines-action host update v).at app.manager
  handle_route-Steps package_state = (Refines-action host package_state v).at app.manager
  handle_route-Steps rollback = (Refines-action host rollback v).at app.manager
  handle_route-Steps profile_apply = (Refines-action host profile_apply v).at app.manager

module _ {W : Type 0} (host : Host W) (config : Config) where
  -- Whatever a request does to the manager, through every guard, handler and error path, is a sequence of
  -- the abstract service's requests and changes of settings.
  pub serve_visit-Steps :
      (v : Visit) (app : App W) → Steps host app.manager (serve_visit host config v app).1.manager
  serve_visit-Steps v app = elim (serve_visit-cases host config v app) [
    | inl stopped ↦ rw stopped (stays app.manager)
    | inr same ↦ rw same (handle_route-Steps host config v app v.route)
  ]
