-- ===== src/Controller/Web/Effects.antt =====
-- What a request may do to the manager, told from the request alone: the requests of the abstract
-- service that each route stands for, and the confirmations that they need.
use tv_safety_cleaner.Prelude.{
  is_empty, all, ltb, codes, ℕ, suc, ◌<>◌, String, true, false, none, some, List, [], ◌∷◌, ◌≡◌, ◌⊎◌,
  ◌==◌, string_eq, if◌then◌else◌, strip,
}
use tv_safety_cleaner.Prelude.Integers.{ℤ, pos, negsuc, int_of, show_int}
use tv_safety_cleaner.Prelude.Dict.{get_or}
use tv_safety_cleaner.Exec.{ok, err}
use tv_safety_cleaner.Controller.Jobs.{Manager, Host, StateProfile}
use tv_safety_cleaner.Controller.Jobs.Start.{start_download}
use tv_safety_cleaner.Controller.Jobs.Profiles.{get_profile}
use tv_safety_cleaner.Controller.Service.{Request, serve}
use tv_safety_cleaner.Controller.Web.{
  Route, Visit, Session, Config, field, is_post, is_open, is_trusted, page, preflight,
  clear_finished, download, delete, install, uninstall, check_update, update, package_state,
  rollback, profile_apply, save_settings,
}
use tv_safety_cleaner.Controller.Web.Guards.{has_token}
use tv_safety_cleaner.Controller.Web.Handlers.{parse_package_inputs, save}

module _ {W : Type 0} (host : Host W) where
  -- One download for each package, up to the first that is refused.
  abbrev pub downloads : (ℕ → String) → ℕ → List String → Manager W → Manager W
  downloads task n [] s = s
  downloads task n (p ∷ packages) s =
      let t = serve host (Request.download (task n) p) s in
      let rest = downloads task (suc n) packages t in
      elim (start_download host (task n) p s).0 [ ok _ ↦ rest | err _ ↦ t ]

  -- The request, if the form confirms it with this text.
  abbrev pub if_confirmed : Visit → String → Request → Manager W → Manager W
  if_confirmed v text r s = if field "confirmation" v == text then serve host r s else s

  -- A rollback of a number that no row has asks the television whether it is there, if sideloading is on.
  abbrev pub roll_back : Visit → ℤ → Manager W → Manager W
  roll_back v (pos i) s =
      if_confirmed v ("rollback-" <> show_int (pos i)) (Request.rollback (v.task 0) i) s
  roll_back v (negsuc n) s =
      if s.settings.sideload_enabled
      then if_confirmed v ("rollback-" <> show_int (negsuc n)) Request.preflight s
      else s

  abbrev pub asked_rollback : Visit → Manager W → Manager W
  asked_rollback v s = elim (int_of (get_or "0" "operation_id" v.form)) [
    | none ↦ s
    | some i ↦ roll_back v i s
  ]

  -- A profile is applied if its own name is typed in.
  abbrev pub applied_profile : Visit → StateProfile → Manager W → Manager W
  applied_profile v profile s =
      if strip (field "confirmation" v) == profile.name
      then serve host (Request.profile_apply (v.task 0) (field "profile_id" v)) s
      else s

  abbrev pub asked_profile : Visit → Manager W → Manager W
  asked_profile v s = elim (get_profile host (field "profile_id" v) s).0 [
    | err _ ↦ s
    | ok profile ↦ applied_profile v profile s
  ]

  abbrev pub asked_downloads : Visit → Manager W → Manager W
  asked_downloads v s = elim (parse_package_inputs host.lib (field "packages" v)) [
    | err _ ↦ s
    | ok packages ↦ downloads v.task 0 packages s
  ]

  -- What a request of this route does to the manager.
  abbrev pub asked : Config → Visit → Route → Manager W → Manager W
  asked config v install s =
      if_confirmed v "install-apk" (Request.install (v.task 0) (field "file" v)) s
  asked config v uninstall s =
      if_confirmed v "uninstall-user-app" (Request.uninstall (v.task 0) (field "package" v)) s
  asked config v update s =
      if_confirmed v "update-apk" (Request.update (v.task 0) (field "package" v)) s
  asked config v delete s =
      if_confirmed v "delete-local-apk" (Request.delete_apk (field "file" v)) s
  asked config v check_update s = serve host (Request.check_update (v.task 0) (field "package" v)) s
  asked config v package_state s =
      if field "action" v == "enable"
      then if_confirmed v "change-user-package-state"
          (Request.set_enabled (v.task 0) (strip (field "package" v)) true) s
      else if field "action" v == "disable"
      then if_confirmed v "change-user-package-state"
          (Request.set_enabled (v.task 0) (strip (field "package" v)) false) s
      else s
  asked config v rollback s = asked_rollback v s
  asked config v profile_apply s = asked_profile v s
  asked config v download s = asked_downloads v s
  asked config v preflight s = serve host Request.preflight s
  asked config v clear_finished s = serve host Request.clear_finished s
  asked config v (page (some profile)) s = serve host (Request.preview profile) s
  asked config v save_settings s = record s { settings = (save config.net v s).settings }
  asked config v _ s = s

-- A request comes from a trusted address, carries the session's token if it posts, and is logged in
-- unless its route is open.
pub record Admitted (config : Config) (session : Session) (v : Visit) : Type 0 where
  pub trusted : is_trusted config v ≡ true
  pub token : (is_post v.route ≡ false) ⊎ (has_token session v ≡ true)
  pub authenticated : (is_open v.route ≡ true) ⊎ (session.authenticated ≡ true)

-- The form's token is not the session's, is empty, or has a character that is not ASCII.
abbrev pub HasBadToken : Session → Visit → Type 0
HasBadToken session v =
    (has_token session v ≡ false)
    ⊎ (is_empty (field "csrf_token" v) ≡ true)
    ⊎ (all (λ c. ltb c 128) (codes (field "csrf_token" v)) ≡ false)

-- A request comes from elsewhere, posts with a bad token, or is not logged in where its route asks for
-- that.
abbrev pub IsStopped : Config → Session → Visit → Type 0
IsStopped config session v =
    (is_trusted config v ≡ false)
    ⊎ ((is_post v.route ≡ true) × HasBadToken session v)
    ⊎ ((is_open v.route ≡ false) × (session.authenticated ≡ false))
