-- ===== src/Controller/AdbClient/Commands.antt =====
-- Every command that the client sends is justified by what the television answered before.
use tv_safety_cleaner.Prelude.{
  ℕ, String, ◌≡◌, refl, sym, ◌∙◌, Bool, true, false, Option, none, some, List, [], ◌∷◌, not, ◌||◌,
  if◌then◌else◌, arith,
}
use tv_safety_cleaner.Exec.{Result, ok, err, refusal, pure, lift, raise_if, ◌>>=◌, bind-eq-ok}
use tv_safety_cleaner.Exec.Keeps.{
  Keeps, Keeps-bind, Keeps-lift_bind, Keeps-check, Yields, Yields-bind,
}
use tv_safety_cleaner.Controller.Names.{
  is_package_id, UrlLib, LeavesNames, parse_package_input, parse_package_input_name,
  parse_package_input-IsPackageId,
}
use tv_safety_cleaner.Controller.Device.{PackageState}
use mathlib.Core.Path.{subst}
use tv_safety_cleaner.Controller.Planner.{is_never_touch}
use tv_safety_cleaner.Controller.AdbClient.{
  Shell, Completed, run, listed, package_state, set_enabled, install, uninstall, state_in,
  version_code_in, output_of,
}
use tv_safety_cleaner.Controller.AdbClient.Wire.{
  Sent, Purpose, removing, installing, controlling, Wire, wired, list_argv, IsFlag, system, Listing,
  Names, Justified, removes, installs, controls, SafeFor,
}
use tv_safety_cleaner.Controller.AdbClient.Reading.{
  connect-Keeps, listed-Keeps, package_state-Keeps,
}

module _ {W : Type 0} (shell : Shell W) (lib : UrlLib) (host : String) where
  -- A call that returned was answered, with success, and its output is what is returned.
  run_lem :
      (args : List String) (s : Wire W) {output : String} {t : Wire W}
      → run (wired shell) lib host args s ≡ (ok output, t)
      → (r : Completed) × (r.succeeded ≡ true)
        × (output ≡ output_of r)
        × (t.sent
            ≡ record { purpose = s.purpose; argv = "-s" ∷ host ∷ args; answer = ok (some r) }
              ∷ s.sent)
  unfolding run wired ◌>>=◌
  run_lem args s {output} {t} h = answered (shell.call ("-s" ∷ host ∷ args) s.outside).0 refl
    where
      answered :
          (answer : Result (Option Completed))
          → (shell.call ("-s" ∷ host ∷ args) s.outside).0 ≡ answer
          → (r : Completed) × (r.succeeded ≡ true)
            × (output ≡ output_of r)
            × (t.sent
                ≡ record { purpose = s.purpose; argv = "-s" ∷ host ∷ args; answer = ok (some r) }
                  ∷ s.sent)
      answered (ok (some r)) same = (r, ground arith, ground arith, ground arith)
      answered (ok none) same = ground arith
      answered (err e) same = ground arith

  -- The listing that `listed` has just made, as the newest call.
  listed_lem :
      (p flag : String) (s : Wire W) {seen : Bool} {t : Wire W}
      → listed (wired shell) lib host p flag s ≡ (ok seen, t)
      → (e : Sent) × (t.sent ≡ e ∷ s.sent) × Listing host flag p seen e
  unfolding listed pure
  listed_lem p flag s {seen} {t} h =
      let (output, u, ran, same) = bind-eq-ok _ _ s h in
      let (r, done, printed, sent) = run_lem _ s ran in
      (
        record { purpose = s.purpose; argv = list_argv host flag p; answer = ok (some r) },
        ground (arith, sent, same),
        record {
          completed = r;
          asked = refl;
          answered = refl;
          succeeded = done;
          shown = ground arith;
        },
      )

  sent-run :
      (args : List String) (s : Wire W)
      → (run (wired shell) lib host args s).1.sent
        ≡ record {
          purpose = s.purpose;
          argv = "-s" ∷ host ∷ args;
          answer = (shell.call ("-s" ∷ host ∷ args) s.outside).0;
        }
          ∷ s.sent
  unfolding run wired ◌>>=◌
  sent-run args s = ground arith

  purpose-run :
      (args : List String) (s : Wire W) → (run (wired shell) lib host args s).1.purpose ≡ s.purpose
  unfolding run wired ◌>>=◌
  purpose-run args s = ground arith

  -- A command that is justified after the calls so far keeps the history safe.
  run-Justified :
      (o : Purpose) (args : List String) (s : Wire W)
      → Justified lib host o ("-s" ∷ host ∷ args) s.sent
      → SafeFor lib o s
      → SafeFor lib o (run (wired shell) lib host args s).1
  run-Justified o args s j h = record {
    safe = rw (sent-run args s) (
      (
        host,
        subst (λ purpose. Justified lib host purpose ("-s" ∷ host ∷ args) s.sent) (sym h.purpose) j,
      ),
      h.safe,
    );
    purpose = purpose-run args s ∙ h.purpose;
  }

  -- The newest call is a listing by `flag`, with this answer about `p`.
  abbrev Listed : String → String → Bool → Wire W → Type 0
  Listed flag p seen s =
      (e : Sent) × (before : List Sent) × (s.sent ≡ e ∷ before) × Listing host flag p seen e

  listed-Yields :
      (o : Purpose) (p flag : String)
      → IsFlag flag
      → is_package_id p ≡ true
      → Yields (SafeFor {W = W} lib o) (Listed flag p) (listed (wired shell) lib host p flag)
  listed-Yields o p flag known form = record {
    keeps = listed-Keeps shell lib host o p flag known form;
    yields = λ s seen t same.
        let (e, sent, shown) = listed_lem p flag s same in (e, s.sent, sent, shown);
  }

  names :
      (text p : String)
      → parse_package_input lib text ≡ ok p
      → is_never_touch p ≡ false
      → Names lib text p
  names text p parsed allowed = record {
    parsed = parsed;
    form = parse_package_input-IsPackageId lib text p parsed;
    touchable = allowed;
  }

  removal_rest :
      (text p reason : String) (seen : Bool) (s : Wire W)
      → Names lib text p
      → Listed "-3" p seen s
      → SafeFor lib (removing text) s
      → SafeFor lib
          (removing text)
          ((raise_if (not seen) (refusal reason) >>= λ _.
              run (wired shell) lib host ("uninstall" ∷ p ∷ []))
            s).1
  unfolding ◌>>=◌
  removal_rest text p reason false s allowed known h = h
  removal_rest text p reason true s allowed (e, before, same, shown) h =
      run-Justified (removing text) _ s (rw same (removes allowed shown)) h

  pub uninstall-Keeps :
      (text : String)
      → Keeps (SafeFor {W = W} lib (removing text)) (uninstall (wired shell) lib host text)
  unfolding uninstall
  uninstall-Keeps text = Keeps-lift_bind _ _ λ p parsed. Keeps-check _ _ _ λ allowed.
      Keeps-bind _ _ (connect-Keeps shell lib host (removing text)) λ _.
        let named = names text p parsed allowed in
        Yields-bind _ _ (listed-Yields (removing text) p "-3" IsFlag.third_party named.form)
          λ seen s known h. removal_rest text p _ seen s named known h

  installation_rest :
      (text p apk reason : String) (seen : Bool) (s : Wire W)
      → Names lib text p
      → Listed "-s" p seen s
      → SafeFor lib (installing apk text) s
      → SafeFor lib
          (installing apk text)
          ((raise_if seen (refusal reason) >>= λ _.
              run (wired shell) lib host ("install" ∷ "-r" ∷ apk ∷ []))
            s).1
  unfolding ◌>>=◌
  installation_rest text p apk reason true s allowed known h = h
  installation_rest text p apk reason false s allowed (e, before, same, shown) h =
      run-Justified (installing apk text) _ s (rw same (installs allowed shown)) h

  pub install-Keeps :
      (apk text : String)
      → Keeps (SafeFor {W = W} lib (installing apk text)) (install (wired shell) lib host apk text)
  unfolding install
  install-Keeps apk text = Keeps-lift_bind _ _ λ p parsed. Keeps-check _ _ _ λ allowed.
      Keeps-bind _ _ (connect-Keeps shell lib host (installing apk text)) λ _.
        let named = names text p parsed allowed in
        Yields-bind _ _ (listed-Yields (installing apk text) p "-s" system named.form)
          λ seen s known h. installation_rest text p apk _ seen s named known h

  -- The newest call but one is a listing that shows `p` as third-party.
  abbrev Controlled : String → Wire W → Type 0
  Controlled p s =
      (d : Sent) × (e : Sent) × (before : List Sent) × (s.sent ≡ d ∷ e ∷ before)
      × Listing host "-3" p true e

  state_in_lem :
      (p output : String) (version : Option ℕ) (s : Wire W) {st : PackageState} {t : Wire W}
      → state_in (wired shell) lib host p output version s ≡ (ok st, t)
      → (not st.installed || not st.third_party) ≡ false
      → Controlled p t
  unfolding pure
  state_in_lem p output none s {st} {t} h known = ground arith
  state_in_lem p output (some version) s {st} {t} h known =
      let (third_party, u, listed_3, h1) = bind-eq-ok _ _ s h in
      let (disabled, v, listed_d, h2) = bind-eq-ok _ _ u h1 in
      let (e, before, shown) = listed_lem p "-3" s listed_3 in
      let (d, after_d, _) = listed_lem p "-d" u listed_d in
      let seen : third_party ≡ true = ground arith in
      (
        d,
        e,
        s.sent,
        ground (arith, after_d, before),
        subst (λ b. Listing host "-3" p b e) seen shown,
      )

  package_state-Yields :
      (o : Purpose) (p : String)
      → parse_package_input lib p ≡ ok p
      → Yields
          (SafeFor {W = W} lib o)
          (λ st t. (not st.installed || not st.third_party) ≡ false → Controlled p t)
          (package_state (wired shell) lib host p)
  unfolding package_state lift
  package_state-Yields o p known = record {
    keeps = package_state-Keeps shell lib host o p;
    yields = λ s st t same checked.
        let (q, u, parsed, h1) = bind-eq-ok _ _ s same in
        let (output, v, ran, h2) = bind-eq-ok _ _ u h1 in
        let same_name : q ≡ p = ground (arith, known) in
        subst (λ n. Controlled n t) same_name
          (state_in_lem q output (version_code_in output) v h2 checked);
  }

  control_rest :
      (text p reason : String) (enabled : Bool) (st : PackageState) (s : Wire W)
      → Names lib text p
      → ((not st.installed || not st.third_party) ≡ false → Controlled p s)
      → SafeFor lib (controlling text enabled) s
      → SafeFor lib
          (controlling text enabled)
          ((raise_if (not st.installed || not st.third_party) (refusal reason) >>= λ _.
              run (wired shell) lib host (
                "shell"
                ∷ "pm"
                ∷ (if enabled then "enable" else "disable-user")
                ∷ "--user"
                ∷ "0"
                ∷ p
                ∷ []))
            s).1
  control_rest text p reason enabled st s allowed known h =
      checked (not st.installed || not st.third_party) known
    where
      checked :
          (b : Bool)
          → (b ≡ false → Controlled p s)
          → SafeFor lib
              (controlling text enabled)
              ((raise_if b (refusal reason) >>= λ _. run (wired shell) lib host (
                  "shell"
                  ∷ "pm"
                  ∷ (if enabled then "enable" else "disable-user")
                  ∷ "--user"
                  ∷ "0"
                  ∷ p
                  ∷ []))
                s).1
      checked true k = unfold ◌>>=◌ in h
      checked false k =
          let (d, e, before, same, shown) = k refl in
          unfold ◌>>=◌ in
          run-Justified (controlling text enabled) _ s (rw same (controls enabled allowed shown)) h

  pub set_enabled-Keeps :
      LeavesNames lib
      → (text : String) (enabled : Bool)
      → Keeps
          (SafeFor {W = W} lib (controlling text enabled))
          (set_enabled (wired shell) lib host text enabled)
  unfolding set_enabled
  set_enabled-Keeps leaves text enabled = Keeps-lift_bind _ _ λ p parsed.
      Keeps-check _ _ _ λ allowed.
        let named = names text p parsed allowed in
        Yields-bind _ _
          (package_state-Yields (controlling text enabled) p
            (parse_package_input_name lib p leaves named.form))
          λ st s known h. control_rest text p _ enabled st s named known h
