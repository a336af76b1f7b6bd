-- ===== src/Controller/AdbClient/Reading.antt =====
-- The calls of the client that only read the television, or connect to it.
use tv_safety_cleaner.Prelude.{ℕ, String, ◌≡◌, true, Option, none, some, List, [], ◌∷◌}
use tv_safety_cleaner.Exec.Keeps.{Keeps, keeps_rules, Keeps-bind, Keeps-lift_bind, Keeps-raise_if}
use tv_safety_cleaner.Controller.Names.{is_package_id, UrlLib, parse_package_input-IsPackageId}
use tv_safety_cleaner.Controller.AdbClient.{
  Shell, Completed, run, connect, preflight, listed, property, device_identity, package_state,
  installed_version, third_party_packages, conclude_run, conclude_connect, state_in,
}
use tv_safety_cleaner.Controller.AdbClient.Wire.{
  Purpose, wired, IsKey, model, characteristics, firmware, fingerprint, IsFlag, third_party,
  disabled, IsRead, connects, gets_state, reads_property, dumps, lists, lists_all, reads, SafeFor,
}

module _ {W : Type 0} (shell : Shell W) (lib : UrlLib) (host : String) (purpose : Purpose) where
  call-Keeps :
      (argv : List String)
      → IsRead host argv
      → Keeps (SafeFor {W = W} lib purpose) ((wired shell).call argv)
  unfolding wired
  call-Keeps argv r = record {
    at = λ s h. record { safe = ((host, reads r), h.safe); purpose = h.purpose };
  }

  reach-Keeps : Keeps (SafeFor {W = W} lib purpose) ((wired shell).reach host)
  unfolding wired
  reach-Keeps = record { at = λ s h. record { safe = h.safe; purpose = h.purpose } }

  conclude_run-Keeps :
      (o : Option Completed)
      → Keeps (SafeFor {W = W} lib purpose) (conclude_run (wired shell) lib host o)
  conclude_run-Keeps none = search keeps_rules
  conclude_run-Keeps (some r) = search keeps_rules

  run-Keeps :
      (args : List String)
      → IsRead host ("-s" ∷ host ∷ args)
      → Keeps (SafeFor {W = W} lib purpose) (run (wired shell) lib host args)
  unfolding run
  run-Keeps args r = Keeps-bind _ _ (call-Keeps _ r) conclude_run-Keeps

  pub connect-Keeps : Keeps (SafeFor {W = W} lib purpose) (connect (wired shell) lib host)
  unfolding connect
  connect-Keeps = Keeps-bind _ _ (call-Keeps _ connects) concluded
    where
      concluded :
          (o : Option Completed)
          → Keeps (SafeFor {W = W} lib purpose) (conclude_connect (wired shell) lib host o)
      concluded none = search keeps_rules
      concluded (some r) = search keeps_rules

  pub preflight-Keeps : Keeps (SafeFor {W = W} lib purpose) (preflight (wired shell) lib host)
  unfolding preflight
  preflight-Keeps = Keeps-bind _ _ reach-Keeps λ reached. Keeps-bind _ _ (Keeps-raise_if _ _) λ _.
      Keeps-bind _ _ connect-Keeps
        λ _. Keeps-bind _ _ (run-Keeps ("get-state" ∷ []) gets_state) λ state. Keeps-raise_if _ _

  property-Keeps :
      (key : String)
      → IsKey key
      → Keeps (SafeFor {W = W} lib purpose) (property (wired shell) lib host key)
  unfolding property
  property-Keeps key known =
      Keeps-bind _ _ (run-Keeps ("shell" ∷ "getprop" ∷ key ∷ []) (reads_property known))
        (λ output. search keeps_rules)

  pub device_identity-Keeps :
      Keeps (SafeFor {W = W} lib purpose) (device_identity (wired shell) lib host)
  unfolding device_identity
  device_identity-Keeps =
      search (keeps_rules, property-Keeps, model, characteristics, firmware, fingerprint) depth 12

  pub listed-Keeps :
      (p flag : String)
      → IsFlag flag
      → is_package_id p ≡ true
      → Keeps (SafeFor {W = W} lib purpose) (listed (wired shell) lib host p flag)
  unfolding listed
  listed-Keeps p flag known form =
      Keeps-bind _ _ (run-Keeps _ (lists known form)) (λ output. search keeps_rules)

  present_state-Keeps :
      (p output : String) (version : Option ℕ)
      → is_package_id p ≡ true
      → Keeps (SafeFor {W = W} lib purpose) (state_in (wired shell) lib host p output version)
  present_state-Keeps p output none form = search keeps_rules
  present_state-Keeps p output (some version) form =
      search (keeps_rules, listed-Keeps, third_party, disabled) depth 12

  pub package_state-Keeps :
      (text : String)
      → Keeps (SafeFor {W = W} lib purpose) (package_state (wired shell) lib host text)
  unfolding package_state
  package_state-Keeps text = Keeps-lift_bind _ _ λ p parsed.
      let form = parse_package_input-IsPackageId lib text p parsed in
      Keeps-bind _ _ (run-Keeps _ (dumps form)) λ output. present_state-Keeps p output _ form

  pub installed_version-Keeps :
      (p : String)
      → Keeps (SafeFor {W = W} lib purpose) (installed_version (wired shell) lib host p)
  unfolding installed_version
  installed_version-Keeps p = search (keeps_rules, package_state-Keeps) depth 12

  pub third_party_packages-Keeps :
      Keeps (SafeFor {W = W} lib purpose) (third_party_packages (wired shell) lib host)
  unfolding third_party_packages
  third_party_packages-Keeps = Keeps-bind _ _ (run-Keeps _ lists_all) (λ output. search keeps_rules)
