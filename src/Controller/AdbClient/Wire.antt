-- ===== src/Controller/AdbClient/Wire.antt =====
-- A television that remembers every call of the adb program, newest first, with what it answered, and
-- when such a history is safe.
use tv_safety_cleaner.Prelude.{
  String, ◌≡◌, Bool, true, false, Option, some, List, [], ◌∷◌, string_eq, if◌then◌else◌,
}
use tv_safety_cleaner.Exec.{Exec, Result, ok}
use tv_safety_cleaner.Controller.Names.{UrlLib, parse_package_input, is_package_id}
use tv_safety_cleaner.Controller.Planner.{is_never_touch}
use tv_safety_cleaner.Controller.AdbClient.{Shell, Completed, output_of, shows}

-- What a method of the client was called for, with its arguments.
pub data Purpose : Type 0 where
  reading : Purpose
  installing : (apk text : String) → Purpose
  removing : (text : String) → Purpose
  controlling : (text : String) (enabled : Bool) → Purpose

pub record Sent : Type 0 where
  pub purpose : Purpose
  pub argv : List String
  pub answer : Result (Option Completed)

pub record Wire (W : Type 0) : Type 0 where
  pub outside : W
  pub purpose : Purpose
  pub sent : List Sent

-- A method, from where it is called: its calls of adb are written down with its purpose.
unfoldable pub called_for : {W A : Type 0} → Purpose → Exec (Wire W) A → Exec (Wire W) A
called_for purpose m s = m (record s { purpose = purpose })

-- The same shell, with its calls written down.
unfoldable pub wired : {W : Type 0} → Shell W → Shell (Wire W)
wired shell = record {
  call = λ argv s.
      let (answer, outside) = shell.call argv s.outside in
      (
        answer,
        record s {
          outside = outside;
          sent = record { purpose = s.purpose; argv = argv; answer = answer } ∷ s.sent;
        },
      );
  reach = λ host s.
      ((shell.reach host s.outside).0, record s { outside = (shell.reach host s.outside).1 });
}

-- `adb -s host shell pm list packages flag p`
abbrev pub list_argv : String → String → String → List String
list_argv host flag p = "-s" ∷ host ∷ "shell" ∷ "pm" ∷ "list" ∷ "packages" ∷ flag ∷ p ∷ []

abbrev pub uninstall_argv : String → String → List String
uninstall_argv host p = "-s" ∷ host ∷ "uninstall" ∷ p ∷ []

abbrev pub install_argv : String → String → List String
install_argv host apk = "-s" ∷ host ∷ "install" ∷ "-r" ∷ apk ∷ []

abbrev pub enable_argv : String → Bool → String → List String
enable_argv host enabled p =
    "-s"
    ∷ host
    ∷ "shell"
    ∷ "pm"
    ∷ (if enabled then "enable" else "disable-user")
    ∷ "--user"
    ∷ "0"
    ∷ p
    ∷ []

-- The properties that the client reads.
pub data IsKey : String → Type 0 where
  model : IsKey "ro.product.model"
  characteristics : IsKey "ro.build.characteristics"
  firmware : IsKey "ro.build.version.incremental"
  fingerprint : IsKey "ro.build.fingerprint"

-- The listings that it asks for: third-party, disabled or system packages.
pub data IsFlag : String → Type 0 where
  third_party : IsFlag "-3"
  disabled : IsFlag "-d"
  system : IsFlag "-s"

-- The calls that only read, or connect. What stands in them for a package has the form of a dotted name.
pub data IsRead (host : String) : List String → Type 0 where
  connects : IsRead host ("connect" ∷ host ∷ [])
  gets_state : IsRead host ("-s" ∷ host ∷ "get-state" ∷ [])
  reads_property :
      {key : String} → IsKey key → IsRead host ("-s" ∷ host ∷ "shell" ∷ "getprop" ∷ key ∷ [])
  dumps :
      {p : String}
      → is_package_id p ≡ true
      → IsRead host ("-s" ∷ host ∷ "shell" ∷ "dumpsys" ∷ "package" ∷ p ∷ [])
  lists :
      {flag p : String} → IsFlag flag → is_package_id p ≡ true → IsRead host (list_argv host flag p)
  lists_all : IsRead host ("-s" ∷ host ∷ "shell" ∷ "pm" ∷ "list" ∷ "packages" ∷ "-3" ∷ [])

-- The call listed packages by `flag`, and whether `p` was among them is `seen`.
pub record Listing (host flag p : String) (seen : Bool) (e : Sent) : Type 0 where
  pub completed : Completed
  pub asked : e.argv ≡ list_argv host flag p
  pub answered : e.answer ≡ ok (some completed)
  pub succeeded : completed.succeeded ≡ true
  pub shown : shows p (output_of completed) ≡ seen

-- `p` is the package that the text of a call of the client names, a dotted name that is not never-touch.
pub record Names (lib : UrlLib) (text p : String) : Type 0 where
  pub parsed : parse_package_input lib text ≡ ok p
  pub form : is_package_id p ≡ true
  pub touchable : is_never_touch p ≡ false

-- Why a call may be made, for this purpose and after the calls `before`. One that changes the television
-- is for the package that the client was called with, right after the television itself listed it as
-- third-party, or, for the installation of the archive that the client was called with, did not list it
-- as a system package.
pub data Justified (lib : UrlLib) (host : String) : Purpose → List String → List Sent → Type 0 where
  reads :
      {purpose : Purpose} {argv : List String} {before : List Sent}
      → IsRead host argv
      → Justified lib host purpose argv before
  removes :
      {text p : String} {e : Sent} {before : List Sent}
      → Names lib text p
      → Listing host "-3" p true e
      → Justified lib host (removing text) (uninstall_argv host p) (e ∷ before)
  installs :
      {apk text p : String} {e : Sent} {before : List Sent}
      → Names lib text p
      → Listing host "-s" p false e
      → Justified lib host (installing apk text) (install_argv host apk) (e ∷ before)
  controls :
      (enabled : Bool) {text p : String} {d e : Sent} {before : List Sent}
      → Names lib text p
      → Listing host "-3" p true e
      → Justified lib host (controlling text enabled) (enable_argv host enabled p) (d ∷ e ∷ before)

-- Every call was justified when it was made, on whichever television.
abbrev pub IsSafe : UrlLib → List Sent → Type 0
IsSafe lib [] = Unit
IsSafe lib (e ∷ before) =
    ((host : String) × Justified lib host e.purpose e.argv before) × IsSafe lib before

abbrev pub SafeWire : {W : Type 0} → UrlLib → Wire W → Type 0
SafeWire lib s = IsSafe lib s.sent

-- The same, within a method that was called for this purpose.
pub record SafeFor {W : Type 0} (lib : UrlLib) (o : Purpose) (s : Wire W) : Type 0 where
  pub safe : IsSafe lib s.sent
  pub purpose : s.purpose ≡ o
