-- ===== src/Controller/Service/Commands.antt =====
-- The service with the client of `AdbClient`, on televisions that write down every call of adb.
use tv_safety_cleaner.Prelude.{ℕ, String, refl}
use tv_safety_cleaner.Exec.{Exec}
use tv_safety_cleaner.Exec.Keeps.{Keeps}
use tv_safety_cleaner.Controller.Names.{UrlLib, LeavesNames}
use tv_safety_cleaner.Controller.Jobs.{Adb, Manager, Disk, Host, Available}
use tv_safety_cleaner.Controller.AdbClient.{Shell, adb_client}
use tv_safety_cleaner.Controller.AdbClient.Wire.{
  Purpose, reading, installing, removing, controlling, Wire, wired, called_for, SafeFor, SafeWire,
}
use tv_safety_cleaner.Controller.AdbClient.Reading.{
  preflight-Keeps, device_identity-Keeps, package_state-Keeps, installed_version-Keeps,
  third_party_packages-Keeps,
}
use tv_safety_cleaner.Controller.AdbClient.Commands.{
  set_enabled-Keeps, install-Keeps, uninstall-Keeps,
}
use tv_safety_cleaner.Controller.Service.{Steps}
use tv_safety_cleaner.Controller.Service.Outside.{ClientKeeps, HostKeeps}
use tv_safety_cleaner.Controller.Service.Threads.{steps-holds}

-- A download uses the network, not adb.
unfoldable pub off_wire : {W A : Type 0} → Exec (Disk W) A → Exec (Disk (Wire W)) A
off_wire m d =
    let (r, e) = m (record { outside = d.outside.outside; tasks = d.tasks; apks = d.apks }) in
    (
      r,
      record d {
        outside = record d.outside { outside = e.outside };
        tasks = e.tasks;
        apks = e.apks;
      },
    )

module _ {W : Type 0} (shell : Shell W) (lib : UrlLib)
    (download : String → String → String → Exec (Disk W) String)
    (available : String → String → String → Exec (Disk W) Available) (iso : ℕ → String) where
  -- The client, whose calls are written down with the method, and its arguments, that they are made for.
  abbrev pub logged_client : Adb (Wire W) → Adb (Wire W)
  logged_client c = record {
    preflight = called_for reading c.preflight;
    device_identity = called_for reading c.device_identity;
    package_state = λ text. called_for reading (c.package_state text);
    third_party_packages = called_for reading c.third_party_packages;
    set_enabled =
        λ text enabled. called_for (controlling text enabled) (c.set_enabled text enabled);
    install = λ apk text. called_for (installing apk text) (c.install apk text);
    uninstall = λ text. called_for (removing text) (c.uninstall text);
    installed_version = λ text. called_for reading (c.installed_version text);
  }

  -- What `ApkJobManager` is given: its `AdbClient`, for whichever host is configured, and its downloader.
  abbrev pub service : Host (Wire W)
  service = record {
    lib = lib;
    client = λ address. logged_client (adb_client (wired shell) lib address);
    download = λ endpoint p task. off_wire (download endpoint p task);
    available_version = λ endpoint p task. off_wire (available endpoint p task);
    iso = iso;
  }

  called_for-Keeps :
      {A : Type 0} (purpose : Purpose) (m : Exec (Wire W) A)
      → Keeps (SafeFor lib purpose) m
      → Keeps (SafeWire lib) (called_for purpose m)
  unfolding called_for
  called_for-Keeps purpose m k = record {
    at = λ s h. (k.at (record s { purpose = purpose }) (record { safe = h; purpose = refl })).safe;
  }

  client-Keeps :
      LeavesNames lib
      → (address : String)
      → ClientKeeps (SafeWire {W = W} lib) (logged_client (adb_client (wired shell) lib address))
  unfolding adb_client
  client-Keeps leaves address = record {
    preflight = called_for-Keeps _ _ (preflight-Keeps shell lib address reading);
    device_identity = called_for-Keeps _ _ (device_identity-Keeps shell lib address reading);
    package_state = λ p. called_for-Keeps _ _ (package_state-Keeps shell lib address reading p);
    third_party_packages =
        called_for-Keeps _ _ (third_party_packages-Keeps shell lib address reading);
    set_enabled =
        λ p enabled. called_for-Keeps _ _ (set_enabled-Keeps shell lib address leaves p enabled);
    install = λ apk p. called_for-Keeps _ _ (install-Keeps shell lib address apk p);
    uninstall = λ p. called_for-Keeps _ _ (uninstall-Keeps shell lib address p);
    installed_version =
        λ p. called_for-Keeps _ _ (installed_version-Keeps shell lib address reading p);
  }

  service-Keeps : LeavesNames lib → HostKeeps (SafeWire {W = W} lib) service
  unfolding off_wire
  service-Keeps leaves = record {
    client = client-Keeps leaves;
    download = λ endpoint p task. record { at = λ d h. record { holds = h.holds } };
    available_version = λ endpoint p task. record { at = λ d h. record { holds = h.holds } };
  }

  -- Whatever of the requests are made, whatever threads run, in whatever order and with whatever
  -- settings, and whatever the televisions answer, every command that the service sends only connects,
  -- asks for one of four properties or for one of three listings, or reads a package whose name has the
  -- form of a dotted name; or it is sent by a method of the client, for the package that the text names
  -- with which the method was called, which is a dotted name and not never-touch, and: it uninstalls the
  -- package, which the same television has just listed as third-party; or it enables or disables it, as
  -- asked, with one more listing in between; or it installs the archive with which the method was
  -- called, and that television has just not listed the package as a system package. The calls before
  -- are taken to be so, and urllib to find no scheme and no host in a dotted name. That the archive holds
  -- the package is not checked by the client. The request that captures a profile is left out.
  pub Steps-SafeWire :
      {s t : Manager (Wire W)}
      → LeavesNames lib
      → Steps service s t
      → SafeWire lib s.tv
      → SafeWire lib t.tv
  Steps-SafeWire leaves steps h = steps-holds service (service-Keeps leaves) steps h
