-- ===== src/Tests/Removal.antt =====
-- A removal that is started on a television with one archived package.
use tv_safety_cleaner.Prelude.{true}
use tv_safety_cleaner.Controller.Device.{PackageState}
use tv_safety_cleaner.Controller.Tasks
use tv_safety_cleaner.Controller.Jobs.{Manager}
use tv_safety_cleaner.Controller.Jobs.Start.{start_uninstall}
use tv_safety_cleaner.Tests.Data.{tv_host, manager_with, one_applied, a_task, a_package}

abbrev ready : Manager PackageState
ready = manager_with true one_applied

abbrev removing : Manager PackageState
removing = (start_uninstall tv_host a_task a_package ready).1
