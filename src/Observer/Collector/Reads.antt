-- ===== src/Observer/Collector/Reads.antt =====
-- What collecting an inventory does to a television: it reads.
use tv_safety_cleaner.Prelude.{String, Option}
use tv_safety_cleaner.Exec.Keeps.{Keeps, keeps_rules, Keeps-bind, Keeps-lift_bind, Keeps-lift}
use tv_safety_cleaner.Observer.ReadOnlyAdb.{Runner, Client}
use tv_safety_cleaner.Observer.ReadOnlyAdb.Reads.{
  Recorded, recorded, ReadsSoFar, AllRead, IsClientOf, new_client-IsClientOf, devices-Keeps,
  properties-Keeps, packages-Keeps, activity_summary-Keeps, package_summary-Keeps,
  memory_summary-Keeps, storage_summary-Keeps, process_summary-Keeps, network_summary-Keeps,
  setting-Keeps,
}
use tv_safety_cleaner.Observer.Collector.{collect_snapshot_payload, read_inventory, read_settings}

module _ {W : Type 0} (runner : Runner W) (executable : String) where
  read_settings-Keeps :
      (client : Client)
      → IsClientOf executable client
      → Keeps (ReadsSoFar {W = W} executable) (read_settings (recorded runner) executable client)
  unfolding read_settings
  read_settings-Keeps client known = search (keeps_rules, setting-Keeps) depth 12

  read_inventory-Keeps :
      (serial : String) (client : Client)
      → IsClientOf executable client
      → Keeps
          (ReadsSoFar {W = W} executable)
          (read_inventory (recorded runner) executable serial client)
  unfolding read_inventory
  read_inventory-Keeps serial client known =
      search
        (
          keeps_rules, properties-Keeps, packages-Keeps, package_summary-Keeps,
          activity_summary-Keeps, read_settings-Keeps, process_summary-Keeps, memory_summary-Keeps,
          storage_summary-Keeps, network_summary-Keeps,
        )
        depth 32

  collect-Keeps :
      (wanted : Option String)
      → Keeps
          (ReadsSoFar {W = W} executable)
          (collect_snapshot_payload (recorded runner) executable wanted)
  unfolding collect_snapshot_payload
  collect-Keeps wanted = Keeps-lift_bind _ _ λ discovery made.
      Keeps-bind _ _
        (devices-Keeps runner executable discovery
          (new_client-IsClientOf executable "" discovery made))
        λ found. Keeps-bind _ _ (Keeps-lift _) λ serial. Keeps-lift_bind _ _ λ client built.
          read_inventory-Keeps serial client (new_client-IsClientOf executable serial client built)

  -- Whatever the adb program prints, and whether collecting succeeds or fails: every command line that it
  -- has issued is the program, at most a serial number of safe characters, and one of the fixed reads,
  -- if the ones before were.
  pub collect_snapshot_payload-AllRead :
      (wanted : Option String) (s : Recorded W)
      → AllRead executable s.commands
      → AllRead executable
          (collect_snapshot_payload (recorded runner) executable wanted s).1.commands
  collect_snapshot_payload-AllRead wanted s h =
      ((collect-Keeps wanted).at s (record { holds = h })).holds
