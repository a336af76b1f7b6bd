-- ===== src/Observer/Snapshot/Created.antt =====
-- What `create_snapshot` leaves behind: a whole verified snapshot, or nothing.
use tv_safety_cleaner.Prelude.{
  String, ◌≡◌, ◌⊎◌, inl, inr, refl, Bool, true, false, Option, none, some, [], ◌==◌, string_eq,
  arith, if◌then◌else◌, Bool-cases,
}
use tv_safety_cleaner.Prelude.Dict.{Dict, lookup, insert, lookup-insert}
use tv_safety_cleaner.Prelude.Json.{Json}
use tv_safety_cleaner.Exec.{Result, ok, err, Error, chain-eq-ok}
use tv_safety_cleaner.Observer.Collector.{SnapshotPayload}
use tv_safety_cleaner.Observer.Snapshot.{Directory, FileLib, verify_snapshot, invalid}
use tv_safety_cleaner.Observer.Snapshot.Writing.{
  Moment, Root, snapshots_of, write_all, artifacts, build_snapshot, create_snapshot, place,
  is_safe_device, has_key,
}

abbrev pub snapshot_at : String → String → Root → Option Directory
snapshot_at device name root = lookup name (snapshots_of device root)

module _ (lib : FileLib) where
  build_snapshot-verified :
      (now : Moment) (payload : SnapshotPayload) {dir : Directory}
      → build_snapshot lib now payload ≡ ok dir
      → (manifest : Dict Json) × (verify_snapshot lib dir ≡ ok manifest)
  unfolding build_snapshot
  build_snapshot-verified now payload {dir} h =
      let (written, _, h1) = chain-eq-ok (write_all lib (artifacts now payload) []) _ h in
      let (manifest, verified, same) = chain-eq-ok (verify_snapshot lib _) _ h1 in
      (manifest, ground (arith, verified, same))

  -- A new snapshot of this device, which was not there before, is verified, and every other one is as it
  -- was.
  pub record Added (device name : String) (before after : Root) : Type 0 where
    pub dir : Directory
    pub manifest : Dict Json
    pub verified : verify_snapshot lib dir ≡ ok manifest
    pub present : snapshot_at device name after ≡ some dir
    pub new : snapshot_at device name before ≡ none
    pub others :
        (d n : String)
        → ((d == device) ≡ false) ⊎ ((n == name) ≡ false)
        → snapshot_at d n after ≡ snapshot_at d n before

  -- Either nothing is added, or this snapshot.
  abbrev pub AddedOrSame : String → String → Root → Result String × Root → Type 0
  AddedOrSame device name root (result, after) =
      ((error : Error) × (result ≡ err error)
        × ((d n : String) → snapshot_at d n after ≡ snapshot_at d n root))
      ⊎ ((result ≡ ok name) × Added device name root after)

  folder_made :
      (device d n : String) (root : Root)
      → snapshot_at d n (insert device (snapshots_of device root) root) ≡ snapshot_at d n root
  folder_made device d n root =
      ground (arith, lookup-insert device d (snapshots_of device root) root)

  added :
      (device name : String) (dir : Directory) (root : Root) (manifest : Dict Json)
      → verify_snapshot lib dir ≡ ok manifest
      → snapshot_at device name root ≡ none
      → Added device name root (insert device (insert name dir (snapshots_of device root)) root)
  added device name dir root manifest verified fresh =
      let there = snapshots_of device root in
      let at_device = lookup-insert device device (insert name dir there) root in
      let at_name = lookup-insert name name dir there in
      record {
        dir = dir;
        manifest = manifest;
        verified = verified;
        present = ground (arith, at_device, at_name);
        new = fresh;
        others = λ d n h. ground (
          arith,
          lookup-insert device d (insert name dir there) root,
          lookup-insert name n dir there,
        );
      }

  place-AddedOrSame :
      (device name : String) (built : Result Directory) (root : Root)
      → ((dir : Directory)
          → built ≡ ok dir
          → (manifest : Dict Json) × (verify_snapshot lib dir ≡ ok manifest))
      → AddedOrSame device name root (place lib name device built root)
  place-AddedOrSame device name (err e) root k = inl (e, refl, λ d n. folder_made device d n root)
  place-AddedOrSame device name (ok dir) root k =
      decided (has_key name (snapshots_of device root)) refl
    where
      decided :
          (taken : Bool)
          → has_key name (snapshots_of device root) ≡ taken
          → AddedOrSame device name root (
              if taken
              then (
                invalid "snapshot timestamp collision",
                insert device (snapshots_of device root) root,
              )
              else (ok name, insert device (insert name dir (snapshots_of device root)) root))
      decided true e = inl (_, refl, λ d n. folder_made device d n root)
      decided false e =
          let (manifest, verified) = k dir refl in
          let fresh : snapshot_at device name root ≡ none = ground arith in
          inr (refl, added device name dir root manifest verified fresh)

  -- Whatever is asked for, either it raises and every snapshot of every device is as it was, or it returns
  -- and exactly one snapshot has been added, one that can be verified.
  pub create_snapshot-Added :
      (now : Moment) (device : String) (payload : SnapshotPayload) (root : Root)
      → AddedOrSame device now.timestamp root (create_snapshot lib now device payload root)
  unfolding create_snapshot
  create_snapshot-Added now device payload root = elim (Bool-cases (is_safe_device device)) [
    | inl safe ↦ rw safe (
        place-AddedOrSame device now.timestamp (build_snapshot lib now payload) root
          (λ dir e. build_snapshot-verified now payload e))
    | inr odd ↦ rw odd (inl (_, refl, λ d n. refl))
  ]
