-- ===== src/Commands/Kept/Repair.antt =====
-- `repair` keeps the storage complete.
use pakstak.Base.{Text, Result, true, List, [], ◌∷◌, Bool-cases, inl, inr, not, ◌||◌, nat_eq}
use pakstak.Reference.{digest}
use pakstak.Fs.Paths.{FilePath}
use pakstak.Fs.Files.{Files}
use pakstak.Storage.Action.{StorageError, from_result}
use pakstak.Storage.Layout.{Storage, storage_at}
use pakstak.Storage.Reader.{
  read_container_reference, read_container_manifest_digest, read_containers,
}
use pakstak.Storage.Reads.{
  Reads-read_container_reference, Reads-read_container_manifest_digest, Reads-from_result,
  Reads-read_containers,
}
use pakstak.Storage.Unpacking.{IsConfined}
use pakstak.Storage.Complete.{IsComplete}
use pakstak.Fetch.Complete.{fetch_image-Ends}
use pakstak.Tasks.{Crates, Session}
use pakstak.Tasks.Ends.{Ended, Ends, Ends-bind, Ends-weaken, Ends-pure, Ends-new_client, Ends-fail}
use pakstak.Commands.Checked.{Reads-check_all}
use pakstak.Commands.Repair.{Found, check_all, repair_container, repair_each, report, repair}
use pakstak.Commands.Kept.{Ends-Reads}

module _ {S : Type 0} (crates : Crates S) (root : FilePath)
    (confined : IsConfined crates.archives) where
  abbrev s : Storage
  s = storage_at root

  abbrev Complete : Files → Type 0
  Complete = IsComplete root crates.json

  repair_container-Ends :
      (entry : Result StorageError Text)
      → Ends Complete (repair_container crates s entry) (λ _. Complete) Complete
  unfolding repair_container
  repair_container-Ends entry =
      Ends-bind _ _ (Ends-Reads crates root confined (from_result entry) (Reads-from_result entry))
        λ container.
          Ends-bind _ _
            (Ends-Reads crates root confined (read_container_manifest_digest s container)
              (Reads-read_container_manifest_digest s container))
            λ d.
              Ends-bind _ _
                (Ends-Reads crates root confined (read_container_reference crates.json s container)
                  (Reads-read_container_reference crates.json s container))
                λ stored.
                  Ends-bind _ _
                    (Ends-weaken _ (λ m fs k. k.0) (λ fs k. k)
                      (fetch_image-Ends crates root confined
                        (record stored { specifier = digest d }) true))
                    λ m. Ends-pure tt (λ fs k. k)

  repair_each-Ends :
      (entries : List (Result StorageError Text))
      → Ends Complete (repair_each crates s entries) (λ _. Complete) Complete
  unfolding repair_each
  repair_each-Ends [] = Ends-pure tt (λ fs k. k)
  repair_each-Ends (entry ∷ entries) =
      Ends-bind _ _ (repair_container-Ends entry) (λ _. repair_each-Ends entries)

  report-Ends :
      (found : Found) → Ends {S = S} Complete (report crates s found) (λ _. Complete) Complete
  unfolding report
  report-Ends found =
      elim (Bool-cases
        (not (nat_eq found.invalid_manifests 0) || not (nat_eq found.missing_layers 0))) [
          | inl e ↦ rw e (Ends-fail _ (λ fs k. k))
          | inr e ↦ rw e (Ends-pure tt (λ fs k. k))
        ]

  repair-Ends :
      Ends
        (IsComplete root crates.json)
        (repair crates (storage_at root))
        (λ _. IsComplete root crates.json)
        (IsComplete root crates.json)
  unfolding repair
  repair-Ends = Ends-bind _ _ Ends-new_client λ _.
      Ends-bind _ _ (Ends-Reads crates root confined (read_containers s) (Reads-read_containers s))
        λ entries. Ends-bind _ _ (repair_each-Ends entries) λ _.
          Ends-bind _ _
            (Ends-Reads crates root confined (check_all crates.hash crates.json s)
              (Reads-check_all crates.hash crates.json s))
            report-Ends

  -- However repairing ends, and wherever it is cut short, the storage stays complete: each
  -- manifest that is saved has all its layers, those whose digests are plain names. Unpacking an
  -- archive changes nothing outside of the directory that it is given.
  pub repair-IsComplete :
      (x : Session S)
      → IsComplete root crates.json x.world.files
      → Ended
          (λ _. IsComplete root crates.json)
          (IsComplete root crates.json)
          (repair crates (storage_at root) x)
  repair-IsComplete x h = repair-Ends.at x h
