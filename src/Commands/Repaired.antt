-- ===== src/Commands/Repaired.antt =====
-- What `repair` has checked where it succeeds.
use pakstak.Base.{
  Text, Result, ok, err, true, not, ◌||◌, nat_eq, Bool-cases, some, inl, inr, ◌≡◌, arith,
}
use pakstak.Fs.Paths.{FilePath, resolve}
use pakstak.Fs.Files.{Files, Node, regular, lookup, is_dir_at}
use pakstak.Storage.Layout.{Storage, storage_at, manifests_path, manifest_path}
use pakstak.Storage.Reader.{read_containers}
use pakstak.Commands.Repair.{Found, check_all, repair_each, report, repair}
use pakstak.Prune.Entries.{NoSlash}
use pakstak.Tasks.{Crates, TaskError, Session, Task, on_storage, new_client}
use pakstak.Tasks.Ends.{Ended, Ended-ok, Ends, Ends-bind, Ends-fail, Ends-pure, Ends-on_storage}
use pakstak.Commands.Checked.{IsIntact, IsClean}
use pakstak.Commands.CheckedAll.{AllIntact, check_all-Triple}

module _ {S : Type 0} (crates : Crates S) (root : FilePath) where
  abbrev store : Storage
  store = storage_at root

  abbrev Free : Files → Type 0
  Free fs = Unit {0}

  Ends-Free : {A : Type 0} (m : Task S A) → Ends Free m (λ _. Free) Free
  Ends-Free m = record { at = λ x _. free (m x) }
    where
      free : {A : Type 0} (o : Result TaskError A × Session S) → Ended (λ (_ : A). Free) Free o
      free (ok a, x) = tt
      free (err e, x) = tt

  report-Ends :
      (found : Found)
      → Ends {S = S}
          (λ fs.
            IsClean crates.hash crates.json store found → AllIntact crates.hash crates.json root fs)
          (report crates store found)
          (λ _ fs. AllIntact crates.hash crates.json root fs)
          Free
  unfolding report
  report-Ends found =
      elim (Bool-cases
        (not (nat_eq found.invalid_manifests 0) || not (nat_eq found.missing_layers 0))) [
          | inl e ↦ rw e (Ends-fail _ (λ fs h. tt))
          | inr e ↦
              let clean : IsClean crates.hash crates.json store found =
                (ground (arith, e), ground (arith, e)) in
              rw e (Ends-pure tt (λ fs h. h clean))
        ]

  repair-AllIntact :
      Ends
        (λ fs. Unit {0})
        (repair crates (storage_at root))
        (λ _ fs. AllIntact crates.hash crates.json root fs)
        (λ fs. Unit {0})
  unfolding repair
  repair-AllIntact = Ends-bind _ _ (Ends-Free new_client) λ _.
      Ends-bind _ _ (Ends-Free (on_storage (read_containers store))) λ entries.
        Ends-bind _ _ (Ends-Free (repair_each crates store entries)) λ _.
          Ends-bind _ _
            (Ends-on_storage (check_all crates.hash crates.json store)
              (check_all-Triple crates.hash crates.json root))
            λ found. report-Ends found

  -- Where repairing succeeds, whatever was there before and wherever it was cut short, each manifest
  -- that is saved then has the bytes of its digest and parses, and all of its layers are there. The
  -- digest has no slash, and the directory of the manifests is there.
  pub repair-IsIntact :
      (x : Session S)
      → (repair crates (storage_at root) x).0 ≡ ok tt
      → is_dir_at
          (resolve (manifests_path (storage_at root)))
          (repair crates (storage_at root) x).1.world.files
        ≡ true
      → (d : Text) (n : Node) (bytes : Text) → NoSlash d
      → lookup
          (resolve (manifest_path (storage_at root) d))
          (repair crates (storage_at root) x).1.world.files
        ≡ some n
      → n.kind ≡ regular bytes
      → IsIntact crates.hash crates.json
          (storage_at root)
          d
          bytes
          (repair crates (storage_at root) x).1.world.files
  repair-IsIntact x h =
      Ended-ok (λ _. AllIntact crates.hash crates.json root) Free (repair crates store x) tt h
        (repair-AllIntact.at x tt)
