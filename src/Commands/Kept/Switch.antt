-- ===== src/Commands/Kept/Switch.antt =====
-- `switch` keeps the storage complete.
use pakstak.Base.{Text, some, ◌≡◌}
use pakstak.Reference.{digest}
use pakstak.Fs.Paths.{FilePath, IsPlain, resolve}
use pakstak.Fs.Files.{Files, lookup, regular_file}
use pakstak.Storage.Layout.{Storage, storage_at}
use pakstak.Storage.Reader.{ensure_container_installed, read_container_reference}
use pakstak.Storage.Reads.{Reads-ensure_container_installed, Reads-read_container_reference}
use pakstak.Storage.Published.{digest_file}
use pakstak.Storage.Unpacking.{IsConfined}
use pakstak.Storage.Complete.{IsComplete}
use pakstak.Tasks.{Crates, Session}
use pakstak.Tasks.Ends.{Ended, Ends, Ends-bind, Ends-new_client}
use pakstak.Commands.Switch.{switch}
use pakstak.Commands.Kept.{Ends-Reads, write_digest-Ends, fetched-Ends}

module _ {S : Type 0} (crates : Crates S) (root : FilePath)
    (confined : IsConfined crates.archives) where
  abbrev s : Storage
  s = storage_at root

  abbrev Complete : Files → Type 0
  Complete = IsComplete root crates.json

  pub switch-Ends :
      (container d : Text)
      → IsPlain container
      → Ends
          (IsComplete root crates.json)
          (switch crates (storage_at root) container d)
          (λ _ fs.
            IsComplete root crates.json fs
            × (lookup (resolve (digest_file root container)) fs ≡ some (regular_file d)))
          (IsComplete root crates.json)
  unfolding switch
  switch-Ends container d h =
      Ends-bind _ _
        (Ends-Reads crates root confined (ensure_container_installed s container)
          (Reads-ensure_container_installed s container))
        λ _.
          Ends-bind _ _
            (Ends-Reads crates root confined (read_container_reference crates.json s container)
              (Reads-read_container_reference crates.json s container))
            λ stored. Ends-bind _ _ Ends-new_client λ _.
              Ends-bind _ _
                (fetched-Ends crates root confined (record stored { specifier = digest d }))
                λ m. write_digest-Ends crates root confined container d h

  -- However switching ends, and wherever it is cut short, the storage stays complete: each
  -- manifest that is saved has all its layers, those whose digests are plain names. After a
  -- success the container has the digest that was given. The container's name is one plain name,
  -- and unpacking an archive changes nothing outside of the directory that it is given.
  pub switch-IsComplete :
      (container d : Text)
      → IsPlain container
      → (x : Session S) → IsComplete root crates.json x.world.files
      → Ended
          (λ _ fs.
            IsComplete root crates.json fs
            × (lookup (resolve (digest_file root container)) fs ≡ some (regular_file d)))
          (IsComplete root crates.json)
          (switch crates (storage_at root) container d x)
  switch-IsComplete container d plain_name x h = (switch-Ends container d plain_name).at x h
