-- ===== src/Commands/Kept/Update.antt =====
-- `update` keeps the storage complete.
use pakstak.Base.{
  Text, ◌==◌, ==_iff, true, List, [], ◌∷◌, All, is_empty, mem, ◌≡◌, refl, arith, if◌then◌else◌,
  subst, sym, Bool-cases, inl, inr,
}
use pakstak.Fs.Paths.{FilePath, IsPlain}
use pakstak.Fs.Files.{Files}
use pakstak.Storage.Action.{from_result}
use pakstak.Storage.Triple.{Triple}
use pakstak.Storage.Frames.{Framing-bind, Framing-collect, Framing-from_result}
use pakstak.Prune.Entries.{Leaving-read_containers}
use pakstak.Storage.Layout.{Storage, storage_at}
use pakstak.Storage.Reader.{
  ensure_container_installed, read_container_reference, read_container_manifest_digest,
}
use pakstak.Storage.Reads.{
  Reads-ensure_container_installed, Reads-read_container_reference,
  Reads-read_container_manifest_digest,
}
use pakstak.Storage.Writer.{write_container_manifest_digest}
use pakstak.Storage.Unpacking.{IsConfined}
use pakstak.Storage.Complete.{
  IsComplete, IsComplete-Harmless, Harmless-IsPreorder, Leaving-Harmless,
}
use pakstak.Tasks.{Crates, Session, pure, on_storage}
use pakstak.Tasks.Ends.{
  Ended, Ends, Ends-bind, Ends-weaken, Ends-given, Ends-pure, Ends-on_storage, Ends-new_client,
  Framing-Triple,
}
use pakstak.Commands.Update.{read_all, publish_update, update_container, update_each, update}
use pakstak.Commands.Kept.{Ends-Reads, write_digest-Ends, fetched-Ends}

All-mem : (P : Text → Type 0) (cs : List Text) → ((c : Text) → mem c cs ≡ true → P c) → All P cs
All-mem P [] h = tt
All-mem P (c ∷ cs) h =
    (h c (ground (arith, (==_iff c c).1 refl)), All-mem P cs (λ d m. h d (ground (arith, m))))

mem-All : (P : Text → Type 0) (cs : List Text) → All P cs → (c : Text) → mem c cs ≡ true → P c
mem-All P [] h c m = cc
mem-All P (d ∷ cs) (h, hs) c m = elim (Bool-cases (c == d)) [
  | inl e ↦ subst P (sym ((==_iff c d).0 e)) h
  | inr e ↦ mem-All P cs hs c (ground (arith, e, m))
]

module _ {S : Type 0} (crates : Crates S) (root : FilePath)
    (confined : IsConfined crates.archives) where
  abbrev s : Storage
  s = storage_at root

  abbrev Complete : Files → Type 0
  Complete = IsComplete root crates.json

  publish_update-Ends :
      (container current fetched : Text)
      → IsPlain container
      → Ends Complete (publish_update crates s container current fetched) (λ _. Complete) Complete
  unfolding publish_update
  publish_update-Ends container current fetched h = elim (Bool-cases (current == fetched)) [
    | inl e ↦ rw e (Ends-pure tt (λ fs k. k))
    | inr e ↦ rw e (
        Ends-weaken (on_storage (write_container_manifest_digest s container fetched))
          (λ u fs k. k.0) (λ fs k. k) (write_digest-Ends crates root confined container fetched h))
  ]

  update_container-Ends :
      (container : Text)
      → IsPlain container
      → Ends Complete (update_container crates s container) (λ _. Complete) Complete
  unfolding update_container
  update_container-Ends container h =
      Ends-bind _ _
        (Ends-Reads crates root confined (ensure_container_installed s container)
          (Reads-ensure_container_installed s container))
        λ _.
          Ends-bind _ _
            (Ends-Reads crates root confined (read_container_reference crates.json s container)
              (Reads-read_container_reference crates.json s container))
            λ reference. Ends-bind _ _ (fetched-Ends crates root confined reference) λ m.
              Ends-bind _ _
                (Ends-Reads crates root confined (read_container_manifest_digest s container)
                  (Reads-read_container_manifest_digest s container))
                λ current. publish_update-Ends container current m.digest h

  update_each-Ends :
      (containers : List Text)
      → All IsPlain containers
      → Ends Complete (update_each crates s containers) (λ _. Complete) Complete
  unfolding update_each
  update_each-Ends [] h = Ends-pure tt (λ fs k. k)
  update_each-Ends (c ∷ cs) (h, hs) =
      Ends-bind _ _ (update_container-Ends c h) (λ _. update_each-Ends cs hs)

  -- The containers that are there have plain names.
  read_all-Triple :
      Triple
        (λ w. Complete w.files)
        (read_all s)
        (λ cs w. Complete w.files × All IsPlain cs)
        (λ w. Complete w.files)
  unfolding read_all
  read_all-Triple =
      Framing-Triple Complete (λ fs fs' c. IsComplete-Harmless root crates.json fs fs' c)
        (Framing-bind (Harmless-IsPreorder root) _ _
          (Leaving-Harmless root (Leaving-read_containers s))
          λ entries h.
            Framing-collect (Harmless-IsPreorder root) from_result
              (λ entry k. Framing-from_result (Harmless-IsPreorder root) entry k) entries h)

  -- A set is iterated over what was put in.
  All-iterate :
      ((c : Text) (cs : List Text) → mem c (crates.sets.iterate cs) ≡ true → mem c cs ≡ true)
      → (cs : List Text) → All IsPlain cs
      → All IsPlain (crates.sets.iterate cs)
  All-iterate only cs h =
      All-mem IsPlain (crates.sets.iterate cs) (λ c m. mem-All IsPlain cs h c (only c cs m))

  pub update-Ends :
      ((c : Text) (cs : List Text) → mem c (crates.sets.iterate cs) ≡ true → mem c cs ≡ true)
      → (given : List Text) → All IsPlain given
      → Ends
          (IsComplete root crates.json)
          (update crates (storage_at root) given)
          (λ _. IsComplete root crates.json)
          (IsComplete root crates.json)
  unfolding update
  update-Ends only given h = Ends-bind _ _ (chosen given h) λ cs. Ends-given λ all_plain.
      Ends-bind _ _ Ends-new_client
        λ _. update_each-Ends (crates.sets.iterate cs) (All-iterate only cs all_plain)
    where
      chosen :
          (cs : List Text)
          → All IsPlain cs
          → Ends {S = S} Complete
              (if is_empty cs then on_storage (read_all s) else pure cs)
              (λ names fs. Complete fs × All IsPlain names)
              Complete
      chosen [] k = Ends-on_storage (read_all s) read_all-Triple
      chosen (c ∷ cs) k = Ends-pure (c ∷ cs) (λ fs x. (x, k))

  -- However updating ends, and wherever it is cut short, the storage stays complete: each manifest
  -- that is saved has all its layers, those whose digests are plain names. The containers that are
  -- given, if any, have plain names, a set is iterated over what was put in, and unpacking an
  -- archive changes nothing outside of the directory that it is given.
  pub update-IsComplete :
      ((c : Text) (cs : List Text) → mem c (crates.sets.iterate cs) ≡ true → mem c cs ≡ true)
      → (given : List Text) → All IsPlain given
      → (x : Session S) → IsComplete root crates.json x.world.files
      → Ended
          (λ _. IsComplete root crates.json)
          (IsComplete root crates.json)
          (update crates (storage_at root) given x)
  update-IsComplete only given all_plain x h = (update-Ends only given all_plain).at x h
