-- ===== src/Commands.antt =====
-- src/main.rs: the commands. The arguments are parsed by the crate `clap`, so that a command stands at
-- the beginning here.
pub mod Install
pub mod Switch
pub mod Update
pub mod Repair
pub mod Installed
pub mod Kept
pub mod Checked
pub mod CheckedAll
pub mod Repaired
use pakstak.Base.{Text, List}
use pakstak.Fs.Paths.{FilePath}
use pakstak.Storage.Layout.{Storage}
use pakstak.Storage.Locks.{shared, Environment, new_with_lock, new_mutable}
use pakstak.Run.{Arg, build_bwrap_command}
use pakstak.Prune
use pakstak.Uninstall
use pakstak.Tasks.{Crates, Task, ◌>>=◌, ◌>>◌, pure, on_storage}

pub data Command : Type 0 where
  install : (container image : Text) → Command
  uninstall : (container : Text) → Command
  update : (containers : List Text) → Command
  switch : (container digest : Text) → Command
  prune : Command
  repair : Command
  run : (containers command : List Text) → Command

-- How the program ends where it does not fail: `run` hands over to Bubblewrap.
pub data Outcome : Type 0 where
  done : Outcome
  executes : List Arg → Outcome

-- The environment and the directory that the program runs in.
module _ {S : Type 0} (crates : Crates S) (env : Environment) (cwd : FilePath) where
  -- A command that changes the storage.
  unfoldable pub mutate : (Storage → Task S (Unit {0})) → Task S Outcome
  mutate command = do s ← on_storage (new_mutable crates.processes env cwd); command s; pure done

  -- `Storage::new`, and `run::run` up to the call of `exec`.
  unfoldable pub run_command : List Text → List Text → Task S Outcome
  run_command containers command = do
    s ← on_storage (new_with_lock crates.processes env cwd shared)
    args ← on_storage (build_bwrap_command crates.json s containers command)
    pure (executes args)

  unfoldable pub main : Command → Task S Outcome
  main (install container image) = mutate (λ s. Install.install crates s container image)
  main (uninstall container) = mutate (λ s. on_storage (Uninstall.uninstall s container))
  main (update containers) = mutate (λ s. Update.update crates s containers)
  main (switch container digest) = mutate (λ s. Switch.switch crates s container digest)
  main prune = mutate (λ s.
      on_storage (Prune.prune crates.json crates.sets crates.processes s) >>= λ removed. pure tt)
  main repair = mutate (λ s. Repair.repair crates s)
  main (run containers command) = run_command containers command
