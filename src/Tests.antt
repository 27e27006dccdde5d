-- ===== src/Tests.antt =====
-- Runs of the definitions on concrete inputs, and the theorems at such inputs.
mod References
mod Digests
mod Storages
mod Names
mod Runs
mod Prunes
mod Uninstalls
mod Fetches
mod Layers
mod Whiteouts
pub mod Commands
mod Repairs
mod Installed
mod Trees
mod Containers
mod Locks
