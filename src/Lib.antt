-- ===== src/Lib.antt =====
-- Pakstak keeps container images in the home directory of a user and runs programs in them with
-- Bubblewrap. A container has a name, the digest of a manifest, and the reference that it was
-- fetched by; a manifest names layers by their digests; manifests, layers and containers are files
-- and directories of one storage. This library models that program.
--
-- - Base: what the other modules share. Texts are lists of byte values (Base.Strings); splitting
--   and joining (Base.Splits), UTF-8 and the trimming of white space (Base.Utf8), decimal numbers
--   (Base.Decimal), results with their chains (Base.Results).
-- - Reference (src/reference.rs): image references, `Reference::parse` and `Display`.
-- - Digest (src/digest.rs): `DigestVerifier`, `verify_bytes` and the hexadecimal codec. The hash
--   function of the crate ring is a parameter; so is the reader that a verifier is given, and its
--   `copy` runs on fuel (one step a block, so the fuel bounds how many blocks are read).
-- - Manifest (src/manifest.rs): manifests, indexes and platforms. The parsers and printers of the
--   crate serde_json are a parameter, the record `Json`.
-- - Fs: `std::path` and `std::fs` as the program uses them. A path is a list of names, the files
--   are a list of paths with their nodes. Any operation may be cut short, with its work half done,
--   and the list `faults` of a world says which; a theorem for every world is a theorem for every
--   such failure. Symbolic links within a path are not followed, and `..` is resolved by name.
--   Fs.Components is about the names that any text has as a path.
-- - Storage (src/storage.rs): the paths (Storage.Layout), the methods that read (Storage.Reader)
--   and those that write by a rename (Storage.Writer). A method is an action on a world that may
--   fail; the texts that `with_context` adds to errors are left out. Storage.Triple and
--   Storage.Atomic reason about a method under every fault, Storage.Growth about what a method
--   leaves alone, Storage.Published, Storage.Copies and Storage.Container about what is published,
--   Storage.Saved about what counts as saved, Storage.Success and Storage.Delivered about when
--   they are, Storage.RoundTrip about reading them back. Storage.Trees removes directories that
--   were read-only: the walk through a tree runs on as much fuel as there are files, since it
--   visits each at most once (Storage.Modes, Storage.Walk). Storage.Layers unpacks a layer and
--   publishes it (the crates tar, flate2 and zstd are the parameter `Archives`), Storage.Whiteouts
--   turns the markers of OCI into what overlayfs reads, also on as much fuel as there are files.
--   Storage.Frames has the rules for relations between the files before and after a method,
--   Storage.Runs what a run that succeeded says, Storage.Leaving those for what a removal leaves
--   alone, Storage.Removal applies them to the trees, Storage.WhiteoutFrames and Storage.Unpacking
--   to a layer, Storage.Extraction says what has been checked then, and Storage.WholeLayers puts
--   these together. Storage.WhiteoutStack and Storage.WhiteoutWalk are about the stack of the walk
--   through a layer. Storage.Hiding says what hides the content of lower layers, for OCI and for
--   overlayfs; Storage.HidingDirectory, Storage.HidingStep and Storage.HidingTree follow it
--   through one directory, one step and the whole walk, Storage.HidingOwn is about what overlayfs
--   shows of the layer itself. Storage.Complete says when a storage is complete, that each
--   manifest which is saved has its layers, as far as their digests are plain names;
--   Storage.Reads, Storage.Harmless, Storage.HarmlessLayers, Storage.HarmlessDigests and
--   Storage.CompleteManifests are about the methods of such a storage. Storage.Locks has the
--   locks; what other processes hold is a parameter, the answers that a request for a lock gets.
--   In Storage.Exclusion several processes open the storage and end, a step relation.
-- - Install (src/install.rs): the names of containers.
-- - Run (src/run.rs): the stack of layers and the command line of Bubblewrap. Run.Sandbox reads a
--   command line as the manual of Bubblewrap has it.
-- - Prune (src/prune.rs): the removal of what no container uses. Prune.Used says what is read,
--   also when reading is cut short, Prune.Spared, Prune.Kept and Prune.Layers what removals leave
--   alone, Prune.Entries what a listing gives, Prune.Protected which paths are in use, Prune.Uses
--   and Prune.InUse put them together. A `HashSet` is the list of what was put in, with the order
--   of its iteration a parameter.
-- - Uninstall (src/uninstall.rs): the removal of a container, with what it leaves alone.
-- - Network: the crates ureq and http_auth, a parameter, and methods of a client that may fail.
-- - Auth (src/auth.rs): the token that a registry asks for.
-- - Fetch (src/fetch.rs): the client of registries: requests that are sent again with a token, and
--   manifests, directly or by an index (Fetch.Manifests), and whole images (Fetch.Images); the
--   parameter answers any request with anything. Fetch.Choices and Fetch.Verified reason about
--   what is fetched, Fetch.Tokens about the tokens of the client, Fetch.Saved,
--   Fetch.CompleteLayers and Fetch.Complete about what is saved of an image. Formats has the
--   formats of layers.
-- - Tasks: what changes the files and the client of registries, and may fail; all the parameters
--   together are the record `Crates`. Tasks.Ends has the rules for what holds where a task ends.
-- - Commands (src/main.rs, src/install.rs, src/switch.rs, src/update.rs, src/repair.rs): the
--   commands and their dispatch. Commands.Installed, Commands.Kept (with a module for each of
--   `switch`, `update` and `repair`) and Commands.Repaired are about what they leave behind;
--   Commands.Checked and Commands.CheckedAll have the check at the end of `repair`.
-- - Tests: runs on concrete inputs.
--
-- Install hands a name to Storage.Writer only after `validate_container_name`, whose names are
-- plain path components (Install.Names); the theorems on the files of a container ask for that.
--
-- A listing of a directory is made at once, where the source goes on listing while it works on
-- what was listed; the messages that the program prints are left out.
--
-- Not modelled: the other processes themselves; the network; the unpacking of archives; the
-- arguments of the command line, which clap parses; the settings of TLS; the execution of
-- Bubblewrap.
pub mod Base
pub mod Digest
pub mod Reference
pub mod Manifest
pub mod Fs
pub mod Storage
pub mod Install
pub mod Run
pub mod Prune
pub mod Uninstall
pub mod Network
pub mod Formats
pub mod Auth
pub mod Fetch
pub mod Tasks
pub mod Commands
mod Tests
