-- ===== src/Storage.antt =====
-- src/storage.rs: the directories of containers, manifests, layers and locks.
pub mod Action
pub mod Triple
pub mod Layout
pub mod Reader
pub mod Writer
pub mod Trees
pub mod Whiteouts
pub mod Layers
pub mod Modes
pub mod Walk
pub mod Locks
pub mod Exclusion
pub mod Places
pub mod Reads
pub mod Growth
pub mod Frames
pub mod Leaving
pub mod Removal
pub mod WhiteoutFrames
pub mod Runs
pub mod WhiteoutStack
pub mod WhiteoutWalk
pub mod Hiding
pub mod HidingDirectory
pub mod HidingOwn
pub mod HidingStep
pub mod HidingTree
pub mod Atomic
pub mod Published
pub mod Success
pub mod Delivered
pub mod Extraction
pub mod Unpacking
pub mod WholeLayers
pub mod Copies
pub mod Container
pub mod Saved
pub mod Complete
pub mod Harmless
pub mod HarmlessLayers
pub mod HarmlessDigests
pub mod CompleteManifests
pub mod RoundTrip
