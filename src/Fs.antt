-- ===== src/Fs.antt =====
-- What the program uses of `std::path` and `std::fs`: paths, the tree of files, and operations
-- that can be cut short.
pub mod Paths
pub mod PathLaws
pub mod Components
pub mod Files
pub mod FileLaws
pub mod World
pub mod Attributes
pub mod DirectoryLaws
pub mod Effects
pub mod Directories
pub mod Counts
pub mod OnlyDirs
pub mod Children
