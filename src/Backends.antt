-- ===== src/Backends.antt =====
-- src/backends/
pub mod Fs
pub mod Views
pub mod Accounts
pub mod File
pub mod Marker
pub mod AptRepo
pub mod SystemdUnit
pub mod AbsentFile
pub mod Symlink
pub mod Directory
pub mod Download
pub mod LineInFile
pub mod Command
pub mod Service
pub mod User
pub mod AptPackage
pub mod AbsentAptPackage
pub mod Registry
pub mod Defaults
pub mod Batchers
pub mod Forecast
pub mod DryRun
pub mod Notify
pub mod Markers
