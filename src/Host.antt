-- ===== src/Host.antt =====
-- What the backends call outside this repository: files, child processes, HTTPS and patterns, as
-- `std::fs`, `tokio::process`, `reqwest` and `regex` give them. Reading a file leaves the state alone by its type; a
-- child process may do anything.
use ansible_playbooks.Common.{ℕ, String, Bool, Option, List, [], ◌∷◌, ◌≡◌}
use ansible_playbooks.Common.Results.{Result, ok, err, Action}
use ansible_playbooks.Error.{Cause, BackendError, backend_error_with_source}

abbrev pub FilePath : Type 0
FilePath = String

-- `std::io::Error`: whether its kind is `NotFound`, and what it displays.
pub record IoError : Type 0 where
  pub not_found : Bool
  pub cause : Cause

pub record Metadata : Type 0 where
  pub is_dir : Bool
  pub mode : ℕ
  pub uid : ℕ
  pub gid : ℕ

-- A child process that has ended, its output decoded with `from_utf8_lossy`. `code` is the exit
-- code as `{:?}` prints it.
pub record Output : Type 0 where
  pub success : Bool
  pub code : String
  pub stdout : String
  pub stderr : String

-- `tokio::process::Command`: variables that are set, and the argument vector.
pub record Spawn : Type 0 where
  pub vars : List (String × String)
  pub argv : List String

abbrev pub command : List String → Spawn
command argv = record { vars = []; argv = argv }

-- `reqwest::Response`
pub record Response (Bytes : Type 0) : Type 0 where
  pub is_success : Bool
  pub status : String
  pub body : Result Cause Bytes

pub record Host : Type 1 where
  pub State : Type 0
  pub Bytes : Type 0
  pub same_bytes : Bytes → Bytes → Bool
  pub spawn : Spawn → State → Result Cause Output × State
  pub https_get : String → State → Result Cause (Response Bytes) × State
  pub read : FilePath → State → Result IoError Bytes
  pub read_to_string : FilePath → State → Result IoError String
  pub metadata : FilePath → State → Result IoError Metadata
  pub is_symlink : FilePath → State → Result IoError Bool
  pub read_link : FilePath → State → Result IoError FilePath
  pub create : FilePath → State → Result IoError (Unit {0}) × State
  pub write_all : FilePath → Bytes → State → Result IoError (Unit {0}) × State
  pub flush : FilePath → State → Result IoError (Unit {0}) × State
  pub rename : FilePath → FilePath → State → Result IoError (Unit {0}) × State
  pub remove_file : FilePath → State → Result IoError (Unit {0}) × State
  pub symlink : FilePath → FilePath → State → Result IoError (Unit {0}) × State
  pub create_dir_all : FilePath → State → Result IoError (Unit {0}) × State
  pub set_permissions : FilePath → ℕ → State → Result IoError (Unit {0}) × State
  pub chown : FilePath → Option ℕ → Option ℕ → State → Result IoError (Unit {0}) × State
  pub as_bytes : String → Bytes
  pub Pattern : Type 0
  pub regex_new : String → Result Cause Pattern
  pub is_match : Pattern → String → Bool
  pub parent : FilePath → Option FilePath
  -- `tokio::task::JoinError`, as it displays
  pub join_error : State → Option Cause

-- `.await.map_err(|e| BackendError::with_source(BACKEND, message, e))`
abbrev pub io_error : {A : Type 0} → String → String → Result IoError A → Result BackendError A
io_error backend message (ok a) = ok a
io_error backend message (err e) = err (backend_error_with_source backend message e.cause)

abbrev pub foreign_error : {A : Type 0} → String → String → Result Cause A → Result BackendError A
foreign_error backend message (ok a) = ok a
foreign_error backend message (err e) = err (backend_error_with_source backend message e)

module _ {S A : Type 0} (backend message : String) where
  abbrev pub attempt : (S → Result IoError A × S) → Action S BackendError A
  attempt op s = let (r, s') = op s in (io_error backend message r, s')

  abbrev pub sense : (S → Result IoError A) → Action S BackendError A
  sense op s = (io_error backend message (op s), s)

  abbrev pub attempt_foreign : (S → Result Cause A × S) → Action S BackendError A
  attempt_foreign op s = let (r, s') = op s in (foreign_error backend message r, s')

-- The child processes that only look: what their manuals say of them.
pub record IsReadOnly (H : Host) : Type 0 where
  pub getent : (args : List String) (s : H.State) → (H.spawn (command ("getent" ∷ args)) s).1 ≡ s
  pub id : (args : List String) (s : H.State) → (H.spawn (command ("id" ∷ args)) s).1 ≡ s
  pub dpkg_query :
      (args : List String) (s : H.State) → (H.spawn (command ("dpkg-query" ∷ args)) s).1 ≡ s
  pub is_enabled :
      (unit : String) (s : H.State)
      → (H.spawn (command ("systemctl" ∷ "is-enabled" ∷ unit ∷ [])) s).1 ≡ s
  pub is_active :
      (unit : String) (s : H.State)
      → (H.spawn (command ("systemctl" ∷ "is-active" ∷ unit ∷ [])) s).1 ≡ s
  pub https_get : (url : String) (s : H.State) → (H.https_get url s).1 ≡ s
