-- ===== src/Error.antt =====
-- src/error.rs: the two error types and what they print.
use ansible_playbooks.Common.{ℕ, String, ◌<>◌, Option, none, some}

-- A boxed foreign error, by what it displays.
abbrev pub Cause : Type 0
Cause = String

pub record BackendError : Type 0 where
  pub backend : String
  pub message : String
  pub source : Option Cause

abbrev pub backend_error : String → String → BackendError
backend_error backend message = record { backend = backend; message = message; source = none }

abbrev pub backend_error_with_source : String → String → Cause → BackendError
backend_error_with_source backend message source = record {
  backend = backend;
  message = message;
  source = some source;
}

pub data Error : Type 0 where
  plan_cycle : (resource_id_hint : String) → Error
  plan_references_unknown_resource : (from_resource : String) (unknown_dep_index : ℕ) → Error
  backend_failed : (resource : String) (source : BackendError) → Error
  task_panicked : (context : String) → Error
  config_load : (path : String) (source : Cause) → Error
  env_detect : (what : String) (source : Cause) → Error

unfoldable pub backend_error_display : BackendError → String
backend_error_display e = "[" <> (e.backend <> ("] " <> e.message))

-- `show` prints a `usize`.
unfoldable pub error_display : (show : ℕ → String) → Error → String
unfolding backend_error_display
error_display show (plan_cycle hint) = "plan has a dependency cycle involving `" <> (hint <> "`")
error_display show (plan_references_unknown_resource from dep) =
    "resource `"
    <> (from
        <> ("` declares dep on resource index " <> (show dep <> ", which is not in this plan")))
error_display show (backend_failed resource source) =
    "resource `" <> (resource <> ("` failed: " <> backend_error_display source))
error_display show (task_panicked context) = "internal task panicked or was cancelled: " <> context
error_display show (config_load path source) = "loading config `" <> (path <> ("`: " <> source))
error_display show (env_detect what source) =
    "detecting host environment (" <> (what <> ("): " <> source))
