-- ===== src/Tools/Response.antt =====
-- The errors of tools (di-core/src/tools/response.rs).
use di_rac.Prelude.{ℕ, String, Option, none}

pub data ToolErrorCode : Type 0 where
  io_file_not_found io_file_permission_denied io_file_changed : ToolErrorCode
  anchor_not_found anchor_ambiguous patch_apply_failed patch_conflict : ToolErrorCode
  shell_spawn_failed shell_timeout shell_blocked : ToolErrorCode
  daemon_unavailable daemon_timeout : ToolErrorCode
  missing_argument invalid_input : ToolErrorCode
  context_stale tool_internal_error rate_limited unknown : ToolErrorCode

-- `ToolErrorCode::as_str`
unfoldable pub code_str : ToolErrorCode → String
code_str io_file_not_found = "io.file.notFound"
code_str io_file_permission_denied = "io.file.permissionDenied"
code_str io_file_changed = "io.file.changed"
code_str anchor_not_found = "anchor.notFound"
code_str anchor_ambiguous = "anchor.ambiguous"
code_str patch_apply_failed = "patch.applyFailed"
code_str patch_conflict = "patch.conflict"
code_str shell_spawn_failed = "shell.spawnFailed"
code_str shell_timeout = "shell.timeout"
code_str shell_blocked = "shell.blocked"
code_str daemon_unavailable = "daemon.unavailable"
code_str daemon_timeout = "daemon.timeout"
code_str missing_argument = "validation.missingArgument"
code_str invalid_input = "validation.invalidInput"
code_str context_stale = "context.stale"
code_str tool_internal_error = "tool.internalError"
code_str rate_limited = "tool.rateLimited"
code_str unknown = "unknown"

pub data ErrorSeverity : Type 0 where
  warning error critical : ErrorSeverity

pub data Recoverability : Type 0 where
  retryable retryable_after_refresh requires_replan requires_user_input non_retryable :
      Recoverability

-- without its time stamp
pub record ErrorMetadata : Type 0 where
  pub tool_name : String
  pub retry_count : ℕ
  pub input_hash : Option String

-- without the details and the remediation, which no decision reads
pub record ToolError : Type 0 where
  pub code : ToolErrorCode
  pub message : String
  pub severity : ErrorSeverity
  pub recoverability : Recoverability
  pub metadata : ErrorMetadata

unfoldable pub default_severity : ToolErrorCode → ErrorSeverity
default_severity io_file_not_found = warning
default_severity context_stale = warning
default_severity tool_internal_error = critical
default_severity daemon_unavailable = critical
default_severity _ = error

unfoldable pub default_recoverability : ToolErrorCode → Recoverability
default_recoverability shell_timeout = retryable
default_recoverability daemon_timeout = retryable
default_recoverability rate_limited = retryable
default_recoverability daemon_unavailable = retryable
default_recoverability anchor_not_found = retryable_after_refresh
default_recoverability patch_conflict = retryable_after_refresh
default_recoverability io_file_changed = retryable_after_refresh
default_recoverability _ = non_retryable

-- `ToolError::new`
unfoldable pub new_error : ToolErrorCode → String → String → ToolError
unfolding default_severity default_recoverability
new_error code message tool_name = record {
  code = code;
  message = message;
  severity = default_severity code;
  recoverability = default_recoverability code;
  metadata = record { tool_name = tool_name; retry_count = 0; input_hash = none };
}
