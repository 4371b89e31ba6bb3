-- ===== src/Log.antt =====
-- src/log.rs: the log level of a request, and the process-wide level that it sets.
use load_test_server.Prelude.{ℕ, Option}
use load_test_server.External.Types.{
  LoggingSeverity, ls_none, ls_info, ls_warning, ls_error, ls_verbose, WebrtcLogLevel,
}
use load_test_server.External.Platform.{Platform}

pub data LogLevel : Type 0 where
  none info warn error verbose : LogLevel

unfoldable pub default : LogLevel
default = LogLevel.error

-- impl Into<LoggingSeverity> for &LogLevel
unfoldable pub severity : LogLevel → LoggingSeverity
severity LogLevel.none = ls_none
severity LogLevel.info = ls_info
severity LogLevel.warn = ls_warning
severity LogLevel.error = ls_error
severity LogLevel.verbose = ls_verbose

abbrev of_webrtc : Option WebrtcLogLevel → LogLevel
of_webrtc (Option.some WebrtcLogLevel.none) = LogLevel.none
of_webrtc (Option.some WebrtcLogLevel.info) = LogLevel.info
of_webrtc (Option.some WebrtcLogLevel.warn) = LogLevel.warn
of_webrtc (Option.some WebrtcLogLevel.error) = LogLevel.error
of_webrtc (Option.some WebrtcLogLevel.verbose) = LogLevel.verbose
of_webrtc Option.none = LogLevel.none

module _ ⦃P : Platform⦄ where
  open P use {World, set_arcas_log_level, log_level_from_i32}

  unfoldable pub set_log_level : LogLevel → World → World
  unfolding severity
  set_log_level l w = set_arcas_log_level (severity l) w

  -- impl From<i32> for LogLevel
  unfoldable pub from_i32 : ℕ → LogLevel
  from_i32 n = of_webrtc (log_level_from_i32 n)
