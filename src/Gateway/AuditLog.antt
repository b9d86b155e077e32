-- ===== src/Gateway/AuditLog.antt =====
-- crates/omne-execution-gateway/src/audit_log.rs: the records of the audit log and how they are
-- written.
pub mod Records
use omne_runtime.Base.{
  ℕ, zero, suc, ◌+◌, Bool, Option, none, some, String, List, [], ◌∷◌, ◌++◌, Text, Bytes, codes,
  decimal, Result, ok, err, map_err, if◌then◌else◌,
}
use omne_runtime.Gateway.Error.{
  ExitStatus, exited, signaled, code, success, IoError, ExecError, ExecResult, spawn,
  audit_log_unavailable, audit_log_write_failed,
}
use omne_runtime.Gateway.Types.{ExecEvent}
use omne_runtime.Gateway.Host.{Crates}

pub record AuditResult : Type 0 where
  pub status : String
  pub error : Option Text
  pub exit_code : Option ℕ
  pub success : Option Bool
  pub signal : Option ℕ

pub record AuditRecord : Type 0 where
  pub ts_unix_ms : ℕ
  pub event : ExecEvent
  pub result : AuditResult

-- What the operating system and `serde_json` answer while one record is written.
pub record AuditIo : Type 0 where
  pub now_unix_ms : ℕ
  -- opening the log at a path, at each attempt
  pub open_appendable : Bytes → ℕ → Result IoError (Unit {0})
  pub serialize : AuditRecord → Result Text Bytes
  pub lock_exclusive : Result IoError (Unit {0})
  -- the seek to the end, the line and the flush
  pub write_line : Result IoError (Unit {0})
  pub unlock : Result IoError (Unit {0})

-- The records that have been written, oldest first, each with the path of its log.
abbrev pub Log : Type 0
Log = List (Bytes × AuditRecord)

-- `exit_status_signal` on Unix.
abbrev pub exit_status_signal : ExitStatus → Option ℕ
exit_status_signal (exited c) = none
exit_status_signal (signaled s) = some s

abbrev signal_message : Option ℕ → Option Text
signal_message none = none
signal_message (some s) = some (codes "process terminated by signal " ++ decimal s)

unfoldable pub failed : String → Text → AuditResult
failed status message = record {
  status = status;
  error = some message;
  exit_code = none;
  success = none;
  signal = none;
}

module _ (crates : Crates) where
  unfoldable pub from_prepare : {A : Type 0} → ExecResult A → AuditResult
  from_prepare (ok a) = record {
    status = "prepared";
    error = none;
    exit_code = none;
    success = none;
    signal = none;
  }
  from_prepare (err e) = failed "prepare_error" (crates.display e)

  unfoldable pub from_execution : ExecResult ExitStatus → AuditResult
  from_execution (ok status) = record {
    status = "exited";
    error = signal_message (exit_status_signal status);
    exit_code = code status;
    success = some (success status);
    signal = exit_status_signal status;
  }
  from_execution (err (spawn e)) = failed "spawn_error" e.message
  from_execution (err e) = failed "prepare_error" (crates.display e)

  unfoldable pub from_execution_error : ExecError → AuditResult
  from_execution_error (spawn e) = failed "spawn_error" e.message
  from_execution_error e = failed "execution_error" (crates.display e)

  unfoldable pub detached : Text → AuditResult
  detached detail = failed "detached" detail

module _ (io : AuditIo) where
  -- The retry loop of `try_open_sink`; a file that is not found is tried again.
  unfoldable pub open_attempts : ℕ → ℕ → Option IoError → Bytes → Result IoError (Unit {0})
  open_attempts zero attempt none path = err (record {
    is_not_found = Bool.false;
    message = codes "audit log open failed without an error";
  })
  open_attempts zero attempt (some e) path = err e
  open_attempts (suc left) attempt last path =
      let again = λ (e : IoError). open_attempts left (attempt + 1) (some e) path in
      elim (io.open_appendable path attempt) [
        | ok u ↦ ok u
        | err e ↦ if e.is_not_found then again e else err e
      ]

  -- `try_open_sink`, with four attempts.
  unfoldable pub try_open_sink : Bytes → Result IoError (Unit {0})
  try_open_sink path = open_attempts 4 0 none path

  -- `AuditLogger::prepare_sink`: a sink is known by its path.
  unfoldable pub prepare_sink : Bytes → ExecResult Bytes
  prepare_sink path = elim (try_open_sink path) [
    | ok u ↦ ok path
    | err e ↦ err (audit_log_unavailable path e.message)
  ]

  unfoldable pub finish_locked_write :
      Result IoError (Unit {0}) → Result IoError (Unit {0}) → Result Text (Unit {0})
  finish_locked_write (ok u) (ok v) = ok tt
  finish_locked_write (ok u) (err unlock_error) = err unlock_error.message
  finish_locked_write (err write_error) (ok v) = err write_error.message
  finish_locked_write (err write_error) (err unlock_error) = err (
      codes "audit log write failed: "
      ++ (write_error.message
          ++ (codes "; failed to release audit log lock: " ++ unlock_error.message)))

  -- What the attempt returns, and the log behind it.
  unfoldable pub try_write_record : Bytes → AuditRecord → Log → Result Text (Unit {0}) × Log
  try_write_record path entry log = elim (io.serialize entry) [
    | err message ↦ (err message, log)
    | ok line ↦ elim io.lock_exclusive [
      | err e ↦ (err e.message, log)
      | ok u ↦ (
        finish_locked_write io.write_line io.unlock,
        elim io.write_line [ ok v ↦ log ++ (path, entry) ∷ [] | err e ↦ log ],
      )
    ]
  ]

  -- `PreparedAuditSink::write_record`
  unfoldable pub sink_write : Bytes → ExecEvent → AuditResult → Log → ExecResult (Unit {0}) × Log
  sink_write path event result log =
      let entry : AuditRecord = record {
        ts_unix_ms = io.now_unix_ms;
        event = event;
        result = result;
      } in
      let (outcome, log') = try_write_record path entry log in
      (map_err outcome (λ detail. audit_log_write_failed path detail), log')

  -- `AuditLogger::write_record`: open, then write.
  unfoldable pub logger_write : Bytes → ExecEvent → AuditResult → Log → ExecResult (Unit {0}) × Log
  logger_write path event result log = elim (try_open_sink path) [
    | err e ↦ (err (audit_log_write_failed path e.message), log)
    | ok u ↦ sink_write path event result log
  ]
