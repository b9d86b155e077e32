-- ===== src/Gateway/Execute.antt =====
-- `ExecGateway::execute` of crates/omne-execution-gateway/src/gateway.rs: prepare, open the audit log,
-- revalidate, spawn, wait, and write one terminal record.
pub mod Terminal
pub mod Effects
pub mod Outcome
use omne_runtime.Base.{
  ℕ, Bool, Option, none, some, List, [], ◌∷◌, ◌++◌, Bytes, Result, ok, err, ◌>>=◌, ◌>>◌, map_err,
  is_some_and, if◌then◌else◌,
}
use omne_runtime.Gateway.Error.{
  ExitStatus, success, IoError, ExecError, ExecResult, spawn, error_completed_status,
}
use omne_runtime.Gateway.Types.{
  ExecRequest, ExecEvent, SandboxRuntimeObservation, ExecStdioMode, null,
}
use omne_runtime.Gateway.Host.{FileSystem, Crates}
use omne_runtime.Gateway.Policy.{GatewayPolicy}
use omne_runtime.Gateway.Directories.{revalidate_prepared_request_paths}
use omne_runtime.Gateway.Programs.{revalidate_bound_program}
use omne_runtime.Gateway.Prepare.{
  ExecGateway, PreparedExecRequest, PreflightError, prepare_request, deny_preflight,
}
use omne_runtime.Gateway.AuditLog.{
  AuditIo, Log, from_execution, prepare_sink, sink_write, logger_write,
}
use omne_runtime.Gateway.Sandbox.{Command, apply_sandbox, build_command}
use omne_runtime.Gateway.Combine.{
  combine_exit_status_with_audit_write, audit_error_already_reported,
  event_for_post_preflight_error,
}

-- What the operating system answers about processes, which are numbers.
pub record Processes : Type 0 where
  pub spawn_process : Command → Result IoError ℕ
  pub wait_process : ℕ → Result IoError ExitStatus
  pub try_wait_process : ℕ → Result IoError (Option ExitStatus)

-- The effects of the gateway: the processes started and the audit records written, oldest first.
pub record Machine : Type 0 where
  pub spawned : List Command
  pub log : Log

pub record ExecutionOutcome : Type 0 where
  pub event : ExecEvent
  pub result : ExecResult ExitStatus

-- `ExecutionOutcome::completed_status`
unfoldable pub completed_status : ExecutionOutcome → Option ExitStatus
completed_status o = elim o.result [ ok status ↦ some status | err e ↦ error_completed_status e ]

-- `ExecutionOutcome::command_completed_successfully`
unfoldable pub command_completed_successfully : ExecutionOutcome → Bool
command_completed_successfully o = is_some_and (completed_status o) success

-- `PreparedAuditSink` is known by its path; `none` stands for no audit log.
unfoldable pub prepare_audit_sink :
    ExecGateway → AuditIo → ExecEvent → Result PreflightError (Option Bytes)
prepare_audit_sink gateway io event = elim gateway.policy.audit_log_path [
  | none ↦ ok none
  | some path ↦ elim (prepare_sink io path) [
    | ok sink ↦ ok (some sink)
    | err e ↦ err (deny_preflight event "audit_log_unavailable" e)
  ]
]

module _ (crates : Crates) (fs : FileSystem) where
  -- `revalidate_prepared_request`
  unfoldable pub revalidate_prepared_request : PreparedExecRequest → ExecResult (Unit {0})
  revalidate_prepared_request prepared = do
    revalidate_bound_program fs crates prepared.bound_program
    revalidate_prepared_request_paths fs prepared.resolved_paths

  module _ (processes : Processes) where
    -- `spawn_command_with_monitor`, with the process that it starts.
    unfoldable pub spawn_command : Command → List Command → ExecResult ℕ × List Command
    spawn_command command spawned = elim (processes.spawn_process command) [
      | err e ↦ (err (spawn e), spawned)
      | ok child ↦ (ok child, spawned ++ command ∷ [])
    ]

    -- Everything between the validation and the process.
    unfoldable pub ready_command :
        PreparedExecRequest
        → List Bytes
        → ExecStdioMode
        → ExecStdioMode
        → ExecStdioMode
        → ExecResult (Command × Option SandboxRuntimeObservation)
    ready_command prepared args stdin_mode stdout_mode stderr_mode = do
      revalidate_prepared_request prepared
      observation ← apply_sandbox prepared.required_isolation
      ok (build_command prepared args stdin_mode stdout_mode stderr_mode, observation)

    unfoldable pub wait_status : ℕ → ExecResult ExitStatus
    wait_status child = map_err (processes.wait_process child) spawn

    -- The closure of `execute` that runs the prepared request.
    unfoldable pub run_prepared :
        PreparedExecRequest
        → List Bytes
        → List Command
        → ExecResult (Option SandboxRuntimeObservation × ExitStatus) × List Command
    run_prepared prepared args spawned = elim (ready_command prepared args null null null) [
      | err e ↦ (err e, spawned)
      | ok (command, observation) ↦
          let (child, spawned') = spawn_command command spawned in
          (do c ← child; status ← wait_status c; ok (observation, status), spawned')
    ]

module _ (crates : Crates) (gateway : ExecGateway) where
  -- The terminal record: by the open sink, by a fresh one, or none.
  unfoldable pub write_terminal_record :
      AuditIo → ExecEvent → ExecResult ExitStatus → Option Bytes → Log → ExecResult ExitStatus × Log
  write_terminal_record io event result sink log =
      if audit_error_already_reported result then (result, log) else elim sink [
        | some path ↦
            let (audit_result, log') =
              sink_write io path event (from_execution crates result) log in
            (combine_exit_status_with_audit_write crates result audit_result, log')
        | none ↦ elim gateway.policy.audit_log_path [
          | some path ↦
              let (audit_result, log') =
                logger_write io path event (from_execution crates result) log in
              (combine_exit_status_with_audit_write crates result audit_result, log')
          | none ↦ (result, log)
        ]
      ]

  unfoldable pub finish :
      AuditIo
      → ExecEvent
      → ExecResult ExitStatus
      → Option Bytes
      → List Command
      → Log
      → ExecutionOutcome × Machine
  finish io event result sink spawned log =
      let (result', log') = write_terminal_record io event result sink log in
      (record { event = event; result = result' }, record { spawned = spawned; log = log' })

  -- `fs` answers during the preparation, `fs'` from the revalidation on; `io` while the log is
  -- opened, `io'` while the record is written.
  unfoldable pub execute :
      List Bytes
      → FileSystem
      → FileSystem
      → Processes
      → AuditIo
      → AuditIo
      → ExecRequest
      → Machine
      → ExecutionOutcome × Machine
  execute trusted fs fs' processes io io' request m =
      elim (prepare_request crates gateway trusted fs request) [
        | err e ↦ finish io' e.event (err e.error) none m.spawned m.log
        | ok prepared ↦ elim (prepare_audit_sink gateway io prepared.event) [
          | err e ↦ finish io' e.event (err e.error) none m.spawned m.log
          | ok sink ↦
              let (result, spawned) =
                run_prepared crates fs' processes prepared request.args m.spawned in
              elim result [
                | ok (observation, status) ↦
                    finish io' (record prepared.event { sandbox_runtime = observation }) (ok status)
                      sink spawned m.log
                | err e ↦
                    finish io' (event_for_post_preflight_error prepared.event e) (err e) sink
                      spawned m.log
              ]
        ]
      ]
