-- ===== src/Gateway/PreparedCommand.antt =====
-- The life of a prepared command: `prepare_command`, `PreparedCommand::spawn` and `PreparedChild` of
-- crates/omne-execution-gateway/src/gateway.rs. A child holds the audit sink until its one terminal
-- record is written, at the latest when it is dropped.
pub mod Life
use omne_runtime.Base.{
  ℕ, Option, none, some, List, Text, Bytes, codes, ok, err, map_ok, if◌then◌else◌,
}
use omne_runtime.Gateway.Error.{ExitStatus, ExecError, ExecResult, spawn}
use omne_runtime.Gateway.Types.{
  ExecRequest, ExecEvent, SandboxRuntimeObservation, ExecStdioMode, null, piped,
}
use omne_runtime.Gateway.Host.{FileSystem, Crates}
use omne_runtime.Gateway.Prepare.{ExecGateway, PreparedExecRequest, prepare_request}
use omne_runtime.Gateway.AuditLog.{
  AuditIo, Log, from_prepare, from_execution, from_execution_error, detached, sink_write,
  logger_write,
}
use omne_runtime.Gateway.Combine.{
  combine_result_with_audit_write, combine_exit_status_with_audit_write,
  audit_error_already_reported, event_for_post_preflight_error,
}
use omne_runtime.Gateway.Execute.{
  Processes, Machine, ExecutionOutcome, prepare_audit_sink, ready_command, spawn_command,
}

pub record PreparedCommand : Type 0 where
  pub args : List Bytes
  pub prepared : PreparedExecRequest
  pub audit_sink : Option Bytes
  pub stdin_mode : ExecStdioMode
  pub stdout_mode : ExecStdioMode
  pub stderr_mode : ExecStdioMode

pub record PreparedChild : Type 0 where
  pub child : ℕ
  pub sandbox_runtime : Option SandboxRuntimeObservation
  pub event : ExecEvent
  pub audit_sink : Option Bytes

unfoldable pub with_piped_stdin : PreparedCommand → PreparedCommand
with_piped_stdin c = record c {
  stdin_mode = piped;
  prepared = record (c.prepared) { event = record (c.prepared.event) { stdin_mode = piped } };
}

unfoldable pub with_piped_stdout : PreparedCommand → PreparedCommand
with_piped_stdout c = record c {
  stdout_mode = piped;
  prepared = record (c.prepared) { event = record (c.prepared.event) { stdout_mode = piped } };
}

unfoldable pub with_piped_stderr : PreparedCommand → PreparedCommand
with_piped_stderr c = record c {
  stderr_mode = piped;
  prepared = record (c.prepared) { event = record (c.prepared.event) { stderr_mode = piped } };
}

-- The value of `prepare_command` before its sink is attached.
abbrev new_command : PreparedExecRequest → ExecRequest → PreparedCommand
new_command prepared request = record {
  args = request.args;
  prepared = prepared;
  audit_sink = none;
  stdin_mode = null;
  stdout_mode = null;
  stderr_mode = null;
}

abbrev attach : Option Bytes → PreparedCommand → PreparedCommand
attach sink c = record c { audit_sink = sink }

module _ (crates : Crates) (gateway : ExecGateway) where
  -- The prepare record. The sink is kept for the child if everything went well.
  unfoldable pub write_prepare_record :
      AuditIo
      → ExecEvent
      → ExecResult PreparedCommand
      → Option Bytes
      → Log
      → ExecResult PreparedCommand × Log
  write_prepare_record io event result sink log =
      if audit_error_already_reported result
      then (map_ok (attach none) result, log)
      else elim sink [
        | some path ↦
            let (audit_result, log') = sink_write io path event (from_prepare crates result) log in
            (
              map_ok (attach (some path))
                  (combine_result_with_audit_write crates result audit_result),
              log',
            )
        | none ↦ elim gateway.policy.audit_log_path [
          | some path ↦
              let (audit_result, log') =
                logger_write io path event (from_prepare crates result) log in
              (
                map_ok (attach none) (combine_result_with_audit_write crates result audit_result),
                log',
              )
          | none ↦ (map_ok (attach none) result, log)
        ]
      ]

  unfoldable pub prepare_command :
      List Bytes
      → FileSystem
      → AuditIo
      → AuditIo
      → ExecRequest
      → Log
      → ExecEvent × (ExecResult PreparedCommand × Log)
  prepare_command trusted fs io io' request log =
      elim (prepare_request crates gateway trusted fs request) [
        | err e ↦ (e.event, write_prepare_record io' e.event (err e.error) none log)
        | ok prepared ↦ elim (prepare_audit_sink gateway io prepared.event) [
          | err e ↦ (e.event, write_prepare_record io' e.event (err e.error) none log)
          | ok sink ↦ (
            prepared.event,
            write_prepare_record io' prepared.event (ok (new_command prepared request)) sink log,
          )
        ]
      ]

module _ (crates : Crates) where
  -- The record of a spawn that failed; the sink is still there.
  unfoldable pub write_spawn_error :
      AuditIo → ExecEvent → ExecError → Option Bytes → Log → ExecResult PreparedChild × Log
  write_spawn_error io event error sink log = elim sink [
    | none ↦ (err error, log)
    | some path ↦
        let (audit_result, log') =
          sink_write io path (event_for_post_preflight_error event error)
            (from_execution_error crates error) log in
        (combine_result_with_audit_write crates (err error) audit_result, log')
  ]

  -- `PreparedCommand::spawn`
  unfoldable pub spawn_prepared :
      FileSystem
      → Processes
      → AuditIo
      → PreparedCommand
      → Machine
      → ExecResult PreparedChild × Machine
  spawn_prepared fs processes io c m =
      let event = c.prepared.event in
      elim (ready_command crates fs processes c.prepared c.args c.stdin_mode c.stdout_mode
        c.stderr_mode) [
          | err e ↦
              let (result, log) = write_spawn_error io event e c.audit_sink m.log in
              (result, record m { log = log })
          | ok (command, observation) ↦
              let (child, spawned) = spawn_command crates fs processes command m.spawned in
              elim child [
                | err e ↦
                    let (result, log) = write_spawn_error io event e c.audit_sink m.log in
                    (result, record { spawned = spawned; log = log })
                | ok pid ↦ (
                  ok (record {
                    child = pid;
                    sandbox_runtime = observation;
                    event = event;
                    audit_sink = c.audit_sink;
                  }),
                  record m { spawned = spawned },
                )
              ]
        ]

  unfoldable pub event_with_runtime : PreparedChild → ExecEvent
  event_with_runtime c = record (c.event) { sandbox_runtime = c.sandbox_runtime }

  -- `finalize_result` takes the sink out of the child.
  unfoldable pub finalize_result :
      AuditIo
      → ExecResult ExitStatus
      → PreparedChild
      → Log
      → ExecResult ExitStatus × PreparedChild × Log
  finalize_result io result c log =
      let c' = record c { audit_sink = none } in
      elim c.audit_sink [
        | none ↦ (combine_exit_status_with_audit_write crates result (ok tt), c', log)
        | some path ↦
            let (audit_result, log') =
              sink_write io path (event_with_runtime c) (from_execution crates result) log in
            (combine_exit_status_with_audit_write crates result audit_result, c', log')
      ]

  abbrev dropped_detail : Text
  dropped_detail = codes "prepared child dropped without wait/try_wait"

  -- `Drop`: the record of a child that is let go, if it has not written one.
  unfoldable pub finalize_on_drop : Processes → AuditIo → PreparedChild → Log → Log
  finalize_on_drop processes io c log = elim c.audit_sink [
    | none ↦ log
    | some path ↦
        let event = event_with_runtime c in
        elim (processes.try_wait_process c.child) [
          | ok (some status) ↦ (sink_write io path event (from_execution crates (ok status)) log).1
          | ok none ↦ (sink_write io path event (detached crates dropped_detail) log).1
          | err e ↦ (sink_write io path event (from_execution_error crates (spawn e)) log).1
        ]
  ]

  -- `PreparedChild::try_wait`
  unfoldable pub try_wait :
      Processes
      → AuditIo
      → PreparedChild
      → Log
      → ExecResult (Option ExitStatus) × PreparedChild × Log
  try_wait processes io c log = elim (processes.try_wait_process c.child) [
    | err e ↦ (err (spawn e), c, log)
    | ok none ↦ (ok none, c, log)
    | ok (some status) ↦
        let (result, c', log') = finalize_result io (ok status) c log in
        (map_ok some result, c', log')
  ]

  -- `PreparedChild::wait`, and the drop of the child behind it.
  unfoldable pub wait : Processes → AuditIo → AuditIo → PreparedChild → Log → ExecutionOutcome × Log
  wait processes io io' c log =
      let event = event_with_runtime c in
      elim (processes.wait_process c.child) [
        | err e ↦
            (record { event = event; result = err (spawn e) }, finalize_on_drop processes io' c log)
        | ok status ↦
            let (result, c', log') = finalize_result io (ok status) c log in
            (record { event = event; result = result }, finalize_on_drop processes io' c' log')
      ]
