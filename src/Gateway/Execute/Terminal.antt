-- ===== src/Gateway/Execute/Terminal.antt =====
-- The terminal record of an execution, and what joining its outcome does to the result.
use omne_runtime.Base.{
  Option-cases, inr, Result-cases, inl, sym, Bool-cases, [], ◌∷◌, ◌++◌, refl, ◌⊎◌, arith, Text,
  none, false, ◌≡◌, err, some, Bytes, ok, Option,
}
use omne_runtime.Gateway.AuditLog.{sink_write, logger_write, from_execution, Log, AuditIo}
use omne_runtime.Gateway.AuditLog.Records.{
  logger_write-err, sink_write-err, sink_write-Extends, logger_write-Extends,
  logger_write-IsWorking, sink_write-IsWorking, IsWorking, Extends,
}
use omne_runtime.Gateway.Combine.{
  is_audit_error, audit_error_already_reported, combine_result_with_audit_write,
  combine_exit_status_with_audit_write,
}
use omne_runtime.Gateway.Error.{
  audit_log_write_failed_after_execution_success, audit_log_write_failed, ExecError,
  error_completed_status, ExitStatus, ExecResult,
}
use omne_runtime.Gateway.Execute.{write_terminal_record}
use omne_runtime.Gateway.Host.{Crates}
use omne_runtime.Gateway.Prepare.{ExecGateway}
use omne_runtime.Gateway.Types.{ExecEvent}

-- The exit status that a result carries, also behind a failed audit write.
abbrev pub result_status : ExecResult ExitStatus → Option ExitStatus
result_status (ok status) = some status
result_status (err e) = error_completed_status e

not-completed_of_fresh :
    (e : ExecError) → is_audit_error e ≡ false → error_completed_status e ≡ none
unfolding is_audit_error
not-completed_of_fresh (audit_log_write_failed_after_execution_success path detail status) h = cc
not-completed_of_fresh _ h = refl

module _ (crates : Crates) where
  combine-result_status :
      (result : ExecResult ExitStatus) (audit_result : ExecResult (Unit {0}))
      → audit_error_already_reported result ≡ false
      → ((e : ExecError)
          → audit_result ≡ err e
          → (path : Bytes) × ((detail : Text) × (e ≡ audit_log_write_failed path detail)))
      → result_status (combine_exit_status_with_audit_write crates result audit_result)
        ≡ result_status result
  unfolding combine_exit_status_with_audit_write combine_result_with_audit_write
      audit_error_already_reported is_audit_error
  combine-result_status (ok status) (ok u) fresh only = refl
  combine-result_status (err e) (ok u) fresh only = refl
  combine-result_status (ok status) (err a) fresh only =
      let (path, (detail, q)) = only a refl in rw q refl
  combine-result_status (err e) (err a) fresh only =
      let (path, (detail, q)) = only a refl in rw q (sym (not-completed_of_fresh e fresh))

module _ (crates : Crates) (gateway : ExecGateway) (io : AuditIo) (event : ExecEvent) where
  module _ (result : ExecResult ExitStatus) (sink : Option Bytes) (log : Log) where
    -- Joining the outcome of the terminal record to a result keeps the exit status that the result
    -- carries.
    pub result_status-write_terminal_record :
        result_status (write_terminal_record crates gateway io event result sink log).0
        ≡ result_status result
    unfolding write_terminal_record
    result_status-write_terminal_record = elim (Bool-cases (audit_error_already_reported result)) [
      | inl reported ↦ ground arith
      | inr fresh ↦ elim (Option-cases sink) [
        | inr (path, q) ↦
            let kept =
              combine-result_status crates result
                (sink_write io path event (from_execution crates result) log).0 fresh
                (λ e h. (path, sink_write-err io path event _ log e h)) in
            ground (arith, kept)
        | inl q ↦ elim (Option-cases gateway.policy.audit_log_path) [
          | inl off ↦ ground arith
          | inr (path, on) ↦
              let kept =
                combine-result_status crates result
                  (logger_write io path event (from_execution crates result) log).0 fresh
                  (λ e h. (path, logger_write-err io path event _ log e h)) in
              ground (arith, kept)
        ]
      ]
    ]

    pub write_terminal_record-Extends :
        (path : Bytes)
        → gateway.policy.audit_log_path ≡ some path
        → (sink ≡ none) ⊎ (sink ≡ some path)
        → Extends log path event (write_terminal_record crates gateway io event result sink log).1
    unfolding write_terminal_record
    write_terminal_record-Extends path configured from =
        elim (Bool-cases (audit_error_already_reported result)) [
          | inl reported ↦ inl (ground arith)
          | inr fresh ↦ elim from [
            | inl closed ↦
                let e : (write_terminal_record crates gateway io event result sink log).1
                    ≡ (logger_write io path event (from_execution crates result) log).1 =
                  ground arith in
                rw e (logger_write-Extends io path event _ log)
            | inr open_sink ↦
                let e : (write_terminal_record crates gateway io event result sink log).1
                    ≡ (sink_write io path event (from_execution crates result) log).1 =
                  ground arith in
                rw e (sink_write-Extends io path event _ log)
          ]
        ]

    pub write_terminal_record-unconfigured :
        gateway.policy.audit_log_path ≡ none
        → sink ≡ none
        → write_terminal_record crates gateway io event result sink log ≡ (result, log)
    unfolding write_terminal_record
    write_terminal_record-unconfigured off closed = ground arith

    pub write_terminal_record-IsWorking :
        (path : Bytes)
        → gateway.policy.audit_log_path ≡ some path
        → (sink ≡ none) ⊎ (sink ≡ some path)
        → IsWorking io
        → audit_error_already_reported result ≡ false
        → write_terminal_record crates gateway io event result sink log ≡ (
          result,
          log
              ++ (
                path,
                record {
                  ts_unix_ms = io.now_unix_ms;
                  event = event;
                  result = from_execution crates result;
                },
              )
                ∷ [],
        )
    unfolding write_terminal_record combine_exit_status_with_audit_write
        combine_result_with_audit_write
    write_terminal_record-IsWorking path configured from w fresh =
        let by_sink = sink_write-IsWorking io path event (from_execution crates result) log w in
        let by_logger = logger_write-IsWorking io path event (from_execution crates result) log w in
        elim (Result-cases result) [
          | inl (status, q) ↦ ground (arith, by_sink, by_logger)
          | inr (e, q) ↦ ground (arith, by_sink, by_logger)
        ]
