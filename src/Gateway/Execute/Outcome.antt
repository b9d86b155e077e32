-- ===== src/Gateway/Execute/Outcome.antt =====
-- What the outcome of `execute` says of the process, and which audit records an execution leaves.
use omne_runtime.Base.{
  refl, inl, err, inr, Result-cases, arith, ok, some, none, ◌≡◌, Option, Bytes, List,
}
use omne_runtime.Gateway.AuditLog.{try_open_sink, prepare_sink, AuditIo}
use omne_runtime.Gateway.AuditLog.Records.{Extends}
use omne_runtime.Gateway.Error.{ExitStatus}
use omne_runtime.Gateway.Execute.{
  deny_preflight, write_terminal_record, run_prepared, ExitStatus, prepare_request,
  SandboxRuntimeObservation, PreparedExecRequest, execute, completed_status, finish, Machine,
  ExecRequest, Processes, prepare_audit_sink,
}
use omne_runtime.Gateway.Execute.Effects.{execute-unlogged, execute-prepared, execute-refused}
use omne_runtime.Gateway.Execute.Terminal.{
  write_terminal_record-unconfigured, write_terminal_record-Extends,
  result_status-write_terminal_record,
}
use omne_runtime.Gateway.Host.{FileSystem, Crates}
use omne_runtime.Gateway.Prepare.{deny_preflight, prepare_request, PreparedExecRequest, ExecGateway}
use omne_runtime.Gateway.Types.{SandboxRuntimeObservation, ExecRequest, ExecEvent}

prepare_sink-path :
    (io : AuditIo) (path sink : Bytes) → prepare_sink io path ≡ ok sink → sink ≡ path
unfolding prepare_sink
prepare_sink-path io path sink h = elim (Result-cases (try_open_sink io path)) [
  | inl (u, q) ↦ ground arith
  | inr (e, q) ↦ ground arith
]

module _ (gateway : ExecGateway) (io : AuditIo) (event : ExecEvent) where
  -- The sink of an execution is that of the configured log.
  prepare_audit_sink-path :
      (path : Bytes) (sink : Option Bytes)
      → gateway.policy.audit_log_path ≡ some path
      → prepare_audit_sink gateway io event ≡ ok sink
      → sink ≡ some path
  unfolding prepare_audit_sink
  prepare_audit_sink-path path sink configured h = elim (Result-cases (prepare_sink io path)) [
    | inl (opened, q) ↦
        let e : prepare_audit_sink gateway io event ≡ ok (some opened) =
          rw (prepare_audit_sink, configured, q) refl in
        let same = prepare_sink-path io path opened q in cc
    | inr (e, q) ↦
        let r : prepare_audit_sink gateway io event
            ≡ err (deny_preflight event "audit_log_unavailable" e) =
          rw (prepare_audit_sink, configured, q) refl in
        cc
  ]

  prepare_audit_sink-none :
      gateway.policy.audit_log_path ≡ none → prepare_audit_sink gateway io event ≡ ok none
  unfolding prepare_audit_sink
  prepare_audit_sink-none off = ground arith

module _ (crates : Crates) (gateway : ExecGateway) (trusted : List Bytes) (fs fs' : FileSystem)
    (processes : Processes) (io io' : AuditIo) (r : ExecRequest) (m : Machine) where
  -- When the request was prepared, the audit log was opened or is not configured, and the process
  -- was waited for, the outcome of the execution reports the exit status of the process, whatever
  -- the write of the terminal record answers.
  pub execute-completed_status :
      (p : PreparedExecRequest) (sink : Option Bytes)
      (observation : Option SandboxRuntimeObservation) (status : ExitStatus)
      → prepare_request crates gateway trusted fs r ≡ ok p
      → prepare_audit_sink gateway io p.event ≡ ok sink
      → (run_prepared crates fs' processes p r.args m.spawned).0 ≡ ok (observation, status)
      → completed_status (execute crates gateway trusted fs fs' processes io io' r m).0
        ≡ some status
  unfolding finish completed_status
  execute-completed_status p sink observation status q s run =
      let event = record p.event { sandbox_runtime = observation } in
      let kept =
        result_status-write_terminal_record crates gateway io' event (ok status) sink m.log in
      rw (execute-prepared crates gateway trusted fs fs' processes io io' r m p sink q s, run)
        (elim (Result-cases
          (write_terminal_record crates gateway io' event (ok status) sink m.log).0) [
            | inl (final, w) ↦ ground (arith, kept)
            | inr (e, w) ↦ ground (arith, kept)
          ])

  -- With an audit log configured, an execution leaves the log as it is or adds one record at its
  -- end, at the configured path and for the event of its outcome.
  pub execute-Extends :
      (path : Bytes)
      → gateway.policy.audit_log_path ≡ some path
      → let (outcome, m') = execute crates gateway trusted fs fs' processes io io' r m in
        Extends m.log path outcome.event m'.log
  unfolding finish
  execute-Extends path configured =
      elim (Result-cases (prepare_request crates gateway trusted fs r)) [
        | inr (e, q) ↦ rw (execute-refused crates gateway trusted fs fs' processes io io' r m e q) (
            write_terminal_record-Extends crates gateway io' e.event (err e.error) none m.log path
              configured (inl refl))
        | inl (p, q) ↦ elim (Result-cases (prepare_audit_sink gateway io p.event)) [
          | inr (e, s) ↦
              rw (execute-unlogged crates gateway trusted fs fs' processes io io' r m p e q s) (
                write_terminal_record-Extends crates gateway io' e.event (err e.error) none m.log
                  path configured (inl refl))
          | inl (sink, s) ↦
              rw (execute-prepared crates gateway trusted fs fs' processes io io' r m p sink q s) (
                write_terminal_record-Extends crates gateway io' _ _ sink m.log path configured
                  (inr (prepare_audit_sink-path gateway io p.event path sink configured s)))
        ]
      ]

  -- Without a configured audit log, an execution writes no record.
  pub execute-unconfigured :
      gateway.policy.audit_log_path ≡ none
      → (execute crates gateway trusted fs fs' processes io io' r m).1.log ≡ m.log
  unfolding finish
  execute-unconfigured off = elim (Result-cases (prepare_request crates gateway trusted fs r)) [
    | inr (e, q) ↦
        rw
          (
            execute-refused crates gateway trusted fs fs' processes io io' r m e q,
            write_terminal_record-unconfigured crates gateway io' e.event (err e.error) none m.log
                off refl,
          )
          refl
    | inl (p, q) ↦
        rw
          (
            execute-prepared crates gateway trusted fs fs' processes io io' r m p none q
                (prepare_audit_sink-none gateway io p.event off),
            write_terminal_record-unconfigured crates gateway io' _ _ none m.log off refl,
          )
          refl
  ]
