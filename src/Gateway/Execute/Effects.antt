-- ===== src/Gateway/Execute/Effects.antt =====
-- The effects of `execute`: which process it starts, which record it writes, and what its outcome says.
use omne_runtime.Base.{
  none, err, refl, sym, ◌∙◌, inl, arith, inr, Result-cases, [], ◌∷◌, ◌++◌, ℕ, ◌⊎◌, ok, Option, ◌≡◌,
  Bytes, List,
}
use omne_runtime.Gateway.AuditLog.{AuditIo}
use omne_runtime.Gateway.Combine.{event_for_post_preflight_error}
use omne_runtime.Gateway.Error.{ExecResult, ExitStatus}
use omne_runtime.Gateway.Execute.{
  event_for_post_preflight_error, PreflightError, ExecEvent, prepare_audit_sink, Machine, AuditIo,
  finish, execute, ExitStatus, revalidate_prepared_request, SandboxRuntimeObservation, wait_status,
  null, ExecStdioMode, spawn_command, prepare_request, build_command, apply_sandbox, run_prepared,
  ready_command, ExecRequest, Command, Processes,
}
use omne_runtime.Gateway.Host.{FileSystem, Crates}
use omne_runtime.Gateway.Isolation.{ExecutionIsolation}
use omne_runtime.Gateway.Prepare.{PreflightError, prepare_request, ExecGateway, PreparedExecRequest}
use omne_runtime.Gateway.Prepare.Safety.{prepare_request-IsPrepared}
use omne_runtime.Gateway.Sandbox.{build_command, apply_sandbox, Command}
use omne_runtime.Gateway.Types.{
  ExecEvent, SandboxRuntimeObservation, null, ExecStdioMode, ExecRequest,
}

abbrev pub start_of : PreparedExecRequest → List Bytes → Command
start_of p args = build_command p args null null null

-- A process was started: for a prepared request, revalidated, that asks for no isolation.
pub record IsLaunch (crates : Crates) (gateway : ExecGateway) (trusted : List Bytes)
    (fs fs' : FileSystem) (r : ExecRequest) (before after : List Command) : Type 0 where
  pub prepared : PreparedExecRequest
  pub accepted : prepare_request crates gateway trusted fs r ≡ ok prepared
  pub revalidated : revalidate_prepared_request crates fs' prepared ≡ ok tt
  pub unsandboxed : r.required_isolation ≡ ExecutionIsolation.none
  pub started : after ≡ before ++ start_of prepared r.args ∷ []

module _ (crates : Crates) (fs' : FileSystem) (processes : Processes) where
  ready_command_inv :
      (p : PreparedExecRequest) (args : List Bytes) (i o e : ExecStdioMode) (command : Command)
      (observation : Option SandboxRuntimeObservation)
      → ready_command crates fs' processes p args i o e ≡ ok (command, observation)
      → (revalidate_prepared_request crates fs' p ≡ ok tt)
        × (p.required_isolation ≡ ExecutionIsolation.none)
        × (command ≡ build_command p args i o e)
  unfolding ready_command apply_sandbox
  ready_command_inv p args i o e command observation h = (ground arith, ground arith, ground arith)

  -- Either nothing is started, or the command of a revalidated request is.
  run_prepared-spawned :
      (p : PreparedExecRequest) (args : List Bytes) (before : List Command)
      → ((run_prepared crates fs' processes p args before).1 ≡ before)
        ⊎ ((revalidate_prepared_request crates fs' p ≡ ok tt)
            × (p.required_isolation ≡ ExecutionIsolation.none)
            × ((run_prepared crates fs' processes p args before).1
                ≡ before ++ start_of p args ∷ []))
  unfolding run_prepared spawn_command
  run_prepared-spawned p args before =
      elim (Result-cases (ready_command crates fs' processes p args null null null)) [
        | inr (e, q) ↦ inl (ground arith)
        | inl ((command, observation), q) ↦
            let (valid, plain, same) =
              ready_command_inv p args null null null command observation q in
            elim (Result-cases (processes.spawn_process command)) [
              | inr (e, s) ↦ inl (ground arith)
              | inl (child, s) ↦ inr (valid, plain, ground arith)
            ]
      ]

  -- A status can only come from a process that was started and waited for.
  run_prepared-status :
      (p : PreparedExecRequest) (args : List Bytes) (before : List Command)
      (observation : Option SandboxRuntimeObservation) (status : ExitStatus)
      → (run_prepared crates fs' processes p args before).0 ≡ ok (observation, status)
      → (child : ℕ) × (processes.spawn_process (start_of p args) ≡ ok child)
        × (processes.wait_process child ≡ ok status)
        × ((run_prepared crates fs' processes p args before).1 ≡ before ++ start_of p args ∷ [])
  unfolding run_prepared spawn_command wait_status
  run_prepared-status p args before observation status h =
      elim (Result-cases (ready_command crates fs' processes p args null null null)) [
        | inr (e, q) ↦ ground arith
        | inl ((command, seen), q) ↦
            let (valid, plain, same) = ready_command_inv p args null null null command seen q in
            elim (Result-cases (processes.spawn_process command)) [
              | inr (e, s) ↦ ground arith
              | inl (child, s) ↦ (child, ground arith, ground arith, ground arith)
            ]
      ]

-- The event and the result of a request that was prepared, from how its run went.
abbrev pub settle :
    ExecEvent
    → ExecResult (Option SandboxRuntimeObservation × ExitStatus)
    → ExecEvent × ExecResult ExitStatus
settle event (ok (observation, status)) =
    (record event { sandbox_runtime = observation }, ok status)
settle event (err e) = (event_for_post_preflight_error event e, err e)

module _ (crates : Crates) (gateway : ExecGateway) (trusted : List Bytes) (fs fs' : FileSystem)
    (processes : Processes) (io io' : AuditIo) (r : ExecRequest) (m : Machine) where
  pub execute-refused :
      (e : PreflightError)
      → prepare_request crates gateway trusted fs r ≡ err e
      → execute crates gateway trusted fs fs' processes io io' r m
        ≡ finish crates gateway io' e.event (err e.error) none m.spawned m.log
  unfolding execute
  execute-refused e q = rw (execute, q) refl

  pub execute-unlogged :
      (p : PreparedExecRequest) (e : PreflightError)
      → prepare_request crates gateway trusted fs r ≡ ok p
      → prepare_audit_sink gateway io p.event ≡ err e
      → execute crates gateway trusted fs fs' processes io io' r m
        ≡ finish crates gateway io' e.event (err e.error) none m.spawned m.log
  unfolding execute
  execute-unlogged p e q s = rw (execute, q, s) refl

  pub execute-prepared :
      (p : PreparedExecRequest) (sink : Option Bytes)
      → prepare_request crates gateway trusted fs r ≡ ok p
      → prepare_audit_sink gateway io p.event ≡ ok sink
      → let (result, spawned) = run_prepared crates fs' processes p r.args m.spawned in
        let (event, settled) = settle p.event result in
        execute crates gateway trusted fs fs' processes io io' r m
        ≡ finish crates gateway io' event settled sink spawned m.log
  unfolding execute
  execute-prepared p sink q s =
      elim (Result-cases (run_prepared crates fs' processes p r.args m.spawned).0) [
        | inl (done, run) ↦ rw (execute, q, s, run) refl
        | inr (e, run) ↦ rw (execute, q, s, run) refl
      ]

  -- An execution starts at most one process: none, or the bound program with the arguments of the
  -- request, and then the request was prepared, its directories and program passed the
  -- revalidation, and it asks for no isolation, the one level that the sandbox of Linux gives.
  pub execute-IsLaunch :
      let m' = (execute crates gateway trusted fs fs' processes io io' r m).1 in
      (m'.spawned ≡ m.spawned) ⊎ IsLaunch crates gateway trusted fs fs' r m.spawned m'.spawned
  unfolding finish
  execute-IsLaunch = elim (Result-cases (prepare_request crates gateway trusted fs r)) [
    | inr (e, q) ↦ rw (execute-refused e q) (inl refl)
    | inl (p, q) ↦ elim (Result-cases (prepare_audit_sink gateway io p.event)) [
      | inr (e, s) ↦ rw (execute-unlogged p e q s) (inl refl)
      | inl (sink, s) ↦
          let same = (prepare_request-IsPrepared crates gateway trusted fs r p q).isolation in
          rw (execute-prepared p sink q s)
            (elim (run_prepared-spawned crates fs' processes p r.args m.spawned) [
              | inl unchanged ↦ inl unchanged
              | inr (valid, plain, started) ↦ inr (record {
                prepared = p;
                accepted = q;
                revalidated = valid;
                unsandboxed = sym same ∙ plain;
                started = started;
              })
            ])
    ]
  ]
