-- ===== src/Gateway/PreparedCommand/Life.antt =====
-- The life of a prepared child: polled any number of times, then dropped.
use omne_runtime.Base.{Option-cases, Result-cases, ◌⊎◌, ◌≡◌, Bytes, refl, none, some, ok, inl, inr}
use mathlib.Core.Path.{subst}
use omne_runtime.Gateway.AuditLog.{from_execution, AuditIo, Log}
use omne_runtime.Gateway.AuditLog.Records.{sink_write-Extends, Extends}
use omne_runtime.Gateway.Error.{ExitStatus, ExecResult}
use omne_runtime.Gateway.Execute.{Processes}
use omne_runtime.Gateway.Host.{Crates}
use omne_runtime.Gateway.PreparedCommand.{
  ExecEvent, ExecResult, finalize_result, event_with_runtime, Processes, try_wait, finalize_on_drop,
  Log, PreparedChild,
}
use omne_runtime.Gateway.Types.{ExecEvent}

-- The states that polls lead to, whatever the operating system answers at each.
pub data Polls (crates : Crates) (c : PreparedChild) (log : Log)
    : PreparedChild → Log → Type 0 where
  unpolled : Polls crates c log c log
  polled :
      {c' : PreparedChild} {log' : Log}
      → Polls crates c log c' log'
      → (processes : Processes) (io : AuditIo)
      → Polls crates c log
          (try_wait crates processes io c' log').1
          (try_wait crates processes io c' log').2

module _ (crates : Crates) (path : Bytes) where
  -- Before its record a child holds the sink and the log is as it was; after it, neither.
  pub record IsSettled (c : PreparedChild) (log : Log) (c' : PreparedChild) (log' : Log)
      : Type 0 where
    pub event : event_with_runtime crates c' ≡ event_with_runtime crates c
    pub recorded :
        ((c'.audit_sink ≡ some path) × (log' ≡ log))
        ⊎ ((c'.audit_sink ≡ none) × Extends log path (event_with_runtime crates c) log')

  -- The same extension, seen from an equal log and for an equal event.
  Extends-along :
      {log log' after : Log} {event event' : ExecEvent}
      → log' ≡ log
      → event' ≡ event
      → Extends log' path event' after
      → Extends log path event after
  Extends-along {log = log} {after = after} {event' = event'} same_log same_event h =
      subst (λ e. Extends log path e after) same_event
        (subst (λ l. Extends l path event' after) same_log h)

  finalize_result-child :
      (io : AuditIo) (result : ExecResult ExitStatus) (c : PreparedChild) (log : Log)
      → (finalize_result crates io result c log).1 ≡ record c { audit_sink = none }
  unfolding finalize_result
  finalize_result-child io result c log = elim (Option-cases c.audit_sink) [
    | inl q ↦ rw (finalize_result, q) refl
    | inr (held, q) ↦ rw (finalize_result, q) refl
  ]

  finalize_result-held :
      (io : AuditIo) (result : ExecResult ExitStatus) (c : PreparedChild) (log : Log)
      → c.audit_sink ≡ some path
      → Extends log path (event_with_runtime crates c) (finalize_result crates io result c log).2
  unfolding finalize_result event_with_runtime
  finalize_result-held io result c log q =
      rw (finalize_result, q)
        (sink_write-Extends io path (event_with_runtime crates c) (from_execution crates result)
          log)

  finalize_result-released :
      (io : AuditIo) (result : ExecResult ExitStatus) (c : PreparedChild) (log : Log)
      → c.audit_sink ≡ none
      → (finalize_result crates io result c log).2 ≡ log
  unfolding finalize_result
  finalize_result-released io result c log q = rw (finalize_result, q) refl

  finalize_result-IsSettled :
      (io : AuditIo) (result : ExecResult ExitStatus) (c : PreparedChild) (log : Log)
      (c' : PreparedChild) (log' : Log)
      → IsSettled c log c' log'
      → IsSettled c log
          (finalize_result crates io result c' log').1
          (finalize_result crates io result c' log').2
  unfolding event_with_runtime
  finalize_result-IsSettled io result c log c' log' s =
      rw (finalize_result-child io result c' log') (record {
        event = s.event;
        recorded = elim s.recorded [
          | inl (held, same) ↦
              let written = finalize_result-held io result c' log' held in
              inr (
                refl,
                subst
                    (λ l.
                      Extends l path (event_with_runtime crates c)
                        (finalize_result crates io result c' log').2)
                    same
                    (subst (λ e. Extends log' path e (finalize_result crates io result c' log').2)
                      s.event written),
              )
          | inr (released, once) ↦
              inr (refl, rw (finalize_result-released io result c' log' released) once)
        ];
      })

  try_wait-IsSettled :
      (processes : Processes) (io : AuditIo) (c : PreparedChild) (log : Log) (c' : PreparedChild)
      (log' : Log)
      → IsSettled c log c' log'
      → IsSettled c log
          (try_wait crates processes io c' log').1
          (try_wait crates processes io c' log').2
  unfolding try_wait
  try_wait-IsSettled processes io c log c' log' s =
      elim (Result-cases (processes.try_wait_process c'.child)) [
        | inr (e, q) ↦ rw (try_wait, q) s
        | inl (none, q) ↦ rw (try_wait, q) s
        | inl (some status, q) ↦
            rw (try_wait, q) (finalize_result-IsSettled io (ok status) c log c' log' s)
      ]

  finalize_on_drop-held :
      (processes : Processes) (io : AuditIo) (c : PreparedChild) (log : Log)
      → c.audit_sink ≡ some path
      → Extends log path (event_with_runtime crates c) (finalize_on_drop crates processes io c log)
  unfolding finalize_on_drop event_with_runtime
  finalize_on_drop-held processes io c log q =
      elim (Result-cases (processes.try_wait_process c.child)) [
        | inr (e, t) ↦ rw (finalize_on_drop, q, t) (sink_write-Extends io path _ _ log)
        | inl (none, t) ↦ rw (finalize_on_drop, q, t) (sink_write-Extends io path _ _ log)
        | inl (some status, t) ↦ rw (finalize_on_drop, q, t) (sink_write-Extends io path _ _ log)
      ]

  Polls-IsSettled :
      (c : PreparedChild) (log : Log) (c' : PreparedChild) (log' : Log)
      → c.audit_sink ≡ some path
      → Polls crates c log c' log'
      → IsSettled c log c' log'
  Polls-IsSettled c log c' log' held unpolled = record { event = refl; recorded = inl (held, refl) }
  Polls-IsSettled c log c' log' held (polled {c' = before} {log' = earlier} polls processes io) =
      try_wait-IsSettled processes io c log before earlier
        (Polls-IsSettled c log before earlier held polls)

  -- A child that holds the open audit log, polled any number of times with any answers of the
  -- operating system and then dropped, leaves the log as it is or adds one record at its end, at
  -- the path of the log and for the event of the child.
  pub finalize_on_drop-Polls :
      (processes : Processes) (io : AuditIo) (c : PreparedChild) (log : Log) (c' : PreparedChild)
      (log' : Log)
      → c.audit_sink ≡ some path
      → Polls crates c log c' log'
      → Extends log path
          (event_with_runtime crates c)
          (finalize_on_drop crates processes io c' log')
  unfolding finalize_on_drop
  finalize_on_drop-Polls processes io c log c' log' held polls =
      let s = Polls-IsSettled c log c' log' held polls in
      elim s.recorded [
        | inl (open_sink, same) ↦
            Extends-along same s.event (finalize_on_drop-held processes io c' log' open_sink)
        | inr (released, once) ↦ rw (finalize_on_drop, released) once
      ]
