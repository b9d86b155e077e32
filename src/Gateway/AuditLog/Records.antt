-- ===== src/Gateway/AuditLog/Records.antt =====
-- What one write does to the audit log, and the errors it can return.
use omne_runtime.Base.{
  refl, arith, inr, [], Text, ◌∷◌, inl, err, ◌++◌, Result-cases, ◌⊎◌, ok, ◌≡◌, Bytes,
}
use omne_runtime.Gateway.AuditLog.{
  audit_log_write_failed, finish_locked_write, try_write_record, open_attempts, ExecError,
  try_open_sink, sink_write, logger_write, AuditRecord, AuditResult, ExecEvent, Bytes, Log, AuditIo,
}
use omne_runtime.Gateway.Error.{audit_log_write_failed, ExecError}
use omne_runtime.Gateway.Types.{ExecEvent}

-- A log after at most one write: as it was, or with one more record at its end.
abbrev pub Extends : Log → Bytes → ExecEvent → Log → Type 0
Extends log path event log' =
    (log' ≡ log)
    ⊎ ((entry : AuditRecord) × (entry.event ≡ event) × (log' ≡ log ++ (path, entry) ∷ []))

-- The answers of an operating system that lets a record be written.
pub record IsWorking (io : AuditIo) : Type 0 where
  pub opens : (path : Bytes) → io.open_appendable path 0 ≡ ok tt
  pub line : AuditRecord → Bytes
  pub serializes : (entry : AuditRecord) → io.serialize entry ≡ ok (line entry)
  pub locks : io.lock_exclusive ≡ ok tt
  pub writes : io.write_line ≡ ok tt
  pub unlocks : io.unlock ≡ ok tt

module _ (io : AuditIo) (path : Bytes) (event : ExecEvent) (result : AuditResult) (log : Log) where
  abbrev pub stamped : AuditRecord
  stamped = record { ts_unix_ms = io.now_unix_ms; event = event; result = result }

  sink_write_cases :
      ((sink_write io path event result log).1 ≡ log)
      ⊎ ((sink_write io path event result log).1 ≡ log ++ (path, stamped) ∷ [])
  unfolding sink_write try_write_record
  sink_write_cases = elim (Result-cases (io.serialize stamped)) [
    | inr (e, q) ↦ inl (ground arith)
    | inl (line, q) ↦ elim (Result-cases io.lock_exclusive) [
      | inr (e, p) ↦ inl (ground arith)
      | inl (u, p) ↦ elim (Result-cases io.write_line) [
        | inr (e, w) ↦ inl (ground arith)
        | inl (v, w) ↦ inr (ground arith)
      ]
    ]
  ]

  pub sink_write-Extends : Extends log path event (sink_write io path event result log).1
  unfolding sink_write try_write_record
  sink_write-Extends = elim sink_write_cases [ inl e ↦ inl e | inr e ↦ inr (stamped, refl, e) ]

  pub logger_write-Extends : Extends log path event (logger_write io path event result log).1
  unfolding logger_write
  logger_write-Extends = elim (Result-cases (try_open_sink io path)) [
    | inl (u, q) ↦ rw (logger_write, q) sink_write-Extends
    | inr (e, q) ↦ inl (ground arith)
  ]

  -- A write that fails says so with the log's path.
  pub sink_write-err :
      (e : ExecError)
      → (sink_write io path event result log).0 ≡ err e
      → (detail : Text) × (e ≡ audit_log_write_failed path detail)
  unfolding sink_write
  sink_write-err e h = elim (Result-cases (try_write_record io path stamped log).0) [
    | inl (u, q) ↦ ground arith
    | inr (detail, q) ↦ (detail, ground arith)
  ]

  pub logger_write-err :
      (e : ExecError)
      → (logger_write io path event result log).0 ≡ err e
      → (detail : Text) × (e ≡ audit_log_write_failed path detail)
  unfolding logger_write
  logger_write-err e h = elim (Result-cases (try_open_sink io path)) [
    | inl (u, q) ↦ sink_write-err e (rw (logger_write, q) at h)
    | inr (o, q) ↦ (o.message, ground arith)
  ]

  pub sink_write-IsWorking :
      IsWorking io → sink_write io path event result log ≡ (ok tt, log ++ (path, stamped) ∷ [])
  unfolding sink_write try_write_record finish_locked_write
  sink_write-IsWorking w =
      let line = w.serializes stamped in
      let locks = w.locks in let writes = w.writes in let unlocks = w.unlocks in ground arith

  pub try_open_sink-IsWorking : IsWorking io → try_open_sink io path ≡ ok tt
  unfolding try_open_sink open_attempts
  try_open_sink-IsWorking w = let opens = w.opens path in ground arith

  pub logger_write-IsWorking :
      IsWorking io → logger_write io path event result log ≡ (ok tt, log ++ (path, stamped) ∷ [])
  unfolding logger_write
  logger_write-IsWorking w = rw (logger_write, try_open_sink-IsWorking w) (sink_write-IsWorking w)
