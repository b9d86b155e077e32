-- ===== src/Gateway/Prepare/Denial.antt =====
-- What a caller sees of a request that is refused, and the agreement of the gateway's projections.
use omne_runtime.Base.{
  refl, inr, inl, is_some, arith, Result-cases, err, true, is_ok, ◌↔◌, none, ◌≡◌, Bytes, List,
}
use omne_runtime.Gateway.Host.{FileSystem, Crates}
use omne_runtime.Gateway.Prepare.{
  PreflightError, preflight, classify_request_path_preflight_error,
  classify_bind_program_preflight_error, preflight_event, run, deny_preflight, deny,
  check_authorization, evaluate, check_isolation, ExecEvent, prepare_request, ExecRequest, List,
  ExecGateway,
}
use omne_runtime.Gateway.Prepare.Safety.{prepare_request-IsPrepared}
use omne_runtime.Gateway.Types.{run, deny, ExecEvent, ExecRequest}

module _ (crates : Crates) (gateway : ExecGateway) (trusted : List Bytes) (fs : FileSystem) where
  -- The part of an event that only echoes the request.
  pub record IsEcho (r : ExecRequest) (event : ExecEvent) : Type 0 where
    pub isolation : event.requested_isolation ≡ r.required_isolation
    pub supported : event.supported_isolation ≡ gateway.supported_isolation
    pub args : event.args ≡ r.args
    pub env : event.env ≡ r.env
    pub mutation : event.declared_mutation ≡ r.declared_mutation
    pub runtime : event.sandbox_runtime ≡ none

  -- A refusal denies, gives a reason and echoes the request.
  pub record IsDenial (r : ExecRequest) (event : ExecEvent) : Type 0 where
    pub denied : event.decision ≡ deny
    pub reasoned : is_some event.reason ≡ true
    pub echo : IsEcho r event

  -- A request that is refused gets an event that denies, gives a reason, has no sandbox observation
  -- and repeats the isolation, the arguments, the environment and the declared mutation of the
  -- request.
  pub prepare_request-IsDenial :
      (r : ExecRequest) (e : PreflightError)
      → prepare_request crates gateway trusted fs r ≡ err e
      → IsDenial r e.event
  unfolding prepare_request check_isolation check_authorization deny_preflight preflight_event
      classify_bind_program_preflight_error classify_request_path_preflight_error
  prepare_request-IsDenial r e h = ground arith

  -- The event of evaluate says run exactly for the requests that preflight accepts.
  pub evaluate-run_iff :
      (r : ExecRequest)
      → ((evaluate crates gateway trusted fs r).decision ≡ run)
        ↔ (is_ok (preflight crates gateway trusted fs r) ≡ true)
  unfolding evaluate preflight preflight_event
  evaluate-run_iff r = elim (Result-cases (prepare_request crates gateway trusted fs r)) [
    | inl (p, q) ↦
        let e = (prepare_request-IsPrepared crates gateway trusted fs r p q).event in
        rw (q, evaluate, preflight) (λ h. refl, λ h. ground (arith, e))
    | inr (e, q) ↦
        let d = (prepare_request-IsDenial r e q).denied in
        rw (q, evaluate, preflight) (λ h. cc (h, d), λ h. cc h)
  ]
