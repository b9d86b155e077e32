-- ===== src/Gateway/Prepare/Admission.antt =====
-- A prepared request is admissible: the promises of the preflight, gathered from its parts.
use omne_runtime.Base.{
  refl, map_err, if◌then◌else◌, String, arith, map_err-eq_ok, inr, Result-cases, is_ok, inl, true,
  ok, ◌≡◌, Bool, Bytes, List,
}
use mathlib.Core.Bool.{false}
use omne_runtime.Gateway.Authorize.{
  authorize_mutation_controlled_request, request_uses_opaque_command_launcher,
}
use omne_runtime.Gateway.Authorize.Decision.{authorize_iff, IsAuthorized}
use omne_runtime.Gateway.Directories.Containment.{resolve_request_paths-IsContained, IsContained}
use omne_runtime.Gateway.Error.{ExecError}
use omne_runtime.Gateway.Host.{FileSystem, Crates}
use omne_runtime.Gateway.Launcher.{invocation_uses_opaque_command_launcher}
use omne_runtime.Gateway.Policy.{GatewayPolicy}
use omne_runtime.Gateway.Prepare.{
  PreflightError, ExecError, GatewayPolicy, prepare_request, PreparedExecRequest, ExecEvent,
  BoundProgram, check_authorization, ExecRequest, List, ExecGateway,
}
use omne_runtime.Gateway.Prepare.Safety.{
  bound_event, check_isolation-IsPermitted, prepare_request-IsPrepared, IsPermitted,
}
use omne_runtime.Gateway.Programs.{BoundProgram}
use omne_runtime.Gateway.Programs.Binding.{bind_program_path-IsBound, IsBound}
use omne_runtime.Gateway.Types.{ExecEvent, ExecRequest}

module _ (crates : Crates) (trusted : List Bytes) (fs : FileSystem) where
  -- What an enforcing policy has checked; without enforcement nothing is claimed.
  abbrev pub EnforcedChecks : Bool → GatewayPolicy → ExecRequest → BoundProgram → Type 0
  EnforcedChecks true policy r bound = IsAuthorized crates trusted fs policy r bound
  EnforcedChecks false policy r bound = Unit

  enforced_test :
      (enforce : Bool) (policy : GatewayPolicy) (r : ExecRequest) (bound : BoundProgram)
      (f : String × ExecError → PreflightError)
      → (if enforce
          then map_err (authorize_mutation_controlled_request crates trusted fs policy r bound) f
          else ok tt)
        ≡ ok tt
      → EnforcedChecks enforce policy r bound
  enforced_test true policy r bound f h =
      (authorize_iff crates trusted fs policy r bound).0 (map_err-eq_ok _ f h)
  enforced_test false policy r bound f h = tt

module _ (crates : Crates) (gateway : ExecGateway) (trusted : List Bytes) (fs : FileSystem) where
  pub record IsAdmissible (r : ExecRequest) (p : PreparedExecRequest) : Type 0 where
    pub permitted : IsPermitted crates gateway r
    pub contained : IsContained fs r.cwd r.workspace_root p.resolved_paths
    pub bound : IsBound fs crates p.bound_program
    pub enforced :
        EnforcedChecks crates trusted fs gateway.policy.enforce_allowlisted_program_for_mutation
          gateway.policy r p.bound_program
    pub event : p.event ≡ bound_event crates gateway r p.resolved_paths p.bound_program
    pub isolation : p.required_isolation ≡ r.required_isolation

  check_authorization-EnforcedChecks :
      (event : ExecEvent) (r : ExecRequest) (bound : BoundProgram)
      → check_authorization crates gateway trusted fs event r bound ≡ ok tt
      → EnforcedChecks crates trusted fs gateway.policy.enforce_allowlisted_program_for_mutation
          gateway.policy r bound
  unfolding check_authorization
  check_authorization-EnforcedChecks event r bound h =
      enforced_test crates trusted fs _ gateway.policy r bound _ h

  -- A request that is prepared has an isolation that the host supports and the policy permits; its
  -- directories are bound and the working directory is the workspace or lies in it; its program is
  -- bound to an executable file; an enforcing policy has authorised it; and its event says run,
  -- with the bound paths.
  pub prepare_request-IsAdmissible :
      (r : ExecRequest) (p : PreparedExecRequest)
      → prepare_request crates gateway trusted fs r ≡ ok p
      → IsAdmissible r p
  prepare_request-IsAdmissible r p h =
      let c = prepare_request-IsPrepared crates gateway trusted fs r p h in
      record {
        permitted = check_isolation-IsPermitted crates gateway r c.permitted;
        contained = resolve_request_paths-IsContained fs _ _ _ c.paths;
        bound = bind_program_path-IsBound fs crates r.program _ c.program;
        enforced = check_authorization-EnforcedChecks _ r _ c.authorized;
        event = c.event;
        isolation = c.isolation;
      }

  IsAuthorized-of_enforced :
      (enforce : Bool) (r : ExecRequest) (bound : BoundProgram)
      → enforce ≡ true
      → EnforcedChecks crates trusted fs enforce gateway.policy r bound
      → IsAuthorized crates trusted fs gateway.policy r bound
  IsAuthorized-of_enforced true r bound e a = a
  IsAuthorized-of_enforced false r bound e a = cc e

  -- What an enforcing policy guarantees of every prepared request.
  pub prepare_request-IsAuthorized :
      (r : ExecRequest) (p : PreparedExecRequest)
      → gateway.policy.enforce_allowlisted_program_for_mutation ≡ true
      → prepare_request crates gateway trusted fs r ≡ ok p
      → IsAuthorized crates trusted fs gateway.policy r p.bound_program
  prepare_request-IsAuthorized r p enforcing h =
      IsAuthorized-of_enforced _ r _ enforcing (prepare_request-IsAdmissible r p h).enforced

  not_opaque-IsAuthorized :
      (r : ExecRequest) (bound : BoundProgram)
      → IsAuthorized crates trusted fs gateway.policy r bound
      → invocation_uses_opaque_command_launcher r.program r.args ≡ false
  unfolding request_uses_opaque_command_launcher
  not_opaque-IsAuthorized r bound a = let clear = a.not_opaque in ground arith

  -- Under a policy that enforces its allowlists, a request whose invocation is an opaque launcher,
  -- itself or behind wrappers, is never prepared.
  pub prepare_request-opaque :
      (r : ExecRequest)
      → gateway.policy.enforce_allowlisted_program_for_mutation ≡ true
      → invocation_uses_opaque_command_launcher r.program r.args ≡ true
      → is_ok (prepare_request crates gateway trusted fs r) ≡ false
  prepare_request-opaque r enforcing opaque =
      elim (Result-cases (prepare_request crates gateway trusted fs r)) [
        | inr (e, q) ↦ rw q refl
        | inl (p, q) ↦
            cc (opaque, not_opaque-IsAuthorized r _ (prepare_request-IsAuthorized r p enforcing q))
      ]
