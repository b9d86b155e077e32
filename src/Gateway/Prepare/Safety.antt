-- ===== src/Gateway/Prepare/Safety.antt =====
-- What `prepare_request` has checked when it succeeds, and what it reports when it does not.
use omne_runtime.Base.{Bytes, List, none, false, arith, ok, not, ◌≡◌, ◌&&◌}
use omne_runtime.Gateway.Directories.{resolve_request_paths, ResolvedRequestPaths}
use omne_runtime.Gateway.Host.{FileSystem, Crates}
use omne_runtime.Gateway.Isolation.{exceeds, isolation_eq}
use omne_runtime.Gateway.Prepare.{
  preflight_event, check_authorization, bind_program_path, ExecEvent, prepare_request, BoundProgram,
  ResolvedRequestPaths, PreparedExecRequest, audit_path_error, is_isolation_none, isolation_eq,
  is_policy_default, check_isolation, ExecRequest, ExecGateway,
}
use omne_runtime.Gateway.Programs.{bind_program_path, BoundProgram}
use omne_runtime.Gateway.Types.{ExecEvent, ExecRequest}

module _ (crates : Crates) (gateway : ExecGateway) (r : ExecRequest) where
  -- The checks on the request and the policy, in the code's own tests.
  pub record IsPermitted : Type 0 where
    pub honest_default :
        (is_policy_default r.requested_isolation_source
          && not (isolation_eq r.required_isolation gateway.policy.default_isolation))
        ≡ false
    pub none_allowed :
        (is_isolation_none r.required_isolation && not gateway.policy.allow_isolation_none) ≡ false
    pub supported : exceeds r.required_isolation gateway.supported_isolation ≡ false
    pub audit_path : audit_path_error gateway.policy.audit_log_path ≡ none

  pub check_isolation-IsPermitted :
      {u : Unit {0}} → check_isolation crates gateway r ≡ ok u → IsPermitted
  unfolding check_isolation
  check_isolation-IsPermitted h = ground arith

  pub IsPermitted-check_isolation : IsPermitted → check_isolation crates gateway r ≡ ok tt
  unfolding check_isolation
  IsPermitted-check_isolation p = ground arith

  -- The event of a request that may run: what was asked, with the paths that were bound.
  abbrev pub bound_event : ResolvedRequestPaths → BoundProgram → ExecEvent
  bound_event paths bound = record (preflight_event crates gateway r) {
    cwd = paths.cwd.path;
    workspace_root = paths.workspace_root.path;
    program = bound.path;
  }

module _ (crates : Crates) (gateway : ExecGateway) (trusted : List Bytes) (fs : FileSystem) where
  pub record IsPrepared (r : ExecRequest) (p : PreparedExecRequest) : Type 0 where
    pub permitted : check_isolation crates gateway r ≡ ok tt
    pub paths : resolve_request_paths fs r.cwd r.workspace_root ≡ ok p.resolved_paths
    pub program : bind_program_path fs crates r.program ≡ ok p.bound_program
    pub authorized : check_authorization crates gateway trusted fs p.event r p.bound_program ≡ ok tt
    pub event : p.event ≡ bound_event crates gateway r p.resolved_paths p.bound_program
    pub isolation : p.required_isolation ≡ r.required_isolation

  module _ (r : ExecRequest) (p : PreparedExecRequest) where
    pub prepare_request-IsPrepared :
        prepare_request crates gateway trusted fs r ≡ ok p → IsPrepared r p
    unfolding prepare_request
    prepare_request-IsPrepared h = ground arith

    pub IsPrepared-prepare_request :
        IsPrepared r p → prepare_request crates gateway trusted fs r ≡ ok p
    unfolding prepare_request
    IsPrepared-prepare_request c = ground arith
