-- ===== src/Gateway/Authorize/Decision.antt =====
-- Which requests `authorize_mutation_controlled_request` lets through.
-- The allowlists cannot let an opaque launcher through.
use omne_runtime.Base.{
  none, ◌&&◌, true, ◌↔◌, not, arith, ok, if◌then◌else◌, false, ◌≡◌, Bool, Bytes, List,
}
use omne_runtime.Gateway.Authorize.{
  is_non_mutating_program_allowlisted, first_startup_sensitive_env_name, is_explicit_program_path,
  is_mutating_program_allowlisted, authorize_declaration, request_uses_opaque_command_launcher,
  authorize_mutation_controlled_request,
}
use omne_runtime.Gateway.Environment.{first_startup_sensitive_env_name}
use omne_runtime.Gateway.Host.{FileSystem, Crates}
use omne_runtime.Gateway.Policy.{
  is_non_mutating_program_allowlisted, is_explicit_program_path, is_mutating_program_allowlisted,
  GatewayPolicy,
}
use omne_runtime.Gateway.Programs.{BoundProgram}
use omne_runtime.Gateway.Types.{ExecRequest}

module _ (crates : Crates) (trusted : List Bytes) (fs : FileSystem) where
  abbrev allowlist_decision : GatewayPolicy → ExecRequest → BoundProgram → Bool
  allowlist_decision policy request bound =
      let mutating = is_mutating_program_allowlisted fs policy bound.path in
      if request.declared_mutation
      then mutating
      else not mutating && is_non_mutating_program_allowlisted fs policy bound.path

  -- What a mutation-controlled request must meet.
  pub record IsAuthorized (policy : GatewayPolicy) (request : ExecRequest) (bound : BoundProgram)
      : Type 0 where
    pub not_opaque :
        request_uses_opaque_command_launcher crates trusted fs request.program request.args bound
        ≡ false
    pub explicit : is_explicit_program_path request.program ≡ true
    pub declared : request.declared_mutation_explicitly ≡ true
    pub clean_environment : first_startup_sensitive_env_name request.env ≡ none
    pub allowlisted : allowlist_decision policy request bound ≡ true

  module _ (policy : GatewayPolicy) (request : ExecRequest) (bound : BoundProgram) where
    authorize-IsAuthorized :
        authorize_mutation_controlled_request crates trusted fs policy request bound ≡ ok tt
        → IsAuthorized policy request bound
    unfolding authorize_mutation_controlled_request authorize_declaration
    authorize-IsAuthorized h = ground arith

    IsAuthorized-authorize :
        IsAuthorized policy request bound
        → authorize_mutation_controlled_request crates trusted fs policy request bound ≡ ok tt
    unfolding authorize_mutation_controlled_request authorize_declaration
    IsAuthorized-authorize a = ground arith

    -- A mutation-controlled request is authorised exactly when it is no opaque launcher, its
    -- program is an explicit path, it says itself whether it mutates, its environment has no
    -- startup-sensitive name, and its bound program is on the mutating allowlist where mutation is
    -- declared, else on the non-mutating allowlist and not on the mutating one.
    pub authorize_iff :
        (authorize_mutation_controlled_request crates trusted fs policy request bound ≡ ok tt)
        ↔ IsAuthorized policy request bound
    authorize_iff = (authorize-IsAuthorized, IsAuthorized-authorize)
