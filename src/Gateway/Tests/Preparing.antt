-- ===== src/Gateway/Tests/Preparing.antt =====
-- The preparation of the request of the tests.
use omne_runtime.Base.{
  text_eq, ◌↔◌, ◌||◌, ◌≡◌, Bytes, is_ok, codes, List, [], ◌∷◌, refl, true, false, ok, err,
}
use omne_runtime.FsPath.{file_name}
use omne_runtime.Gateway.Authorize.{authorize_mutation_controlled_request}
use omne_runtime.Gateway.Authorize.Decision.{authorize_iff, IsAuthorized}
use omne_runtime.Gateway.Directories.{resolve_request_paths}
use omne_runtime.Gateway.Directories.Containment.{resolve_request_paths-IsContained, IsContained}
use omne_runtime.Gateway.Error.{isolation_not_supported}
use omne_runtime.Gateway.Isolation.{ExecutionIsolation}
use omne_runtime.Gateway.Launcher.{
  is_ascii, invocation_on_fuel, subcommand_of, normalized_opaque_command_launcher_name,
  matches_versioned_opaque_command_family, wrapped_subcommand, opaque_names, program_basename_ascii,
  ascii_program_name, uses_opaque_command_launcher, strip_windows_exe_suffix,
  invocation_uses_opaque_command_launcher,
}
use omne_runtime.Gateway.Launcher.Wrappers.{
  invocation_uses_opaque_command_launcher_lem, delegates_to_opaque,
}
use omne_runtime.Gateway.Prepare.{
  preflight, preflight_event, deny_preflight, check_isolation, prepare_request, evaluate,
  PreflightError,
}
use omne_runtime.Gateway.Prepare.Admission.{
  prepare_request-IsAdmissible, prepare_request-opaque, prepare_request-IsAuthorized, IsAdmissible,
}
use omne_runtime.Gateway.Prepare.Denial.{evaluate-run_iff, prepare_request-IsDenial, IsDenial}
use omne_runtime.Gateway.Prepare.Safety.{prepare_request-IsPrepared}
use omne_runtime.Gateway.Programs.{bind_program_path}
use omne_runtime.Gateway.Programs.Binding.{bind_program_path-IsBound, IsBound}
use omne_runtime.Gateway.Tests.{
  contains_text, strip_suffix, to_ascii_lowercase, prepared_ok, resolved, prepared, workspace, tool,
  gateway, bound, sample, ExecutionIsolation, disk, crates,
}
use omne_runtime.Gateway.Types.{run, ExecRequest}
use omne_runtime.Text.{contains_text, strip_suffix, to_ascii_lowercase}

prepare_request-IsAdmissible_example : IsAdmissible crates gateway [] disk sample prepared
prepare_request-IsAdmissible_example =
    prepare_request-IsAdmissible crates gateway [] disk sample prepared prepared_ok

prepare_request-IsAuthorized_example : IsAuthorized crates [] disk gateway.policy sample bound
prepare_request-IsAuthorized_example =
    prepare_request-IsAuthorized crates gateway [] disk sample prepared refl prepared_ok

abbrev shell_request : ExecRequest
shell_request = record sample { program = codes "/bin/sh" }

shell-opaque :
    invocation_uses_opaque_command_launcher shell_request.program shell_request.args ≡ true
unfolding codes file_name strip_windows_exe_suffix ascii_program_name program_basename_ascii
    opaque_names matches_versioned_opaque_command_family normalized_opaque_command_launcher_name
    subcommand_of wrapped_subcommand invocation_on_fuel invocation_uses_opaque_command_launcher
    to_ascii_lowercase strip_suffix contains_text uses_opaque_command_launcher is_ascii text_eq
shell-opaque = refl

prepare_request-opaque_example :
    is_ok (prepare_request crates gateway [] disk shell_request) ≡ false
prepare_request-opaque_example =
    prepare_request-opaque crates gateway [] disk shell_request refl shell-opaque

authorize_iff_example :
    (authorize_mutation_controlled_request crates [] disk gateway.policy sample bound ≡ ok tt)
    ↔ IsAuthorized crates [] disk gateway.policy sample bound
authorize_iff_example = authorize_iff crates [] disk gateway.policy sample bound

paths_ok : resolve_request_paths disk workspace workspace ≡ ok resolved
paths_ok = (prepare_request-IsPrepared crates gateway [] disk sample prepared prepared_ok).paths

resolve_request_paths-IsContained_example : IsContained disk workspace workspace resolved
resolve_request_paths-IsContained_example =
    resolve_request_paths-IsContained disk workspace workspace resolved paths_ok

program_ok : bind_program_path disk crates tool ≡ ok bound
program_ok = (prepare_request-IsPrepared crates gateway [] disk sample prepared prepared_ok).program

bind_program_path-IsBound_example : IsBound disk crates bound
bind_program_path-IsBound_example = bind_program_path-IsBound disk crates tool bound program_ok

abbrev strict_request : ExecRequest
strict_request = record sample { required_isolation = ExecutionIsolation.strict }

abbrev strict_refusal : PreflightError
strict_refusal =
    deny_preflight (preflight_event crates gateway strict_request) "isolation_not_supported"
      (isolation_not_supported ExecutionIsolation.strict ExecutionIsolation.none)

strict-refused : prepare_request crates gateway [] disk strict_request ≡ err strict_refusal
unfolding prepare_request check_isolation preflight_event
strict-refused = refl

prepare_request-IsDenial_example :
    IsDenial crates gateway [] disk strict_request strict_refusal.event
prepare_request-IsDenial_example =
    prepare_request-IsDenial crates gateway [] disk strict_request strict_refusal strict-refused

evaluate-run_iff_example :
    ((evaluate crates gateway [] disk sample).decision ≡ run)
    ↔ (is_ok (preflight crates gateway [] disk sample) ≡ true)
evaluate-run_iff_example = evaluate-run_iff crates gateway [] disk sample

abbrev wrapped_args : List Bytes
wrapped_args = codes "sh" ∷ codes "-c" ∷ []

invocation_uses_opaque_command_launcher_example :
    invocation_uses_opaque_command_launcher (codes "nice") wrapped_args ≡ (
      uses_opaque_command_launcher (codes "nice")
      || delegates_to_opaque (wrapped_subcommand (codes "nice") wrapped_args))
invocation_uses_opaque_command_launcher_example =
    invocation_uses_opaque_command_launcher_lem (codes "nice") wrapped_args
