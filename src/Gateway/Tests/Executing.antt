-- ===== src/Gateway/Tests/Executing.antt =====
-- The execution of the request of the tests, and the revalidation before it.
use omne_runtime.Base.{decimal, ◌⊎◌, codes, ◌≡◌, text_eq, [], refl, none, some, ok}
use omne_runtime.FsPath.{path_starts_with, components_eq, components, path_components, path_equals}
use omne_runtime.Gateway.AuditLog.{open_attempts, try_open_sink, prepare_sink}
use omne_runtime.Gateway.AuditLog.Records.{Extends}
use omne_runtime.Gateway.Directories.{
  revalidate_prepared_request_paths, is_dir_now, revalidate_bound_directory,
}
use omne_runtime.Gateway.Directories.Containment.{
  revalidate_bound_directory-IsSameDirectory, IsSameDirectory,
}
use omne_runtime.Gateway.Error.{exited}
use omne_runtime.Gateway.Execute.{
  revalidate_prepared_request, ready_command, wait_status, write_terminal_record, spawn_command,
  run_prepared, prepare_audit_sink, execute, completed_status,
}
use omne_runtime.Gateway.Execute.Effects.{execute-IsLaunch, IsLaunch}
use omne_runtime.Gateway.Execute.Outcome.{
  execute-unconfigured, execute-completed_status, execute-Extends,
}
use omne_runtime.Gateway.Execute.Terminal.{result_status-write_terminal_record, result_status}
use omne_runtime.Gateway.Host.{is_spawnable_program_path}
use omne_runtime.Gateway.Prepare.{ExecGateway}
use omne_runtime.Gateway.PreparedCommand.{
  try_wait, finalize_on_drop, event_with_runtime, PreparedChild,
}
use omne_runtime.Gateway.PreparedCommand.Life.{unpolled, polled, finalize_on_drop-Polls}
use omne_runtime.Gateway.Programs.{
  linux_proc_fd_path, fingerprint_program_contents, revalidate_linux_bound_program_executable,
  revalidate_bound_program,
}
use omne_runtime.Gateway.Programs.Binding.{revalidate_bound_program-IsBound, IsBound}
use omne_runtime.Gateway.Sandbox.{apply_sandbox}
use omne_runtime.Gateway.Tests.{
  prepared_ok, log_path, idle, exited, sample, prepared, path_equals, is_spawnable_program_path,
  resolved, processes, bound, audit_io, gateway, disk, crates,
}

directory_valid : revalidate_bound_directory disk resolved.cwd "cwd" ≡ ok tt
unfolding revalidate_bound_directory is_dir_now text_eq path_equals path_components components
    components_eq
directory_valid = refl

revalidate_bound_directory-IsSameDirectory_example : IsSameDirectory disk resolved.cwd
revalidate_bound_directory-IsSameDirectory_example =
    revalidate_bound_directory-IsSameDirectory disk resolved.cwd "cwd" directory_valid

program_valid : revalidate_bound_program disk crates bound ≡ ok tt
unfolding revalidate_bound_program revalidate_linux_bound_program_executable
    fingerprint_program_contents is_spawnable_program_path linux_proc_fd_path text_eq codes decimal
program_valid = refl

revalidate_bound_program-IsBound_example : IsBound disk crates bound
revalidate_bound_program-IsBound_example =
    revalidate_bound_program-IsBound disk crates bound program_valid

execute-IsLaunch_example :
    let m' = (execute crates gateway [] disk disk processes audit_io audit_io sample idle).1 in
    (m'.spawned ≡ []) ⊎ IsLaunch crates gateway [] disk disk sample [] m'.spawned
execute-IsLaunch_example =
    execute-IsLaunch crates gateway [] disk disk processes audit_io audit_io sample idle

sink_ok : prepare_audit_sink gateway audit_io prepared.event ≡ ok (some log_path)
unfolding prepare_audit_sink prepare_sink try_open_sink open_attempts
sink_ok = refl

run_ok : (run_prepared crates disk processes prepared sample.args []).0 ≡ ok (none, exited 0)
unfolding run_prepared spawn_command wait_status ready_command revalidate_prepared_request
    revalidate_prepared_request_paths revalidate_bound_directory is_dir_now text_eq path_equals
    path_components components components_eq revalidate_bound_program
    revalidate_linux_bound_program_executable fingerprint_program_contents is_spawnable_program_path
    linux_proc_fd_path codes decimal apply_sandbox path_starts_with
run_ok = refl

execute-completed_status_example :
    completed_status (execute crates gateway [] disk disk processes audit_io audit_io sample idle).0
    ≡ some (exited 0)
execute-completed_status_example =
    execute-completed_status crates gateway [] disk disk processes audit_io audit_io sample idle
      prepared (some log_path) none (exited 0) prepared_ok sink_ok run_ok

execute-Extends_example :
    let (outcome, m') =
      execute crates gateway [] disk disk processes audit_io audit_io sample idle in
    Extends [] log_path outcome.event m'.log
execute-Extends_example =
    execute-Extends crates gateway [] disk disk processes audit_io audit_io sample idle log_path
      refl

abbrev silent : ExecGateway
silent = record gateway { policy = record gateway.policy { audit_log_path = none } }

execute-unconfigured_example :
    (execute crates silent [] disk disk processes audit_io audit_io sample idle).1.log ≡ []
execute-unconfigured_example =
    execute-unconfigured crates silent [] disk disk processes audit_io audit_io sample idle refl

result_status-write_terminal_record_example :
    result_status
      (write_terminal_record crates gateway audit_io prepared.event
        (ok (exited 3))
        (some log_path)
        []).0
    ≡ some (exited 3)
result_status-write_terminal_record_example =
    result_status-write_terminal_record crates gateway audit_io prepared.event (ok (exited 3))
      (some log_path) []

abbrev sample_child : PreparedChild
sample_child = record {
  child = 5;
  sandbox_runtime = none;
  event = prepared.event;
  audit_sink = some log_path;
}

-- Polled once, then dropped.
finalize_on_drop-Polls_example : Extends [] log_path (event_with_runtime crates sample_child) (
    finalize_on_drop crates processes audit_io
      (try_wait crates processes audit_io sample_child []).1
      (try_wait crates processes audit_io sample_child []).2)
finalize_on_drop-Polls_example =
    finalize_on_drop-Polls crates log_path processes audit_io sample_child []
      (try_wait crates processes audit_io sample_child []).1
      (try_wait crates processes audit_io sample_child []).2 refl
      (polled unpolled processes audit_io)
