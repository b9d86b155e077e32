-- ===== src/Gateway/Launcher.antt =====
-- Opaque command launchers: the shells, interpreters and package runners that no allowlist can
-- authorise, also behind `timeout`, `nice`, `nohup`, `setsid` and `stdbuf`
-- (`uses_opaque_command_launcher` to `strip_windows_exe_suffix_owned` of
-- crates/omne-execution-gateway/src/gateway.rs).
pub mod Wrappers
use omne_runtime.Base.{
  ℕ, zero, suc, Bool, false, ◌||◌, not, Option, none, some, List, [], ◌∷◌, Text, Bytes, codes, ltb,
  ◌==◌, length, all, contains, find_map, text_eq, and_then, is_some_and, if◌then◌else◌,
}
use omne_runtime.Text.{
  to_str, to_ascii_lowercase, is_ascii_digit, strip_prefix, strip_suffix, starts_with,
}
use omne_runtime.FsPath.{file_name}

unfoldable pub is_ascii : Bytes → Bool
is_ascii = all (λ byte. ltb byte 128)

abbrev or_else : Option Bytes → Bytes → Bytes
or_else none d = d
or_else (some b) d = b

-- `strip_windows_exe_suffix_owned`
unfoldable pub strip_windows_exe_suffix : Text → Text
strip_windows_exe_suffix value =
    or_else
      (find_map (λ suffix. strip_suffix suffix value)
        (codes ".exe" ∷ codes ".cmd" ∷ codes ".bat" ∷ codes ".com" ∷ []))
      value

-- `ascii_program_name_from_bytes`: in lower case, without a Windows suffix.
unfoldable pub ascii_program_name : Bytes → Option Text
ascii_program_name bytes =
    if not (is_ascii bytes)
    then none
    else some (strip_windows_exe_suffix (to_ascii_lowercase bytes))

-- `program_basename_ascii` on Unix.
unfoldable pub program_basename_ascii : Bytes → Option Text
program_basename_ascii program = ascii_program_name (or_else (file_name program) program)

unfoldable pub opaque_names : List Text
opaque_names =
    codes "env"
    ∷ codes "sh"
    ∷ codes "bash"
    ∷ codes "dash"
    ∷ codes "zsh"
    ∷ codes "fish"
    ∷ codes "ksh"
    ∷ codes "csh"
    ∷ codes "tcsh"
    ∷ codes "cmd"
    ∷ codes "powershell"
    ∷ codes "pwsh"
    ∷ codes "node"
    ∷ codes "nodejs"
    ∷ codes "deno"
    ∷ codes "bun"
    ∷ codes "ruby"
    ∷ codes "perl"
    ∷ codes "php"
    ∷ codes "lua"
    ∷ codes "npm"
    ∷ codes "npx"
    ∷ codes "pnpm"
    ∷ codes "yarn"
    ∷ []

unfoldable pub matches_versioned_opaque_command_family : Text → Text → Bool
matches_versioned_opaque_command_family program family =
    is_some_and (strip_prefix family program) (all (λ ch. is_ascii_digit ch || ch == b'.'))

unfoldable pub normalized_opaque_command_launcher_name : Text → Bool
normalized_opaque_command_launcher_name program =
    contains opaque_names program
    || matches_versioned_opaque_command_family program (codes "python")
    || matches_versioned_opaque_command_family program (codes "pythonw")
    || matches_versioned_opaque_command_family program (codes "pip")

unfoldable pub uses_opaque_command_launcher : Bytes → Bool
uses_opaque_command_launcher program =
    is_some_and (program_basename_ascii program) normalized_opaque_command_launcher_name

-- A wrapped command: its program and the arguments behind it.
abbrev pub Subcommand : Type 0
Subcommand = Bytes × List Bytes

abbrev first_of_args : List Bytes → Option Subcommand
first_of_args [] = none
first_of_args (program ∷ remaining) = some (program, remaining)

-- `passthrough_wrapper_subcommand`
unfoldable pub passthrough_wrapper_subcommand : List Bytes → Option Subcommand
passthrough_wrapper_subcommand [] = none
passthrough_wrapper_subcommand (program ∷ remaining) =
    if text_eq program (codes "--") then first_of_args remaining else some (program, remaining)

-- The `while` loop that the other wrappers share: the arguments behind the options. An option of
-- `takes_value` skips the argument behind it. `none` is a `?` on an argument that is not UTF-8.
unfoldable pub skip_options : (Text → Bool) → List Bytes → Option (List Bytes)
skip_options takes_value [] = some []
skip_options takes_value (arg ∷ []) = and_then (to_str arg) λ text.
    if text_eq text (codes "--")
    then some []
    else if not (starts_with (codes "-") text) || text_eq text (codes "-")
    then some (arg ∷ [])
    else some []
skip_options takes_value (arg ∷ value ∷ rest) =
    let next = skip_options takes_value (value ∷ rest) in
    let after_value = skip_options takes_value rest in
    and_then (to_str arg) λ text.
      if text_eq text (codes "--")
      then some (value ∷ rest)
      else if not (starts_with (codes "-") text) || text_eq text (codes "-")
      then some (arg ∷ value ∷ rest)
      else if takes_value text
      then after_value
      else next

-- A duration stands before the delegated command.
abbrev after_duration : List Bytes → Option Subcommand
after_duration [] = none
after_duration (duration ∷ args) = first_of_args args

abbrev timeout_values : List Text
timeout_values = codes "-k" ∷ codes "--kill-after" ∷ codes "-s" ∷ codes "--signal" ∷ []

abbrev nice_values : List Text
nice_values = codes "-n" ∷ codes "--adjustment" ∷ []

abbrev stdbuf_values : List Text
stdbuf_values = codes "-i" ∷ codes "-o" ∷ codes "-e" ∷ []

-- Of the options with `=`, which the code names too, each is one argument.
unfoldable pub timeout_subcommand : List Bytes → Option Subcommand
timeout_subcommand args = and_then (skip_options (contains timeout_values) args) after_duration

unfoldable pub nice_subcommand : List Bytes → Option Subcommand
nice_subcommand args = and_then (skip_options (contains nice_values) args) first_of_args

unfoldable pub setsid_subcommand : List Bytes → Option Subcommand
setsid_subcommand args = and_then (skip_options (λ text. false) args) first_of_args

unfoldable pub stdbuf_subcommand : List Bytes → Option Subcommand
stdbuf_subcommand args = and_then (skip_options (contains stdbuf_values) args) first_of_args

unfoldable pub subcommand_of : Text → List Bytes → Option Subcommand
subcommand_of name args =
    if text_eq name (codes "timeout")
    then timeout_subcommand args
    else if text_eq name (codes "nice")
    then nice_subcommand args
    else if text_eq name (codes "nohup")
    then passthrough_wrapper_subcommand args
    else if text_eq name (codes "setsid")
    then setsid_subcommand args
    else if text_eq name (codes "stdbuf")
    then stdbuf_subcommand args
    else none

unfoldable pub wrapped_subcommand : Bytes → List Bytes → Option Subcommand
wrapped_subcommand program args =
    and_then (program_basename_ascii program) λ name. subcommand_of name args

-- The recursion through nested wrappers, on fuel. Each step leaves fewer arguments.
unfoldable pub invocation_on_fuel : ℕ → Bytes → List Bytes → Bool
invocation_on_fuel zero program args = false
invocation_on_fuel (suc fuel) program args =
    uses_opaque_command_launcher program || elim (wrapped_subcommand program args) [
      | none ↦ false
      | some (subcommand, remaining) ↦ invocation_on_fuel fuel subcommand remaining
    ]

unfoldable pub invocation_uses_opaque_command_launcher : Bytes → List Bytes → Bool
invocation_uses_opaque_command_launcher program args =
    invocation_on_fuel (suc (length args)) program args
