-- ===== src/Gateway/Environment.antt =====
-- Environment variables that change what a program loads at its start
-- (`first_startup_sensitive_env_name` to `normalized_env_name_ascii` of
-- crates/omne-execution-gateway/src/gateway.rs).
use omne_runtime.Base.{
  Bool, true, ◌||◌, Option, none, some, List, [], ◌∷◌, Text, Bytes, codes, contains, find_map,
  if◌then◌else◌,
}
use omne_runtime.Text.{to_string_lossy, to_ascii_uppercase, starts_with}
use omne_runtime.Gateway.Launcher.{is_ascii}

-- `normalized_env_name_ascii` on Unix.
unfoldable pub normalized_env_name_ascii : Bytes → Option Text
normalized_env_name_ascii name = if is_ascii name then some (to_ascii_uppercase name) else none

unfoldable pub startup_sensitive_names : List Text
startup_sensitive_names =
    codes "PATH"
    ∷ codes "ENV"
    ∷ codes "BASH_ENV"
    ∷ codes "CDPATH"
    ∷ codes "GIT_EXEC_PATH"
    ∷ codes "NODE_OPTIONS"
    ∷ codes "NODE_PATH"
    ∷ codes "PERL5LIB"
    ∷ codes "PERLLIB"
    ∷ codes "PERL5OPT"
    ∷ codes "PYTHONHOME"
    ∷ codes "PYTHONPATH"
    ∷ codes "PYTHONSTARTUP"
    ∷ codes "RUBYLIB"
    ∷ codes "RUBYOPT"
    ∷ []

-- A name that is not ASCII counts as sensitive.
unfoldable pub is_startup_sensitive_env_name : Bytes → Bool
is_startup_sensitive_env_name name = elim (normalized_env_name_ascii name) [
  | none ↦ true
  | some normalized ↦
      contains startup_sensitive_names normalized
      || starts_with (codes "LD_") normalized
      || starts_with (codes "DYLD_") normalized
]

abbrev sensitive_pair : Bytes × Bytes → Option Text
sensitive_pair (name, value) =
    if is_startup_sensitive_env_name name then some (to_string_lossy name) else none

unfoldable pub first_startup_sensitive_env_name : List (Bytes × Bytes) → Option Text
first_startup_sensitive_env_name = find_map sensitive_pair
