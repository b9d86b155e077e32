-- ===== src/Gateway/Redaction.antt =====
-- crates/omne-execution-gateway/src/audit.rs from line 123: what of a command's arguments and
-- environment the audit log may show.
pub mod Secrets
use omne_runtime.Base.{
  String, ◌-◌, ltb, ℕ, Bool, true, false, ◌&&◌, not, Option, none, some, List, [], ◌∷◌, ◌++◌, map,
  Text, Bytes, codes, ◌/◌, ◌%◌, ◌+◌, is_some_and, text_eq, contains, any, if◌then◌else◌,
}
use omne_runtime.Gateway.Isolation.{ExecutionIsolation}
use omne_runtime.Gateway.Types.{SandboxRuntimeObservation, ExecStdioMode, ExecEvent, ExecDecision}
use omne_runtime.Text.{
  split, split_once, starts_with, trim_start_matches, to_ascii_lower, is_ascii_alphanumeric, to_str,
  to_string_lossy, as_bytes, is_empty,
}

abbrev pub redacted_text : Text
unfolding codes
redacted_text = codes "[REDACTED]"

abbrev pub sensitive_terms : List Text
unfolding codes
sensitive_terms =
    codes "access_token"
    ∷ codes "api_key"
    ∷ codes "authorization"
    ∷ codes "credential"
    ∷ codes "credentials"
    ∷ codes "key"
    ∷ codes "passwd"
    ∷ codes "password"
    ∷ codes "secret"
    ∷ codes "token"
    ∷ []

-- The closure of `is_sensitive_name`: letters in lower case, all but letters and digits as '_'
abbrev pub normalized_char : ℕ → ℕ
normalized_char ch = if is_ascii_alphanumeric ch then to_ascii_lower ch else b'_'

abbrev pub is_sensitive_segment : Text → Bool
is_sensitive_segment segment = not (is_empty segment) && contains sensitive_terms segment

unfoldable pub is_sensitive_name : Text → Bool
unfolding split
is_sensitive_name name = any is_sensitive_segment (split b'_' (map normalized_char name))

unfoldable pub is_sensitive_flag_name : Text → Bool
unfolding is_sensitive_name trim_start_matches
is_sensitive_flag_name flag = is_sensitive_name (trim_start_matches b'-' flag)

unfoldable pub split_flag_name : Text → Option Text
unfolding starts_with split_once text_eq
split_flag_name arg =
    if not (starts_with (b'-' ∷ []) arg)
    then none
    else if text_eq arg (b'-' ∷ [])
    then none
    else elim (split_once b'=' arg) [ some (name, value) ↦ some name | none ↦ some arg ]

unfoldable pub split_flag_assignment : Text → Option (Text × Text)
unfolding starts_with split_once text_eq
split_flag_assignment arg = elim (split_once b'=' arg) [
  | none ↦ none
  | some (name, value) ↦
      if not (starts_with (b'-' ∷ []) name)
      then none
      else if text_eq name (b'-' ∷ [])
      then none
      else some (name, value)
]

unfoldable pub split_env_assignment : Text → Option (Text × Text)
unfolding starts_with split_once
split_env_assignment arg = elim (split_once b'=' arg) [
  | none ↦ none
  | some (name, value) ↦
      if is_empty name
      then none
      else if starts_with (b'-' ∷ []) name
      then none
      else some (name, value)
]

unfoldable pub is_sensitive_flag : Text → Bool
unfolding split_flag_name is_sensitive_flag_name
is_sensitive_flag arg = is_some_and (split_flag_name arg) is_sensitive_flag_name

-- `format!("{name}={REDACTED}")`
abbrev pub redacted_assignment : Text → Text
redacted_assignment name = name ++ b'=' ∷ redacted_text

redact_env_assignment : Text → Option Text
unfolding split_env_assignment is_sensitive_name
redact_env_assignment arg = elim (split_env_assignment arg) [
  | none ↦ none
  | some (name, value) ↦ if is_sensitive_name name then some (redacted_assignment name) else none
]

unfoldable pub redact_arg_inline : Text → Option Text
unfolding split_flag_assignment is_sensitive_flag_name redact_env_assignment
redact_arg_inline arg =
    let otherwise = redact_env_assignment arg in
    elim (split_flag_assignment arg) [
      | none ↦ otherwise
      | some (flag, value) ↦
          if is_sensitive_flag_name flag then some (redacted_assignment flag) else otherwise
    ]

-- The loop of `redact_args`, `redact_next` being its flag.
unfoldable pub redact_from : (redact_next : Bool) → List Bytes → List Bytes
unfolding to_str redact_arg_inline is_sensitive_flag as_bytes
redact_from redact_next [] = []
redact_from true (arg ∷ args) = as_bytes redacted_text ∷ redact_from false args
redact_from false (arg ∷ args) =
    let shown = redact_from false args in
    let hidden = redact_from true args in
    elim (to_str arg) [
      | none ↦ arg ∷ shown
      | some text ↦ elim (redact_arg_inline text) [
        | some redacted_arg ↦ as_bytes redacted_arg ∷ shown
        | none ↦ arg ∷ (if is_sensitive_flag text then hidden else shown)
      ]
    ]

unfoldable pub redact_args : List Bytes → List Bytes
unfolding redact_from
redact_args args = redact_from false args

abbrev pub redact_pair : Bytes × Bytes → Bytes × Bytes
redact_pair (name, value) =
    if is_some_and (to_str name) is_sensitive_name
    then (name, as_bytes redacted_text)
    else (name, value)

unfoldable pub redact_env : List (Bytes × Bytes) → List (Bytes × Bytes)
redact_env = map redact_pair

-- The serialised form.

pub data ExactOsStringEncoding : Type 0 where
  utf8 unix_bytes_hex : ExactOsStringEncoding

pub record ExactOsStringValue : Type 0 where
  pub encoding : ExactOsStringEncoding
  pub value : Text

-- A digit of `{byte:02x}`
abbrev byte_hex_digit : ℕ → ℕ
byte_hex_digit n = if ltb n 10 then b'0' + n else b'a' + (n - 10)

unfoldable pub encode_hex : Bytes → Text
encode_hex [] = []
encode_hex (byte ∷ bytes) =
    byte_hex_digit (byte / 16) ∷ byte_hex_digit (byte % 16) ∷ encode_hex bytes

unfoldable pub exact_os_string_value : Bytes → ExactOsStringValue
unfolding to_str encode_hex
exact_os_string_value value = elim (to_str value) [
  | some text ↦ record { encoding = utf8; value = text }
  | none ↦ record { encoding = unix_bytes_hex; value = encode_hex value }
]

-- A pair of `LossyEnvPairSerde` and one of `ExactEnvPairSerde` are a name and a value.
abbrev lossy_pair : Bytes × Bytes → Text × Text
lossy_pair (name, value) = (to_string_lossy name, to_string_lossy value)

abbrev exact_pair : Bytes × Bytes → ExactOsStringValue × ExactOsStringValue
exact_pair (name, value) = (exact_os_string_value name, exact_os_string_value value)

pub record ExecEventSerde : Type 0 where
  pub decision : ExecDecision
  pub requested_isolation : ExecutionIsolation
  pub requested_policy_meta : Text
  pub supported_isolation : ExecutionIsolation
  pub program : Text
  pub args : List Text
  pub env : List (Text × Text)
  pub program_exact : ExactOsStringValue
  pub args_exact : List ExactOsStringValue
  pub env_exact : List (ExactOsStringValue × ExactOsStringValue)
  pub cwd : Bytes
  pub workspace_root : Bytes
  pub declared_mutation : Bool
  pub stdin_mode : ExecStdioMode
  pub stdout_mode : ExecStdioMode
  pub stderr_mode : ExecStdioMode
  pub reason : Option String
  pub sandbox_runtime : Option SandboxRuntimeObservation

-- `ExecEvent::serialize`: what it hands to the serializer
unfoldable pub serialized : ExecEvent → ExecEventSerde
unfolding redact_args redact_env exact_os_string_value to_string_lossy
serialized event = record {
  decision = event.decision;
  requested_isolation = event.requested_isolation;
  requested_policy_meta = event.requested_policy_meta;
  supported_isolation = event.supported_isolation;
  program = to_string_lossy event.program;
  args = map to_string_lossy (redact_args event.args);
  env = map lossy_pair (redact_env event.env);
  program_exact = exact_os_string_value event.program;
  args_exact = map exact_os_string_value (redact_args event.args);
  env_exact = map exact_pair (redact_env event.env);
  cwd = event.cwd;
  workspace_root = event.workspace_root;
  declared_mutation = event.declared_mutation;
  stdin_mode = event.stdin_mode;
  stdout_mode = event.stdout_mode;
  stderr_mode = event.stderr_mode;
  reason = event.reason;
  sandbox_runtime = event.sandbox_runtime;
}
