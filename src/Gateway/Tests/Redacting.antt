-- ===== src/Gateway/Tests/Redacting.antt =====
-- An event whose command carries secrets.
use omne_runtime.Base.{◌++◌, ◌≡◌, refl, true, false, none, some, [], ◌∷◌, codes, List, Bytes}
use omne_runtime.Gateway.Isolation.{strict}
use omne_runtime.Gateway.Redaction.{serialized, is_sensitive_name, redact_args}
use omne_runtime.Gateway.Redaction.Secrets.{
  no_variables, hidden, kept, done, assigned, secret, shown, serialized-same_public,
}
use omne_runtime.Gateway.Types.{null, run, ExecEvent}
use omne_runtime.Text.{split, starts_with, split_once, to_str}

abbrev secret_args : Bytes → Bytes → List Bytes
unfolding codes
secret_args token key =
    codes "deploy" ∷ codes "--token" ∷ token ∷ (codes "--api-key=" ++ key) ∷ codes "-v" ∷ []

abbrev secret_env : Bytes → List (Bytes × Bytes)
unfolding codes
secret_env password = (codes "LANG", codes "C") ∷ (codes "DB_PASSWORD", password) ∷ []

abbrev deployment : ExecEvent
unfolding codes
deployment = record {
  decision = run;
  requested_isolation = strict;
  requested_policy_meta = [];
  supported_isolation = strict;
  program = codes "/usr/bin/ship";
  args = secret_args (codes "abc") (codes "k1");
  env = secret_env (codes "hunter2");
  cwd = codes "/w";
  workspace_root = codes "/w";
  declared_mutation = true;
  stdin_mode = null;
  stdout_mode = null;
  stderr_mode = null;
  reason = none;
  sandbox_runtime = none;
}

deployment_args :
    redact_args deployment.args
    ≡ codes "deploy"
      ∷ codes "--token"
      ∷ codes "[REDACTED]"
      ∷ codes "--api-key=[REDACTED]"
      ∷ codes "-v"
      ∷ []
unfolding redact_args codes omne_runtime.Text.is_ascii_alphanumeric omne_runtime.Text.to_ascii_lower
deployment_args = refl

-- An argument that is not UTF-8 is shown, whatever its name.
broken_args :
    redact_args ((codes "--token=" ++ 0xFF ∷ []) ∷ []) ≡ (codes "--token=" ++ 0xFF ∷ []) ∷ []
unfolding redact_args codes omne_runtime.Text.is_ascii_alphanumeric omne_runtime.Text.to_ascii_lower
broken_args = refl

serialized-same_public_example :
    serialized (record deployment {
      args = secret_args (codes "other") (codes "k2");
      env = secret_env (codes "zzz");
    })
    ≡ serialized deployment
unfolding codes to_str split_once starts_with is_sensitive_name split
    omne_runtime.Text.is_ascii_alphanumeric omne_runtime.Text.to_ascii_lower
    omne_runtime.Base.text_eq
serialized-same_public_example =
    serialized-same_public deployment
      (shown (codes "deploy") (
        shown (codes "--token") (
          secret (codes "abc") (codes "other") (
            assigned (codes "--api-key") (codes "--api-key=k1") (codes "--api-key=k2") refl
              (codes "--api-key=k1", codes "k1", refl, refl)
              (codes "--api-key=k2", codes "k2", refl, refl) (shown (codes "-v") done)))))
      (kept (codes "LANG", codes "C")
        (hidden (codes "DB_PASSWORD") (codes "hunter2") (codes "zzz") (codes "DB_PASSWORD") refl
          refl no_variables))
