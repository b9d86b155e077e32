-- ===== src/Gateway/Redaction/Secrets.antt =====
-- audit.rs: the audit log shows the same whatever the secrets of a command are. A secret is a value
-- behind or in a flag with a sensitive name, or of a variable with one.
use omne_runtime.Base.{
  if◌then◌else◌, sym, ◌∙◌, Option-cases, none, ap, text_eq→eq, text_eq, arith, refl, inr, ==_iff,
  is_some, inl, ◌==◌, not, ◌&&◌, Bool-cases, ◌∷◌, some, ◌≡◌, false, is_some_and, [], Text, List,
  Bytes, Bool, true,
}
use omne_runtime.Gateway.Redaction.{
  redact_args, serialized, split_flag_name, redact_from, redact_env, is_sensitive_flag,
  redacted_assignment, split_env_assignment, redact_env_assignment, split_flag_assignment,
  is_sensitive_name, redact_arg_inline, is_sensitive_flag_name,
}
use omne_runtime.Gateway.Types.{ExecEvent}
use omne_runtime.Text.{
  as_bytes, is_empty, split_once, trim_start_matches, starts_with, to_str, split,
}

-- The next argument is a secret: a flag that stands alone and has a sensitive name.
abbrev announces_secret_text : Text → Bool
announces_secret_text text =
    not (is_some (split_once b'=' text)) && starts_with (b'-' ∷ []) text && is_sensitive_name text

abbrev pub announces_secret : Bytes → Bool
announces_secret arg = is_some_and (to_str arg) announces_secret_text

-- An argument `name=value`
abbrev pub IsAssignment : Text → Bytes → Type 0
IsAssignment name arg =
    (text : Text) × (value : Text) × (to_str arg ≡ some text)
    × (split_once b'=' text ≡ some (name, value))

-- Two lists of arguments that differ in secrets only; the index says that a secret comes first.
pub data SameArgs : Bool → List Bytes → List Bytes → Type 0 where
  done : {announced : Bool} → SameArgs announced [] []
  secret :
      {xs ys : List Bytes} (x y : Bytes) → SameArgs false xs ys → SameArgs true (x ∷ xs) (y ∷ ys)
  assigned :
      {xs ys : List Bytes} (name : Text) (x y : Bytes)
      → is_sensitive_name name ≡ true
      → IsAssignment name x
      → IsAssignment name y
      → SameArgs false xs ys
      → SameArgs false (x ∷ xs) (y ∷ ys)
  shown :
      {xs ys : List Bytes} (x : Bytes)
      → SameArgs (announces_secret x) xs ys
      → SameArgs false (x ∷ xs) (x ∷ ys)

-- Two environments with the same names, and with the same values of the names that are not
-- sensitive.
pub data SameEnv : List (Bytes × Bytes) → List (Bytes × Bytes) → Type 0 where
  no_variables : SameEnv [] []
  hidden :
      {xs ys : List (Bytes × Bytes)} (name x y : Bytes) (text : Text)
      → to_str name ≡ some text
      → is_sensitive_name text ≡ true
      → SameEnv xs ys
      → SameEnv ((name, x) ∷ xs) ((name, y) ∷ ys)
  kept :
      {xs ys : List (Bytes × Bytes)} (pair : Bytes × Bytes)
      → SameEnv xs ys
      → SameEnv (pair ∷ xs) (pair ∷ ys)

is_sensitive_name-nonempty : (name : Text) → is_sensitive_name name ≡ true → is_empty name ≡ false
unfolding is_sensitive_name split
is_sensitive_name-nonempty [] h = cc
is_sensitive_name-nonempty (c ∷ t) h = refl

is_sensitive_name-dash :
    (name : Text) → is_sensitive_name name ≡ true → text_eq name (b'-' ∷ []) ≡ false
unfolding is_sensitive_name split omne_runtime.Text.is_ascii_alphanumeric
is_sensitive_name-dash name h = elim (Bool-cases (text_eq name (b'-' ∷ []))) [
  | inl same ↦
      let blank : is_sensitive_name (b'-' ∷ []) ≡ false = refl in
      let e = text_eq→eq name (b'-' ∷ []) same in absurd (cc (h, blank, ap is_sensitive_name e))
  | inr other ↦ other
]

-- Leading dashes do not count.
is_sensitive_flag_name-is_sensitive_name :
    (flag : Text) → is_sensitive_flag_name flag ≡ is_sensitive_name flag
unfolding is_sensitive_flag_name is_sensitive_name trim_start_matches split
    omne_runtime.Text.is_ascii_alphanumeric
is_sensitive_flag_name-is_sensitive_name [] = refl
is_sensitive_flag_name-is_sensitive_name (c ∷ t) = elim (Bool-cases (c == b'-')) [
  | inl dash ↦
      let rest = is_sensitive_flag_name-is_sensitive_name t in rw ((==_iff c b'-').0 dash) rest
  | inr other ↦ rw other refl
]

-- An assignment to a sensitive name shows the name alone.
redact_arg_inline-assigned :
    (text name value : Text)
    → split_once b'=' text ≡ some (name, value)
    → is_sensitive_name name ≡ true
    → redact_arg_inline text ≡ some (redacted_assignment name)
unfolding redact_arg_inline split_flag_assignment redact_env_assignment split_env_assignment
redact_arg_inline-assigned text name value split sensitive =
    let flag = is_sensitive_flag_name-is_sensitive_name name in
    let named = is_sensitive_name-nonempty name sensitive in
    let long = is_sensitive_name-dash name sensitive in ground arith

-- A flag that stands alone and has a sensitive name hides the next argument.
is_sensitive_flag-announced :
    (text : Text)
    → redact_arg_inline text ≡ none
    → is_sensitive_flag text ≡ announces_secret_text text
unfolding is_sensitive_flag split_flag_name
is_sensitive_flag-announced text h = elim (Option-cases (split_once b'=' text)) [
  | inl none_split ↦
      let flag = is_sensitive_flag_name-is_sensitive_name text in
      let dash = is_sensitive_name-dash text in
      elim (Bool-cases (is_sensitive_name text)) [
        | inl sensitive ↦ let long = dash sensitive in ground arith
        | inr harmless ↦ ground arith
      ]
  | inr ((name, value), some_split) ↦
      let flag = is_sensitive_flag_name-is_sensitive_name name in
      let redacted = redact_arg_inline-assigned text name value some_split in
      elim (Bool-cases (is_sensitive_name name)) [
        | inl sensitive ↦ let shows = redacted sensitive in absurd (ground arith)
        | inr harmless ↦ ground arith
      ]
]

-- The redaction of an argument that is no secret.
abbrev shown_arg : Bytes → Bytes
shown_arg arg = elim (to_str arg) [
  | none ↦ arg
  | some text ↦ elim (redact_arg_inline text) [ none ↦ arg | some redacted ↦ as_bytes redacted ]
]

-- Only an assignment is shown with its value left out.
redact_arg_inline-assignment :
    (text : Text) {shown : Text}
    → redact_arg_inline text ≡ some shown
    → is_some (split_once b'=' text) ≡ true
unfolding redact_arg_inline split_flag_assignment redact_env_assignment split_env_assignment
redact_arg_inline-assignment text h = ground arith

if-redact_from :
    (xs : List Bytes) (b : Bool)
    → (if b then redact_from true xs else redact_from false xs) ≡ redact_from b xs
if-redact_from xs true = refl
if-redact_from xs false = refl

redact_from-step :
    (x : Bytes) (xs : List Bytes)
    → redact_from false (x ∷ xs) ≡ shown_arg x ∷ redact_from (announces_secret x) xs
unfolding redact_from
redact_from-step x xs = elim (Option-cases (to_str x)) [
  | inl unread ↦ rw (redact_from, shown_arg, unread) refl
  | inr (text, read) ↦ elim (Option-cases (redact_arg_inline text)) [
    | inl plain ↦
        let e = is_sensitive_flag-announced text plain in
        rw (redact_from, shown_arg, read, plain, e)
          (ap (λ r. x ∷ r) (if-redact_from xs (announces_secret_text text)))
    | inr (redacted, e) ↦
        rw
          (
            redact_from,
            shown_arg,
            read,
            e,
            announces_secret_text,
            redact_arg_inline-assignment text e,
          )
          refl
  ]
]

redact_from-assigned :
    (name : Text) (x : Bytes) (xs : List Bytes)
    → is_sensitive_name name ≡ true
    → IsAssignment name x
    → redact_from false (x ∷ xs) ≡ as_bytes (redacted_assignment name) ∷ redact_from false xs
unfolding redact_from
redact_from-assigned name x xs sensitive (text, value, read, once) =
    rw (redact_from, read, redact_arg_inline-assigned text name value once sensitive) refl

redact_from-SameArgs :
    {announced : Bool} {xs ys : List Bytes}
    → SameArgs announced xs ys
    → redact_from announced xs ≡ redact_from announced ys
unfolding redact_from
redact_from-SameArgs done = refl
redact_from-SameArgs (secret x y rest) = rw (redact_from-SameArgs rest) refl
redact_from-SameArgs (assigned {xs} {ys} name x y sensitive left right rest) =
    redact_from-assigned name x xs sensitive left
    ∙ ap (λ r. as_bytes (redacted_assignment name) ∷ r) (redact_from-SameArgs rest)
    ∙ sym (redact_from-assigned name y ys sensitive right)
redact_from-SameArgs (shown {xs} {ys} x rest) =
    redact_from-step x xs
    ∙ ap (λ r. shown_arg x ∷ r) (redact_from-SameArgs rest)
    ∙ sym (redact_from-step x ys)

redact_env-SameEnv : {xs ys : List (Bytes × Bytes)} → SameEnv xs ys → redact_env xs ≡ redact_env ys
unfolding redact_env
redact_env-SameEnv no_variables = refl
redact_env-SameEnv (hidden name x y text read sensitive rest) =
    rw (read, sensitive, redact_env-SameEnv rest) refl
redact_env-SameEnv (kept pair rest) = rw (redact_env-SameEnv rest) refl

-- Two events that differ only in secrets are serialised alike. A secret is an argument behind a
-- flag that stands alone, is shown itself and has a sensitive name, the value of an argument that
-- assigns to a sensitive name, or the value of an environment variable with a sensitive name, where
-- the flag, the assignment and the name are UTF-8.
pub serialized-same_public :
    (event : ExecEvent) {args : List Bytes} {env : List (Bytes × Bytes)}
    → SameArgs false event.args args
    → SameEnv event.env env
    → serialized (record event { args = args; env = env }) ≡ serialized event
unfolding serialized redact_args
serialized-same_public event same_args same_env =
    rw (redact_from-SameArgs same_args, redact_env-SameEnv same_env) refl
