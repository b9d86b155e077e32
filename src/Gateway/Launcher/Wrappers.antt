-- ===== src/Gateway/Launcher/Wrappers.antt =====
-- The recursion through wrappers ends, and its fuel is no bound on what it finds.
use omne_runtime.Base.{
  if◌then◌else◌, contains, ap, and_then, ℕ, zero, suc, ◌≤◌, ◌<◌, ◌≡◌, Bool, true, false, ◌||◌,
  Option, none, some, List, [], ◌∷◌, Text, Bytes, length, arith, inl, inr, Option-cases,
}
use mathlib.Core.Option.{some-injective}
use omne_runtime.Gateway.Launcher.{
  Subcommand, first_of_args, after_duration, timeout_values, nice_values, stdbuf_values,
  skip_options, timeout_subcommand, nice_subcommand, setsid_subcommand, stdbuf_subcommand,
  passthrough_wrapper_subcommand, subcommand_of, wrapped_subcommand, program_basename_ascii,
  uses_opaque_command_launcher, invocation_on_fuel, invocation_uses_opaque_command_launcher,
}
use omne_runtime.Text.{to_str}

-- A ladder of three tests returns one of its branches.
module _ {n : ℕ} {rest : List Bytes} where
  length-ladder :
      (a b c : Bool) {o p q r : Option (List Bytes)}
      → (o ≡ some rest → length rest ≤ n)
      → (p ≡ some rest → length rest ≤ n)
      → (q ≡ some rest → length rest ≤ n)
      → (r ≡ some rest → length rest ≤ n)
      → (if a then o else if b then p else if c then q else r) ≡ some rest
      → length rest ≤ n
  length-ladder true b c ho hp hq hr h = ho h
  length-ladder false true c ho hp hq hr h = hp h
  length-ladder false false true ho hp hq hr h = hq h
  length-ladder false false false ho hp hq hr h = hr h

length-some : {xs ys : List Bytes} → some xs ≡ some ys → length ys ≤ length xs
length-some h = omega (arith, ap length (some-injective _ _ h))

length-skip_options :
    (takes_value : Text → Bool) (args : List Bytes) {rest : List Bytes}
    → skip_options takes_value args ≡ some rest
    → length rest ≤ length args
unfolding skip_options
length-skip_options takes_value [] h = length-some h
length-skip_options takes_value (arg ∷ []) {rest} h = elim (Option-cases (to_str arg)) [
  | inl e ↦ cc e
  | inr (text, e) ↦
      length-ladder {rest = rest} _ _ false {o = some []} {p = some (arg ∷ [])} {q = some []}
        {r = some []} (λ q. omega (arith, length-some q)) length-some
        (λ q. omega (arith, length-some q)) (λ q. omega (arith, length-some q)) (rw e at h)
]
length-skip_options takes_value (arg ∷ value ∷ more) {rest} h =
    let next = length-skip_options takes_value (value ∷ more) {rest = rest} in
    let after_value = length-skip_options takes_value more {rest = rest} in
    elim (Option-cases (to_str arg)) [
      | inl e ↦ cc e
      | inr (text, e) ↦
          length-ladder {rest = rest} _ _ _ {o = some (value ∷ more)}
            {p = some (arg ∷ value ∷ more)} {q = skip_options takes_value more}
            {r = skip_options takes_value (value ∷ more)} (λ q. omega (arith, length-some q))
            length-some (λ q. omega (arith, after_value q)) (λ q. omega (arith, next q)) (rw e at h)
    ]

-- What stands behind the options of a wrapper, if there is anything.
module _ (takes_value : Text → Bool) (args : List Bytes) {s : Subcommand} where
  length-first_of_args :
      and_then (skip_options takes_value args) first_of_args ≡ some s → length s.1 < length args
  length-first_of_args h = elim (Option-cases (skip_options takes_value args)) [
    | inl e ↦ cc e
    | inr (rest, e) ↦ go rest e (rw e at h)
  ]
    where
      go :
          (rest : List Bytes)
          → skip_options takes_value args ≡ some rest
          → first_of_args rest ≡ some s
          → length s.1 < length args
      go [] e q = cc q
      go (x ∷ xs) e q =
          let t = length-skip_options takes_value args {rest = x ∷ xs} e in ground (arith, t)

  length-after_duration :
      and_then (skip_options takes_value args) after_duration ≡ some s → length s.1 < length args
  length-after_duration h = elim (Option-cases (skip_options takes_value args)) [
    | inl e ↦ cc e
    | inr (rest, e) ↦ go rest e (rw e at h)
  ]
    where
      go :
          (rest : List Bytes)
          → skip_options takes_value args ≡ some rest
          → after_duration rest ≡ some s
          → length s.1 < length args
      go [] e q = cc q
      go (x ∷ []) e q = cc q
      go (x ∷ y ∷ xs) e q =
          let t = length-skip_options takes_value args {rest = x ∷ y ∷ xs} e in ground (arith, t)

module _ (args : List Bytes) {s : Subcommand} where
  length-passthrough_wrapper_subcommand :
      passthrough_wrapper_subcommand args ≡ some s → length s.1 < length args
  unfolding passthrough_wrapper_subcommand
  length-passthrough_wrapper_subcommand h = ground arith

  length-subcommand_of : (name : Text) → subcommand_of name args ≡ some s → length s.1 < length args
  unfolding subcommand_of timeout_subcommand nice_subcommand setsid_subcommand stdbuf_subcommand
  length-subcommand_of name h = ground (
    arith,
    length-after_duration (contains timeout_values) args {s = s},
    length-first_of_args (contains nice_values) args {s = s},
    length-passthrough_wrapper_subcommand,
    length-first_of_args (λ text. false) args {s = s},
    length-first_of_args (contains stdbuf_values) args {s = s},
  )

-- A wrapped command has fewer arguments than its wrapper.
pub length-wrapped_subcommand :
    (program : Bytes) (args : List Bytes) {subcommand : Bytes} {remaining : List Bytes}
    → wrapped_subcommand program args ≡ some (subcommand, remaining)
    → length remaining < length args
unfolding wrapped_subcommand
length-wrapped_subcommand program args h = elim (Option-cases (program_basename_ascii program)) [
  | inl e ↦ cc e
  | inr (name, e) ↦ length-subcommand_of args name (rw e at h)
]

-- More fuel than arguments finds what any such fuel finds.
invocation_on_fuel_enough :
    (f g : ℕ) (program : Bytes) (args : List Bytes)
    → length args < f
    → length args < g
    → invocation_on_fuel f program args ≡ invocation_on_fuel g program args
unfolding invocation_on_fuel
invocation_on_fuel_enough zero g program args hf hg = absurd (omega arith)
invocation_on_fuel_enough (suc f) zero program args hf hg = absurd (omega arith)
invocation_on_fuel_enough (suc f) (suc g) program args hf hg =
    elim (Option-cases (wrapped_subcommand program args)) [
      | inl e ↦ rw e
      | inr (s, e) ↦
          let shorter = length-wrapped_subcommand program args e in
          rw (e, invocation_on_fuel_enough f g s.0 s.1 (omega arith) (omega arith))
    ]

abbrev pub delegates_to_opaque : Option Subcommand → Bool
delegates_to_opaque none = false
delegates_to_opaque (some (subcommand, remaining)) =
    invocation_uses_opaque_command_launcher subcommand remaining

-- An invocation is an opaque launcher exactly when its program is one or the command that it wraps
-- is one: the recursion on nested wrappers satisfies the equation of the source without fuel.
pub invocation_uses_opaque_command_launcher_lem :
    (program : Bytes) (args : List Bytes)
    → invocation_uses_opaque_command_launcher program args ≡ (
        uses_opaque_command_launcher program
        || delegates_to_opaque (wrapped_subcommand program args))
unfolding invocation_uses_opaque_command_launcher invocation_on_fuel
invocation_uses_opaque_command_launcher_lem program args =
    elim (Option-cases (wrapped_subcommand program args)) [
      | inl e ↦ rw e
      | inr (s, e) ↦
          let shorter = length-wrapped_subcommand program args e in
          rw (
            e,
            invocation_on_fuel_enough (length args) (suc (length s.1)) s.0 s.1 shorter
                (omega arith),
          )
    ]
