-- ===== src/Fs/Resolve/Canonical.antt =====
-- What the resolution of a request by the file system guarantees.
use omne_runtime.Base.{
  map_err, Text, List, Bytes, some, true, false, ◌++◌, ok, ◌≡◌, arith, inl, inr, Result-cases,
  Option-cases,
}
use omne_runtime.Fs.Context.{canonical_root, reject_secret_path, Context, FileSystem}
use omne_runtime.Fs.Error.{Error, FsIoError}
use omne_runtime.Fs.Paths.{strip_path_prefix}
use omne_runtime.Fs.Policy.{resolve_path_checked}
use omne_runtime.Fs.Redaction.{is_path_denied, Patterns}
use omne_runtime.Fs.Resolve.{
  or_dot, canonical_path_in_root, resolve_path_in_root_lexically, ResolvedPath,
}
use omne_runtime.FsPath.{path_starts_with, path_components}
use omne_runtime.FsPath.Laws.{path_starts_with_iff}

module _ (patterns : Patterns) (ctx : Context patterns) where
  reject_secret_path-eq_ok :
      (path accepted : Bytes)
      → reject_secret_path patterns ctx path ≡ ok accepted
      → (accepted ≡ path) × (is_path_denied patterns ctx.redactor accepted ≡ false)
  unfolding reject_secret_path
  reject_secret_path-eq_ok path accepted h = (ground arith, ground arith)

  -- The parts of a lexical resolution that succeeds.
  record IsLexical (root_id : Text) (path : Bytes) (r : ResolvedPath) : Type 0 where
    checked : resolve_path_checked ctx.policy root_id path ≡ ok r.resolved
    rooted : canonical_root patterns ctx root_id ≡ ok r.canonical_root
    allowed : is_path_denied patterns ctx.redactor r.requested_path ≡ false

  resolve_path_in_root_lexically-IsLexical :
      (root_id : Text) (path : Bytes) (r : ResolvedPath)
      → resolve_path_in_root_lexically patterns ctx root_id path ≡ ok r
      → IsLexical root_id path r
  unfolding resolve_path_in_root_lexically reject_secret_path
  resolve_path_in_root_lexically-IsLexical root_id path r h = record {
    checked = ground arith;
    rooted = ground arith;
    allowed = ground arith;
  }

-- A request that is resolved in a root: the file system's name of the lexically resolved path, with
-- the components of the root's directory in front, whose path in the root is not secret, as the
-- requested path is not.
pub record IsCanonicalInRoot (patterns : Patterns) (fs : FileSystem) (ctx : Context patterns)
    (root_id : Text) (path canonical relative requested : Bytes) : Type 0 where
  pub resolved : Bytes
  pub directory : Bytes
  pub stripped : Bytes
  pub rest : List Bytes
  pub checked : resolve_path_checked ctx.policy root_id path ≡ ok resolved
  pub rooted : canonical_root patterns ctx root_id ≡ ok directory
  pub named : fs.canonicalize resolved ≡ ok canonical
  pub inside : path_components canonical ≡ path_components directory ++ rest
  pub stripped_from : strip_path_prefix canonical directory ≡ some stripped
  pub relative_to : relative ≡ or_dot stripped
  pub relative_allowed : is_path_denied patterns ctx.redactor relative ≡ false
  pub requested_allowed : is_path_denied patterns ctx.redactor requested ≡ false

module _ (patterns : Patterns) (fs : FileSystem) (ctx : Context patterns) where
  canonicalize-eq_ok :
      (resolved canonical : Bytes) (e : FsIoError → Error)
      → map_err (fs.canonicalize resolved) e ≡ ok canonical
      → fs.canonicalize resolved ≡ ok canonical
  canonicalize-eq_ok resolved canonical e h = ground arith

  -- A request that is resolved in a root of a context gives the name that the file system has for
  -- the lexically resolved path, with the components of the directory of the root in front; its
  -- path in the root is what remains, or `.`, and neither that path nor the requested one is denied
  -- by the secret rules.
  pub canonical_path_in_root-IsCanonicalInRoot :
      (root_id : Text) (path canonical relative requested : Bytes)
      → canonical_path_in_root patterns fs ctx root_id path ≡ ok (canonical, relative, requested)
      → IsCanonicalInRoot patterns fs ctx root_id path canonical relative requested
  unfolding canonical_path_in_root
  canonical_path_in_root-IsCanonicalInRoot root_id path canonical relative requested h =
      elim (Result-cases (resolve_path_in_root_lexically patterns ctx root_id path)) [
        | inr (e, q) ↦ absurd (ground arith)
        | inl (r, q) ↦
            let lexical = resolve_path_in_root_lexically-IsLexical patterns ctx root_id path r q in
            let named : fs.canonicalize r.resolved ≡ ok canonical = ground arith in
            let starts : path_starts_with canonical r.canonical_root ≡ true = ground arith in
            elim (Option-cases (strip_path_prefix canonical r.canonical_root)) [
              | inl s ↦ absurd (ground arith)
              | inr (stripped, s) ↦
                  let rejected : reject_secret_path patterns ctx (or_dot stripped) ≡ ok relative =
                    ground arith in
                  let same : requested ≡ r.requested_path = ground arith in
                  let (relative_to, relative_allowed) =
                    reject_secret_path-eq_ok patterns ctx (or_dot stripped) relative rejected in
                  let (rest, inside) = (path_starts_with_iff canonical r.canonical_root).0 starts in
                  record {
                    resolved = r.resolved;
                    directory = r.canonical_root;
                    stripped = stripped;
                    rest = rest;
                    checked = lexical.checked;
                    rooted = lexical.rooted;
                    named = named;
                    inside = inside;
                    stripped_from = s;
                    relative_to = relative_to;
                    relative_allowed = relative_allowed;
                    requested_allowed = rw same lexical.allowed;
                  }
            ]
      ]
