-- ===== src/Fs/Patch/Applied.antt =====
-- What a patch that succeeds has done.
use omne_runtime.Base.{
  text_eq→eq, Bool-cases, ◌⊎◌, ℕ, Text, Bytes, some, true, ok, ◌≡◌, ◌≤◌, length, leb→le, arith,
  Option-cases, Result-cases, inl, inr, text_eq, if◌then◌else◌,
}
use omne_runtime.Fs.Context.{
  ensure_policy_permission, ensure_write_operation_allowed, ensure_can_write, Context, FileSystem,
}
use omne_runtime.Fs.Edit.{FileAccess}
use omne_runtime.Fs.Patch.{
  limit_or, ensure_patch_headers_match_target, apply_unified_patch, PatchResponse, PatchRequest,
  Diffy, patched_content,
}
use omne_runtime.Fs.Patch.Headers.{ensure_patch_headers_match_target-IsForFile}
use omne_runtime.Fs.Patch.Names.{IsForFile}
use omne_runtime.Fs.Policy.{Limits}
use omne_runtime.Fs.Redaction.{Patterns}
use omne_runtime.Fs.Resolve.{canonical_path_in_root}

patched_content-eq_ok :
    (diffy : Diffy) (limits : Limits) (max_patch_bytes : ℕ) (relative : Bytes) (text : Text)
    (parsed : diffy.Patch) (content updated : Bytes)
    → patched_content diffy limits max_patch_bytes relative text parsed content ≡ ok updated
    → (diffy.apply content parsed ≡ some updated) × (length updated ≤ limits.max_write_bytes)
unfolding patched_content
patched_content-eq_ok diffy limits max_patch_bytes relative text parsed content updated h =
    (ground arith, leb→le _ _ (ground arith))

-- A patch that has been applied: it was permitted, its text parses, its headers are for the file,
-- and what it makes of the file's content is within the limit, and was written where it differs.
pub record IsPatched (patterns : Patterns) (fs : FileSystem) (ctx : Context patterns)
    (io : FileAccess) (diffy : Diffy) (request : PatchRequest) (response : PatchResponse)
    : Type 0 where
  pub permitted : ctx.policy.permissions.patch ≡ true
  pub writable : ensure_can_write patterns ctx request.root_id "patch" ≡ ok tt
  pub path : Bytes
  pub resolved :
      canonical_path_in_root patterns fs ctx request.root_id request.path
      ≡ ok (path, response.path, response.requested_path)
  pub parsed : diffy.Patch
  pub parses : diffy.parse request.patch_text ≡ some parsed
  pub headers : ensure_patch_headers_match_target diffy parsed response.requested_path ≡ ok tt
  pub named : IsForFile diffy parsed response.requested_path
  pub content : Bytes
  pub identity : io.Identity
  pub found :
      io.read_string path response.path ctx.policy.limits.max_read_bytes ≡ ok (content, identity)
  pub updated : Bytes
  pub applied : diffy.apply content parsed ≡ some updated
  pub fits : length updated ≤ ctx.policy.limits.max_write_bytes
  pub reported : response.bytes_written ≡ (if text_eq updated content then 0 else length updated)
  pub written :
      (updated ≡ content)
      ⊎ (io.write_bytes path response.path updated identity ctx.policy.limits.preserve_unix_xattrs
          ≡ ok tt)

module _ (patterns : Patterns) (fs : FileSystem) (ctx : Context patterns) (io : FileAccess)
    (diffy : Diffy) where
  -- The parts of a patch from the results of its steps.
  apply_unified_patch-steps :
      (request : PatchRequest) (response : PatchResponse) (path relative requested : Bytes)
      (parsed : diffy.Patch) (content : Bytes) (identity : io.Identity) (updated : Bytes)
      → apply_unified_patch patterns fs ctx io diffy request ≡ ok response
      → canonical_path_in_root patterns fs ctx request.root_id request.path
        ≡ ok (path, relative, requested)
      → diffy.parse request.patch_text ≡ some parsed
      → io.read_string path relative ctx.policy.limits.max_read_bytes ≡ ok (content, identity)
      → patched_content diffy ctx.policy.limits
          (limit_or ctx.policy.limits.max_patch_bytes ctx.policy.limits.max_read_bytes)
          relative
          request.patch_text
          parsed
          content
        ≡ ok updated
      → IsPatched patterns fs ctx io diffy request response
  unfolding apply_unified_patch ensure_write_operation_allowed ensure_policy_permission
  apply_unified_patch-steps request response path relative requested parsed content identity updated
        h q p r u =
      let (applied, fits) =
        patched_content-eq_ok diffy ctx.policy.limits
          (limit_or ctx.policy.limits.max_patch_bytes ctx.policy.limits.max_read_bytes) relative
          request.patch_text parsed content updated u in
      let same_path : relative ≡ response.path = ground arith in
      let same_request : requested ≡ response.requested_path = ground arith in
      let headers : ensure_patch_headers_match_target diffy parsed requested ≡ ok tt =
        ground arith in
      let written : (updated ≡ content)
          ⊎ (io.write_bytes path relative updated identity ctx.policy.limits.preserve_unix_xattrs
              ≡ ok tt) =
        elim (Bool-cases (text_eq updated content)) [
          | inl t ↦ inl (text_eq→eq updated content t)
          | inr t ↦ inr (ground arith)
        ] in
      record {
        permitted = ground arith;
        writable = ground arith;
        path = path;
        resolved = rw (← same_path, ← same_request) q;
        parsed = parsed;
        parses = p;
        headers = rw (← same_request) headers;
        named =
            rw (← same_request)
              (ensure_patch_headers_match_target-IsForFile diffy parsed requested headers);
        content = content;
        identity = identity;
        found = rw (← same_path) r;
        updated = updated;
        applied = applied;
        fits = fits;
        reported = ground arith;
        written = rw (← same_path) written;
      }

  -- A patch that succeeds was permitted in a writable root; its path was resolved in the root; its
  -- text parses; its headers are the names `original` and `modified` that diffy writes by default,
  -- which are accepted for every file, or both name the requested path by a path that is neither
  -- absolute nor has a `..`, as they stand or, where one header starts with `a/` and the other with
  -- `b/`, without that prefix; what it makes of the content that was read is within the limit of a
  -- write, and was written there, for the identity of the file that was read, unless it is that
  -- content; and the response reports its size, or zero where nothing changed.
  pub apply_unified_patch-IsPatched :
      (request : PatchRequest) (response : PatchResponse)
      → apply_unified_patch patterns fs ctx io diffy request ≡ ok response
      → IsPatched patterns fs ctx io diffy request response
  unfolding apply_unified_patch ensure_write_operation_allowed ensure_policy_permission
  apply_unified_patch-IsPatched request response h =
      let limits = ctx.policy.limits in
      let max_patch_bytes = limit_or limits.max_patch_bytes limits.max_read_bytes in
      let text = request.patch_text in
      elim (Result-cases (canonical_path_in_root patterns fs ctx request.root_id request.path)) [
        | inr (e, q) ↦ absurd (ground arith)
        | inl ((path, relative, requested), q) ↦ elim (Option-cases (diffy.parse text)) [
          | inl e ↦ absurd (ground arith)
          | inr (parsed, p) ↦
              elim (Result-cases (io.read_string path relative limits.max_read_bytes)) [
                | inr (e, r) ↦ absurd (ground arith)
                | inl ((content, identity), r) ↦
                    elim (Result-cases
                      (patched_content diffy limits max_patch_bytes relative text parsed content)) [
                        | inr (e, u) ↦ absurd (ground arith)
                        | inl (updated, u) ↦
                            apply_unified_patch-steps request response path relative requested
                              parsed content identity updated h q p r u
                      ]
              ]
        ]
      ]
