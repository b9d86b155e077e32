-- ===== src/Lib.antt =====
-- The omne runtime, modelled from its Rust sources: the gateway that decides which commands may run and
-- runs them, the file system tools that work inside the roots of a policy, and three small libraries of
-- pure helpers. What is modelled is the code as it is built on Linux.
--
-- The execution gateway, crates/omne-execution-gateway/src. A request names a program, its arguments, a
-- working directory and a workspace. `ExecGateway::prepare_request` checks the requested isolation, binds
-- the two directories and the program to canonical paths and identities, and asks the allowlists;
-- `ExecGateway::execute` opens the audit log, revalidates what was bound, starts the process, waits for it
-- and writes one audit record.
--   Gateway/Isolation    the isolation levels, which the crate policy-meta declares
--   Gateway/Error        error.rs: ExecError, and the exit statuses and I/O errors that it carries
--   Gateway/Types        types.rs and audit.rs: requests, events, resolutions
--   Gateway/Host         the operating system, and `is_same_file`, `is_spawnable_program_path`
--   Gateway/Policy       policy.rs: the policy and its allowlists
--   Gateway/Launcher     gateway.rs: `invocation_uses_opaque_command_launcher` and the wrappers
--   Gateway/Environment  gateway.rs: `is_startup_sensitive_env_name`
--   Gateway/Directories  gateway.rs: `resolve_request_paths`, `revalidate_bound_directory`
--   Gateway/Programs     gateway.rs: `bind_program_path`, `revalidate_bound_program`
--   Gateway/Authorize    gateway.rs: `authorize_mutation_controlled_request`
--   Gateway/Prepare      gateway.rs: `prepare_request`, `evaluate`, `preflight`, `resolve_request`
--   Gateway/AuditLog     audit_log.rs: the records and the sink
--   Gateway/Redaction    audit.rs: what the log shows of arguments and environment
--   Gateway/Sandbox      sandbox/linux.rs, and the command that gateway.rs builds
--   Gateway/Combine      gateway.rs: how a result is joined with that of an audit write
--   Gateway/Execute      gateway.rs: `ExecGateway::execute`
--   Gateway/PreparedCommand  gateway.rs: `prepare_command`, `PreparedCommand`, `PreparedChild`
-- The other crates: Integrity is crates/omne-integrity-primitives/src/lib.rs, Packages is
-- crates/omne-system-package-primitives/src/lib.rs, HostInfo is crates/omne-host-info-primitives/src/lib.rs.
--
-- The scoped file system tools, crates/omne-fs/src. A `Context` is built from a policy: roots, permissions,
-- limits and secret rules. An operation checks its permission, resolves its path in a root, first by text
-- and then by the file system, and rejects secret paths; what it reads is redacted.
--   Fs/Error             error.rs: the errors and their codes, and the words of a decision trace
--   Fs/Policy            policy.rs: the policy, `validate_structural`, `resolve_path_checked`
--   Fs/Paths             path_utils.rs: lexical normalisation and tests of paths
--   Fs/Redaction         redaction.rs: `SecretRedactor`; Fs/Redaction/Replace its `redact_text_outcome`
--   Fs/Traversal         ops/traversal/compile.rs: the glob patterns of a traversal
--   Fs/Context           ops/context.rs: `Context::new`, the test of the roots, permissions
--   Fs/Resolve           ops/resolve.rs: `canonical_path_in_root`, `classify_notfound_escape`
--   Fs/Leaf              ops/path_validation.rs: `ensure_non_root_leaf`
--   Fs/Edit              ops/edit.rs: `edit_range`
--   Fs/Patch             ops/patch.rs: `apply_unified_patch`
--   Fs/Stat              ops/stat.rs: `stat`
--
-- Archives. `walk_archive_tree` of crates/omne-archive-primitives/src/archive_tree.rs hands the entries of an
-- archive to a visitor, within limits; crates/omne-artifact-install-primitives/src/archive_tree.rs is the visitor
-- that extracts them into a directory.
--   Archive              the formats, limits, errors and budget; `sanitize_archive_path`
--   Archive/Walk         `walk_archive_tree`, over what the crates tar and zip read
--   Install              the calls of an installer on the operating system
--   Install/Directories  `try_open_archive_directory_chain`
--   Install/Leaves       the staged leaves, `write_archive_regular_file`
--   Install/Links        `create_tar_symlink`, `try_create_tar_hard_link` and the tests of their targets
--   Install/Collisions   `CaseCollisionTracker`
--   Install/Tree         `ArchiveTreeInstaller`, `resolve_pending_tar_hard_links`
--   Install/Extract      `extract_archive_tree_into_root`
--
-- Base, Text and FsPath hold what they share: results, lists, and the operations of `str` and
-- `std::path::Path` that the sources call.
--
-- The modules below a component prove its properties; `Tests` modules run definitions on concrete values.
-- Texts are lists of code points, paths and `OsString`s lists of bytes, as on Unix. The operating system
-- and the crates that the sources call are records of functions that the definitions take: a `FileSystem`
-- for each phase, so that the files may change between the preparation and the start; `Processes`;
-- `AuditIo`; `Crates`; `Sha256`; for an extraction the answers of a `System` to the calls made so far; and for the file system tools a `FileSystem` of their
-- own, the `Patterns` of the crates globset and regex, `Diffy` for diffy, and `FileAccess` for reading and
-- writing one file. In the gateway effects are explicit: a
-- `Machine` lists the commands started and the records written.
--
-- Fuel: the recursion through nested command wrappers is on one more than the number of arguments, which
-- is enough since each wrapper consumes one. Decimal and hexadecimal printing is on one more than the number.
-- The rounds over the hard links that wait are as many as the links, which Install/Rounds shows to be enough.
-- Every other function is structural.
--
-- Not modelled: the sandboxes of macOS and Windows and the code for them; the serde code of
-- os_serialization.rs; the guarded opening of the audit file and of
-- the policy file (path_guard.rs), of which the model takes the answers; the command line tools; of omne-fs
-- the operations other than the edit of lines, the patch and stat, the reading and writing of files
-- (ops/io.rs) and the walk of directories; the extraction of one binary (binary_archive.rs), the downloads, the
-- lock and the staging of a whole tree; and the crates omne-fs-primitives and omne-process-primitives.
pub mod Base
pub mod Text
pub mod FsPath
pub mod Archive
pub mod Install
pub mod Gateway
pub mod Integrity
pub mod Packages
pub mod HostInfo
pub mod Fs
