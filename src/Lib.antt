-- ===== src/Lib.antt =====
-- myminivault keeps secrets as key and value in an encrypted file. A command loads the vault with
-- the master password, changes the map in memory and saves it; a shared vault for tokens is merged
-- into the main one by timestamps.
--
-- The parts and their files here:
-- Prelude: the shared names, lists, byte strings, results, association lists, signed integers, and
--   the test for powers of two. A Go string is a list of bytes, a map an association list whose
--   order stands for the arbitrary order of `range`, and a nil map is `none`.
-- Commands (internal/commands/commands.go): Export is RenderExport and ShellQuote, Import is
--   Import with SplitImportLines and ParseImportValue, Space is strings.TrimSpace on UTF-8 bytes,
--   Policy is ShouldLogAccess and ShouldMirrorMainVaultToShared. Split, Quote, Line, Fuel, Sorting
--   and RoundTrip hold proofs.
-- Container (internal/container/container.go): Wrap, AssociatedData, Parse and the metadata.
-- Sensitive (internal/sensitive/sensitive.go): the checksum before a payload.
-- Crypto (internal/crypto/crypto.go) and Crypto.KdfPolicy (internal/crypto/kdf_policy.go): key
--   derivation, AES-GCM and the bounds on what a container may ask for.
-- Config (internal/config/config.go): Validate, LoadFile and the KDF profile of a configuration.
-- Model (internal/model/model.go): the payload.
-- Files (internal/paths/paths.go and `fileOps`): named files and calls that take their outcomes
--   from a schedule. Files.Hoare and Files.Calls have the rules for statements about every
--   schedule.
-- Storage (internal/storage/storage.go): Profile and Codec are the encrypted form, Save is
--   SaveFileAtomic, Load is LoadBytes with recoverInterruptedSave.
-- Rollback (internal/rollback/rollback.go, cmd/vault/storage_bridge.go): revisions and their
--   check; Rollback.Write is writeAtomic.
-- Recovery (internal/recovery/recovery.go): SaveFile and GroupKey; Recovery.Open is
--   DecryptParsedVault. Files.Temp has the steps that the writes beside a target share.
-- Files.Move (cmd/vault/config_cli.go): moveRuntimeFile and the loop of migrateLegacyRuntimeFiles.
-- Backup (cmd/vault/commands.go, cmd/vault/restore_cli.go): timestamped backups with their
--   pruning, and restore, on a directory of regular files whose calls are carried out or refused
--   as Calls says; Backup.Kept is a confirmed restore on the calls of Files, where the process may
--   stop as well, and Backup.Replace its replacement of the vault.
-- Health (internal/health/metadata.go) and Doctor (cmd/vault/doctor_cli.go): the checks of doctor.
-- Lock (internal/lock/lock.go): the wait for the lock file.
-- Sync (internal/sync/sync.go): ImportSharedVault, PreviewSharedVault and the marks.
-- Token (internal/token/token.go): SaveEncryptedVault and LoadEncryptedVault without the files,
--   and the tests on a token. Token.Save is SaveVaultFileAtomic on the calls of Files.
--   Token.Signed is CreateShortSignedToken in both versions and ParseAndValidateProductionToken,
--   Token.Pattern is MatchKeyPattern, Token.Execute (cmd/vault/token_execute_cli.go) is the
--   commands that a token runs, and Token.Execute.Request the request that they are read from.
--   Accepted, Checked, Glob, Counting, Confined, Limits and Flags hold proofs.
-- Session (cmd/vault): Mirror is sync.go, Tokens is the creation, revocation and cleanup of
--   token_manage_cli.go, Handlers is the handlers and options of commands.go, State is what a
--   command works on with saveExtendedVaultBytes of storage_bridge.go, Execute is
--   executePasswordCommand with setup-recovery and Run runPasswordCommandBytes of main.go. Stable,
--   Creation, Cleanup, Options, Blocked, Unchanged and Written hold proofs. Run works on decoded
--   vaults and the entries of the audit log (World); that a file opens to what was saved is
--   Storage. Session.Recovery (recovery_cli.go, recovery_freshness.go, storage_bridge.go) is the
--   commands on the recovery key and the password, on decoded vaults with the secrets that open
--   them; Fresh, Recovered and Behind hold its proofs.
--
-- Run and Execute call Handlers, Tokens, Mirror and Rollback; Mirror calls Sync; Tokens calls
-- Mirror and Token.Signed; Token.Execute calls Token.Signed, Token.Pattern and Sync. Codec calls
-- Container, Sensitive and Crypto; Load calls Codec and Files; Save calls Container and Files;
-- Recovery, Rollback.Write, Token.Save, Backup.Kept and Backup.Replace call Files.Temp;
-- Storage.Sealed is what the round trips of Token and Recovery share. Code of other packages is a
-- parameter: the ciphers and KDFs (Crypto.Primitives), SHA-256 and encoding/json
-- (Storage.Codec.Library), HMAC and base64 (Token.Signed.TokenLibrary), regexp and ToLower
-- (Token.Execute.UseLibrary). What a theorem needs of them it states as a hypothesis.
--
-- Two loops run on fuel. Each round of ParseImportValue takes the opening quote at least, so the
-- length of the value and one more are enough. Each round of WithFileTimeout takes at least the
-- retry delay off the time that is left, so one round more than the timeout has nanoseconds is
-- enough.
--
-- Not modelled: the durability that fsync adds, file modes beyond the checks of doctor, other
-- processes between two calls, the prompts and the output, test-recovery, the registry and the key
-- file of the token engine, the hardening of permissions, the format of the audit log and the
-- entries of tokens, the clipboard, the keychain, the stand-alone tools, and the wiping of buffers
-- beyond Wipe itself.
pub mod Prelude
pub mod Backup
pub mod Commands
pub mod Container
pub mod Sensitive
pub mod Crypto
pub mod Config
pub mod Health
pub mod Lock
pub mod Doctor
pub mod Model
pub mod Session
pub mod Storage
pub mod Recovery
pub mod Rollback
pub mod Sync
pub mod Token
pub mod Files
pub mod Tests
