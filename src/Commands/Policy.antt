-- ===== src/Commands/Policy.antt =====
-- internal/commands/commands.go: which commands are logged and mirrored.
use myminivault.Prelude.{Bool, false, Bytes, codes, bytes_eq, List, [], ◌∷◌, ◌||◌, not}

-- A `switch` on the command's name.
unfoldable pub is_one_of : Bytes → List Bytes → Bool
is_one_of command [] = false
is_one_of command (name ∷ names) = bytes_eq command name || is_one_of command names

unfoldable pub should_log_access : Bytes → Bool
should_log_access command = not (
    is_one_of command
      (codes "get" ∷ codes "list" ∷ codes "export" ∷ codes "search" ∷ codes "stats" ∷ []))

unfoldable pub should_mirror_main_vault_to_shared : Bytes → Bool
should_mirror_main_vault_to_shared command =
    is_one_of command (codes "set" ∷ codes "delete" ∷ codes "clear" ∷ codes "import" ∷ [])
