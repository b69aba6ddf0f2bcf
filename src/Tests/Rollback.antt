-- ===== src/Tests/Rollback.antt =====
-- A vault that is saved once more after its first trusted save.
use myminivault.Prelude.{◌≡◌, refl, none, some, ok, if◌then◌else◌, codes, bytes_eq, arith}
use myminivault.Prelude.Int.{pos, inc64}
use myminivault.Model.{VaultMetadata}
use myminivault.Rollback.{
  State, all_right, warn, fail, possible_rollback, ensure_metadata, trusts_at_least,
  prepare_next_revision, save_state, save_revision, check_with_mode,
}
use myminivault.Rollback.Detection.{IsTrusted, here, rollback_detected}

abbrev pub saved : VaultMetadata
saved = record {
  version = codes "1.0";
  created_at = 5;
  last_access = 5;
  access_count = pos 1;
  vault_id = codes "id";
  revision = pos 3;
}

abbrev pub state : State
state = record { vault_id = codes "id"; highest_revision = pos 3; updated_at = 6 }

abbrev pub saved_again : VaultMetadata
saved_again = record saved { revision = pos 4 }

abbrev pub state_again : State
state_again = record { vault_id = codes "id"; highest_revision = pos 4; updated_at = 9 }

pub saved-IsTrusted : IsTrusted saved state
saved-IsTrusted = record {
  has_id = refl;
  same_id = refl;
  positive = omega arith;
  at_revision = refl;
}

rollback_detected_example :
    ((check_with_mode (ok state_again) saved_again (codes "block")).status ≡ all_right)
    × (check_with_mode (ok state_again) saved (codes "block") ≡ record {
      status = if bytes_eq (codes "block") (codes "block") then fail else warn;
      detail = possible_rollback (pos 3) (pos 4);
      state = some state_again;
    })
unfolding save_revision prepare_next_revision ensure_metadata trusts_at_least save_state inc64
    bytes_eq
rollback_detected_example =
    rollback_detected saved state none 9 saved_again state_again (codes "block") saved-IsTrusted
      here (omega arith) refl
