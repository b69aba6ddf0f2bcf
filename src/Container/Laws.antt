-- ===== src/Container/Laws.antt =====
-- Laws of the container's helpers.
use myminivault.Prelude.{ℕ, ◌≡◌, arith}
use myminivault.Container.{Metadata, normalize_metadata}

-- Normalising twice is normalising once.
pub normalize_metadata_idem :
    (meta : Metadata) (n : ℕ)
    → normalize_metadata (normalize_metadata meta n) n ≡ normalize_metadata meta n
unfolding normalize_metadata
normalize_metadata_idem meta n = ground arith
