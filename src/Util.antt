-- ===== src/Util.antt =====
-- di-core/src/util.rs: the hash that keys are made of.
pub mod Anchors
use di_rac.Prelude.{ℕ, ◌+◌, ◌*◌, String, List, [], ◌∷◌, take}

-- `u64::from_le_bytes`
abbrev pub from_le_bytes : List ℕ → ℕ
from_le_bytes [] = 0
from_le_bytes (b ∷ bs) = b + 256 * from_le_bytes bs

-- `fast_hash_u64`; `blake3` gives the bytes of the digest.
unfoldable pub fast_hash_u64 : (String → List ℕ) → String → ℕ
fast_hash_u64 blake3 s = from_le_bytes (take 8 (blake3 s))
