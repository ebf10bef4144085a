-- ===== src/Util/Anchors.antt =====
-- The anchors of lines: `anchor_hash` and `FileAnchorIndex` of di-core/src/util.rs.
pub mod Distinct
use di_rac.Prelude.{
  ℕ, zero, suc, ◌+◌, ◌*◌, ◌/◌, ◌%◌, Bool, true, false, List, [], ◌∷◌, ◌++◌, map, Option, none, some,
  ◌==◌, ltb, length, take, get_elem?, unwrap_or, Chars, chars_eq, as_bytes, number, if◌then◌else◌,
}

-- a character of `ANCHOR_ALPHABET`
abbrev pub base32 : ℕ → ℕ
base32 d = if ltb d 10 then 48 + d else 87 + d

-- `u32::from_be_bytes` of the first four bytes, or of zeros where there are fewer
abbrev pub first_word : List ℕ → ℕ
first_word (a ∷ b ∷ c ∷ d ∷ rest) = ((a * 256 + b) * 256 + c) * 256 + d
first_word _ = 0

-- `anchor_hash`; `blake3` gives the bytes of the digest.
unfoldable pub anchor_hash : (List ℕ → List ℕ) → List ℕ → Chars
anchor_hash blake3 bytes =
    let n = first_word (blake3 bytes) in
    base32 ((n / 1024) % 32) ∷ base32 ((n / 32) % 32) ∷ base32 (n % 32) ∷ []

pub record FileAnchorIndex : Type 0 where
  pub hash_by_line : List Chars
  pub line_idx_by_hash : List (Chars × ℕ)
  pub lines : List Chars

-- how often a hash occurs
unfoldable pub occurrences : Chars → List Chars → ℕ
unfolding chars_eq
occurrences h [] = 0
occurrences h (k ∷ ks) = (if chars_eq k h then 1 else 0) + occurrences h ks

-- The anchor of a line, of all the raw hashes and those before it: its position among the lines with
-- its hash is how many of these come before.
unfoldable pub final_hash : List Chars → List Chars → Chars → Chars
unfolding occurrences number
final_hash everything before raw =
    if occurrences raw everything == 1 then raw else raw ++ b'_' ∷ number (occurrences raw before)

-- the second pass, from the line after `before`
unfoldable pub final_hashes : List Chars → List Chars → List Chars → List Chars
unfolding final_hash
final_hashes everything before [] = []
final_hashes everything before (raw ∷ raws) =
    final_hash everything before raw ∷ final_hashes everything (raw ∷ before) raws

-- the insertions of the second pass, from line `i`; a later one hides an earlier one
unfoldable pub enter : ℕ → List Chars → List (Chars × ℕ) → List (Chars × ℕ)
enter i [] entries = entries
enter i (h ∷ hs) entries = enter (suc i) hs ((h, i) ∷ entries)

unfoldable pub find_line : Chars → List (Chars × ℕ) → Option ℕ
unfolding chars_eq
find_line h [] = none
find_line h ((k, i) ∷ entries) = if chars_eq k h then some i else find_line h entries

module _ (blake3 : List ℕ → List ℕ) where
  -- the first pass
  abbrev pub raw_hashes : List Chars → List Chars
  raw_hashes lines = map (λ line. anchor_hash blake3 (as_bytes line)) lines

  -- `FileAnchorIndex::new`
  unfoldable pub new_index : List Chars → FileAnchorIndex
  unfolding anchor_hash final_hashes enter as_bytes
  new_index lines =
      let raws = raw_hashes lines in
      let hashes = final_hashes raws [] raws in
      record { hash_by_line = hashes; line_idx_by_hash = enter 0 hashes []; lines = lines }

abbrev pub get_hash : FileAnchorIndex → ℕ → Chars
get_hash index i = unwrap_or (get_elem? index.hash_by_line i) []

abbrev pub line_count : FileAnchorIndex → ℕ
line_count index = length index.hash_by_line

unfoldable pub get_line_idx : FileAnchorIndex → Chars → Option ℕ
unfolding find_line
get_line_idx index h = find_line h index.line_idx_by_hash

abbrev pub get_line : FileAnchorIndex → ℕ → Chars
get_line index i = unwrap_or (get_elem? index.lines i) []
