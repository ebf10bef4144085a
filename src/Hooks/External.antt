-- ===== src/Hooks/External.antt =====
-- What the hook system takes from other packages: JSON values (serde_json), glob patterns (glob),
-- the digest (blake3), and the escapes by which `{:?}` prints a text.
use di_rac.Prelude.{ℕ, String, Bool, List, Option, ◌⊎◌}

pub record External : Type 1 where
  pub Json : Type 0
  -- `Value::Null`
  pub json_null : Json
  -- `Value::get` on a key of an object
  pub json_get : Json → String → Option Json
  -- the text of a `Value::String`
  pub json_as_str : Json → Option String
  pub json_is_null : Json → Bool
  pub json_to_string : Json → String
  -- `serde_json::from_str`, `none` for its error
  pub json_from_str : String → Option Json
  pub Pattern : Type 0
  -- `glob::Pattern::new`, or the message of its error
  pub new_pattern : String → Pattern ⊎ String
  pub matches : Pattern → String → Bool
  pub blake3 : String → List ℕ
  pub debug_str : String → String
