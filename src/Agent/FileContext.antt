-- ===== src/Agent/FileContext.antt =====
-- `FileContextTracker` of di-core/src/agent/file_context.rs.
pub mod Stale
mod Tests
use di_rac.Prelude.{
  ℕ, suc, String, Bool, true, false, not, ◌&&◌, List, [], ◌∷◌, ◌++◌, map, Option, none, some, ltb,
  ◌==◌, str_eq, contains, retain, is_empty, Chars, codes, join_texts, if◌then◌else◌,
}

pub record FileReadState : Type 0 where
  pub content_hash : String
  pub read_count : ℕ
  pub last_read_event_id : ℕ
  pub edited_since_read : Bool

-- The HashMap has one entry for each path.
abbrev pub FilesRead : Type 0
FilesRead = List (String × FileReadState)

pub record FileContextTracker : Type 0 where
  pub files_read : FilesRead
  pub files_edited : List String
  pub files_metadata_observed : List String

-- `FileContextTracker::new`
abbrev pub new_tracker : FileContextTracker
new_tracker = record { files_read = []; files_edited = []; files_metadata_observed = [] }

-- the state before a path is read; the nil id is 0
abbrev pub unread : FileReadState
unread = record {
  content_hash = "";
  read_count = 0;
  last_read_event_id = 0;
  edited_since_read = false;
}

-- `files_read.get`
unfoldable pub file_state : String → FilesRead → Option FileReadState
file_state path [] = none
file_state path ((p, s) ∷ files) = if str_eq p path then some s else file_state path files

-- `entry(path).or_insert(unread)`, changed by `f`
unfoldable pub change_entry : String → (FileReadState → FileReadState) → FilesRead → FilesRead
change_entry path f [] = (path, f unread) ∷ []
change_entry path f ((p, s) ∷ files) =
    let rest = change_entry path f files in
    if str_eq p path then (p, f s) ∷ files else (p, s) ∷ rest

-- `get_mut(path)`, changed by `f` where it is there
unfoldable pub change_known : String → (FileReadState → FileReadState) → FilesRead → FilesRead
change_known path f [] = []
change_known path f ((p, s) ∷ files) =
    let rest = change_known path f files in
    if str_eq p path then (p, f s) ∷ files else (p, s) ∷ rest

-- `HashSet::insert`
abbrev pub add_path : String → List String → List String
add_path path paths = if contains path paths then paths else path ∷ paths

-- `id` stands for the new id of a read event.
unfoldable pub mark_read : ℕ → String → String → FileContextTracker → FileContextTracker
unfolding change_entry
mark_read id path hash t = record t {
  files_read =
      change_entry path
        (λ s. record s { content_hash = hash; edited_since_read = false; last_read_event_id = id })
        t.files_read;
}

unfoldable pub pre_increment_read : ℕ → String → FileContextTracker → FileContextTracker
unfolding change_entry
pre_increment_read id path t = record t {
  files_read =
      change_entry path (λ s. record s { read_count = suc s.read_count; last_read_event_id = id })
        t.files_read;
}

unfoldable pub mark_edited : String → FileContextTracker → FileContextTracker
unfolding change_known
mark_edited path t = record t {
  files_edited = add_path path t.files_edited;
  files_read = change_known path (λ s. record s { edited_since_read = true }) t.files_read;
}

abbrev pub mark_metadata_observed : String → FileContextTracker → FileContextTracker
mark_metadata_observed path t = record t {
  files_metadata_observed = add_path path t.files_metadata_observed;
}

-- the order of texts, by their characters
unfoldable pub text_before : Chars → Chars → Bool
text_before [] ds = true
text_before (c ∷ cs) [] = false
text_before (c ∷ cs) (d ∷ ds) = let rest = text_before cs ds in if c == d then rest else ltb c d

abbrev pub insert_path : String → List String → List String
unfolding text_before
insert_path p [] = p ∷ []
insert_path p (q ∷ qs) =
    let rest = insert_path p qs in if text_before (codes p) (codes q) then p ∷ q ∷ qs else q ∷ rest

abbrev pub sorted_paths : List String → List String
unfolding text_before
sorted_paths [] = []
sorted_paths (p ∷ ps) = insert_path p (sorted_paths ps)

abbrev pub status_of : Option FileReadState → Chars
status_of none = codes "read, unchanged"
status_of (some s) =
    if s.edited_since_read
    then codes "read, then edited; previous read may be stale"
    else codes "read, unchanged"

abbrev pub keys : FilesRead → List String
keys [] = []
keys ((p, s) ∷ files) = p ∷ keys files

abbrev pub part_of : String → String → List Chars → List Chars
part_of title separator [] = []
part_of title separator (l ∷ ls) = (codes title ++ join_texts (codes separator) (l ∷ ls)) ∷ []

unfoldable pub get_summary : FileContextTracker → Chars
unfolding file_state text_before
get_summary t =
    let read = keys t.files_read in
    let line = λ (p : String).
      codes "- " ++ (codes p ++ (codes ": " ++ status_of (file_state p t.files_read))) in
    let unread_of =
      λ (ps : List String). map codes (sorted_paths (retain (λ p. not (contains p read)) ps)) in
    join_texts (codes "\n") (
      part_of "File context:\n" "\n" (map line (sorted_paths read))
      ++ (part_of "Files edited: " ", " (unread_of t.files_edited)
          ++ part_of "Referenced via search/symbols: " ", " (unread_of t.files_metadata_observed)))
