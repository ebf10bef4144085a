-- ===== src/Agent/FileContext/Stale.antt =====
-- Stale reads (di-core/src/agent/file_context.rs), over any sequence of events.
use di_rac.Prelude.{
  ℕ, String, Bool, true, false, not, ◌&&◌, ◌||◌, List, [], ◌∷◌, Option, none, some, ◌≡◌, ◌∙◌, refl,
  arith, inl, inr, Bool-cases, str_eq, eq_iff, if◌then◌else◌,
}
use di_rac.Agent.FileContext.{
  FileReadState, FilesRead, FileContextTracker, new_tracker, unread, file_state, change_entry,
  change_known, mark_read, pre_increment_read, mark_edited, mark_metadata_observed,
}

pub data TrackerEvent : Type 0 where
  marked : ℕ → String → String → TrackerEvent
  counted : ℕ → String → TrackerEvent
  edited : String → TrackerEvent
  observed : String → TrackerEvent

unfoldable pub on_event : TrackerEvent → FileContextTracker → FileContextTracker
unfolding mark_read pre_increment_read mark_edited
on_event (marked id path hash) t = mark_read id path hash t
on_event (counted id path) t = pre_increment_read id path t
on_event (edited path) t = mark_edited path t
on_event (observed path) t = mark_metadata_observed path t

-- the events, the newest first
unfoldable pub replay : List TrackerEvent → FileContextTracker → FileContextTracker
unfolding on_event
replay [] t = t
replay (e ∷ es) t = on_event e (replay es t)

abbrev pub stale_state : Option FileReadState → Bool
stale_state none = false
stale_state (some s) = s.edited_since_read

abbrev pub known_state : Option FileReadState → Bool
known_state none = false
known_state (some s) = true

unfoldable pub is_stale : String → FileContextTracker → Bool
unfolding file_state
is_stale path t = stale_state (file_state path t.files_read)

-- What the events say: whether a path was read, and whether it was edited after a read and has not
-- been marked as read since.
abbrev pub was_read : String → List TrackerEvent → Bool
was_read path [] = false
was_read path (marked id p hash ∷ es) = str_eq p path || was_read path es
was_read path (counted id p ∷ es) = str_eq p path || was_read path es
was_read path (edited p ∷ es) = was_read path es
was_read path (observed p ∷ es) = was_read path es

abbrev pub edited_after_read : String → List TrackerEvent → Bool
edited_after_read path [] = false
edited_after_read path (marked id p hash ∷ es) = not (str_eq p path) && edited_after_read path es
edited_after_read path (counted id p ∷ es) = edited_after_read path es
edited_after_read path (edited p ∷ es) =
    if str_eq p path then was_read path es else edited_after_read path es
edited_after_read path (observed p ∷ es) = edited_after_read path es

-- what an entry becomes
abbrev or_unread : Option FileReadState → FileReadState
or_unread none = unread
or_unread (some s) = s

abbrev changed : (FileReadState → FileReadState) → Option FileReadState → Option FileReadState
changed f none = none
changed f (some s) = some (f s)

str_eq_self : (s : String) → str_eq s s ≡ true
str_eq_self s = ground (arith, eq_iff s s)

file_state-change_entry :
    (path p : String) (f : FileReadState → FileReadState) (files : FilesRead)
    → file_state path (change_entry p f files) ≡ (
        if str_eq p path
        then some (f (or_unread (file_state path files)))
        else file_state path files)
unfolding file_state change_entry
file_state-change_entry path p f [] = refl
file_state-change_entry path p f ((q, s) ∷ files) =
    ground (arith, file_state-change_entry path p f files, eq_iff q p, eq_iff q path, eq_iff p path)

file_state-change_known :
    (path p : String) (f : FileReadState → FileReadState) (files : FilesRead)
    → file_state path (change_known p f files)
      ≡ (if str_eq p path then changed f (file_state path files) else file_state path files)
unfolding file_state change_known
file_state-change_known path p f [] = ground arith
file_state-change_known path p f ((q, s) ∷ files) =
    ground (arith, file_state-change_known path p f files, eq_iff q p, eq_iff q path, eq_iff p path)

stale_of_changed :
    (o : Option FileReadState)
    → stale_state (changed (λ s. record s { edited_since_read = true }) o) ≡ known_state o
stale_of_changed none = refl
stale_of_changed (some s) = refl

known_of_changed :
    (f : FileReadState → FileReadState) (o : Option FileReadState)
    → known_state (changed f o) ≡ known_state o
known_of_changed f none = refl
known_of_changed f (some s) = refl

counted_keeps : (o : Option FileReadState) → (or_unread o).edited_since_read ≡ stale_state o
counted_keeps none = refl
counted_keeps (some s) = refl

module _ (path : String) where
  Agrees : List TrackerEvent → FileContextTracker → Type 0
  unfolding file_state
  Agrees es t =
      (known_state (file_state path t.files_read) ≡ was_read path es)
      × (is_stale path t ≡ edited_after_read path es)

  on_event-Agrees :
      (e : TrackerEvent) (es : List TrackerEvent) (t : FileContextTracker)
      → Agrees es t
      → Agrees (e ∷ es) (on_event e t)
  unfolding Agrees on_event mark_read pre_increment_read mark_edited is_stale
  on_event-Agrees (marked id p hash) es t (known, stale) =
      rw (file_state-change_entry path p _ t.files_read) (elim (Bool-cases (str_eq p path)) [
        | inl same ↦ rw same (refl, refl)
        | inr other ↦ rw other (known, stale)
      ])
  on_event-Agrees (counted id p) es t (known, stale) =
      rw (file_state-change_entry path p _ t.files_read) (elim (Bool-cases (str_eq p path)) [
        | inl same ↦ rw same (refl, counted_keeps (file_state path t.files_read) ∙ stale)
        | inr other ↦ rw other (known, stale)
      ])
  on_event-Agrees (edited p) es t (known, stale) =
      rw (file_state-change_known path p _ t.files_read) (elim (Bool-cases (str_eq p path)) [
        | inl same ↦ rw same (
          known_of_changed _ (file_state path t.files_read) ∙ known,
          stale_of_changed (file_state path t.files_read) ∙ known,
        )
        | inr other ↦ rw other (known, stale)
      ])
  on_event-Agrees (observed p) es t (known, stale) = (known, stale)

  replay-Agrees : (es : List TrackerEvent) → Agrees es (replay es new_tracker)
  unfolding Agrees replay file_state is_stale
  replay-Agrees [] = (refl, refl)
  replay-Agrees (e ∷ es) = on_event-Agrees e es (replay es new_tracker) (replay-Agrees es)

-- After any events, a new tracker holds a read for stale exactly where its path was edited after a
-- read, and has not been marked as read since.
pub replay-stale :
    (path : String) (es : List TrackerEvent)
    → is_stale path (replay es new_tracker) ≡ edited_after_read path es
unfolding Agrees
replay-stale path es = (replay-Agrees path es).1
