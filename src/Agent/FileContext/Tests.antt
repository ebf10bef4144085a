-- ===== src/Agent/FileContext/Tests.antt =====
-- File contexts (di-core/src/agent/file_context.rs) after concrete events.
use di_rac.Prelude.{List, [], ◌∷◌, ◌≡◌, refl, codes}
use di_rac.Agent.FileContext.{
  new_tracker, file_state, change_entry, change_known, mark_read, pre_increment_read, mark_edited,
  get_summary,
}
use di_rac.Agent.FileContext.Stale.{
  TrackerEvent, counted, edited, observed, marked, replay, on_event, is_stale, edited_after_read,
  replay-stale,
}

-- the newest first
abbrev events : List TrackerEvent
events = edited "a.rs" ∷ marked 2 "b.rs" "f00" ∷ counted 1 "a.rs" ∷ []

replay-stale_example : is_stale "a.rs" (replay events new_tracker) ≡ edited_after_read "a.rs" events
replay-stale_example = replay-stale "a.rs" events

summary :
    get_summary (replay (observed "c.rs" ∷ events) new_tracker)
    ≡ codes
        "File context:\n- a.rs: read, then edited; previous read may be stale\n- b.rs: read, unchanged\nReferenced via search/symbols: c.rs"
unfolding get_summary replay on_event mark_read pre_increment_read mark_edited file_state
    change_entry change_known
summary = refl
