-- ===== src/Hooks/Tests/Merging.antt =====
-- The merging of directives (di-core/src/hooks/directive.rs) at concrete batches.
use di_rac.Prelude.{[], ◌++◌, ◌≡◌}
use di_rac.Hooks.Directive.{no_directives}
use di_rac.Hooks.Directive.Merge.{merge, sort_by_severity}
use di_rac.Hooks.Directive.Merge.Keys.{IsDeduped, no_directives-IsDeduped, merge-IsDeduped}
use di_rac.Hooks.Directive.Merge.Sorted.{IsOrdered, warned, noted, merge_sorts}
use di_rac.Hooks.Tests.Fixture.{clock, batch}

merge_sorts_example :
    let after = merge clock no_directives batch in
    IsOrdered after
    × (after.warnings ≡ sort_by_severity ([] ++ warned batch))
    × (after.approval_notes ≡ sort_by_severity ([] ++ noted batch))
merge_sorts_example =
    merge_sorts clock no_directives batch (record { warnings = tt; approval_notes = tt })

merge-IsDeduped_example : IsDeduped (merge clock no_directives batch)
merge-IsDeduped_example = merge-IsDeduped clock no_directives batch no_directives-IsDeduped
