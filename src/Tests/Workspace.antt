-- ===== src/Tests/Workspace.antt =====
-- The theorems on the workspace, at the sample project.
use open_chords.Prelude.{◌≡◌, refl, ◌↔◌, some, none, [], ◌∷◌, arith}
use open_chords.Workspace.{
  RegionKind, WorkspaceTimelineRegion, WorkspaceTimeline, WorkspaceRegionState, timeline_of,
  build_view, build_workspace_timeline, reconcile_workspace_region_state,
}
use open_chords.Workspace.Regions.{count, region_holds, build_workspace_timeline-regions}
use open_chords.Workspace.Selection.{IsOn, reconcile_workspace_region_state_iff}
use open_chords.Tests.Projects.{edits, effective}
use open_chords.Tests.Sample.{collate, view, project}

abbrev shown : WorkspaceTimeline
unfolding timeline_of
shown = timeline_of 100 view.presentation effective.timeline

build_workspace_timeline-regions_example : count (region_holds 60) shown.regions ≡ 1
unfolding edits build_workspace_timeline build_view
build_workspace_timeline-regions_example =
    build_workspace_timeline-regions collate project shown 60 refl (omega arith)

abbrev only_bar : WorkspaceTimelineRegion
only_bar = record {
  chord_labels = "C" ∷ [];
  end_sample = 100;
  id = "bar_1";
  kind = RegionKind.bar_region;
  label = "Complete, 2/4";
  start_sample = 0;
}

abbrev stale : WorkspaceRegionState
stale = record { loop_region_id = some "bar_9"; selected_region_id = none }

reconcile_workspace_region_state_iff_example :
    (reconcile_workspace_region_state (only_bar ∷ []) stale ≡ stale) ↔ IsOn (only_bar ∷ []) stale
reconcile_workspace_region_state_iff_example =
    reconcile_workspace_region_state_iff (only_bar ∷ []) stale
