-- ===== src/Workspace/Selection.antt =====
-- The selection that the workspace keeps when its regions change.
use open_chords.Prelude.{
  ◌≡◌, refl, subst, ◌↔◌, ◌⊎◌, inl, inr, String, Bool, true, false, ◌&&◌, Option, none, List, [],
  ◌∷◌, arith, eq_refl, some_of, if◌then◌else◌,
}
use open_chords.Workspace.{
  WorkspaceTimelineRegion, WorkspaceRegionState, is_id, is_bar, first_id,
  reconcile_workspace_region_state,
}

-- The selected region is there, where there are regions, and the loop is on a bar that is there.
abbrev pub IsOn : List WorkspaceTimelineRegion → WorkspaceRegionState → Type 0
IsOn regions state =
    ((regions ≡ []) × (state.selected_region_id ≡ none)
      ⊎ (some_of (λ r. is_id state.selected_region_id r.id) regions ≡ true))
    × ((state.loop_region_id ≡ none)
        ⊎ (some_of (λ r. is_id state.loop_region_id r.id && is_bar r.kind) regions ≡ true))

first_selected :
    (regions : List WorkspaceTimelineRegion)
    → (regions ≡ []) × (first_id regions ≡ none)
      ⊎ (some_of (λ r. is_id (first_id regions) r.id) regions ≡ true)
unfolding some_of
first_selected [] = inl (refl, refl)
first_selected (region ∷ regions) = inr (ground (arith, eq_refl region.id))

selected_on :
    (regions : List WorkspaceTimelineRegion) (id : Option String) (there : Bool)
    → some_of (λ r. is_id id r.id) regions ≡ there
    → (regions ≡ []) × ((if there then id else first_id regions) ≡ none)
      ⊎ (some_of (λ r. is_id (if there then id else first_id regions) r.id) regions ≡ true)
selected_on regions id true e = inr e
selected_on regions id false e = first_selected regions

looped_on :
    (regions : List WorkspaceTimelineRegion) (id : Option String) (there : Bool)
    → some_of (λ r. is_id id r.id && is_bar r.kind) regions ≡ there
    → ((if there then id else none) ≡ none)
      ⊎ (some_of (λ r. is_id (if there then id else none) r.id && is_bar r.kind) regions ≡ true)
looped_on regions id true e = inr e
looped_on regions id false e = inl refl

-- After the reconciliation the selected region is one of the regions, or none where there are no
-- regions, and the loop is on none or on one that is a bar.
pub reconcile_workspace_region_state-IsOn :
    (regions : List WorkspaceTimelineRegion) (state : WorkspaceRegionState)
    → IsOn regions (reconcile_workspace_region_state regions state)
unfolding reconcile_workspace_region_state
reconcile_workspace_region_state-IsOn regions state = (
  selected_on regions state.selected_region_id _ refl,
  looped_on regions state.loop_region_id _ refl,
)

kept_selection :
    (regions : List WorkspaceTimelineRegion) (id : Option String)
    → (regions ≡ []) × (id ≡ none) ⊎ (some_of (λ r. is_id id r.id) regions ≡ true)
    → (if some_of (λ r. is_id id r.id) regions then id else first_id regions) ≡ id
unfolding some_of
kept_selection regions id (inl (empty, nothing)) = rw (empty, nothing) refl
kept_selection regions id (inr there) = rw there refl

none_either : (id : Option String) (b : Bool) → (if b then id else id) ≡ id
none_either id true = refl
none_either id false = refl

kept_loop :
    (regions : List WorkspaceTimelineRegion) (id : Option String)
    → (id ≡ none) ⊎ (some_of (λ r. is_id id r.id && is_bar r.kind) regions ≡ true)
    → (if some_of (λ r. is_id id r.id && is_bar r.kind) regions then id else none) ≡ id
kept_loop regions id (inl nothing) = rw nothing (none_either none _)
kept_loop regions id (inr there) = rw there refl

-- Reconciling leaves a state as it is exactly when its selection is on the regions.
pub reconcile_workspace_region_state_iff :
    (regions : List WorkspaceTimelineRegion) (state : WorkspaceRegionState)
    → (reconcile_workspace_region_state regions state ≡ state) ↔ IsOn regions state
unfolding reconcile_workspace_region_state
reconcile_workspace_region_state_iff regions state = (
  λ same. subst (IsOn regions) same (reconcile_workspace_region_state-IsOn regions state),
  λ on.
      rw
        (
          kept_loop regions state.loop_region_id on.1,
          kept_selection regions state.selected_region_id on.0,
        )
        refl,
)
