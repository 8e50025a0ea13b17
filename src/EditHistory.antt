-- ===== src/EditHistory.antt =====
-- packages/domain/src/edit-history.ts: the review of a mapping of edits onto another revision.
-- `requirements` is the Map in the order in which its keys were first set, and the conflicts are
-- in the order in which they were pushed.
pub mod OneToOne
pub mod Targets
pub mod Total
use open_chords.Prelude.{
  ℕ, zero, suc, ◌+◌, ◌-◌, String, Bool, true, false, not, ◌&&◌, ◌||◌, Option, none, some, List, [],
  ◌∷◌, ◌++◌, map, ltb, ◌==◌, ◌===◌, length, find, includes, set_size, map_set, map_has, map_get,
  Result, ok, err, endless, ◌>>=◌, if◌then◌else◌,
}
use open_chords.Schema.{
  Beat, Bar, ChordEvent, SectionRegion, MusicalTimeline, AnalysisRevision, SequenceEvent,
  EditOperation, EditTransaction, EditLayer, ProjectContract,
}
use open_chords.Invariants.Timeline.{all_beats}
use open_chords.Projection.Chain.{at_position}

pub record EditMapping : Type 0 where
  pub source_id : String
  pub target_id : String

pub record EditMappingAction : Type 0 where
  pub source_edit_layer_id : String
  pub source_history_position : ℕ
  pub target_analysis_revision_id : String
  pub mappings : List EditMapping

pub record EditMappingConflict : Type 0 where
  pub source_id : String
  pub message : String

-- What a review has gathered.
pub record Review : Type 0 where
  pub conflicts : List EditMappingConflict
  pub requirements : List (String × List String)

abbrev pub conflict : String → String → EditMappingConflict
conflict source_id message = record { source_id = source_id; message = message }

abbrev pub push : EditMappingConflict → Review → Review
push c r = record r { conflicts = r.conflicts ++ (c ∷ []) }

-- `new Map(action.mappings.map(({ sourceId, targetId }) => [sourceId, targetId]))`
unfoldable pub set_all : List (String × String) → List EditMapping → List (String × String)
set_all entries [] = entries
set_all entries (m ∷ ms) = set_all (map_set m.source_id m.target_id entries) ms

abbrev pub is_target : Option String → List String → Bool
is_target none target_ids = false
is_target (some id) target_ids = includes id target_ids

abbrev pub or_source : Option String → String → String
or_source none source_id = source_id
or_source (some target_id) source_id = target_id

abbrev pub require : String → List String → Review → Review
require source_id target_ids r = record r {
  requirements = map_set source_id target_ids r.requirements;
}

module _ (mapping : List (String × String)) where
  -- The inner function `map`: the id that stands for `source_id`, and what it adds to the review.
  unfoldable pub map_id : String → List String → Review → String × Review
  map_id source_id target_ids r = (
    or_source (map_get source_id mapping) source_id,
    if is_target (map_get source_id mapping) target_ids
        then require source_id target_ids r
        else push (conflict source_id "Choose a matching entity in the target Analysis Revision.")
            (require source_id target_ids r),
  )

  unfoldable pub map_ids : List String → List String → Review → List String × Review
  unfolding map_id
  map_ids [] target_ids r = ([], r)
  map_ids (id ∷ ids) target_ids r =
      let first = map_id id target_ids r in
      let rest = map_ids ids target_ids first.1 in (first.0 ∷ rest.0, rest.1)

  unfoldable pub map_events :
      List SequenceEvent → List String → Review → List SequenceEvent × Review
  unfolding map_id
  map_events [] target_ids r = ([], r)
  map_events (event ∷ events) target_ids r =
      let first = map_id event.id target_ids r in
      let rest = map_events events target_ids first.1 in
      (record event { id = first.0 } ∷ rest.0, rest.1)

abbrev pub chord_ids : MusicalTimeline → List String
chord_ids t = map (λ event. event.id) t.chord_events

abbrev pub bar_ids : MusicalTimeline → List String
bar_ids t = map (λ bar. bar.id) t.bars

abbrev pub target_beat_ids : MusicalTimeline → List String
target_beat_ids t = map (λ beat. beat.id) (all_beats t.bars)

abbrev pub section_ids : MusicalTimeline → List String
section_ids t = map (λ region. region.id) t.section_regions

module _ (mapping : List (String × String)) (target : MusicalTimeline) where
  -- One round of the inner loop: the operation that is pushed, and the review after it.
  unfoldable pub review_operation : String → EditOperation → Review → EditOperation × Review
  unfolding map_id map_ids map_events
  review_operation transaction_id (EditOperation.replace_chord_value event_id value) r =
      let event = map_id mapping event_id (chord_ids target) r in
      (EditOperation.replace_chord_value event.0 value, event.1)
  review_operation transaction_id (EditOperation.replace_chord_sequence ids events) r =
      let targets = map_ids mapping ids (chord_ids target) r in
      let mapped = map_events mapping events (chord_ids target) targets.1 in
      (EditOperation.replace_chord_sequence targets.0 mapped.0, mapped.1)
  review_operation transaction_id (EditOperation.move_chord_boundary at left_id right_id) r =
      let left = map_id mapping left_id (chord_ids target) r in
      let right = map_id mapping right_id (chord_ids target) left.1 in
      (EditOperation.move_chord_boundary at left.0 right.0, right.1)
  review_operation transaction_id (EditOperation.move_beat at beat_id) r =
      let moved = map_id mapping beat_id (target_beat_ids target) r in
      (EditOperation.move_beat at moved.0, moved.1)
  review_operation transaction_id (EditOperation.set_bar_meter bar_id meter) r =
      let bar = map_id mapping bar_id (bar_ids target) r in
      (EditOperation.set_bar_meter bar.0 meter, bar.1)
  review_operation transaction_id (EditOperation.move_bar_boundary at left_id right_id) r =
      let left = map_id mapping left_id (bar_ids target) r in
      let right = map_id mapping right_id (bar_ids target) left.1 in
      (EditOperation.move_bar_boundary at left.0 right.0, right.1)
  review_operation transaction_id (EditOperation.replace_section_label label region_id) r =
      let region = map_id mapping region_id (section_ids target) r in
      (EditOperation.replace_section_label label region.0, region.1)
  review_operation transaction_id operation r = (
    operation,
    push
        (conflict transaction_id
          "This structural or lyrics edit requires a separate manual review.")
        r,
  )

  unfoldable pub review_operations :
      String → List EditOperation → Review → List EditOperation × Review
  unfolding review_operation
  review_operations transaction_id [] r = ([], r)
  review_operations transaction_id (operation ∷ operations) r =
      let first = review_operation transaction_id operation r in
      let rest = review_operations transaction_id operations first.1 in (first.0 ∷ rest.0, rest.1)

  unfoldable pub review_chain : List EditTransaction → Review → List EditOperation × Review
  unfolding review_operations
  review_chain [] r = ([], r)
  review_chain (t ∷ ts) r =
      let first = review_operations t.id t.operations r in
      let rest = review_chain ts first.1 in (first.0 ++ rest.0, rest.1)

-- The rounds of the walk to the root, where a parent is the first transaction of its id.
abbrev pub parent_found : List EditTransaction → Option String → Option EditTransaction
parent_found transactions none = none
parent_found transactions (some id) = find (λ t. t.id === id) transactions

unfoldable pub source_chain :
    ℕ
    → List EditTransaction
    → Option EditTransaction
    → List EditTransaction
    → Result (List EditTransaction)
source_chain fuel transactions none chain = ok chain
source_chain zero transactions (some selected) chain = err endless
source_chain (suc fuel) transactions (some selected) chain =
    source_chain fuel transactions (parent_found transactions selected.parent_transaction_id)
      (selected ∷ chain)

-- The mappings whose source no edit asked for.
unfoldable pub unused_mappings : List (String × String) → Review → Review
unused_mappings [] r = r
unused_mappings ((source_id, target_id) ∷ mapping) r = unused_mappings mapping (
    if map_has source_id r.requirements
    then r
    else push (conflict source_id "Mapping does not belong to the selected edits.") r)

pub record ReviewedMapping : Type 0 where
  pub conflicts : List EditMappingConflict
  pub operations : List EditOperation
  pub requirements : List (String × List String)

abbrev pub refused : EditMappingAction → ReviewedMapping
refused action = record {
  conflicts =
      conflict action.source_edit_layer_id
        "Choose a saved history position and a different Analysis Revision."
      ∷ [];
  operations = [];
  requirements = [];
}

abbrev pub is_one_to_one : EditMappingAction → List (String × String) → Bool
is_one_to_one action mapping =
    (length mapping == length action.mappings)
    && (set_size (map (λ entry. entry.1) mapping) == length mapping)

abbrev pub start_review : EditLayer → EditMappingAction → List (String × String) → Review
start_review source action mapping =
    let empty : Review = record { conflicts = []; requirements = [] } in
    if is_one_to_one action mapping
    then empty
    else push (conflict source.id "Mappings must be one-to-one.") empty

unfoldable pub reviewed :
    EditLayer → AnalysisRevision → EditMappingAction → List EditTransaction → ReviewedMapping
unfolding review_chain unused_mappings
reviewed source target action chain =
    let mapping = set_all [] action.mappings in
    let mapped = review_chain mapping target.timeline chain (start_review source action mapping) in
    let final = unused_mappings mapping mapped.1 in
    record { conflicts = final.conflicts; operations = mapped.0; requirements = final.requirements }

abbrev pub unfit : EditLayer → AnalysisRevision → EditMappingAction → Bool
unfit source target action =
    source.analysis_revision_id === target.id
    || (ltb action.source_history_position 1
        || ltb (length source.transactions) action.source_history_position)

unfoldable pub review_found :
    Option EditLayer → Option AnalysisRevision → EditMappingAction → Result ReviewedMapping
unfolding reviewed
review_found none target action = ok (refused action)
review_found (some source) none action = ok (refused action)
review_found (some source) (some target) action =
    if unfit source target action
    then ok (refused action)
    else (source_chain (length source.transactions + 2) source.transactions
          (at_position source.transactions action.source_history_position) []
        >>= λ chain. ok (reviewed source target action chain))

unfoldable pub review_edit_mapping : ProjectContract → EditMappingAction → Result ReviewedMapping
unfolding review_found
review_edit_mapping project action =
    review_found (find (λ layer. layer.id === action.source_edit_layer_id) project.edit_layers)
      (find (λ r. r.id === action.target_analysis_revision_id) project.analysis_revisions) action
