-- ===== src/EditHistory/Targets.antt =====
-- What a review without conflicts promises of the operations that it maps.
use open_chords.Prelude.{
  ◌≡◌, refl, ap, subst, ◌∙◌, inl, inr, String, true, false, Option, none, some, List, [], ◌∷◌, ◌++◌,
  includes, map_has, map_get, All, Bool-cases, ok, >>=-eq-ok, if◌then◌else◌, find, ◌===◌, length,
  ◌+◌,
}
use open_chords.Schema.{
  MusicalTimeline, AnalysisRevision, SequenceEvent, EditOperation, EditTransaction, EditLayer,
  ProjectContract,
}
use open_chords.Projection.Chain.{at_position}
use open_chords.EditHistory.OneToOne.{IsOneToOne, is_one_to_one-IsOneToOne}
use open_chords.EditHistory.{
  is_one_to_one, EditMappingAction, Review, conflict, push, set_all, is_target, or_source, require,
  map_id, map_ids, map_events, chord_ids, bar_ids, target_beat_ids, section_ids, review_operation,
  review_operations, review_chain, source_chain, unused_mappings, ReviewedMapping, refused, unfit,
  start_review, reviewed, review_found, review_edit_mapping,
}

-- Every identifier of the timeline that an operation names is one of the timeline's.
abbrev pub NamesOnly : MusicalTimeline → EditOperation → Type 0
NamesOnly t (EditOperation.replace_chord_value event_id value) =
    includes event_id (chord_ids t) ≡ true
NamesOnly t (EditOperation.replace_chord_sequence ids events) =
    All (λ id. includes id (chord_ids t) ≡ true) ids
    × All (λ event. includes event.id (chord_ids t) ≡ true) events
NamesOnly t (EditOperation.move_chord_boundary at left right) =
    (includes left (chord_ids t) ≡ true) × (includes right (chord_ids t) ≡ true)
NamesOnly t (EditOperation.move_beat at beat_id) = includes beat_id (target_beat_ids t) ≡ true
NamesOnly t (EditOperation.set_bar_meter bar_id meter) = includes bar_id (bar_ids t) ≡ true
NamesOnly t (EditOperation.move_bar_boundary at left right) =
    (includes left (bar_ids t) ≡ true) × (includes right (bar_ids t) ≡ true)
NamesOnly t (EditOperation.replace_section_label label region_id) =
    includes region_id (section_ids t) ≡ true
NamesOnly t _ = true ≡ false

snoc_nonempty : {A : Type 0} (P : Type 0) (xs : List A) (x : A) → xs ++ (x ∷ []) ≡ [] → P
snoc_nonempty P [] x h = cc
snoc_nonempty P (y ∷ xs) x h = cc

append-All : {A : Type 0} (P : A → Type 0) (xs ys : List A) → All P xs → All P ys → All P (xs ++ ys)
append-All P [] ys h k = k
append-All P (x ∷ xs) ys (p, h) k = (p, append-All P xs ys h k)

module _ (mapping : List (String × String)) where
  required :
      (target : Option String) (id : String) (ids : List String) (r : Review)
      → (if is_target target ids
          then require id ids r
          else push
              (conflict id "Choose a matching entity in the target Analysis Revision.")
              (require id ids r)).conflicts
        ≡ []
      → (r.conflicts ≡ []) × (includes (or_source target id) ids ≡ true)
  required none id ids r h = snoc_nonempty _ r.conflicts _ h
  required (some target) id ids r h = elim (Bool-cases (includes target ids)) [
    | inl fits ↦ (rw fits at h, fits)
    | inr other ↦ snoc_nonempty _ r.conflicts _ (rw other at h)
  ]

  map_id-target :
      (id : String) (ids : List String) (r : Review)
      → (map_id mapping id ids r).1.conflicts ≡ []
      → (r.conflicts ≡ []) × (includes (map_id mapping id ids r).0 ids ≡ true)
  unfolding map_id
  map_id-target id ids r h = required (map_get id mapping) id ids r h

  map_ids-targets :
      (sources ids : List String) (r : Review)
      → (map_ids mapping sources ids r).1.conflicts ≡ []
      → (r.conflicts ≡ []) × All (λ id. includes id ids ≡ true) (map_ids mapping sources ids r).0
  unfolding map_ids
  map_ids-targets [] ids r h = (h, tt)
  map_ids-targets (id ∷ sources) ids r h =
      let (before, rest) = map_ids-targets sources ids (map_id mapping id ids r).1 h in
      let (start, first) = map_id-target id ids r before in (start, (first, rest))

  map_events-targets :
      (events : List SequenceEvent) (ids : List String) (r : Review)
      → (map_events mapping events ids r).1.conflicts ≡ []
      → (r.conflicts ≡ [])
        × All (λ event. includes event.id ids ≡ true) (map_events mapping events ids r).0
  unfolding map_events
  map_events-targets [] ids r h = (h, tt)
  map_events-targets (event ∷ events) ids r h =
      let (before, rest) = map_events-targets events ids (map_id mapping event.id ids r).1 h in
      let (start, first) = map_id-target event.id ids r before in (start, (first, rest))

module _ (mapping : List (String × String)) (t : MusicalTimeline) where
  pair-targets :
      (left right : String) (ids : List String) (r : Review)
      → (map_id mapping right ids (map_id mapping left ids r).1).1.conflicts ≡ []
      → (r.conflicts ≡ [])
        × ((includes (map_id mapping left ids r).0 ids ≡ true)
            × (includes (map_id mapping right ids (map_id mapping left ids r).1).0 ids ≡ true))
  pair-targets left right ids r h =
      let (before, second) = map_id-target mapping right ids (map_id mapping left ids r).1 h in
      let (start, first) = map_id-target mapping left ids r before in (start, (first, second))

  review_operation-NamesOnly :
      (id : String) (operation : EditOperation) (r : Review)
      → (review_operation mapping t id operation r).1.conflicts ≡ []
      → (r.conflicts ≡ []) × NamesOnly t (review_operation mapping t id operation r).0
  unfolding review_operation
  review_operation-NamesOnly id (EditOperation.replace_chord_value event_id value) r h =
      map_id-target mapping event_id (chord_ids t) r h
  review_operation-NamesOnly id (EditOperation.replace_chord_sequence ids events) r h =
      let (before, second) =
        map_events-targets mapping events (chord_ids t) (map_ids mapping ids (chord_ids t) r).1 h in
      let (start, first) = map_ids-targets mapping ids (chord_ids t) r before in
      (start, (first, second))
  review_operation-NamesOnly id (EditOperation.move_chord_boundary at left right) r h =
      pair-targets left right (chord_ids t) r h
  review_operation-NamesOnly id (EditOperation.move_beat at beat_id) r h =
      map_id-target mapping beat_id (target_beat_ids t) r h
  review_operation-NamesOnly id (EditOperation.set_bar_meter bar_id meter) r h =
      map_id-target mapping bar_id (bar_ids t) r h
  review_operation-NamesOnly id (EditOperation.move_bar_boundary at left right) r h =
      pair-targets left right (bar_ids t) r h
  review_operation-NamesOnly id (EditOperation.replace_section_label label region_id) r h =
      map_id-target mapping region_id (section_ids t) r h
  review_operation-NamesOnly id (EditOperation.split_bar _) r h = snoc_nonempty _ r.conflicts _ h
  review_operation-NamesOnly id _ r h = snoc_nonempty _ r.conflicts _ h

  review_operations-NamesOnly :
      (id : String) (operations : List EditOperation) (r : Review)
      → (review_operations mapping t id operations r).1.conflicts ≡ []
      → (r.conflicts ≡ []) × All (NamesOnly t) (review_operations mapping t id operations r).0
  unfolding review_operations
  review_operations-NamesOnly id [] r h = (h, tt)
  review_operations-NamesOnly id (operation ∷ operations) r h =
      let (before, rest) =
        review_operations-NamesOnly id operations (review_operation mapping t id operation r).1 h in
      let (start, first) = review_operation-NamesOnly id operation r before in
      (start, (first, rest))

  review_chain-NamesOnly :
      (chain : List EditTransaction) (r : Review)
      → (review_chain mapping t chain r).1.conflicts ≡ []
      → (r.conflicts ≡ []) × All (NamesOnly t) (review_chain mapping t chain r).0
  unfolding review_chain
  review_chain-NamesOnly [] r h = (h, tt)
  review_chain-NamesOnly (x ∷ chain) r h =
      let (before, rest) =
        review_chain-NamesOnly chain (review_operations mapping t x.id x.operations r).1 h in
      let (start, first) = review_operations-NamesOnly x.id x.operations r before in
      (
        start,
        append-All (NamesOnly t) (review_operations mapping t x.id x.operations r).0 _ first rest,
      )

unused-conflicts :
    (mapping : List (String × String)) (r : Review)
    → (unused_mappings mapping r).conflicts ≡ []
    → (r.conflicts ≡ []) × (All (λ entry. map_has entry.0 r.requirements ≡ true) mapping)
unfolding unused_mappings
unused-conflicts [] r h = (h, tt)
unused-conflicts ((source_id, target_id) ∷ mapping) r h =
    elim (Bool-cases (map_has source_id r.requirements)) [
      | inl used ↦
          let (start, rest) = unused-conflicts mapping r (rw (used, unused_mappings) at h) in
          (start, (used, rest))
      | inr unused ↦
          snoc_nonempty _ r.conflicts _
            (unused-conflicts mapping _ (rw (unused, unused_mappings) at h)).0
    ]

started :
    (source : EditLayer) (action : EditMappingAction)
    → (start_review source action (set_all [] action.mappings)).conflicts ≡ []
    → IsOneToOne action.mappings
started source action h = elim (Bool-cases (is_one_to_one action (set_all [] action.mappings))) [
  | inl fits ↦ is_one_to_one-IsOneToOne action fits
  | inr other ↦
      snoc_nonempty _ [] (conflict source.id "Mappings must be one-to-one.") (rw other at h)
]

refused_conflicts :
    (P : Type 0) (action : EditMappingAction) (result : ReviewedMapping)
    → ok (refused action) ≡ ok result
    → result.conflicts ≡ []
    → P
refused_conflicts P action result h c =
    let e : refused action ≡ result = cc in snoc_nonempty P [] _ (ap (λ r. r.conflicts) e ∙ c)

-- What the operations of a review without conflicts rest on.
reviewed-NamesOnly :
    (source : EditLayer) (target : AnalysisRevision) (action : EditMappingAction)
    (chain : List EditTransaction)
    → (reviewed source target action chain).conflicts ≡ []
    → All (NamesOnly target.timeline) (reviewed source target action chain).operations
      × IsOneToOne action.mappings
unfolding reviewed
reviewed-NamesOnly source target action chain h =
    let mapping = set_all [] action.mappings in
    let start = start_review source action mapping in
    let (mapped, _) =
      unused-conflicts mapping (review_chain mapping target.timeline chain start).1 h in
    let (first, names) = review_chain-NamesOnly mapping target.timeline chain start mapped in
    (names, started source action first)

review_found-NamesOnly :
    (source : Option EditLayer) (target : Option AnalysisRevision) (action : EditMappingAction)
    (result : ReviewedMapping)
    → review_found source target action ≡ ok result
    → result.conflicts ≡ []
    → (revision : AnalysisRevision) × (target ≡ some revision)
      × All (NamesOnly revision.timeline) result.operations
      × IsOneToOne action.mappings
unfolding review_found
review_found-NamesOnly none target action result h c = refused_conflicts _ action result h c
review_found-NamesOnly (some source) none action result h c = refused_conflicts _ action result h c
review_found-NamesOnly (some source) (some target) action result h c =
    elim (Bool-cases (unfit source target action)) [
      | inl bad ↦ refused_conflicts _ action result (rw bad at h) c
      | inr good ↦
          let (chain, _, done) =
            >>=-eq-ok
              (source_chain (length source.transactions + 2) source.transactions
                (at_position source.transactions action.source_history_position) [])
              (λ chain. ok (reviewed source target action chain)) (rw good at h) in
          let e : reviewed source target action chain ≡ result = cc in
          let (names, one) =
            reviewed-NamesOnly source target action chain (ap (λ r. r.conflicts) e ∙ c) in
          (target, refl, subst (λ r. All (NamesOnly target.timeline) r.operations) e names, one)
    ]

-- Where a review of a mapping succeeds without conflicts, the mappings are one-to-one, and every
-- chord, beat, bar and section that the resulting operations name is one of the target revision.
pub review_edit_mapping-NamesOnly :
    (project : ProjectContract) (action : EditMappingAction) (result : ReviewedMapping)
    → review_edit_mapping project action ≡ ok result
    → result.conflicts ≡ []
    → (target : AnalysisRevision) × (find
          (λ r. r.id === action.target_analysis_revision_id)
          project.analysis_revisions
        ≡ some target)
      × All (NamesOnly target.timeline) result.operations
      × IsOneToOne action.mappings
unfolding review_edit_mapping
review_edit_mapping-NamesOnly project action result h c =
    review_found-NamesOnly
      (find (λ layer. layer.id === action.source_edit_layer_id) project.edit_layers) _ action result
      h c
