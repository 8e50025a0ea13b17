-- ===== src/Projection/Committed/Agree.antt =====
-- One operation on the committed projection, seen through the alignment that a view selects, is the
-- operation on the effective timeline.
use open_chords.Prelude.{
  String, ◌≡◌, refl, true, Option, none, some, List, [], ◌∷◌, arith, eq_iff, ◌===◌, ◌∙◌,
  Option-cases, Result-cases, inl, inr, find, Result, ok, ◌>>=◌, >>=-eq-ok, if◌then◌else◌,
}
use open_chords.Schema.{LyricsAlignment, LyricsTiming, EditOperation}
use open_chords.Projection.Find.{or_throw}
use open_chords.Projection.Apply.{
  ProjectionState, as_timing, set_token_timing, set_line_timing, edit_alignment, apply_operation,
  apply_operations,
}
use open_chords.Projection.Materialize.{selected_alignment}
use open_chords.Projection.Committed.{CommittedState, put_back, commit_operation, commit_operations}
use open_chords.Projection.Lookup.{find_id}

-- What a view of the alignment `a` sees of a committed projection.
abbrev pub seen : Option String → CommittedState → ProjectionState
seen a c = record {
  timeline = c.timeline;
  lyrics_alignment = selected_alignment c.lyrics_alignments a;
}

find-put_back :
    (id key : String) (changed old : LyricsAlignment) (l : List LyricsAlignment)
    → changed.id ≡ id
    → find (λ a. a.id === id) l ≡ some old
    → find (λ a. a.id === key) (put_back id (some changed) l)
      ≡ (if id === key then some changed else find (λ a. a.id === key) l)
unfolding find put_back
find-put_back id key changed old [] e h = cc
find-put_back id key changed old (x ∷ l) e h = ground (
  arith,
  eq_iff x.id id,
  eq_iff x.id key,
  eq_iff id key,
  eq_iff changed.id key,
  find-put_back id key changed old l e,
)

id-set_token_timing :
    (a : LyricsAlignment) (timing : LyricsTiming) (token_id : String) (b : LyricsAlignment)
    → set_token_timing a timing token_id ≡ ok b
    → b.id ≡ a.id
unfolding set_token_timing
id-set_token_timing a timing token_id b h = ground arith

id-set_line_timing :
    (a : LyricsAlignment) (timing : LyricsTiming) (line_id : String) (b : LyricsAlignment)
    → set_line_timing a timing line_id ≡ ok b
    → b.id ≡ a.id
unfolding set_line_timing
id-set_line_timing a timing line_id b h = ground arith

-- An edit of the alignment `id` in the list is the edit of the selected one.
selected-put_back :
    (a : Option String) (id : String) (edit : LyricsAlignment → Result LyricsAlignment)
    (l : List LyricsAlignment) (old new : LyricsAlignment)
    → find (λ x. x.id === id) l ≡ some old
    → edit old ≡ ok new
    → new.id ≡ old.id
    → edit_alignment (selected_alignment l a) id edit
      ≡ ok (selected_alignment (put_back id (some new) l) a)
unfolding selected_alignment edit_alignment
selected-put_back none id edit l old new found edited same = refl
selected-put_back (some key) id edit l old new found edited same =
    let old_id : old.id ≡ id = find_id (λ x. x.id) id l old found in
    let new_id : new.id ≡ id = same ∙ old_id in
    rw (find-put_back id key new old l new_id found)
      (elim (Option-cases (find (λ x. x.id === key) l)) [
        | inl missing ↦ ground (arith, eq_iff id key)
        | inr (x, there) ↦
            ground (arith, eq_iff id key, eq_iff x.id id, find_id (λ y. y.id) key l x there)
      ])

-- What an operation that sets a timing found in the list, and what it left there.
record Retimed (id : String) (edit : LyricsAlignment → Result LyricsAlignment)
    (c c' : CommittedState) : Type 0 where
  old : LyricsAlignment
  new : LyricsAlignment
  found : find (λ x. x.id === id) c.lyrics_alignments ≡ some old
  edited : edit old ≡ ok new
  result : c' ≡ record {
    lyrics_alignments = put_back id (some new) c.lyrics_alignments;
    timeline = c.timeline;
  }

module _ (id : String) (edit : LyricsAlignment → Result LyricsAlignment) (c : CommittedState)
    (message : String) where
  abbrev retime : Result CommittedState
  retime = do
    alignment ← or_throw (find (λ x. x.id === id) c.lyrics_alignments) message
    s ← edit_alignment (some alignment) id edit >>= λ e.
        ok (let s : ProjectionState = record { timeline = c.timeline; lyrics_alignment = e } in s)
    ok (record {
      lyrics_alignments = put_back id s.lyrics_alignment c.lyrics_alignments;
      timeline = s.timeline;
    })

  retime-Retimed : (c' : CommittedState) → retime ≡ ok c' → Retimed id edit c c'
  unfolding edit_alignment
  retime-Retimed c' h = elim (Option-cases (find (λ x. x.id === id) c.lyrics_alignments)) [
    | inl missing ↦ absurd (ground arith)
    | inr (old, found) ↦
        let own : (old.id === id) ≡ true =
          (eq_iff old.id id).1 (find_id (λ x. x.id) id c.lyrics_alignments old found) in
        elim (Result-cases (edit old)) [
          | inl (new, edited) ↦ record {
            old = old;
            new = new;
            found = found;
            edited = edited;
            result = ground arith;
          }
          | inr (e, failed) ↦ absurd (ground arith)
        ]
  ]

Retimed-seen :
    (a : Option String) (id : String) (edit : LyricsAlignment → Result LyricsAlignment)
    (c c' : CommittedState)
    → ((x y : LyricsAlignment) → edit x ≡ ok y → y.id ≡ x.id)
    → Retimed id edit c c'
    → (edit_alignment (selected_alignment c.lyrics_alignments a) id edit >>= λ e.
        ok (let s : ProjectionState = record { timeline = c.timeline; lyrics_alignment = e } in s))
      ≡ ok (seen a c')
Retimed-seen a id edit c c' keeps r =
    rw
      (selected-put_back a id edit c.lyrics_alignments r.old r.new r.found r.edited
        (keeps r.old r.new r.edited))
      (rw r.result refl)

commit_operation-seen :
    (a : Option String) (c c' : CommittedState) (operation : EditOperation)
    → commit_operation c operation ≡ ok c'
    → apply_operation (seen a c) operation ≡ ok (seen a c')
unfolding commit_operation apply_operation
commit_operation-seen a c c' (EditOperation.set_lyrics_timing id timing token_id) h =
    Retimed-seen a id _ c c' (λ x y e. id-set_token_timing x (as_timing timing) token_id y e)
      (retime-Retimed id _ c _ c' h)
commit_operation-seen a c c' (EditOperation.set_lyrics_line_timing id line_id timing) h =
    Retimed-seen a id _ c c' (λ x y e. id-set_line_timing x (as_timing timing) line_id y e)
      (retime-Retimed id _ c _ c' h)
commit_operation-seen a c c' _ h = ground arith

pub commit_operations-seen :
    (a : Option String) (c c' : CommittedState) (operations : List EditOperation)
    → commit_operations c operations ≡ ok c'
    → apply_operations (seen a c) operations ≡ ok (seen a c')
unfolding commit_operations apply_operations
commit_operations-seen a c c' [] h = cc
commit_operations-seen a c c' (operation ∷ rest) h =
    let (mid, first, later) = >>=-eq-ok (commit_operation c operation) _ h in
    rw (commit_operation-seen a c mid operation first) (commit_operations-seen a mid c' rest later)
