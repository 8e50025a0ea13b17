-- ===== src/Lrc/Ascending.antt =====
-- The rows that an LRC text is printed from.
use open_chords.Prelude.{
  ℕ, suc, ◌<◌, ◌≡◌, ◌≢◌, refl, ◌⊎◌, inl, inr, String, Bool, true, false, ◌||◌, Option, none, some,
  List, [], ◌∷◌, ◌++◌, arith, leb, All, some_of, ok, >>=-eq-ok, Bool-cases,
}
use open_chords.Schema.{LyricsDocument, LyricsAlignment}
use open_chords.Lrc.Sources.{IsAligned, IsSung, emitted-IsFrom}
use open_chords.Lrc.{
  is_blank, has_control_character, opens_bracket, max_centiseconds, LrcLyrics, LrcSnapshot, lrc,
  LrcLine, is_matched, lrc_lines, indexed, onsets_from, monotonic, first_reason, timed_reason,
  omission_reason, LrcRow, row_of, emitted_from, lrc_text, lrc_of, aligned_lrc, lyrics_lrc,
  project_lrc,
}

-- What a row has: an onset below 100 minutes, and a text that is not blank, has no ASCII control
-- character but tabs, and does not open with a bracket.
abbrev pub IsSafe : LrcRow → Type 0
IsSafe row =
    (row.onset < max_centiseconds)
    × (is_blank row.text ≡ false)
    × (has_control_character row.text ≡ false)
    × (opens_bracket row.text ≡ false)

-- Each onset is less than all that follow it.
abbrev pub Ascending : List LrcRow → Type 0
Ascending [] = Unit
Ascending (row ∷ rows) = All (λ later. row.onset < later.onset) rows × Ascending rows

-- An entry is in the list of onsets.
abbrev Has : ℕ → ℕ → List (ℕ × ℕ) → Type 0
Has onset index [] = true ≡ false
Has onset index ((other, other_index) ∷ others) =
    ((other ≡ onset) × (other_index ≡ index)) ⊎ Has onset index others

monotonic_lem :
    (onset index earlier before : ℕ) (onsets : List (ℕ × ℕ))
    → monotonic onset index onsets ≡ true
    → Has earlier before onsets
    → before < index
    → earlier < onset
unfolding monotonic
monotonic_lem onset index earlier before [] h k l = absurd (ground arith)
monotonic_lem onset index earlier before ((other, other_index) ∷ others) h (inl (e, f)) l =
    ground arith
monotonic_lem onset index earlier before ((other, other_index) ∷ others) h (inr k) l =
    monotonic_lem onset index earlier before others (ground arith) k l

reason_lem :
    (blank unsafe late ordered : Bool)
    → first_reason blank unsafe late ordered ≡ none
    → (blank ≡ false) × (unsafe ≡ false) × (late ≡ false) × (ordered ≡ true)
reason_lem true unsafe late ordered h = cc
reason_lem false true late ordered h = cc
reason_lem false false true ordered h = cc
reason_lem false false false true h = (refl, refl, refl, refl)
reason_lem false false false false h = cc

timed_lem :
    (onsets : List (ℕ × ℕ)) (index : ℕ) (text : List ℕ) (onset : ℕ)
    → timed_reason onsets index text onset ≡ none
    → IsSafe (record { onset = onset; index = index; text = text })
      × (monotonic onset index onsets ≡ true)
timed_lem onsets index text onset h =
    let (blank, unsafe, late, ordered) =
      reason_lem (is_blank text) (has_control_character text || opens_bracket text)
        (leb max_centiseconds onset) (monotonic onset index onsets) h in
    ((ground arith, blank, ground arith, ground arith), ordered)

-- What is known of the row of a line.
IsRow : List (ℕ × ℕ) → ℕ → Option ℕ → LrcRow → Type 0
IsRow onsets index onset row =
    (onset ≡ some row.onset) × IsSafe row × (monotonic row.onset index onsets ≡ true)

row_of-All :
    (P : LrcRow → Type 0) (onsets : List (ℕ × ℕ)) (index : ℕ) (text : List ℕ) (onset : Option ℕ)
    (omitted : Option String) (rows : List LrcRow)
    → omission_reason onsets index text onset ≡ omitted
    → ((row : LrcRow) → IsRow onsets index onset row → P row)
    → All P rows
    → All P (row_of index text onset omitted ++ rows)
unfolding IsRow
row_of-All P onsets index text none none rows e p h = h
row_of-All P onsets index text none (some reason) rows e p h = h
row_of-All P onsets index text (some onset) (some reason) rows e p h = h
row_of-All P onsets index text (some onset) none rows e p h =
    let (safe, ordered) = timed_lem onsets index text onset e in
    (p (record { onset = onset; index = index; text = text }) (refl, safe, ordered), h)

-- The rows of lines from `index` on come after each onset of a line before them.
emitted-All :
    (onsets : List (ℕ × ℕ)) (earlier before index : ℕ) (lines : List LrcLine)
    → Has earlier before onsets
    → before < index
    → All (λ later. earlier < later.onset) (emitted_from onsets index lines)
unfolding emitted_from IsRow
emitted-All onsets earlier before index [] h l = tt
emitted-All onsets earlier before index (line ∷ lines) h l =
    row_of-All (λ later. earlier < later.onset) onsets index line.text line.onset _
      (emitted_from onsets (suc index) lines) refl
      (λ row (e, safe, ordered). monotonic_lem row.onset index earlier before onsets ordered h l)
      (emitted-All onsets earlier before (suc index) lines h (omega arith))

emitted-IsSafe :
    (onsets : List (ℕ × ℕ)) (index : ℕ) (lines : List LrcLine)
    → All IsSafe (emitted_from onsets index lines)
unfolding emitted_from IsRow
emitted-IsSafe onsets index [] = tt
emitted-IsSafe onsets index (line ∷ lines) =
    row_of-All IsSafe onsets index line.text line.onset _ (emitted_from onsets (suc index) lines)
      refl (λ row (e, safe, ordered). safe) (emitted-IsSafe onsets (suc index) lines)

-- The onsets of the lines from `index` on are among all the onsets.
Holds : List (ℕ × ℕ) → List (ℕ × ℕ) → Type 0
Holds onsets part = (onset index : ℕ) → Has onset index part → Has onset index onsets

Has-left :
    (onset index : ℕ) (xs ys : List (ℕ × ℕ)) → Has onset index xs → Has onset index (xs ++ ys)
Has-left onset index [] ys h = absurd (ground arith)
Has-left onset index ((other, other_index) ∷ xs) ys (inl e) = inl e
Has-left onset index ((other, other_index) ∷ xs) ys (inr h) = inr (Has-left onset index xs ys h)

Has-right :
    (onset index : ℕ) (xs ys : List (ℕ × ℕ)) → Has onset index ys → Has onset index (xs ++ ys)
Has-right onset index [] ys h = h
Has-right onset index ((other, other_index) ∷ xs) ys h = inr (Has-right onset index xs ys h)

row_of-Ascending :
    (onsets : List (ℕ × ℕ)) (index : ℕ) (text : List ℕ) (onset : Option ℕ) (omitted : Option String)
    (rows : List LrcRow)
    → ((o : ℕ) → onset ≡ some o → All (λ later. o < later.onset) rows)
    → Ascending rows
    → Ascending (row_of index text onset omitted ++ rows)
row_of-Ascending onsets index text none none rows p h = h
row_of-Ascending onsets index text none (some reason) rows p h = h
row_of-Ascending onsets index text (some onset) (some reason) rows p h = h
row_of-Ascending onsets index text (some onset) none rows p h = (p onset refl, h)

emitted-Ascending :
    (onsets : List (ℕ × ℕ)) (index : ℕ) (lines : List LrcLine)
    → Holds onsets (onsets_from index lines)
    → Ascending (emitted_from onsets index lines)
unfolding emitted_from onsets_from Holds
emitted-Ascending onsets index [] h = tt
emitted-Ascending onsets index (line ∷ lines) h =
    row_of-Ascending onsets index line.text line.onset _ (emitted_from onsets (suc index) lines)
      (λ o e.
        emitted-All onsets o index (suc index) lines
          (h o index (
            Has-left o index (indexed line.onset index) (onsets_from (suc index) lines)
              (rw e (inl (refl, refl)))))
          (omega arith))
      (emitted-Ascending onsets (suc index) lines (λ o i k.
        h o i (Has-right o i (indexed line.onset index) (onsets_from (suc index) lines) k)))

-- What `projectLrc` prints of lines that have been read.
lrc_of-rows :
    (document : LyricsDocument) (alignment : LyricsAlignment) (title : List ℕ)
    (lines : List LrcLine) (rows : List LrcRow) (text : List ℕ) (losses : List String)
    → lrc_of document alignment title lines rows ≡ lrc text losses
    → (rows ≢ []) × (text ≡ lrc_text title rows)
lrc_of-rows document alignment title lines [] text losses h = cc
lrc_of-rows document alignment title lines (row ∷ rows) text losses h = (λ e. cc, cc)

-- The rows of a text: each is from what the document has.
abbrev pub PrintsRows : (ℕ × List ℕ → Type 0) → List ℕ → List ℕ → List LrcRow → Type 0
PrintsRows From title text rows =
    (rows ≢ [])
    × (text ≡ lrc_text title rows)
    × Ascending rows
    × All IsSafe rows
    × All (λ row. From (row.onset, row.text)) rows

aligned_lrc-rows :
    (sample_rate : ℕ) (document : LyricsDocument) (title : List ℕ)
    (alignment : Option LyricsAlignment) (text : List ℕ) (losses : List String)
    → aligned_lrc sample_rate document title alignment ≡ ok (lrc text losses)
    → (rows : List LrcRow) × PrintsRows (IsAligned sample_rate document alignment) title text rows
unfolding Holds
aligned_lrc-rows sample_rate document title none text losses h = cc
aligned_lrc-rows sample_rate document title (some alignment) text losses h =
    elim (Bool-cases (some_of (λ o. is_matched o.timing) alignment.line_occurrences)) [
      | inl timed ↦
          let (lines, read, done) = >>=-eq-ok (lrc_lines _ _ _ _) _ (rw timed at h) in
          let onsets = onsets_from 0 lines in
          let rows = emitted_from onsets 0 lines in
          let (some_rows, printed) =
            lrc_of-rows document alignment title lines rows text losses cc in
          let sung =
            emitted-IsFrom sample_rate document.text _ onsets 0 document.lines lines read in
          (
            rows,
            (
              some_rows,
              printed,
              emitted-Ascending onsets 0 lines (λ o i k. k),
              emitted-IsSafe onsets 0 lines,
              sung,
            ),
          )
      | inr untimed ↦ let k = rw untimed at h in cc
    ]

lyrics_lrc-rows :
    (sample_rate : ℕ) (title : List ℕ) (lyrics : Option LrcLyrics) (text : List ℕ)
    (losses : List String)
    → lyrics_lrc sample_rate title lyrics ≡ ok (lrc text losses)
    → (rows : List LrcRow) × PrintsRows (IsSung sample_rate lyrics) title text rows
lyrics_lrc-rows sample_rate title none text losses h = cc
lyrics_lrc-rows sample_rate title (some lyrics) text losses h =
    aligned_lrc-rows sample_rate lyrics.document title lyrics.effective_alignment text losses h

pub project_lrc-PrintsRows :
    (snapshot : LrcSnapshot) (title text : List ℕ) (losses : List String)
    → project_lrc snapshot title ≡ ok (lrc text losses)
    → (rows : List LrcRow) × PrintsRows
        (IsSung snapshot.sample_rate snapshot.lyrics)
        title
        text
        rows
unfolding project_lrc
project_lrc-PrintsRows snapshot title text losses h =
    lyrics_lrc-rows snapshot.sample_rate title snapshot.lyrics text losses h
