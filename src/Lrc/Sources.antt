-- ===== src/Lrc/Sources.antt =====
-- The lines of the document that the rows of an LRC text are from.
use open_chords.Prelude.{
  ℕ, suc, ◌*◌, ◌/◌, ◌≡◌, refl, subst, ◌⊎◌, inl, inr, String, true, false, Option, none, some, List,
  [], ◌∷◌, ◌++◌, map, map_get, ok, >>=-eq-ok, All,
}
use open_chords.Schema.{Assertion, LyricsLine, LyricsTiming, LyricsDocument, LyricsAlignment}
use open_chords.Projection.Find.{or_throw}
use open_chords.Lrc.{slice, onset_of, LrcLyrics, LrcLine, LrcRow, lrc_lines, row_of, emitted_from}

-- A row is that of a line: the line is matched, the onset is its first sample in hundredths of a
-- second, rounded down, and the text is that of the line.
abbrev pub IsRowOf : ℕ → List ℕ → List (String × LyricsTiming) → LyricsLine → ℕ × List ℕ → Type 0
IsRowOf sample_rate text timings line (onset, words) =
    (start : ℕ) × (end : ℕ) × (assertion : Assertion) × (map_get line.id timings
      ≡ some (LyricsTiming.matched start end assertion))
    × (onset ≡ start * 100 / sample_rate)
    × (words ≡ slice text line.start_offset line.end_offset)

-- A row is that of one of the lines.
abbrev pub IsFrom :
    ℕ → List ℕ → List (String × LyricsTiming) → List LyricsLine → ℕ × List ℕ → Type 0
IsFrom sample_rate text timings [] row = true ≡ false
IsFrom sample_rate text timings (line ∷ lines) row =
    IsRowOf sample_rate text timings line row ⊎ IsFrom sample_rate text timings lines row

abbrev pub IsAligned : ℕ → LyricsDocument → Option LyricsAlignment → ℕ × List ℕ → Type 0
IsAligned sample_rate document none row = true ≡ false
IsAligned sample_rate document (some alignment) row =
    IsFrom sample_rate document.text (map (λ o. (o.line_id, o.timing)) alignment.line_occurrences)
      document.lines row

-- A row is that of a line of the lyrics.
abbrev pub IsSung : ℕ → Option LrcLyrics → ℕ × List ℕ → Type 0
IsSung sample_rate none row = true ≡ false
IsSung sample_rate (some lyrics) row =
    IsAligned sample_rate lyrics.document lyrics.effective_alignment row

All-imp :
    {A : Type 0} → (P Q : A → Type 0) (xs : List A) → ((x : A) → P x → Q x) → All P xs → All Q xs
All-imp P Q [] f h = tt
All-imp P Q (x ∷ xs) f (h, hs) = (f x h, All-imp P Q xs f hs)

or_throw-eq-ok :
    {A : Type 0}
    → (found : Option A) (message : String) (a : A) → or_throw found message ≡ ok a
    → found ≡ some a
or_throw-eq-ok none message a h = cc
or_throw-eq-ok (some other) message a h = cc

ok_inj : {A : Type 0} → (a b : A) → ok a ≡ ok b → a ≡ b
ok_inj a b h = cc

row_of-All :
    (P : LrcRow → Type 0) (index : ℕ) (text : List ℕ) (onset : Option ℕ) (omitted : Option String)
    (rows : List LrcRow)
    → ((o : ℕ) → onset ≡ some o → P (record { onset = o; index = index; text = text }))
    → All P rows
    → All P (row_of index text onset omitted ++ rows)
row_of-All P index text none none rows p h = h
row_of-All P index text none (some reason) rows p h = h
row_of-All P index text (some onset) (some reason) rows p h = h
row_of-All P index text (some onset) none rows p h = (p onset refl, h)

onset_of-IsRowOf :
    (sample_rate : ℕ) (text : List ℕ) (timings : List (String × LyricsTiming)) (line : LyricsLine)
    (timing : LyricsTiming) (onset : ℕ)
    → map_get line.id timings ≡ some timing
    → onset_of sample_rate timing ≡ some onset
    → IsRowOf sample_rate text timings line (onset, slice text line.start_offset line.end_offset)
onset_of-IsRowOf sample_rate text timings line (LyricsTiming.matched start end assertion) onset h
      e =
    (start, end, assertion, h, cc, refl)
onset_of-IsRowOf sample_rate text timings line (LyricsTiming.unmatched reason_code) onset h e = cc

-- Each row that is emitted is that of a line of the document.
pub emitted-IsFrom :
    (sample_rate : ℕ) (text : List ℕ) (timings : List (String × LyricsTiming))
    (onsets : List (ℕ × ℕ)) (index : ℕ) (document_lines : List LyricsLine) (lines : List LrcLine)
    → lrc_lines sample_rate text timings document_lines ≡ ok lines
    → All
        (λ row. IsFrom sample_rate text timings document_lines (row.onset, row.text))
        (emitted_from onsets index lines)
unfolding lrc_lines emitted_from
emitted-IsFrom sample_rate text timings onsets index [] [] h = tt
emitted-IsFrom sample_rate text timings onsets index [] (line ∷ lines) h = cc
emitted-IsFrom sample_rate text timings onsets index (line ∷ document_lines) lines h =
    let (timing, found, h') = >>=-eq-ok (or_throw (map_get line.id timings) _) _ h in
    let (rest, read, done) = >>=-eq-ok (lrc_lines sample_rate text timings document_lines) _ h' in
    let at = or_throw-eq-ok (map_get line.id timings) _ timing found in
    let From = λ (row : LrcRow).
      IsFrom sample_rate text timings (line ∷ document_lines) (row.onset, row.text) in
    let later =
      All-imp _ From (emitted_from onsets (suc index) rest) (λ row k. inr k)
        (emitted-IsFrom sample_rate text timings onsets (suc index) document_lines rest read) in
    subst (λ ls. All From (emitted_from onsets index ls)) (ok_inj _ _ done)
      (row_of-All From index _ (onset_of sample_rate timing) _ _
        (λ o e. inl (onset_of-IsRowOf sample_rate text timings line timing o at e)) later)
