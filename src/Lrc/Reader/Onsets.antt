-- ===== src/Lrc/Reader/Onsets.antt =====
-- What a reader finds in the text that `projectLrc` prints.
use open_chords.Prelude.{
  ℕ, ◌<◌, ◌≡◌, ◌≢◌, refl, ap, ◌∙◌, subst, sym, String, false, List, [], ◌∷◌, map, ok, All,
}
use open_chords.Lrc.{
  is_blank, has_control_character, opens_bracket, max_centiseconds, LrcSnapshot, lrc, LrcRow,
  project_lrc,
}
use open_chords.Lrc.Sources.{IsSung}
use open_chords.Lrc.Ascending.{Ascending, IsSafe, PrintsRows, project_lrc-PrintsRows}
use open_chords.Lrc.Reader.{read_lrc}
use open_chords.Lrc.Reader.Printed.{IsReadable, reading, read_lrc-lrc_text}

-- Each time is earlier than all that follow it.
abbrev pub Ascends : List (ℕ × List ℕ) → Type 0
Ascends [] = Unit
Ascends ((onset, text) ∷ rows) = All (λ later. onset < later.0) rows × Ascends rows

-- A row that is read: a time below 100 minutes, and a text that is not blank, has no ASCII control
-- character but tabs, and does not open with a bracket.
abbrev pub IsShown : ℕ × List ℕ → Type 0
IsShown (onset, text) =
    (onset < max_centiseconds)
    × (is_blank text ≡ false)
    × (has_control_character text ≡ false)
    × (opens_bracket text ≡ false)

-- What is read of an LRC text.
abbrev pub IsRead : (ℕ × List ℕ → Type 0) → List (ℕ × List ℕ) → Type 0
IsRead From rows = (rows ≢ []) × Ascends rows × All IsShown rows × All From rows

All-map :
    (P : ℕ × List ℕ → Type 0) (rows : List LrcRow)
    → All (λ row. P (row.onset, row.text)) rows
    → All P (map reading rows)
All-map P [] h = tt
All-map P (row ∷ rows) (h, hs) = (h, All-map P rows hs)

Ascending-Ascends : (rows : List LrcRow) → Ascending rows → Ascends (map reading rows)
Ascending-Ascends [] h = tt
Ascending-Ascends (row ∷ rows) (h, hs) =
    (All-map (λ later. row.onset < later.0) rows h, Ascending-Ascends rows hs)

IsSafe-IsReadable : (rows : List LrcRow) → All IsSafe rows → All IsReadable rows
IsSafe-IsReadable [] h = tt
IsSafe-IsReadable (row ∷ rows) ((early, shown, clean, bare), hs) =
    ((early, clean), IsSafe-IsReadable rows hs)

map-reading : (rows : List LrcRow) → rows ≢ [] → map reading rows ≢ []
map-reading [] h e = h refl
map-reading (row ∷ rows) h e = cc

rows-IsRead :
    (From : ℕ × List ℕ → Type 0) (title text : List ℕ) (rows : List LrcRow)
    → PrintsRows From title text rows
    → IsRead From (read_lrc text)
rows-IsRead From title text rows (some_rows, printed, ascending, safe, from) =
    subst (IsRead From)
      (sym (ap read_lrc printed ∙ read_lrc-lrc_text title rows (IsSafe-IsReadable rows safe)))
      (
        map-reading rows some_rows,
        Ascending-Ascends rows ascending,
        All-map IsShown rows safe,
        All-map From rows from,
      )

-- The text that `projectLrc` prints, read line by line as "[mm:ss.ff]" and what follows it, has one row
-- at least, whatever the title; the times that are read ascend strictly and lie below 100 minutes; each
-- row is that of a matched line of the document, at its first sample in hundredths of a second, rounded
-- down, with the text of the line; and that text is not blank, has no ASCII control character but
-- tabs, and does not open with a bracket.
pub project_lrc-IsRead :
    (snapshot : LrcSnapshot) (title text : List ℕ) (losses : List String)
    → project_lrc snapshot title ≡ ok (lrc text losses)
    → IsRead (IsSung snapshot.sample_rate snapshot.lyrics) (read_lrc text)
project_lrc-IsRead snapshot title text losses h =
    let (rows, prints) = project_lrc-PrintsRows snapshot title text losses h in
    rows-IsRead _ title text rows prints
