-- ===== src/Lrc/Reader.antt =====
-- A reader of LRC texts, which knows nothing of the printer: a line that opens with a time stamp is a
-- row. No code of the repository reads these texts.
pub mod Printed
pub mod Onsets
use open_chords.Prelude.{
  ℕ, ◌+◌, ◌-◌, ◌*◌, Bool, true, false, ◌&&◌, Option, none, some, List, [], ◌∷◌, ltb, leb, ◌==◌,
  if◌then◌else◌,
}

infixl 5 ◌>>=◌
abbrev pub ◌>>=◌ : {A B : Type 0} → Option A → (A → Option B) → Option B
◌>>=◌ none f = none
◌>>=◌ (some x) f = f x

abbrev pub is_digit : ℕ → Bool
is_digit unit = leb 48 unit && leb unit 57

-- What follows the unit that is expected.
abbrev pub expect : ℕ → List ℕ → Option (List ℕ)
expect unit [] = none
expect unit (first ∷ text) = if first == unit then some text else none

-- Two digits, and what follows them.
abbrev pub read_two : List ℕ → Option (ℕ × List ℕ)
read_two (tens ∷ ones ∷ text) =
    if is_digit tens && is_digit ones then some ((tens - 48) * 10 + (ones - 48), text) else none
read_two _ = none

abbrev pub stamped : ℕ → ℕ → ℕ → List ℕ → Option (ℕ × List ℕ)
stamped minutes seconds hundredths text =
    if ltb seconds 60 then some (minutes * 6000 + seconds * 100 + hundredths, text) else none

-- The hundredths of a second of the stamp "[mm:ss.ff]" that a line opens with, and the text after it.
abbrev pub read_row : List ℕ → Option (ℕ × List ℕ)
read_row line = do
  after_bracket ← expect 91 line
  (minutes, after_minutes) ← read_two after_bracket
  after_colon ← expect 58 after_minutes
  (seconds, after_seconds) ← read_two after_colon
  after_point ← expect 46 after_seconds
  (hundredths, after_hundredths) ← read_two after_point
  text ← expect 93 after_hundredths
  stamped minutes seconds hundredths text

abbrev pub onto_first : ℕ → List (List ℕ) → List (List ℕ)
onto_first unit [] = (unit ∷ []) ∷ []
onto_first unit (line ∷ lines) = (unit ∷ line) ∷ lines

-- The lines of a text: each ends with a line feed, or with the text.
unfoldable pub lines_of : List ℕ → List (List ℕ)
lines_of [] = []
lines_of (unit ∷ text) =
    let lines = lines_of text in if unit == 10 then [] ∷ lines else onto_first unit lines

abbrev pub onto_rows : Option (ℕ × List ℕ) → List (ℕ × List ℕ) → List (ℕ × List ℕ)
onto_rows none rows = rows
onto_rows (some row) rows = row ∷ rows

unfoldable pub read_lines : List (List ℕ) → List (ℕ × List ℕ)
read_lines [] = []
read_lines (line ∷ lines) = onto_rows (read_row line) (read_lines lines)

unfoldable pub read_lrc : List ℕ → List (ℕ × List ℕ)
unfolding lines_of read_lines
read_lrc text = read_lines (lines_of text)
