-- ===== src/Lrc/Reader/Printed.antt =====
-- What the reader makes of a text that is printed.
use open_chords.Prelude.{
  ℕ, ◌+◌, ◌/◌, ◌%◌, ◌<◌, ◌≡◌, refl, ap, ◌∙◌, inl, inr, Bool, true, false, not, ◌&&◌, some, List, [],
  ◌∷◌, ◌++◌, map, arith, ◌==◌, all_below, true_of_all_below, Bool-cases, keep, some_of, All, units,
  decimal,
}
use open_chords.Lrc.{
  is_control, has_control_character, max_centiseconds, padded, timestamp, LrcRow, row_text,
  title_of, without_control_characters, title_lines, joined_lines, lrc_text,
}
use open_chords.Lrc.Reader.{read_two, read_row, onto_rows, lines_of, read_lines, read_lrc}

-- The units are the two digits of the number.
abbrev are_digits : ℕ → List ℕ → Bool
are_digits n (tens ∷ ones ∷ []) = tens == 48 + n / 10 && ones == 48 + n % 10
are_digits n _ = false

are_digits_lem :
    (n : ℕ) (text : List ℕ) → are_digits n text ≡ true → text ≡ (48 + n / 10) ∷ (48 + n % 10) ∷ []
are_digits_lem n [] h = absurd (ground arith)
are_digits_lem n (tens ∷ []) h = absurd (ground arith)
are_digits_lem n (tens ∷ ones ∷ []) h = ground arith
are_digits_lem n (tens ∷ ones ∷ u ∷ text) h = absurd (ground arith)

padded_digits : all_below 100 (λ n. are_digits n (padded n)) ≡ true
unfolding all_below decimal
padded_digits = refl

padded_lem : (n : ℕ) → n < 100 → padded n ≡ (48 + n / 10) ∷ (48 + n % 10) ∷ []
padded_lem n l =
    are_digits_lem n (padded n)
      (true_of_all_below 100 (λ n. are_digits n (padded n)) n padded_digits l)

-- The digits of a number below 100, and a text after them.
abbrev digits_onto : ℕ → List ℕ → List ℕ
digits_onto n text = (48 + n / 10) ∷ (48 + n % 10) ∷ text

read_two-digits : (n : ℕ) (text : List ℕ) → n < 100 → read_two (digits_onto n text) ≡ some (n, text)
read_two-digits n text l = ground arith

row_digits :
    (onset : ℕ) (text : List ℕ)
    → onset < max_centiseconds
    → timestamp onset ++ text
      ≡ 91
        ∷ digits_onto
            (onset / 6000)
            (58 ∷ digits_onto (onset / 100 % 60) (46 ∷ digits_onto (onset % 100) (93 ∷ text)))
unfolding timestamp
row_digits onset text l = rw (padded_lem (onset / 6000) (omega arith)) (
    rw (padded_lem (onset / 100 % 60) (omega arith))
      (rw (padded_lem (onset % 100) (omega arith)) refl))

-- The stamp of a row is read as its onset.
read_row-row_text :
    (row : LrcRow)
    → row.onset < max_centiseconds
    → read_row (row_text row) ≡ some (row.onset, row.text)
read_row-row_text row l = rw (row_digits row.onset row.text l) (
    rw (read_two-digits (row.onset / 6000) _ (omega arith)) (
      rw (read_two-digits (row.onset / 100 % 60) _ (omega arith))
        (rw (read_two-digits (row.onset % 100) _ (omega arith)) (ground arith))))

abbrev has_line_feed : List ℕ → Bool
has_line_feed text = some_of (λ unit. unit == 10) text

has_line_feed-append :
    (xs ys : List ℕ)
    → has_line_feed xs ≡ false
    → has_line_feed ys ≡ false
    → has_line_feed (xs ++ ys) ≡ false
unfolding some_of
has_line_feed-append [] ys h k = k
has_line_feed-append (x ∷ xs) ys h k = ground (arith, has_line_feed-append xs ys)

-- A line feed is a control character.
no_line_feed : (text : List ℕ) → has_control_character text ≡ false → has_line_feed text ≡ false
unfolding some_of
no_line_feed [] h = refl
no_line_feed (unit ∷ text) h = ground (arith, no_line_feed text)

has_line_feed-keep :
    (test : ℕ → Bool) (text : List ℕ)
    → has_line_feed text ≡ false
    → has_line_feed (keep test text) ≡ false
unfolding some_of keep
has_line_feed-keep test [] h = refl
has_line_feed-keep test (unit ∷ text) h = elim (Bool-cases (test unit)) [
  | inl kept ↦ rw kept (ground (arith, has_line_feed-keep test text))
  | inr dropped ↦ rw dropped (has_line_feed-keep test text (ground arith))
]

without_control_characters_lem :
    (text : List ℕ) → has_control_character (without_control_characters text) ≡ false
unfolding some_of keep
without_control_characters_lem [] = refl
without_control_characters_lem (unit ∷ text) = elim (Bool-cases (not (is_control unit))) [
  | inl kept ↦ rw kept (ground (arith, without_control_characters_lem text))
  | inr dropped ↦ rw dropped (without_control_characters_lem text)
]

has_line_feed-row_text :
    (row : LrcRow)
    → row.onset < max_centiseconds
    → has_control_character row.text ≡ false
    → has_line_feed (row_text row) ≡ false
unfolding some_of
has_line_feed-row_text row l h =
    let fed = no_line_feed row.text h in rw (row_digits row.onset row.text l) (ground arith)

has_line_feed-title_of : (title : List ℕ) → has_line_feed (title_of title) ≡ false
has_line_feed-title_of title =
    has_line_feed-keep (λ unit. not (unit == 93)) (without_control_characters title)
      (no_line_feed _ (without_control_characters_lem title))

-- The first line of a text.
lines_of-joined :
    (line rest : List ℕ)
    → has_line_feed line ≡ false
    → lines_of (line ++ (10 ∷ rest)) ≡ line ∷ lines_of rest
unfolding lines_of some_of
lines_of-joined [] rest h = refl
lines_of-joined (unit ∷ line) rest h = rw (lines_of-joined line rest (ground arith)) (ground arith)

-- The rows of a text, as the reader gives them.
abbrev pub reading : LrcRow → ℕ × List ℕ
reading row = (row.onset, row.text)

-- What is needed of a row to read it.
abbrev pub IsReadable : LrcRow → Type 0
IsReadable row = (row.onset < max_centiseconds) × (has_control_character row.text ≡ false)

read_lines-row :
    (line : List ℕ) (lines : List (List ℕ)) (row : ℕ × List ℕ)
    → read_row line ≡ some row
    → read_lines (line ∷ lines) ≡ row ∷ read_lines lines
unfolding read_lines
read_lines-row line lines row h = ap (λ found. onto_rows found (read_lines lines)) h

read_lrc-rows :
    (rows : List LrcRow)
    → All IsReadable rows
    → read_lrc (joined_lines (map row_text rows)) ≡ map reading rows
unfolding read_lrc read_lines joined_lines lines_of
read_lrc-rows [] h = refl
read_lrc-rows (row ∷ rows) ((l, h), hs) =
    rw
      (lines_of-joined (row_text row) (joined_lines (map row_text rows))
        (has_line_feed-row_text row l h))
      (read_lines-row (row_text row) (lines_of (joined_lines (map row_text rows))) (reading row)
          (read_row-row_text row l)
        ∙ ap (λ rest. reading row ∷ rest) (read_lrc-rows rows hs))

read_lrc-titled :
    (title : List ℕ) (rows : List LrcRow)
    → has_line_feed title ≡ false
    → All IsReadable rows
    → read_lrc (joined_lines (title_lines title ++ map row_text rows)) ≡ map reading rows
unfolding read_lrc read_lines joined_lines some_of
read_lrc-titled [] rows f h = read_lrc-rows rows h
read_lrc-titled (unit ∷ title) rows f h =
    rw
      (lines_of-joined (units "[ti:" ++ (unit ∷ title ++ (93 ∷ [])))
        (joined_lines (map row_text rows))
        (has_line_feed-append (units "[ti:") (unit ∷ title ++ (93 ∷ [])) refl
          (has_line_feed-append (unit ∷ title) (93 ∷ []) f refl)))
      (read_lrc-rows rows h)

-- A text that is printed is read as its rows, whatever the title.
pub read_lrc-lrc_text :
    (title : List ℕ) (rows : List LrcRow)
    → All IsReadable rows
    → read_lrc (lrc_text title rows) ≡ map reading rows
unfolding lrc_text
read_lrc-lrc_text title rows h =
    read_lrc-titled (title_of title) rows (has_line_feed-title_of title) h
