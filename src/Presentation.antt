-- ===== src/Presentation.antt =====
-- packages/domain/src/presentation.ts: how a view transposes, spells and simplifies a chord. The
-- schema checks that the values are parsed by are those of the types.
pub mod Transposition
use open_chords.Prelude.{
  ℕ, zero, suc, ◌+◌, ◌%◌, String, Bool, true, false, ◌&&◌, ◌||◌, Option, none, some, List, [], ◌∷◌,
  ltb, ◌==◌, ◌===◌, length, some_of, find_index, units, template, decimal, if◌then◌else◌,
}
use open_chords.Prelude.Int.{ℤ, pos, negsuc, add_to}
use open_chords.Schema.{
  PitchClass, ChordQuality, ChordIdentity, ChordValue, EnharmonicPreference, Presentation,
  Instrument,
}

unfoldable pub note_name : PitchClass → String
note_name PitchClass.a_natural = "A"
note_name PitchClass.a_sharp = "A#"
note_name PitchClass.a_flat = "Ab"
note_name PitchClass.b_natural = "B"
note_name PitchClass.b_flat = "Bb"
note_name PitchClass.c_natural = "C"
note_name PitchClass.c_sharp = "C#"
note_name PitchClass.d_natural = "D"
note_name PitchClass.d_sharp = "D#"
note_name PitchClass.d_flat = "Db"
note_name PitchClass.e_natural = "E"
note_name PitchClass.e_flat = "Eb"
note_name PitchClass.f_natural = "F"
note_name PitchClass.f_sharp = "F#"
note_name PitchClass.g_natural = "G"
note_name PitchClass.g_sharp = "G#"
note_name PitchClass.g_flat = "Gb"

abbrev pub sharp_notes : List PitchClass
sharp_notes =
    PitchClass.c_natural ∷ PitchClass.c_sharp ∷ PitchClass.d_natural ∷ PitchClass.d_sharp
    ∷ PitchClass.e_natural ∷ PitchClass.f_natural ∷ PitchClass.f_sharp ∷ PitchClass.g_natural
    ∷ PitchClass.g_sharp ∷ PitchClass.a_natural ∷ PitchClass.a_sharp ∷ PitchClass.b_natural ∷ []

abbrev pub flat_notes : List PitchClass
flat_notes =
    PitchClass.c_natural ∷ PitchClass.d_flat ∷ PitchClass.d_natural ∷ PitchClass.e_flat
    ∷ PitchClass.e_natural ∷ PitchClass.f_natural ∷ PitchClass.g_flat ∷ PitchClass.g_natural
    ∷ PitchClass.a_flat ∷ PitchClass.a_natural ∷ PitchClass.b_flat ∷ PitchClass.b_natural ∷ []

unfoldable pub index_of_note : List PitchClass → PitchClass → Option ℕ
unfolding note_name find_index
index_of_note notes note = find_index (λ n. note_name n === note_name note) notes

abbrev or_index : Option ℕ → Option ℕ → Option ℕ
or_index (some i) other = some i
or_index none other = other

-- `none` for -1
unfoldable pub note_index : PitchClass → Option ℕ
unfolding index_of_note
note_index note = or_index (index_of_note sharp_notes note) (index_of_note flat_notes note)

-- Every pitch class has an index (`note_index-number`), so the number here is never a stand-in.
abbrev or_zero : Option ℕ → ℕ
or_zero none = 0
or_zero (some i) = i

unfoldable pub pitch_class_number : PitchClass → ℕ
unfolding note_index
pitch_class_number note = or_zero (note_index note)

-- `contextNote.includes("b")`
unfoldable pub has_flat : PitchClass → Bool
unfolding note_name some_of
has_flat note = some_of (λ c. c == b'b') (units (note_name note))

abbrev pub prefers_flats : EnharmonicPreference → PitchClass → Bool
prefers_flats EnharmonicPreference.flat context = true
prefers_flats EnharmonicPreference.contextual context = has_flat context
prefers_flats EnharmonicPreference.sharp context = false

-- `notes[index]!`, of an index below 12
unfoldable pub note_at : List PitchClass → ℕ → PitchClass
note_at [] i = PitchClass.c_natural
note_at (n ∷ ns) zero = n
note_at (n ∷ ns) (suc i) = note_at ns i

unfoldable pub present_pitch_class : PitchClass → Presentation → PitchClass → PitchClass
unfolding note_at pitch_class_number has_flat
present_pitch_class note presentation context =
    note_at
      (if prefers_flats presentation.enharmonic_preference context then flat_notes else sharp_notes)
      (add_to (pitch_class_number note + 12) presentation.transpose_semitones % 12)

abbrev pub is_plain : ChordQuality → Bool
is_plain ChordQuality.major = true
is_plain ChordQuality.minor = true
is_plain ChordQuality.major7 = true
is_plain ChordQuality.minor7 = true
is_plain _ = false

abbrev pub plainest : ChordQuality → ChordQuality
plainest ChordQuality.minor = ChordQuality.minor
plainest ChordQuality.minor7 = ChordQuality.minor
plainest _ = ChordQuality.major

abbrev pub present_bass : Option PitchClass → Presentation → PitchClass → Option PitchClass
present_bass none presentation spelling = none
present_bass (some bass) presentation spelling =
    some (present_pitch_class bass presentation spelling)

abbrev pub simplified : ChordIdentity → ChordIdentity
simplified v = record v { quality = plainest v.quality; extensions = []; additions = [] }

abbrev pub transposed : ChordIdentity → Presentation → ChordIdentity
transposed v presentation = record v {
  root = present_pitch_class v.root presentation v.root;
  bass = present_bass v.bass presentation v.root;
}

unfoldable pub present_chord : ChordValue → Presentation → ChordValue
present_chord ChordValue.no_chord presentation = ChordValue.no_chord
present_chord (ChordValue.chord v) presentation =
    let w = transposed v presentation in
    ChordValue.chord (
      if presentation.beginner_view
        && ((length w.alterations == 0) && ((length w.omissions == 0) && is_plain w.quality))
      then simplified w
      else w)

abbrev is_piano : Instrument → Bool
is_piano Instrument.piano = true
is_piano _ = false

-- `Number.isInteger(transpose) && transpose >= -11 && transpose < 0`, of an integer
unfoldable pub capo_guidance : ℤ → Instrument → Option String
unfolding decimal
capo_guidance (pos n) instrument = none
capo_guidance (negsuc n) instrument =
    if is_piano instrument || ltb 10 n
    then none
    else some
        (template ("Capo " ∷ decimal (suc n) ∷ ": these shapes match the Original recording." ∷ []))
