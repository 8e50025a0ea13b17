-- ===== src/Tests/Presentation.antt =====
-- The theorems on presentation and diagrams, at the chords of a song in A minor.
use mathlib.Core.Bool.{true}
use mathlib.Core.List.{[]}
use open_chords.Prelude.{◌≡◌, some, arith}
use open_chords.Prelude.Int.{pos, negsuc}
use open_chords.Schema.{
  PitchClass, ChordQuality, ChordIdentity, ChordValue, EnharmonicPreference, Presentation,
  Instrument,
}
use open_chords.Presentation.{pitch_class_number, present_pitch_class, present_chord}
use open_chords.Presentation.Transposition.{
  number-present_pitch_class, number-present_pitch_class-negate, BassMoved, Kept,
  present_chord-Kept,
}
use open_chords.Diagrams.{chord_diagram, diagram_quality}
use open_chords.Diagrams.Tones.{all_tones, sits_on, shown, chord_diagram-tones}

-- Down two semitones, in flats.
abbrev lower : Presentation
lower = record {
  beginner_view = true;
  enharmonic_preference = EnharmonicPreference.flat;
  transpose_semitones = negsuc 1;
}

abbrev a_minor7_on_g : ChordIdentity
a_minor7_on_g = record {
  additions = [];
  alterations = [];
  bass = some PitchClass.g_natural;
  extensions = [];
  omissions = [];
  quality = ChordQuality.minor7;
  root = PitchClass.a_natural;
}

number-present_pitch_class_example :
    pitch_class_number (present_pitch_class PitchClass.c_natural lower PitchClass.a_natural) ≡ 10
unfolding pitch_class_number
number-present_pitch_class_example =
    number-present_pitch_class PitchClass.c_natural PitchClass.a_natural lower

number-present_pitch_class-negate_example :
    pitch_class_number (
      present_pitch_class
        (present_pitch_class PitchClass.c_natural lower PitchClass.a_natural)
        (record lower { transpose_semitones = pos 2 })
        PitchClass.d_natural)
    ≡ 0
unfolding pitch_class_number
number-present_pitch_class-negate_example =
    number-present_pitch_class-negate PitchClass.c_natural PitchClass.a_natural PitchClass.d_natural
      lower (omega arith)

present_chord-Kept_example :
    (w : ChordIdentity) × (present_chord (ChordValue.chord a_minor7_on_g) lower
      ≡ ChordValue.chord w)
    × (pitch_class_number w.root ≡ 7)
    × BassMoved lower (some PitchClass.g_natural) w.bass
    × Kept lower a_minor7_on_g w
unfolding pitch_class_number
present_chord-Kept_example = present_chord-Kept a_minor7_on_g lower

chord_diagram-tones_example :
    (all_tones 9
        (diagram_quality a_minor7_on_g)
        (some 7)
        (shown (chord_diagram (ChordValue.chord a_minor7_on_g) Instrument.piano))
      ≡ true)
    × (sits_on (some 7) (shown (chord_diagram (ChordValue.chord a_minor7_on_g) Instrument.piano))
        ≡ true)
unfolding pitch_class_number
chord_diagram-tones_example = chord_diagram-tones a_minor7_on_g Instrument.piano
