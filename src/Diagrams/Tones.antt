-- ===== src/Diagrams/Tones.antt =====
-- What a diagram sounds is the chord: each string and each key is a tone of it, or its slash bass,
-- which is then the lowest.
use open_chords.Prelude.{
  ℕ, ◌+◌, ◌-◌, ◌%◌, ◌<◌, ◌≡◌, refl, Bool, true, false, ◌&&◌, ◌||◌, Option, none, some, List, [],
  ◌∷◌, map, ◌==◌, Bool-cases, inl, inr, all_below, true_of_all_below, ltb, length, not, arith,
}
use open_chords.Schema.{PitchClass, ChordQuality, ChordIdentity, ChordValue, Instrument}
use open_chords.Presentation.{pitch_class_number}
use open_chords.Presentation.Transposition.{number_lt}
use open_chords.Diagrams.{
  ChordDiagram, unavailable, strings, piano, DiagramQuality, dominant7, plain, Shape, StringPack,
  guitar_pack, ukulele_pack, shape_of, intervals, diagram_quality, sounded, fretted, played,
  chord_diagram, wrong_bass, lowest, is_dominant, bass_number,
}

-- A note is one of the chord's, in some octave.
abbrev has_tone : ℕ → List ℕ → ℕ → Bool
has_tone root [] note = false
has_tone root (i ∷ is) note = (root + i) % 12 == note % 12 || has_tone root is note

-- A note is the slash bass, in some octave.
abbrev is_bass : Option ℕ → ℕ → Bool
is_bass none note = false
is_bass (some bass) note = note % 12 == bass

abbrev pub all_tones : ℕ → DiagramQuality → Option ℕ → List ℕ → Bool
all_tones root quality bass [] = true
all_tones root quality bass (note ∷ notes) =
    (has_tone root (intervals quality) note || is_bass bass note)
    && all_tones root quality bass notes

-- The lowest of the notes, if there are any, is the slash bass, if there is one.
abbrev pub sits_on : Option ℕ → List ℕ → Bool
sits_on none notes = true
sits_on (some bass) [] = true
sits_on (some bass) (note ∷ notes) = lowest note notes % 12 == bass

-- The keys that a piano shows: those of the slash bass and of the chord.
abbrev pub keys : Option ℕ → List ℕ → List ℕ
keys none notes = notes
keys (some bass) notes = bass ∷ notes

-- The notes that a diagram shows, from the lowest displayed string or from the key of the bass.
abbrev pub shown : ChordDiagram → List ℕ
shown (unavailable reason) = []
shown (strings id tuning frets barre) = sounded tuning frets
shown (piano id notes bass) = keys bass notes

-- The notes of a diagram fit the chord and its slash bass.
abbrev Fits : ℕ → DiagramQuality → Option ℕ → List ℕ → Type 0
Fits root quality bass notes =
    (all_tones root quality bass notes ≡ true) × (sits_on bass notes ≡ true)

none-Fits : (root : ℕ) (quality : DiagramQuality) (bass : Option ℕ) → Fits root quality bass []
none-Fits root quality none = (refl, refl)
none-Fits root quality (some bass) = (refl, refl)

all_tones-none :
    (root : ℕ) (quality : DiagramQuality) (bass : Option ℕ) (notes : List ℕ)
    → all_tones root quality none notes ≡ true
    → all_tones root quality bass notes ≡ true
all_tones-none root quality bass [] h = refl
all_tones-none root quality bass (note ∷ notes) h =
    ground (arith, all_tones-none root quality bass notes)

wrong_bass-sits_on :
    (bass : Option ℕ) (notes : List ℕ) → wrong_bass bass notes ≡ false → sits_on bass notes ≡ true
wrong_bass-sits_on none notes h = refl
wrong_bass-sits_on (some bass) [] h = refl
wrong_bass-sits_on (some bass) (note ∷ notes) h = ground arith

abbrev sounded_tones : StringPack → DiagramQuality → ℕ → Option Shape → Bool
sounded_tones pack quality root none = true
sounded_tones pack quality root (some shape) =
    all_tones root quality none
      (sounded pack.tuning (map (λ fret. fret + (root + 12 - pack.root) % 12) shape.frets))

abbrev shape_tones : StringPack → DiagramQuality → ℕ → Bool
shape_tones pack quality root = sounded_tones pack quality root (shape_of pack quality)

guitar_tones : (quality : DiagramQuality) → all_below 12 (shape_tones guitar_pack quality) ≡ true
unfolding all_below sounded
guitar_tones dominant7 = refl
guitar_tones (plain ChordQuality.major) = refl
guitar_tones (plain _) = refl

ukulele_tones : (quality : DiagramQuality) → all_below 12 (shape_tones ukulele_pack quality) ≡ true
unfolding all_below sounded
ukulele_tones dominant7 = refl
ukulele_tones (plain ChordQuality.major) = refl
ukulele_tones (plain _) = refl

fretted-Fits :
    (pack : StringPack) (quality : DiagramQuality) (root : ℕ) (bass : Option ℕ)
    (shape : Option Shape)
    → sounded_tones pack quality root shape ≡ true
    → Fits root quality bass (shown (fretted pack root bass shape))
unfolding fretted
fretted-Fits pack quality root bass none h = none-Fits root quality bass
fretted-Fits pack quality root bass (some shape) h =
    let notes =
      sounded pack.tuning (map (λ fret. fret + (root + 12 - pack.root) % 12) shape.frets) in
    elim (Bool-cases (wrong_bass bass notes)) [
      | inl wrong ↦ rw wrong (none-Fits root quality bass)
      | inr right ↦
          rw right (all_tones-none root quality bass notes h, wrong_bass-sits_on bass notes right)
    ]

abbrev piano_notes : ℕ → DiagramQuality → List ℕ
piano_notes root quality = map (λ interval. 48 + root + interval) (intervals quality)

piano_tones :
    (quality : DiagramQuality)
    → all_below 12 (λ root. all_tones root quality none (piano_notes root quality)) ≡ true
unfolding all_below
piano_tones dominant7 = refl
piano_tones (plain ChordQuality.major) = refl
piano_tones (plain _) = refl

abbrev sits_on_key : ℕ → DiagramQuality → ℕ → Bool
sits_on_key root quality bass = sits_on (some bass) ((36 + bass) ∷ piano_notes root quality)

piano_bass :
    (quality : DiagramQuality)
    → all_below 12 (λ root. all_below 12 (sits_on_key root quality)) ≡ true
unfolding all_below lowest
piano_bass dominant7 = refl
piano_bass (plain ChordQuality.major) = refl
piano_bass (plain _) = refl

-- A slash bass is the number of a pitch class.
abbrev InOctave : Option ℕ → Type 0
InOctave none = Unit
InOctave (some bass) = bass < 12

key-is_bass : (bass : ℕ) → bass < 12 → is_bass (some bass) (36 + bass) ≡ true
key-is_bass bass l = ground arith

piano-Fits :
    (quality : DiagramQuality) (root : ℕ) (bass : Option ℕ)
    → root < 12
    → InOctave bass
    → Fits root quality bass (shown (played Instrument.piano root bass quality))
unfolding played
piano-Fits quality root none h l = (
  true_of_all_below 12 (λ root. all_tones root quality none (piano_notes root quality)) root
      (piano_tones quality) h,
  refl,
)
piano-Fits quality root (some bass) h l =
    let tones = all_tones-none root quality (some bass) (piano_notes root quality) (
      true_of_all_below 12 (λ root. all_tones root quality none (piano_notes root quality)) root
        (piano_tones quality) h) in
    let on_bass = key-is_bass bass l in
    (
      ground arith,
      true_of_all_below 12 (sits_on_key root quality) bass
          (true_of_all_below 12 (λ root. all_below 12 (sits_on_key root quality)) root
            (piano_bass quality) h)
          l,
    )

played-Fits :
    (instrument : Instrument) (root : ℕ) (bass : Option ℕ) (quality : DiagramQuality)
    → root < 12
    → InOctave bass
    → Fits root quality bass (shown (played instrument root bass quality))
unfolding played
played-Fits Instrument.piano root bass quality h l = piano-Fits quality root bass h l
played-Fits Instrument.guitar root bass quality h l =
    fretted-Fits guitar_pack quality root bass (shape_of guitar_pack quality)
      (true_of_all_below 12 (shape_tones guitar_pack quality) root (guitar_tones quality) h)
played-Fits Instrument.ukulele root bass quality h l =
    fretted-Fits ukulele_pack quality root bass (shape_of ukulele_pack quality)
      (true_of_all_below 12 (shape_tones ukulele_pack quality) root (ukulele_tones quality) h)

bass-InOctave :
    (bass : Option PitchClass)
    → InOctave (elim bass [ none ↦ none | some note ↦ some (pitch_class_number note) ])
bass-InOctave none = tt
bass-InOctave (some note) = number_lt note

-- Every note that the diagram of a chord shows, on any instrument, is a tone of the chord (its root
-- raised by an interval of its quality, in some octave) or its slash bass; and if the chord has a slash
-- bass, the lowest note that is shown, if any is, is that bass.
pub chord_diagram-tones :
    (v : ChordIdentity) (instrument : Instrument)
    → (all_tones
          (pitch_class_number v.root)
          (diagram_quality v)
          (bass_number v)
          (shown (chord_diagram (ChordValue.chord v) instrument))
        ≡ true)
      × (sits_on (bass_number v) (shown (chord_diagram (ChordValue.chord v) instrument)) ≡ true)
unfolding chord_diagram
chord_diagram-tones v instrument =
    let silent = none-Fits (pitch_class_number v.root) (diagram_quality v) (bass_number v) in
    elim (Bool-cases (
      ltb 0 (length v.additions) || (ltb 0 (length v.alterations) || ltb 0 (length v.omissions)))) [
        | inl coloured ↦ rw coloured silent
        | inr bare ↦ elim (Bool-cases (ltb 0 (length v.extensions) && not (is_dominant v))) [
          | inl extended ↦ rw bare (rw extended silent)
          | inr covered ↦ rw bare (
              rw covered (
                played-Fits instrument _ (bass_number v) (diagram_quality v) (number_lt v.root)
                  (bass-InOctave v.bass)))
        ]
      ]
