-- ===== src/Diagrams.antt =====
-- packages/domain/src/diagrams.ts and packages/domain/src/diagram-packs.ts: how a chord is fingered
-- on an instrument.
pub mod Tones
use Prim.Native.Nat.{min}
use open_chords.Prelude.{
  ℕ, ◌+◌, ◌-◌, ◌%◌, String, Bool, true, false, not, ◌&&◌, ◌||◌, Option, none, some, List, [], ◌∷◌,
  map, ltb, ◌==◌, ◌===◌, length, if◌then◌else◌,
}
use open_chords.Schema.{ChordQuality, ChordIdentity, ChordValue, Instrument}
use open_chords.Presentation.{pitch_class_number}

pub data ChordDiagram : Type 0 where
  unavailable : (reason : String) → ChordDiagram
  strings : (pack_id : String) (tuning frets : List ℕ) (barre : Option ℕ) → ChordDiagram
  piano : (pack_id : String) (notes : List ℕ) (bass : Option ℕ) → ChordDiagram

-- A quality of the packs: that of the chord, or a major triad with a seventh.
pub data DiagramQuality : Type 0 where
  dominant7 : DiagramQuality
  plain : ChordQuality → DiagramQuality

pub record Shape : Type 0 where
  pub frets : List ℕ
  pub barre : ℕ

pub record StringPack : Type 0 where
  pub id : String
  pub root : ℕ
  pub tuning : List ℕ
  pub major : Shape
  pub minor : Shape
  pub major7 : Shape
  pub minor7 : Shape
  pub dominant7 : Shape

abbrev pub guitar_pack : StringPack
guitar_pack = record {
  id = "open-chords-guitar-v1";
  root = 4;
  tuning = 40 ∷ 45 ∷ 50 ∷ 55 ∷ 59 ∷ 64 ∷ [];
  major = record { frets = 0 ∷ 2 ∷ 2 ∷ 1 ∷ 0 ∷ 0 ∷ []; barre = 0 };
  minor = record { frets = 0 ∷ 2 ∷ 2 ∷ 0 ∷ 0 ∷ 0 ∷ []; barre = 0 };
  major7 = record { frets = 0 ∷ 2 ∷ 1 ∷ 1 ∷ 0 ∷ 0 ∷ []; barre = 0 };
  minor7 = record { frets = 0 ∷ 2 ∷ 0 ∷ 0 ∷ 0 ∷ 0 ∷ []; barre = 0 };
  dominant7 = record { frets = 0 ∷ 2 ∷ 0 ∷ 1 ∷ 0 ∷ 0 ∷ []; barre = 0 };
}

abbrev pub ukulele_pack : StringPack
ukulele_pack = record {
  id = "open-chords-ukulele-v1";
  root = 0;
  tuning = 67 ∷ 60 ∷ 64 ∷ 69 ∷ [];
  major = record { frets = 0 ∷ 0 ∷ 0 ∷ 3 ∷ []; barre = 0 };
  minor = record { frets = 0 ∷ 3 ∷ 3 ∷ 3 ∷ []; barre = 3 };
  major7 = record { frets = 0 ∷ 0 ∷ 0 ∷ 2 ∷ []; barre = 0 };
  minor7 = record { frets = 3 ∷ 3 ∷ 3 ∷ 3 ∷ []; barre = 3 };
  dominant7 = record { frets = 0 ∷ 0 ∷ 0 ∷ 1 ∷ []; barre = 0 };
}

-- The shapes that the packs have; the other qualities have none.
abbrev pub shape_of : StringPack → DiagramQuality → Option Shape
shape_of pack DiagramQuality.dominant7 = some pack.dominant7
shape_of pack (plain ChordQuality.major) = some pack.major
shape_of pack (plain ChordQuality.minor) = some pack.minor
shape_of pack (plain ChordQuality.major7) = some pack.major7
shape_of pack (plain ChordQuality.minor7) = some pack.minor7
shape_of pack (plain _) = none

abbrev pub intervals : DiagramQuality → List ℕ
intervals DiagramQuality.dominant7 = 0 ∷ 4 ∷ 7 ∷ 10 ∷ []
intervals (plain ChordQuality.major) = 0 ∷ 4 ∷ 7 ∷ []
intervals (plain ChordQuality.minor) = 0 ∷ 3 ∷ 7 ∷ []
intervals (plain ChordQuality.major7) = 0 ∷ 4 ∷ 7 ∷ 11 ∷ []
intervals (plain ChordQuality.minor7) = 0 ∷ 3 ∷ 7 ∷ 10 ∷ []
intervals (plain ChordQuality.diminished) = 0 ∷ 3 ∷ 6 ∷ []
intervals (plain ChordQuality.diminished7) = 0 ∷ 3 ∷ 6 ∷ 9 ∷ []
intervals (plain ChordQuality.half_diminished) = 0 ∷ 3 ∷ 6 ∷ 10 ∷ []
intervals (plain ChordQuality.augmented) = 0 ∷ 4 ∷ 8 ∷ []
intervals (plain ChordQuality.sus2) = 0 ∷ 2 ∷ 7 ∷ []
intervals (plain ChordQuality.sus4) = 0 ∷ 5 ∷ 7 ∷ []

abbrev pub no_diagram : ChordDiagram
no_diagram = unavailable "No diagram in this pack; the full chord symbol is retained."

abbrev is_major : ChordQuality → Bool
is_major ChordQuality.major = true
is_major _ = false

abbrev is_seventh : List String → Bool
is_seventh [] = false
is_seventh (extension ∷ []) = extension === "7"
is_seventh (extension ∷ other ∷ rest) = false

abbrev pub is_dominant : ChordIdentity → Bool
is_dominant v = is_major v.quality && is_seventh v.extensions

abbrev pub diagram_quality : ChordIdentity → DiagramQuality
diagram_quality v = if is_dominant v then DiagramQuality.dominant7 else plain v.quality

-- `frets.map((fret, index) => pack.tuning[index]! + fret)`
unfoldable pub sounded : List ℕ → List ℕ → List ℕ
sounded [] frets = []
sounded (note ∷ tuning) [] = []
sounded (note ∷ tuning) (fret ∷ frets) = (note + fret) ∷ sounded tuning frets

unfoldable pub lowest : ℕ → List ℕ → ℕ
lowest note [] = note
lowest note (other ∷ notes) = min note (lowest other notes)

abbrev pub lowest_of : List ℕ → ℕ
lowest_of [] = 0
lowest_of (note ∷ notes) = lowest note notes

abbrev pub bass_number : ChordIdentity → Option ℕ
bass_number v = elim v.bass [ none ↦ none | some bass ↦ some (pitch_class_number bass) ]

abbrev pub wrong_bass : Option ℕ → List ℕ → Bool
wrong_bass none notes = false
wrong_bass (some bass) notes = not (lowest_of notes % 12 == bass)

unfoldable pub fretted : StringPack → ℕ → Option ℕ → Option Shape → ChordDiagram
unfolding sounded lowest
fretted pack root bass none = no_diagram
fretted pack root bass (some shape) =
    let offset = (root + 12 - pack.root) % 12 in
    let frets = map (λ fret. fret + offset) shape.frets in
    if wrong_bass bass (sounded pack.tuning frets)
    then no_diagram
    else strings pack.id pack.tuning frets
        (if shape.barre + offset == 0 then none else some (shape.barre + offset))

unfoldable pub played : Instrument → ℕ → Option ℕ → DiagramQuality → ChordDiagram
unfolding fretted
played Instrument.piano root bass quality =
    piano "open-chords-piano-v1" (map (λ interval. 48 + root + interval) (intervals quality))
      (elim bass [ none ↦ none | some note ↦ some (36 + note) ])
played Instrument.guitar root bass quality =
    fretted guitar_pack root bass (shape_of guitar_pack quality)
played Instrument.ukulele root bass quality =
    fretted ukulele_pack root bass (shape_of ukulele_pack quality)

unfoldable pub chord_diagram : ChordValue → Instrument → ChordDiagram
chord_diagram ChordValue.no_chord instrument = unavailable "N — no chord to play."
chord_diagram (ChordValue.chord v) instrument =
    if ltb 0 (length v.additions) || (ltb 0 (length v.alterations) || ltb 0 (length v.omissions))
    then no_diagram
    else if ltb 0 (length v.extensions) && not (is_dominant v)
    then no_diagram
    else played instrument (pitch_class_number v.root) (bass_number v) (diagram_quality v)
