-- ===== src/Presentation/Transposition.antt =====
-- Transposition is addition modulo 12, whatever the spelling.
use open_chords.Prelude.{
  ℕ, zero, suc, ◌+◌, ◌%◌, ◌≤◌, ◌<◌, ◌≡◌, refl, ap, ◌∙◌, ◌⊎◌, inl, inr, Bool, true, false, ◌&&◌,
  Option, none, some, List, [], ◌∷◌, arith, ◌==◌, length, Bool-cases, all_below, true_of_all_below,
  eq_of_==, if◌then◌else◌,
}
use open_chords.Prelude.Int.{ℤ, pos, negsuc, add_to}
use open_chords.Schema.{PitchClass, ChordQuality, Presentation, ChordValue, ChordIdentity}
use open_chords.Presentation.{
  sharp_notes, flat_notes, note_index, pitch_class_number, prefers_flats, note_at,
  present_pitch_class, present_bass, present_chord, is_plain, plainest, simplified, transposed,
}

-- The range that the schema allows.
abbrev pub InRange : ℤ → Type 0
InRange (pos n) = n ≤ 11
InRange (negsuc n) = suc n ≤ 11

abbrev pub negate : ℤ → ℤ
negate (pos zero) = pos zero
negate (pos (suc n)) = negsuc n
negate (negsuc n) = pos (suc n)

note_index-number : (p : PitchClass) → note_index p ≡ some (pitch_class_number p)
unfolding note_index pitch_class_number
note_index-number PitchClass.a_natural = refl
note_index-number _ = refl

pub number_lt : (p : PitchClass) → pitch_class_number p < 12
unfolding pitch_class_number
number_lt PitchClass.a_natural = omega arith
number_lt _ = omega arith

notes_of : Bool → List PitchClass
notes_of flats = if flats then flat_notes else sharp_notes

number-note_at :
    (flats : Bool) (i : ℕ) → i < 12 → pitch_class_number (note_at (notes_of flats) i) ≡ i
unfolding pitch_class_number note_at notes_of all_below
number-note_at true i h =
    eq_of_== _ _
      (true_of_all_below 12 (λ k. pitch_class_number (note_at flat_notes k) == k) i refl h)
number-note_at false i h =
    eq_of_== _ _
      (true_of_all_below 12 (λ k. pitch_class_number (note_at sharp_notes k) == k) i refl h)

-- The note that is presented lies the transposition above the note, modulo 12, in whatever spelling.
pub number-present_pitch_class :
    (note context : PitchClass) (p : Presentation)
    → pitch_class_number (present_pitch_class note p context)
      ≡ add_to (pitch_class_number note + 12) p.transpose_semitones % 12
unfolding present_pitch_class notes_of
number-present_pitch_class note context p =
    number-note_at (prefers_flats p.enharmonic_preference context) _ (omega arith)

undone :
    (n : ℕ) (t : ℤ) → n < 12 → InRange t → add_to (add_to (n + 12) t % 12 + 12) (negate t) % 12 ≡ n
undone n (pos zero) h r = omega arith
undone n (pos (suc k)) h r = omega arith
undone n (negsuc k) h r = omega arith

-- Transposing by an amount that the schema allows, and then by its opposite, gives back the pitch
-- class of the note.
pub number-present_pitch_class-negate :
    (note context context' : PitchClass) (p : Presentation)
    → InRange p.transpose_semitones
    → pitch_class_number (
        present_pitch_class
          (present_pitch_class note p context)
          (record p { transpose_semitones = negate p.transpose_semitones })
          context')
      ≡ pitch_class_number note
number-present_pitch_class-negate note context context' p r =
    number-present_pitch_class (present_pitch_class note p context) context'
      (record p { transpose_semitones = negate p.transpose_semitones })
    ∙ ap (λ n. add_to (n + 12) (negate p.transpose_semitones) % 12)
        (number-present_pitch_class note context p)
    ∙ undone (pitch_class_number note) p.transpose_semitones (number_lt note) r

-- A chord that the beginner's view shows as a plain triad: in major or minor, with or without the
-- seventh of its quality, and with no alterations and no omissions.
abbrev pub IsSimple : Presentation → ChordIdentity → Type 0
IsSimple p v =
    (p.beginner_view ≡ true)
    × (v.alterations ≡ [])
    × (v.omissions ≡ [])
    × ((v.quality ≡ ChordQuality.major)
        ⊎ ((v.quality ≡ ChordQuality.minor)
            ⊎ ((v.quality ≡ ChordQuality.major7) ⊎ (v.quality ≡ ChordQuality.minor7))))

-- The quality of the triad of a quality, in major or in minor.
abbrev pub TriadOf : ChordQuality → ChordQuality → Type 0
TriadOf q triad =
    (((q ≡ ChordQuality.major) ⊎ (q ≡ ChordQuality.major7)) × (triad ≡ ChordQuality.major))
    ⊎ (((q ≡ ChordQuality.minor) ⊎ (q ≡ ChordQuality.minor7)) × (triad ≡ ChordQuality.minor))

-- What presenting a chord does to all but its notes.
abbrev pub Kept : Presentation → ChordIdentity → ChordIdentity → Type 0
Kept p v w =
    (w.alterations ≡ v.alterations)
    × (w.omissions ≡ v.omissions)
    × ((IsSimple p v × TriadOf v.quality w.quality × (w.extensions ≡ []) × (w.additions ≡ []))
        ⊎ ((¬ IsSimple p v)
            × (w.quality ≡ v.quality)
            × (w.extensions ≡ v.extensions)
            × (w.additions ≡ v.additions)))

-- There is a slash bass after if there is one before, and it lies the transposition above it.
abbrev pub BassMoved : Presentation → Option PitchClass → Option PitchClass → Type 0
BassMoved p none none = Unit
BassMoved p (some note) (some moved) =
    pitch_class_number moved ≡ add_to (pitch_class_number note + 12) p.transpose_semitones % 12
BassMoved p _ _ = true ≡ false

present_bass-BassMoved :
    (bass : Option PitchClass) (p : Presentation) (spelling : PitchClass)
    → BassMoved p bass (present_bass bass p spelling)
present_bass-BassMoved none p spelling = tt
present_bass-BassMoved (some note) p spelling = number-present_pitch_class note spelling p

plainest-TriadOf : (q : ChordQuality) → is_plain q ≡ true → TriadOf q (plainest q)
plainest-TriadOf ChordQuality.major h = inl (inl refl, refl)
plainest-TriadOf ChordQuality.major7 h = inl (inr refl, refl)
plainest-TriadOf ChordQuality.minor h = inr (inl refl, refl)
plainest-TriadOf ChordQuality.minor7 h = inr (inr refl, refl)
plainest-TriadOf _ h = absurd (ground arith)

eq_nil_of_length {ℓ} : {A : Type ℓ} → (xs : List A) → (length xs == 0) ≡ true → xs ≡ []
eq_nil_of_length [] h = refl
eq_nil_of_length (x ∷ xs) h = absurd (ground arith)

abbrev is_simple : Presentation → ChordIdentity → Bool
is_simple p v =
    p.beginner_view
    && ((length v.alterations == 0) && ((length v.omissions == 0) && is_plain v.quality))

is_simple-IsSimple : (p : Presentation) (v : ChordIdentity) → is_simple p v ≡ true → IsSimple p v
is_simple-IsSimple p v h =
    let triad = plainest-TriadOf v.quality (ground arith) in
    (
      ground arith,
      eq_nil_of_length v.alterations (ground arith),
      eq_nil_of_length v.omissions (ground arith),
      ground arith,
    )

not-IsSimple : (p : Presentation) (v : ChordIdentity) → is_simple p v ≡ false → ¬ IsSimple p v
not-IsSimple p v h (view, alterations, omissions, inl q) = cc
not-IsSimple p v h (view, alterations, omissions, inr (inl q)) = cc
not-IsSimple p v h (view, alterations, omissions, inr (inr (inl q))) = cc
not-IsSimple p v h (view, alterations, omissions, inr (inr (inr q))) = cc

-- A chord is presented as a chord whose root, and slash bass if it has one, lie the transposition
-- above its own, modulo 12, with its alterations and its omissions; in the beginner's view, a major or
-- minor chord, or one with its seventh, that has no alterations and no omissions is shown as the plain
-- triad, and every other chord keeps its quality, its extensions and its additions.
pub present_chord-Kept :
    (v : ChordIdentity) (p : Presentation)
    → (w : ChordIdentity) × (present_chord (ChordValue.chord v) p ≡ ChordValue.chord w)
      × (pitch_class_number w.root
          ≡ add_to (pitch_class_number v.root + 12) p.transpose_semitones % 12)
      × BassMoved p v.bass w.bass
      × Kept p v w
unfolding present_chord
present_chord-Kept v p =
    let root = number-present_pitch_class v.root v.root p in
    let bass = present_bass-BassMoved v.bass p v.root in
    elim (Bool-cases (is_simple p v)) [
      | inl simple ↦
          let triad = plainest-TriadOf v.quality (ground arith) in
          (
            simplified (transposed v p),
            rw simple refl,
            root,
            bass,
            (refl, refl, inl (is_simple-IsSimple p v simple, triad, refl, refl)),
          )
      | inr full ↦ (
        transposed v p,
        rw full refl,
        root,
        bass,
        (refl, refl, inr (not-IsSimple p v full, refl, refl, refl)),
      )
    ]
