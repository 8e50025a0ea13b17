-- ===== src/Projection/Values.antt =====
-- packages/domain/src/projection.ts: when an edit of a sequence changes the value of a chord. The
-- source compares canonical serialisations, which tell two values of the schema apart; here the
-- values are compared.
use mathlib.Core.Bool.{decide}
use open_chords.Prelude.{
  String, ◌≡◌, refl, ◌↔◌, inl, inr, Bool, true, false, not, some, [], ◌∷◌, arith, ◌===◌, eq_iff,
  Bool-cases,
}
use open_chords.Schema.{PitchClass, ChordQuality, ChordValue}

String-discrete : Discrete String
String-discrete s t = elim (Bool-cases (s === t)) [
  | inl same ↦ yes ((eq_iff s t).0 same)
  | inr other ↦ no (ground (arith, eq_iff s t))
]

ChordValue-discrete : Discrete ChordValue
ChordValue-discrete = hlevel String-discrete

-- `canonicalSerialize(a) !== canonicalSerialize(b)`
unfoldable pub differs : ChordValue → ChordValue → Bool
unfolding ChordValue-discrete String-discrete Bool-cases decide
differs a b = not (decide (ChordValue-discrete a b))

not-decide_iff : {a b : ChordValue} (d : Dec (a ≡ b)) → (not (decide d) ≡ false) ↔ (a ≡ b)
unfolding decide
not-decide_iff (yes e) = (λ _. e, λ _. refl)
not-decide_iff (no n) = (λ h. cc, λ e. absurd (n e))

pub differs_iff : (a b : ChordValue) → (differs a b ≡ false) ↔ (a ≡ b)
unfolding differs
differs_iff a b = not-decide_iff (ChordValue-discrete a b)

abbrev c_major : ChordValue
c_major = ChordValue.chord (record {
  additions = "add9" ∷ [];
  alterations = [];
  bass = some PitchClass.e_natural;
  extensions = [];
  omissions = [];
  quality = ChordQuality.major;
  root = PitchClass.c_natural;
})

differs_tests : (differs c_major c_major ≡ false) × (differs c_major ChordValue.no_chord ≡ true)
unfolding differs
differs_tests = (refl, refl)
