-- ===== src/EditHistory/OneToOne.antt =====
-- When no two mappings have one source or one target.
use open_chords.Prelude.{
  ◌+◌, ◌≤◌, ◌≡◌, refl, ap, sym, subst, ◌∙◌, ◌⊎◌, inl, inr, String, true, false, List, [], ◌∷◌, ◌++◌,
  map, arith, includes, map_has, map_set, set_size, length, length-append, ◌===◌, Bool-cases,
  eq_of_==,
}
use open_chords.EditHistory.{EditMapping, EditMappingAction, set_all, is_one_to_one}

-- Mappings whose sources are new, one after the other, after those that are set.
abbrev pub NewSources : List (String × String) → List EditMapping → Type 0
NewSources entries [] = Unit
NewSources entries (m ∷ ms) =
    (map_has m.source_id entries ≡ false)
    × NewSources (entries ++ ((m.source_id, m.target_id) ∷ [])) ms

abbrev pub Distinct : List String → Type 0
Distinct [] = Unit
Distinct (x ∷ xs) = (includes x xs ≡ false) × Distinct xs

-- No two mappings have one source or one target.
abbrev pub IsOneToOne : List EditMapping → Type 0
IsOneToOne mappings = NewSources [] mappings × Distinct (map (λ m. m.target_id) mappings)

nil_right : (xs : List (String × String)) → xs ++ [] ≡ xs
nil_right [] = refl
nil_right (x ∷ xs) = ap (λ ys. x ∷ ys) (nil_right xs)

snoc_append :
    (xs ys : List (String × String)) (x : String × String) → (xs ++ (x ∷ [])) ++ ys ≡ xs ++ (x ∷ ys)
snoc_append [] ys x = refl
snoc_append (z ∷ xs) ys x = ap (λ zs. z ∷ zs) (snoc_append xs ys x)

abbrev entries_of : List EditMapping → List (String × String)
entries_of mappings = map (λ m. (m.source_id, m.target_id)) mappings

length-map_set :
    (k v : String) (entries : List (String × String))
    → (map_has k entries ≡ false) × (map_set k v entries ≡ entries ++ ((k, v) ∷ []))
      ⊎ (length (map_set k v entries) ≡ length entries)
unfolding map_set map_has
length-map_set k v [] = inl (refl, refl)
length-map_set k v ((k', v') ∷ entries) = elim (Bool-cases (k' === k)) [
  | inl same ↦ inr (rw same refl)
  | inr other ↦ elim (length-map_set k v entries) [
    | inl (new, e) ↦ inl (rw other new, rw other (ap (λ es. (k', v') ∷ es) e))
    | inr e ↦ inr (rw other (omega (arith, e)))
  ]
]

length-set_all :
    (entries : List (String × String)) (ms : List EditMapping)
    → length (set_all entries ms) ≤ length entries + length ms
unfolding set_all
length-set_all entries [] = omega arith
length-set_all entries (m ∷ ms) =
    let rest = length-set_all (map_set m.source_id m.target_id entries) ms in
    elim (length-map_set m.source_id m.target_id entries) [
      | inl (new, e) ↦
          omega (arith, rest, ap length e, length-append entries ((m.source_id, m.target_id) ∷ []))
      | inr e ↦ omega (arith, rest, e)
    ]

set_all-new :
    (entries : List (String × String)) (ms : List EditMapping)
    → length (set_all entries ms) ≡ length entries + length ms
    → NewSources entries ms × (set_all entries ms ≡ entries ++ entries_of ms)
unfolding set_all
set_all-new entries [] h = (tt, sym (nil_right entries))
set_all-new entries (m ∷ ms) h = elim (length-map_set m.source_id m.target_id entries) [
  | inl (new, e) ↦
      let longer : length (set_all (entries ++ ((m.source_id, m.target_id) ∷ [])) ms)
          ≡ length (entries ++ ((m.source_id, m.target_id) ∷ [])) + length ms =
        ap (λ es. length (set_all es ms)) (sym e)
        ∙ omega (arith, h, length-append entries ((m.source_id, m.target_id) ∷ [])) in
      let (rest, all) = set_all-new (entries ++ ((m.source_id, m.target_id) ∷ [])) ms longer in
      (
        (new, rest),
        ap (λ es. set_all es ms) e
            ∙ all
            ∙ snoc_append entries (entries_of ms) (m.source_id, m.target_id),
      )
  | inr e ↦
      absurd (omega (arith, h, e, length-set_all (map_set m.source_id m.target_id entries) ms))
]

set_size_le : (xs : List String) → set_size xs ≤ length xs
unfolding set_size
set_size_le [] = omega arith
set_size_le (x ∷ xs) = ground (arith, set_size_le xs)

set_size-Distinct : (xs : List String) → set_size xs ≡ length xs → Distinct xs
unfolding set_size
set_size-Distinct [] h = tt
set_size-Distinct (x ∷ xs) h = elim (Bool-cases (includes x xs)) [
  | inl again ↦ absurd (ground (arith, set_size_le xs))
  | inr new ↦ (new, set_size-Distinct xs (ground arith))
]

targets_of :
    (ms : List EditMapping) → map (λ entry. entry.1) (entries_of ms) ≡ map (λ m. m.target_id) ms
targets_of [] = refl
targets_of (m ∷ ms) = ap (λ ts. m.target_id ∷ ts) (targets_of ms)

length-map : {A B : Type 0} (f : A → B) (xs : List A) → length (map f xs) ≡ length xs
length-map f [] = refl
length-map f (x ∷ xs) = omega (arith, length-map f xs)

-- The test of the review, passed, means that the mappings are one-to-one.
pub is_one_to_one-IsOneToOne :
    (action : EditMappingAction)
    → is_one_to_one action (set_all [] action.mappings) ≡ true
    → IsOneToOne action.mappings
is_one_to_one-IsOneToOne action h =
    let mapping = set_all [] action.mappings in
    let full : length mapping ≡ length action.mappings = ground arith in
    let (new, entries) = set_all-new [] action.mappings (omega (arith, full)) in
    let targets : map (λ entry. entry.1) mapping ≡ map (λ m. m.target_id) action.mappings =
      ap (λ es. map (λ entry. entry.1) es) entries ∙ targets_of action.mappings in
    let sized : set_size (map (λ entry. entry.1) mapping)
        ≡ length (map (λ entry. entry.1) mapping) =
      eq_of_== _ _ (ground arith) ∙ sym (length-map (λ entry. entry.1) mapping) in
    (new, subst (λ ts. Distinct ts) targets (set_size-Distinct _ sized))
