-- ===== src/Taxonomy/Checked/Weights.antt =====
-- The weights of a topic that passes the checks (backend/app/seed/schema.py): each of its grades is
-- known, and none comes twice.
use interview_trainer.Prelude.{
  ℕ, ◌≡◌, refl, sym, ap, ◌∙◌, arith, true, not, ◌&&◌, List, [], ◌∷◌, Option, none, some, String,
  ◌==◌, ==_iff, ==_self, string_eq, nat_eq, Option-cases, Bool-cases, inl, inr, contains, distinct,
  lookup, map,
}
use interview_trainer.Exceptions.{
  bind-ok, ok, ensure, require, value_error, ok-injective, ◌>>=◌, ◌>>◌,
}
use interview_trainer.Float.{Float}
use interview_trainer.Grades.{grade_values, grade_from_code}
use interview_trainer.Grades.Laws.{code_from_grade-grade_from_code}
use interview_trainer.Seed.{
  unknown_grades, missing_grades, weight_range, key_error, SubtopicIn, TopicIn, check_topic,
  check_each, weight_codes, weights_from, weights_by_grade, reject_duplicates, is_empty, difference,
  grade_names,
}
use interview_trainer.Rows.Steps.{is_some}
use interview_trainer.Seed.Accepted.{both-ok, ensure-ok, distinct-ok}
use interview_trainer.Seed.Sets.{contains-keep, empty-contains}
use interview_trainer.Taxonomy.Topics.{IsValid}

contains-lookup {ℓ} :
    {V : Type ℓ} (d : List (String × V)) (k : String)
    → contains (map (λ e. e.0) d) k ≡ is_some (lookup k d)
unfolding contains lookup
contains-lookup [] k = refl
contains-lookup ((j, v) ∷ d) k = ground (arith, contains-lookup d k)

known_code :
    (code : String)
    → contains grade_names code ≡ true
    → (g : ℕ) × (lookup code grade_values ≡ some g)
known_code code h = elim (Option-cases (lookup code grade_values)) [
  | inl absent ↦ absurd (ground (arith, contains-lookup grade_values code))
  | inr found ↦ found
]

-- different codes have different grades
lookup-injective :
    (a b : String) (g : ℕ) → lookup a grade_values ≡ some g → lookup b grade_values ≡ some g → a ≡ b
unfolding grade_from_code
lookup-injective a b g h k =
    let a_code = (code_from_grade-grade_from_code a g (ap (λ o. require o value_error) h)).0 in
    let b_code = (code_from_grade-grade_from_code b g (ap (λ o. require o value_error) k)).0 in
    ok-injective a b (sym a_code ∙ b_code)

require-ok {ℓ κ} :
    {E : Type κ} {A : Type ℓ} (o : Option A) (x : E) (a : A) → require o x ≡ ok a → o ≡ some a
require-ok none x a h = absurd (ground arith)
require-ok (some b) x a h = ap some (ok-injective b a h)

module _ (fl : Float) (fresh : List ℕ → ℕ) where
  open fl use {F}

  weights_from-known :
      (ws : List (String × F))
      → ((code : String)
          → contains (map (λ e. e.0) ws) code ≡ true
          → contains grade_names code ≡ true)
      → (gs : List (ℕ × F)) × (weights_from fl ws ≡ ok gs)
  unfolding weights_from contains
  weights_from-known [] h = ([], refl)
  weights_from-known ((code, w) ∷ ws) h =
      let (g, e) = known_code code (h code (ground (arith, ==_self code))) in
      let (gs, es) = weights_from-known ws (λ c k. h c (ground arith)) in
      ((g, w) ∷ gs, rw (e, es) refl)

  pub weights_from-cons :
      (code : String) (w : F) (ws : List (String × F)) (gs : List (ℕ × F))
      → weights_from fl ((code, w) ∷ ws) ≡ ok gs
      → (g : ℕ) × (gs0 : List (ℕ × F)) × (lookup code grade_values ≡ some g)
        × (weights_from fl ws ≡ ok gs0)
        × (gs ≡ (g, w) ∷ gs0)
  unfolding weights_from
  weights_from-cons code w ws gs h =
      let (g, e, h1) =
        bind-ok (require (lookup code grade_values) key_error)
          (λ (g : ℕ). weights_from fl ws >>= λ (gs0 : List (ℕ × F)). ok ((g, w) ∷ gs0)) gs h in
      let (gs0, e0, h2) =
        bind-ok (weights_from fl ws) (λ (gs0 : List (ℕ × F)). ok ((g, w) ∷ gs0)) gs h1 in
      (
        g,
        gs0,
        require-ok (lookup code grade_values) key_error g e,
        e0,
        sym (ok-injective ((g, w) ∷ gs0) gs h2),
      )

  grade_source :
      (ws : List (String × F)) (gs : List (ℕ × F)) (g : ℕ)
      → weights_from fl ws ≡ ok gs
      → contains (map (λ e. e.0) gs) g ≡ true
      → (code : String) × (contains (map (λ e. e.0) ws) code ≡ true)
        × (lookup code grade_values ≡ some g)
  unfolding weights_from contains
  grade_source [] gs g h k = absurd (ground (arith, ok-injective [] gs h))
  grade_source ((code, w) ∷ ws) gs g h k =
      let (g0, gs0, found, rest, all_gs) = weights_from-cons code w ws gs h in
      elim (Bool-cases (g0 == g)) [
        | inl same ↦ (code, ground (arith, ==_self code), found ∙ ap some ((==_iff g0 g).0 same))
        | inr other ↦
            let deeper : contains (map (λ e. e.0) gs0) g ≡ true = ground arith in
            let (c, there, value) = grade_source ws gs0 g rest deeper in (c, ground arith, value)
      ]

  distinct-weights_from :
      (ws : List (String × F)) (gs : List (ℕ × F))
      → weights_from fl ws ≡ ok gs
      → distinct (map (λ e. e.0) ws) ≡ true
      → distinct (map (λ e. e.0) gs) ≡ true
  unfolding weights_from distinct
  distinct-weights_from [] gs h d =
      ap (λ xs. distinct (map (λ (e : ℕ × F). e.0) xs)) (sym (ok-injective [] gs h))
  distinct-weights_from ((code, w) ∷ ws) gs h d =
      let (g, gs0, found, rest, all_gs) = weights_from-cons code w ws gs h in
      let rest_distinct = distinct-weights_from ws gs0 rest (ground arith) in
      elim (Bool-cases (contains (map (λ e. e.0) gs0) g)) [
        | inl twice ↦
            let (c, there, value) = grade_source ws gs0 g rest twice in
            let same = lookup-injective c code g value found in
            let again : contains (map (λ e. e.0) ws) code ≡ true =
              ap (contains (map (λ e. e.0) ws)) (sym same) ∙ there in
            absurd (ground arith)
        | inr once ↦ ap (λ xs. distinct (map (λ (e : ℕ × F). e.0) xs)) all_gs ∙ ground arith
      ]

  pub IsValid-check_topic :
      (t : TopicIn fl)
      → check_topic fl t ≡ ok tt
      → distinct (weight_codes fl t) ≡ true
      → IsValid fl fresh t
  unfolding check_topic weights_by_grade
  IsValid-check_topic t h d =
      let complete =
        ensure (is_empty (difference grade_names (weight_codes fl t))) missing_grades in
      let unknown = ensure (is_empty (difference (weight_codes fl t) grade_names)) unknown_grades in
      let in_range =
        check_each
          (λ (e : String × F).
            ensure (fl.le (fl.hundredths 0) e.1 && fl.le e.1 (fl.hundredths 100)) weight_range)
          t.weights in
      let codes = map (λ (s : SubtopicIn). s.code) t.subtopics in
      let (h3, once) = both-ok (complete >> unknown >> in_range) (reject_duplicates codes) h in
      let (h2, ranged) = both-ok (complete >> unknown) in_range h3 in
      let (h1, none_unknown) = both-ok complete unknown h2 in
      let nothing =
        ensure-ok (is_empty (difference (weight_codes fl t) grade_names)) unknown_grades
          none_unknown in
      let all_known : (c : String)
          → contains (weight_codes fl t) c ≡ true
          → contains grade_names c ≡ true =
        λ c there. ground (
          arith,
          empty-contains (difference (weight_codes fl t) grade_names) c nothing,
          contains-keep (λ x. not (contains grade_names x)) (weight_codes fl t) c,
        ) in
      let (gs, loaded) = weights_from-known t.weights all_known in
      record {
        weights = gs;
        loaded = loaded;
        grades = distinct-weights_from t.weights gs loaded d;
        codes = distinct-ok codes once;
      }
