-- ===== src/Taxonomy/Checked/Keys.antt =====
-- The keys of the topics of a file differ when its specializations and, in each, the codes do.
use interview_trainer.Prelude.{
  ℕ, ◌+◌, ◌≡◌, refl, sym, ap, ◌∙◌, arith, true, false, ◌&&◌, List, [], ◌∷◌, ◌++◌, String, ◌==◌,
  ==_iff, ==_self, string_eq, nat_eq, Comparable, all, contains, contains-append, distinct, map,
}
use interview_trainer.Float.{Float}
use interview_trainer.Seed.{TopicIn, topic_codes}
use interview_trainer.Rows.Agreement.{in_keys}
use interview_trainer.TaxonomyRows.{pair_eq, PlacedTopic, enumerate_from, place_topics, topics_sync}
use interview_trainer.Taxonomy.Losses.{map-append}

module _ {ℓ} {A : Type ℓ} ⦃c : Comparable A⦄ where
  distinct-append_apart :
      (xs ys : List A)
      → distinct xs ≡ true
      → distinct ys ≡ true
      → ((a : A) → contains xs a ≡ true → contains ys a ≡ false)
      → distinct (xs ++ ys) ≡ true
  unfolding distinct contains
  distinct-append_apart [] ys h k apart = k
  distinct-append_apart (x ∷ xs) ys h k apart = ground (
    arith,
    distinct-append_apart xs ys (ground arith) k (λ a e. apart a (ground arith)),
    apart x,
    ==_self x,
    contains-append xs ys x,
  )

module _ (fl : Float) (fresh : List ℕ → ℕ) where
  abbrev pub Entry : Type 0
  Entry = String × List (TopicIn fl)

  abbrev keys_with : String → List String → List (String × String)
  keys_with s codes = map (λ c. (s, c)) codes

  contains-keys_with :
      (s : String) (codes : List String) (k : String × String)
      → contains (keys_with s codes) k ≡ (s == k.0 && contains codes k.1)
  unfolding contains
  contains-keys_with s [] k = ground arith
  contains-keys_with s (x ∷ xs) k = ground (arith, contains-keys_with s xs k)

  distinct-keys_with :
      (s : String) (codes : List String)
      → distinct codes ≡ true
      → distinct (keys_with s codes) ≡ true
  unfolding distinct
  distinct-keys_with s [] h = refl
  distinct-keys_with s (x ∷ xs) h =
      ground (arith, distinct-keys_with s xs, contains-keys_with s xs (s, x))

  -- the keys of the topics
  abbrev pub keys_in : List Entry → List (String × String)
  keys_in [] = []
  keys_in (e ∷ es) = keys_with e.0 (topic_codes fl e.1) ++ keys_in es

  placed_keys :
      (s : String) (n : ℕ) (ts : List (TopicIn fl))
      → map
          (λ (i : PlacedTopic fl fresh). (i.0, i.1.code))
          (map (λ (t : TopicIn fl × ℕ). (s, t.0, t.1)) (enumerate_from n ts))
        ≡ keys_with s (topic_codes fl ts)
  unfolding enumerate_from
  placed_keys s n [] = refl
  placed_keys s n (t ∷ ts) = ap (λ ks. (s, t.code) ∷ ks) (placed_keys s (n + 1) ts)

  pub in_keys-place_topics :
      (es : List Entry) → in_keys (topics_sync fl fresh) (place_topics fl fresh es) ≡ keys_in es
  unfolding topics_sync place_topics
  in_keys-place_topics [] = refl
  in_keys-place_topics (e ∷ es) =
      map-append (λ (i : PlacedTopic fl fresh). (i.0, i.1.code))
        (map (λ (t : TopicIn fl × ℕ). (e.0, t.0, t.1)) (enumerate_from 0 e.1))
        (place_topics fl fresh es)
      ∙ rw (placed_keys e.0 0 e.1, in_keys-place_topics es) refl

  contains-keys_in :
      (es : List Entry) (k : String × String)
      → contains (keys_in es) k ≡ true
      → contains (map (λ e. e.0) es) k.0 ≡ true
  unfolding contains
  contains-keys_in [] k h = h
  contains-keys_in (e ∷ es) k h = ground (
    arith,
    contains-append (keys_with e.0 (topic_codes fl e.1)) (keys_in es) k,
    contains-keys_with e.0 (topic_codes fl e.1) k,
    contains-keys_in es k,
  )

  same_key :
      (s t : String) (keys : List String) → (s == t) ≡ true → contains keys t ≡ contains keys s
  same_key s t keys h = ap (contains keys) (sym ((==_iff s t).0 h))

  pub distinct-keys_in :
      (es : List Entry)
      → distinct (map (λ e. e.0) es) ≡ true
      → all (λ (e : Entry). distinct (topic_codes fl e.1)) es ≡ true
      → distinct (keys_in es) ≡ true
  unfolding distinct all contains
  distinct-keys_in [] h k = refl
  distinct-keys_in (e ∷ es) h k =
      distinct-append_apart (keys_with e.0 (topic_codes fl e.1)) (keys_in es)
        (distinct-keys_with e.0 (topic_codes fl e.1) (ground arith))
        (distinct-keys_in es (ground arith) (ground arith))
        (λ a there. ground (
          arith,
          contains-keys_with e.0 (topic_codes fl e.1) a,
          contains-keys_in es a,
          same_key e.0 a.0 (map (λ x. x.0) es),
        ))
