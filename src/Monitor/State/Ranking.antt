-- ===== src/Monitor/State/Ranking.antt =====
-- The sort by a falling key, and the ranking of topics, in src/monitor/mod.rs.
use hi_mqtt.Prelude.{
  ℕ, zero, suc, ◌≤◌, ◌≡◌, refl, ap, ◌∙◌, Bool, true, ◌||◌, List, [], ◌∷◌, ◌++◌, map, length, take,
  select, leb, Map, any, All, length-take-le, arith, Bool-cases, inl, inr,
}
use hi_mqtt.Monitor.State.{TopicCount, insert_desc, sort_desc, to_topic_count, top_topics}
use hi_mqtt.Monitor.State.Recent.{drop, take-append-drop}

module _ {A : Type 0} (P : A → Type 0) where
  pub All-take : (n : ℕ) (xs : List A) → All P xs → All P (take n xs)
  All-take zero xs h = tt
  All-take (suc n) [] h = tt
  All-take (suc n) (x ∷ xs) (p, h) = (p, All-take n xs h)

  All-select : (q : A → Bool) (xs : List A) → ((x : A) → q x ≡ true → P x) → All P (select q xs)
  unfolding select
  All-select q [] h = tt
  All-select q (x ∷ xs) h = elim (Bool-cases (q x)) [
    | inl e ↦ rw e (h x e, All-select q xs h)
    | inr e ↦ rw e (All-select q xs h)
  ]

module _ {A : Type 0} (key : A → ℕ) where
  -- No later key is larger.
  abbrev pub IsFalling : List A → Type 0
  IsFalling [] = Unit
  IsFalling (x ∷ xs) = All (λ y. key y ≤ key x) xs × IsFalling xs

  module _ (P : A → Type 0) where
    All-insert_desc : (r : A) (xs : List A) → P r → All P xs → All P (insert_desc key r xs)
    unfolding insert_desc
    All-insert_desc r [] p h = (p, tt)
    All-insert_desc r (x ∷ xs) p (q, h) = elim (Bool-cases (leb (key x) (key r))) [
      | inl e ↦ rw e (p, (q, h))
      | inr e ↦ rw e (q, All-insert_desc r xs p h)
    ]

    All-sort_desc : (xs : List A) → All P xs → All P (sort_desc key xs)
    unfolding sort_desc
    All-sort_desc [] h = tt
    All-sort_desc (x ∷ xs) (p, h) = All-insert_desc x (sort_desc key xs) p (All-sort_desc xs h)

  All-le_trans : (a b : ℕ) (xs : List A) → a ≤ b → All (λ y. key y ≤ a) xs → All (λ y. key y ≤ b) xs
  All-le_trans a b [] h k = tt
  All-le_trans a b (x ∷ xs) h (p, k) = (omega arith, All-le_trans a b xs h k)

  insert_desc-IsFalling : (r : A) (xs : List A) → IsFalling xs → IsFalling (insert_desc key r xs)
  unfolding insert_desc
  insert_desc-IsFalling r [] h = (tt, tt)
  insert_desc-IsFalling r (x ∷ xs) (p, h) = elim (Bool-cases (leb (key x) (key r))) [
    | inl e ↦ rw e (((ground arith), All-le_trans (key x) (key r) xs (ground arith) p), (p, h))
    | inr e ↦
        rw e
          (All-insert_desc (λ y. key y ≤ key x) r xs (ground arith) p, insert_desc-IsFalling r xs h)
  ]

  sort_desc-IsFalling : (xs : List A) → IsFalling (sort_desc key xs)
  unfolding sort_desc
  sort_desc-IsFalling [] = tt
  sort_desc-IsFalling (x ∷ xs) = insert_desc-IsFalling x (sort_desc key xs) (sort_desc-IsFalling xs)

  length-insert_desc : (r : A) (xs : List A) → length (insert_desc key r xs) ≡ suc (length xs)
  unfolding insert_desc
  length-insert_desc r [] = refl
  length-insert_desc r (x ∷ xs) = ground (arith, length-insert_desc r xs)

  length-sort_desc : (xs : List A) → length (sort_desc key xs) ≡ length xs
  unfolding sort_desc
  length-sort_desc [] = refl
  length-sort_desc (x ∷ xs) = length-insert_desc x (sort_desc key xs) ∙ ap suc (length-sort_desc xs)

  any-insert_desc :
      (p : A → Bool) (r : A) (xs : List A) → any p (insert_desc key r xs) ≡ (p r || any p xs)
  unfolding insert_desc
  any-insert_desc p r [] = refl
  any-insert_desc p r (x ∷ xs) = ground (arith, any-insert_desc p r xs)

  any-sort_desc : (p : A → Bool) (xs : List A) → any p (sort_desc key xs) ≡ any p xs
  unfolding sort_desc
  any-sort_desc p [] = refl
  any-sort_desc p (x ∷ xs) =
      ground (arith, any-insert_desc p x (sort_desc key xs), any-sort_desc p xs)

-- The ranking shows at most eight topics with their counts, the largest first, and no topic that
-- it leaves out has been counted more often than one that it shows.
pub top_topics_ranking :
    (counts : Map ℕ)
    → (rest : List TopicCount) × (length (top_topics counts) ≤ 8)
      × IsFalling (λ c. c.count) (top_topics counts ++ rest)
      × ((p : TopicCount → Bool)
          → any p (top_topics counts ++ rest) ≡ any p (map to_topic_count counts))
unfolding top_topics
top_topics_ranking counts =
    let count = λ (c : TopicCount). c.count in
    let items = map to_topic_count counts in
    let whole = take-append-drop 8 (sort_desc count items) in
    (
      drop 8 (sort_desc count items),
      length-take-le 8 (sort_desc count items),
      rw whole (sort_desc-IsFalling count items),
      λ p. rw whole (any-sort_desc count p items),
    )
