-- ===== src/Monitor/State/Listing.antt =====
-- What `list_messages` of src/monitor/mod.rs shows.
use hi_mqtt.Prelude.{
  ℕ, zero, suc, ◌-◌, ◌≤◌, ◌≡◌, refl, sym, ap, ◌∙◌, Bool, not, ◌||◌, List, [], ◌∷◌, ◌++◌, length,
  length-append, take, select, min, max, leb, All, arith, Bool-cases, inl, inr,
}
use mathlib.Core.Path.{subst}
use mathlib.Core.List.{reverse, reverse-cons, append-nil}
use hi_mqtt.Monitor.State.{
  MessageRecord, MonitorState, window, insert_desc, sort_desc, list_messages,
}
use hi_mqtt.Monitor.State.Recent.{drop, take-append-drop, IsClock}
use hi_mqtt.Monitor.State.History.{times, select-append}
use hi_mqtt.Monitor.State.Ranking.{IsFalling, All-take}

module _ {A : Type 0} where
  length-reverse : (xs : List A) → length (reverse xs) ≡ length xs
  length-reverse [] = refl
  length-reverse (x ∷ xs) =
      ap length (reverse-cons x xs)
      ∙ omega (arith, length-append (reverse xs) (x ∷ []), length-reverse xs)

  length-take : (n : ℕ) (xs : List A) → length (take n xs) ≡ min n (length xs)
  length-take zero xs = omega arith
  length-take (suc n) [] = omega arith
  length-take (suc n) (x ∷ xs) = omega (arith, length-take n xs)

  select-reverse : (p : A → Bool) (xs : List A) → select p (reverse xs) ≡ reverse (select p xs)
  unfolding select
  select-reverse p [] = refl
  select-reverse p (x ∷ xs) =
      ap (select p) (reverse-cons x xs)
      ∙ select-append p (reverse xs) (x ∷ [])
      ∙ elim (Bool-cases (p x)) [
        | inl e ↦ rw (e, select-reverse p xs) (sym (reverse-cons x (select p xs)))
        | inr e ↦ rw (e, select-reverse p xs) (append-nil (reverse (select p xs)))
      ]

  All-append : (P : A → Type 0) (xs : List A) (x : A) → All P xs → P x → All P (xs ++ x ∷ [])
  All-append P [] x h p = (p, tt)
  All-append P (y ∷ xs) x (q, h) p = (q, All-append P xs x h p)

  module _ (key : A → ℕ) where
    insert_first :
        (x : A) (xs : List A) → All (λ y. key y ≤ key x) xs → insert_desc key x xs ≡ x ∷ xs
    unfolding insert_desc
    insert_first x [] h = refl
    insert_first x (y ∷ xs) (p, h) = ground (arith, p)

    -- A sort of what falls already changes nothing, ties included.
    sort_desc-falling : (xs : List A) → IsFalling key xs → sort_desc key xs ≡ xs
    unfolding sort_desc
    sort_desc-falling [] h = refl
    sort_desc-falling (x ∷ xs) (p, h) = rw (sort_desc-falling xs h) (insert_first x xs p)

    take-IsFalling : (n : ℕ) (xs : List A) → IsFalling key xs → IsFalling key (take n xs)
    take-IsFalling zero xs h = tt
    take-IsFalling (suc n) [] h = tt
    take-IsFalling (suc n) (x ∷ xs) (p, h) =
        (All-take (λ y. key y ≤ key x) n xs p, take-IsFalling n xs h)

    append-IsFalling :
        (xs : List A) (x : A)
        → IsFalling key xs
        → All (λ y. key x ≤ key y) xs
        → IsFalling key (xs ++ x ∷ [])
    append-IsFalling [] x h k = (tt, tt)
    append-IsFalling (y ∷ xs) x (p, h) (q, k) =
        (All-append (λ z. key z ≤ key y) xs x p q, append-IsFalling xs x h k)

    All-reverse : (P : A → Type 0) (xs : List A) → All P xs → All P (reverse xs)
    All-reverse P [] h = tt
    All-reverse P (x ∷ xs) (p, h) =
        subst (All P) (sym (reverse-cons x xs)) (All-append P (reverse xs) x (All-reverse P xs h) p)

All-times : (a : ℕ) (xs : List MessageRecord) → All (λ u. a ≤ u) (times xs) → All (λ m. a ≤ m.ts) xs
All-times a [] h = tt
All-times a (m ∷ xs) (p, h) = (p, All-times a xs h)

All-kept :
    (P : MessageRecord → Type 0) (keep : MessageRecord → Bool) (xs : List MessageRecord)
    → All P xs
    → All P (select keep xs)
unfolding select
All-kept P keep [] h = tt
All-kept P keep (m ∷ xs) (p, h) = elim (Bool-cases (keep m)) [
  | inl e ↦ rw e (p, All-kept P keep xs h)
  | inr e ↦ rw e (All-kept P keep xs h)
]

-- What is kept of a buffer in the order of time falls when it is read from its end.
kept-IsFalling :
    (keep : MessageRecord → Bool) (xs : List MessageRecord)
    → IsClock (times xs)
    → IsFalling (λ m. m.ts) (reverse (select keep xs))
unfolding select
kept-IsFalling keep [] h = tt
kept-IsFalling keep (m ∷ xs) (p, h) = elim (Bool-cases (keep m)) [
  | inl e ↦ rw e (
      subst (IsFalling (λ (m : MessageRecord). m.ts)) (sym (reverse-cons m (select keep xs))) (
        append-IsFalling (λ (m : MessageRecord). m.ts) (reverse (select keep xs)) m
          (kept-IsFalling keep xs h)
          (All-reverse (λ (m : MessageRecord). m.ts) (λ y. m.ts ≤ y.ts) (select keep xs)
            (All-kept (λ y. m.ts ≤ y.ts) keep xs (All-times m.ts xs p)))))
  | inr e ↦ rw e (kept-IsFalling keep xs h)
]

-- All messages are asked for, or those from the last minute.
abbrev pub is_asked : ℕ → Bool → MessageRecord → Bool
is_asked now recent_only m = not recent_only || leb (now - window) m.ts

module _ (limit now : ℕ) (s : MonitorState) where
  -- A listing of a buffer in the order of time shows the messages that were asked for, from the
  -- newest on and without a gap; as many as there are, up to the limits of the request and of the
  -- buffer, but one where that is 0.
  pub list_messages-newest :
      (recent_only : Bool)
      → IsClock (times s.messages)
      → (rest : List MessageRecord) × (list_messages recent_only limit now s ++ rest
          ≡ reverse (select (is_asked now recent_only) s.messages))
        × (length (list_messages recent_only limit now s)
            ≡ min
                (max (min limit s.max_messages) 1)
                (length (select (is_asked now recent_only) s.messages)))
  unfolding list_messages
  list_messages-newest recent_only clock =
      let cap : ℕ = max (min limit s.max_messages) 1 in
      let asked : List MessageRecord = reverse (select (is_asked now recent_only) s.messages) in
      let shown : list_messages recent_only limit now s ≡ take cap asked =
        ap (λ (l : List MessageRecord). sort_desc (λ m. m.ts) (take cap l))
          (select-reverse (is_asked now recent_only) s.messages)
        ∙ sort_desc-falling (λ (m : MessageRecord). m.ts) (take cap asked)
            (take-IsFalling (λ (m : MessageRecord). m.ts) cap asked
              (kept-IsFalling (is_asked now recent_only) s.messages clock)) in
      (
        drop cap asked,
        ap (λ (l : List MessageRecord). l ++ drop cap asked) shown ∙ take-append-drop cap asked,
        ap length shown
            ∙ length-take cap asked
            ∙ ap (min cap) (length-reverse (select (is_asked now recent_only) s.messages)),
      )
