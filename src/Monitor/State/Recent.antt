-- ===== src/Monitor/State/Recent.antt =====
-- The bounded buffer, the minute's window and the counters of src/monitor/mod.rs against the whole
-- history of messages.
use hi_mqtt.Prelude.{
  ℕ, zero, suc, ◌+◌, ◌-◌, ◌≤◌, ◌<◌, ◌≡◌, refl, sym, ap, true, false, List, [], ◌∷◌, ◌++◌, length,
  take, select, max, length-append, leb, ltb, if◌then◌else◌, arith, Bool-cases, inl, inr, All,
}
use hi_mqtt.Monitor.State.{MessageRecord, pop_front, store_message, drop_before}

module _ {ℓ} {A : Type ℓ} where
  abbrev pub drop : ℕ → List A → List A
  drop zero xs = xs
  drop (suc n) [] = []
  drop (suc n) (x ∷ xs) = drop n xs

  -- The newest `n` of a history.
  abbrev pub newest : ℕ → List A → List A
  newest n history = drop (length history - n) history

  pub drop-nil : (k : ℕ) → drop k [] ≡ []
  drop-nil zero = refl
  drop-nil (suc k) = refl

  pub take-append-drop : (k : ℕ) (xs : List A) → take k xs ++ drop k xs ≡ xs
  take-append-drop zero xs = refl
  take-append-drop (suc k) [] = refl
  take-append-drop (suc k) (x ∷ xs) = ap (λ (l : List A). x ∷ l) (take-append-drop k xs)

  length-drop : (k : ℕ) (xs : List A) → length (drop k xs) ≡ length xs - k
  length-drop zero xs = omega arith
  length-drop (suc k) [] = omega arith
  length-drop (suc k) (x ∷ xs) = omega (arith, length-drop k xs)

  drop-append : (k : ℕ) (xs ys : List A) → k ≤ length xs → drop k (xs ++ ys) ≡ drop k xs ++ ys
  drop-append zero xs ys h = refl
  drop-append (suc k) [] ys h = absurd (omega arith)
  drop-append (suc k) (x ∷ xs) ys h = drop-append k xs ys (omega arith)

  drop-suc : (k : ℕ) (xs : List A) → pop_front (drop k xs) ≡ drop (suc k) xs
  drop-suc zero [] = refl
  drop-suc zero (x ∷ xs) = refl
  drop-suc (suc k) [] = refl
  drop-suc (suc k) (x ∷ xs) = drop-suc k xs

pub leb→le : (a b : ℕ) → leb a b ≡ true → a ≤ b
leb→le a b h = ground arith

leb→lt : (a b : ℕ) → leb a b ≡ false → b < a
leb→lt a b h = ground arith

keep_room :
    {A : Type 0} (n : ℕ) (xs : List A)
    → leb (max n 1) (length xs) ≡ false
    → (if leb n (length xs) then pop_front xs else xs) ≡ xs
keep_room n [] h = ground arith
keep_room n (x ∷ xs) h = ground arith

ltb→le : (a b : ℕ) → ltb a b ≡ false → b ≤ a
ltb→le a b h = ground arith

full_test : (n : ℕ) → leb n (max n 1) ≡ true
full_test n = ground arith

next_start : (n l : ℕ) → max n 1 ≤ l → l + 1 - max n 1 ≡ suc (l - max n 1)
next_start n l h = omega arith

-- The buffer, which keeps at least one message, refines the newest messages of the history: what
-- it drops is always the oldest.
pub store_message-newest :
    (max_messages : ℕ) (m : MessageRecord) (history : List MessageRecord)
    → store_message max_messages m (newest (max max_messages 1) history)
      ≡ newest (max max_messages 1) (history ++ m ∷ [])
unfolding store_message
store_message-newest n m history = elim (Bool-cases (leb (max n 1) (length history))) [
  | inl full ↦
      let k : ℕ = length history - max n 1 in
      let kept : length (drop k history) ≡ max n 1 =
        omega (arith, length-drop k history, leb→le _ _ full) in
      rw (kept, full_test n, drop-suc k history)
        (sym (
          rw (length-append history (m ∷ []), next_start n (length history) (leb→le _ _ full))
            (drop-append (suc k) history (m ∷ []) (omega (arith, leb→le _ _ full)))))
  | inr room ↦
      let here : length history - max n 1 ≡ 0 = omega (arith, leb→lt _ _ room) in
      let after : length (history ++ m ∷ []) - max n 1 ≡ 0 =
        omega (arith, leb→lt _ _ room, length-append history (m ∷ [])) in
      rw (here, after, keep_room n history room)
]

-- The buffer never holds more than the limit, or than one message where the limit is 0.
length-newest-le :
    (max_messages : ℕ) (history : List MessageRecord)
    → length (newest (max max_messages 1) history) ≤ max max_messages 1
length-newest-le n history = omega (arith, length-drop (length history - max n 1) history)

-- Times that do not fall.
abbrev pub IsClock : List ℕ → Type 0
IsClock [] = Unit
IsClock (t ∷ ts) = All (λ u. t ≤ u) ts × IsClock ts

select_of_clock :
    (limit : ℕ) (ts : List ℕ) → All (λ u. limit ≤ u) ts → select (λ u. leb limit u) ts ≡ ts
unfolding select
select_of_clock limit [] h = refl
select_of_clock limit (t ∷ ts) (p, h) = ground (arith, select_of_clock limit ts h)

All-le_trans : (a b : ℕ) (ts : List ℕ) → a ≤ b → All (λ u. b ≤ u) ts → All (λ u. a ≤ u) ts
All-le_trans a b [] h k = tt
All-le_trans a b (t ∷ ts) h (p, k) = (omega arith, All-le_trans a b ts h k)

-- On times that do not fall, the loop that pops from the front leaves exactly the times that are
-- not before the limit.
pub drop_before-select :
    (limit : ℕ) (ts : List ℕ) → IsClock ts → drop_before limit ts ≡ select (λ u. leb limit u) ts
unfolding drop_before select
drop_before-select limit [] h = refl
drop_before-select limit (t ∷ ts) (h, k) = elim (Bool-cases (ltb t limit)) [
  | inl old ↦ ground (arith, drop_before-select limit ts k)
  | inr new ↦
      ground (arith, select_of_clock limit ts (All-le_trans limit t ts (ltb→le t limit new) h))
]
