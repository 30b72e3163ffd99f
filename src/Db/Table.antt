-- ===== src/Db/Table.antt =====
-- A table whose rows have an id from a sequence and differ from one another: what the primary keys
-- and the UNIQUE columns of migrations/ promise, for any of the tables.
use hi_mqtt.Prelude.{
  ℕ, suc, ◌≤◌, ◌≢◌, ◌≡◌, refl, ap, Bool, true, false, List, [], ◌∷◌, ◌++◌, map, any, All,
  All-append, select, update_where, arith, Bool-cases, inl, inr, if◌then◌else◌,
}

module _ {A : Type 0} where
  pub All-map :
      (P Q : A → Type 0) (g : A → A) (xs : List A)
      → ((x : A) → P x → Q (g x))
      → All P xs
      → All Q (map g xs)
  All-map P Q g [] k h = tt
  All-map P Q g (x ∷ xs) k (p, h) = (k x p, All-map P Q g xs k h)

  pub All-mono : (P Q : A → Type 0) (xs : List A) → ((x : A) → P x → Q x) → All P xs → All Q xs
  All-mono P Q [] k h = tt
  All-mono P Q (x ∷ xs) k (p, h) = (k x p, All-mono P Q xs k h)

  pub All-and : (P Q : A → Type 0) (xs : List A) → All P xs → All Q xs → All (λ x. P x × Q x) xs
  All-and P Q [] h k = tt
  All-and P Q (x ∷ xs) (p, h) (q, k) = ((p, q), All-and P Q xs h k)

  -- The rows that are left keep what they had, and pass the test.
  pub All-select :
      (P : A → Type 0) (q : A → Bool) (xs : List A)
      → All P xs
      → All (λ x. P x × (q x ≡ true)) (select q xs)
  unfolding select
  All-select P q [] h = tt
  All-select P q (x ∷ xs) (p, h) = elim (Bool-cases (q x)) [
    | inl e ↦ rw e ((p, e), All-select P q xs h)
    | inr e ↦ rw e (All-select P q xs h)
  ]

  pub All-none : (p : A → Bool) (xs : List A) → any p xs ≡ false → All (λ x. p x ≡ false) xs
  All-none p [] h = tt
  All-none p (x ∷ xs) h = (ground arith, All-none p xs (ground arith))

  pub update_where-map :
      (p : A → Bool) (f : A → A) (xs : List A)
      → update_where p f xs ≡ map (λ x. if p x then f x else x) xs
  unfolding update_where
  update_where-map p f [] = refl
  update_where-map p f (x ∷ xs) =
      ap (λ (l : List A). (if p x then f x else x) ∷ l) (update_where-map p f xs)

module _ {A : Type 0} (id : A → ℕ) (R : A → A → Type 0) where
  -- Each row differs from all after it.
  abbrev pub Differ : List A → Type 0
  Differ [] = Unit
  Differ (x ∷ xs) = All (λ y. (id x ≢ id y) × R x y) xs × Differ xs

  pub record IsTable (seq : ℕ) (rows : List A) : Type 0 where
    pub differ : Differ rows
    pub bound : All (λ x. id x ≤ seq) rows

  Differ-append :
      (row : A) (xs : List A)
      → All (λ x. (id x ≢ id row) × R x row) xs
      → Differ xs
      → Differ (xs ++ row ∷ [])
  Differ-append row [] h d = (tt, tt)
  Differ-append row (x ∷ xs) (p, h) (q, d) =
      (All-append _ xs (row ∷ []) q (p, tt), Differ-append row xs h d)

  Differ-select : (q : A → Bool) (xs : List A) → Differ xs → Differ (select q xs)
  unfolding select
  Differ-select q [] d = tt
  Differ-select q (x ∷ xs) (p, d) = elim (Bool-cases (q x)) [
    | inl e ↦
        rw e (All-mono _ _ (select q xs) (λ y h. h.0) (All-select _ q xs p), Differ-select q xs d)
    | inr e ↦ rw e (Differ-select q xs d)
  ]

  Differ-map :
      (Q : A → Type 0) (g : A → A) (xs : List A)
      → ((x y : A) → Q x → Q y → id x ≢ id y → R x y → (id (g x) ≢ id (g y)) × R (g x) (g y))
      → All Q xs
      → Differ xs
      → Differ (map g xs)
  Differ-map Q g [] k q d = tt
  Differ-map Q g (x ∷ xs) k (q, qs) (p, d) = (
    All-map _ _ g xs (λ y h. k x y q h.0 h.1.0 h.1.1) (All-and _ _ xs qs p),
    Differ-map Q g xs k qs d,
  )

  -- The sequence goes on, whether or not a row was inserted.
  pub IsTable-later : (seq : ℕ) (rows : List A) → IsTable seq rows → IsTable (suc seq) rows
  IsTable-later seq rows h = record {
    differ = h.differ;
    bound = All-mono _ _ rows (λ x p. omega (arith, p)) h.bound;
  }

  pub IsTable-add :
      (seq : ℕ) (rows : List A) (row : A)
      → id row ≡ suc seq
      → All (λ x. R x row) rows
      → IsTable seq rows
      → IsTable (suc seq) (rows ++ row ∷ [])
  IsTable-add seq rows row e new h = record {
    differ =
        Differ-append row rows
          (All-mono _ _ rows (λ x p. (λ same. omega (arith, p, same, e), p.1))
            (All-and _ _ rows h.bound new))
          h.differ;
    bound =
        All-append _ rows (row ∷ []) (All-mono _ _ rows (λ x p. omega (arith, p)) h.bound)
          (omega (arith, e), tt);
  }

  pub IsTable-select :
      (q : A → Bool) (seq : ℕ) (rows : List A) → IsTable seq rows → IsTable seq (select q rows)
  IsTable-select q seq rows h = record {
    differ = Differ-select q rows h.differ;
    bound = All-mono _ _ (select q rows) (λ x p. p.0) (All-select _ q rows h.bound);
  }

  -- A change of the rows that leaves the ids.
  pub IsTable-map :
      (Q : A → Type 0) (g : A → A) (seq : ℕ) (rows : List A)
      → ((x : A) → id (g x) ≡ id x)
      → ((x y : A) → Q x → Q y → id x ≢ id y → R x y → R (g x) (g y))
      → All Q rows
      → IsTable seq rows
      → IsTable seq (map g rows)
  IsTable-map Q g seq rows keeps k q h = record {
    differ =
        Differ-map Q g rows (λ x y qx qy ne r. (rw (keeps x, keeps y) ne, k x y qx qy ne r)) q
          h.differ;
    bound = All-map _ _ g rows (λ x p. rw (keeps x) p) h.bound;
  }

module _ {A : Type 0} where
  pub update_where-none :
      (p : A → Bool) (f : A → A) (xs : List A) → any p xs ≡ false → update_where p f xs ≡ xs
  unfolding update_where
  update_where-none p f [] h = refl
  update_where-none p f (x ∷ xs) h = ground (arith, update_where-none p f xs)

  -- Each row is one of the rows.
  pub All-member : (xs : List A) → All (λ x. (p : A → Bool) → any p xs ≡ false → p x ≡ false) xs
  All-member [] = tt
  All-member (x ∷ xs) =
      (λ p h. ground arith, All-mono _ _ xs (λ y k p h. k p (ground arith)) (All-member xs))
