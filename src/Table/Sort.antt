-- ===== src/Table/Sort.antt =====
-- The stable sort of `Array.prototype.sort`, over a test `le a b` for "the comparator is not
-- positive": a record stays behind those that stood before it and compare equal.
use botchatgptclaude.Prelude.{
  Bool, true, List, [], ◌∷◌, ◌≡◌, ◌⊎◌, inl, inr, arith, if◌then◌else◌, All, All_mono, Bool-cases,
}

module _ {A : Type 0} (le : A → A → Bool) where
  unfoldable pub insert : A → List A → List A
  insert x [] = x ∷ []
  insert x (y ∷ ys) = if le x y then x ∷ y ∷ ys else y ∷ insert x ys

  unfoldable pub sort : List A → List A
  unfolding insert
  sort [] = []
  sort (x ∷ xs) = insert x (sort xs)

  module _ (P : A → Type 0) where
    pub All-insert : (x : A) (ys : List A) → P x → All P ys → All P (insert x ys)
    unfolding insert
    All-insert x [] p h = (p, tt)
    All-insert x (y ∷ ys) p h = elim (Bool-cases (le x y)) [
      | inl e ↦ rw e (p, h)
      | inr e ↦ rw e (h.0, All-insert x ys p h.1)
    ]

    pub All-sort : (xs : List A) → All P xs → All P (sort xs)
    unfolding sort
    All-sort [] h = tt
    All-sort (x ∷ xs) h = All-insert x (sort xs) h.0 (All-sort xs h.1)

    All_of-insert : (x : A) (ys : List A) → All P (insert x ys) → P x × All P ys
    unfolding insert
    All_of-insert x [] h = h
    All_of-insert x (y ∷ ys) h = elim (Bool-cases (le x y)) [
      | inl e ↦ rw (e, insert) at h
      | inr e ↦
          let g : All P (y ∷ insert x ys) = rw (e, insert) at h in
          let (p, r) = All_of-insert x ys g.1 in (p, (g.0, r))
    ]

    -- Sorting drops nothing.
    pub All_of-sort : (xs : List A) → All P (sort xs) → All P xs
    unfolding sort
    All_of-sort [] h = tt
    All_of-sort (x ∷ xs) h = let (p, r) = All_of-insert x (sort xs) h in (p, All_of-sort xs r)

  -- Every record compares before all that follow it.
  abbrev pub IsSorted : List A → Type 0
  IsSorted [] = Unit
  IsSorted (x ∷ xs) = All (λ y. le x y ≡ true) xs × IsSorted xs

  module _ (total : (a b : A) → (le a b ≡ true) ⊎ (le b a ≡ true))
      (trans : (a b c : A) → le a b ≡ true → le b c ≡ true → le a c ≡ true) where
    insert-IsSorted : (x : A) (ys : List A) → IsSorted ys → IsSorted (insert x ys)
    unfolding insert
    insert-IsSorted x [] h = (tt, tt)
    insert-IsSorted x (y ∷ ys) h = elim (Bool-cases (le x y)) [
      | inl e ↦
          rw e
            ((e, All_mono (λ z. le y z ≡ true) (λ z. le x z ≡ true) (λ z. trans x y z e) ys h.0), h)
      | inr e ↦ rw e (
        All-insert (λ z. le y z ≡ true) x ys (ground (arith, total x y)) h.0,
        insert-IsSorted x ys h.1,
      )
    ]

    pub sort-IsSorted : (xs : List A) → IsSorted (sort xs)
    unfolding sort
    sort-IsSorted [] = tt
    sort-IsSorted (x ∷ xs) = insert-IsSorted x (sort xs) (sort-IsSorted xs)
