-- ===== src/Table.antt =====
-- A table of records under a text key: the rows of an SQL table, or the values of a JavaScript
-- `Map` in insertion order. Its sort is the stable `Array.prototype.sort`.
mod Sort
unfoldable pub use Sort.*
use mathlib.Core.Path.{subst}
use mathlib.Core.Option
use botchatgptclaude.Prelude.{
  String, Bool, true, false, Option, none, some, List, [], ◌∷◌, ◌++◌, ◌≡◌, refl, arith, ◌==◌,
  eq_iff, if◌then◌else◌, filter, All, All-append, All-filter, All_map₂, Bool-cases, inl, inr,
}

module _ {A : Type 0} (key : A → String) where
  -- SELECT … WHERE key = k, and `Map.get`
  unfoldable pub find : String → List A → Option A
  find k [] = none
  find k (x ∷ xs) = if key x == k then some x else find k xs

  -- UPDATE … WHERE key = k, and the mutation of a record that the map holds
  unfoldable pub update : String → (A → A) → List A → List A
  update k f [] = []
  update k f (x ∷ xs) = (if key x == k then f x else x) ∷ update k f xs

  -- No record has the key.
  abbrev pub IsFresh : String → List A → Type 0
  IsFresh k xs = All (λ x. (key x == k) ≡ false) xs

  abbrev pub IsDistinct : List A → Type 0
  IsDistinct [] = Unit
  IsDistinct (x ∷ xs) = IsFresh (key x) xs × IsDistinct xs

  module _ (k : String) (f : A → A) (keeps : (x : A) → key (f x) ≡ key x) where
    pub find-update :
        (j : String) (xs : List A)
        → find j (update k f xs) ≡ (if k == j then Option.map f (find j xs) else find j xs)
    unfolding find update
    find-update j [] = ground arith
    find-update j (x ∷ xs) =
        ground (arith, keeps x, eq_iff (key x) k, eq_iff (key x) j, eq_iff k j, find-update j xs)

    pub update-IsFresh : (j : String) (xs : List A) → IsFresh j xs → IsFresh j (update k f xs)
    unfolding update
    update-IsFresh j [] h = tt
    update-IsFresh j (x ∷ xs) h = (ground (arith, keeps x, h.0), update-IsFresh j xs h.1)

    pub update-IsDistinct : (xs : List A) → IsDistinct xs → IsDistinct (update k f xs)
    unfolding update
    update-IsDistinct [] h = tt
    update-IsDistinct (x ∷ xs) h = (
      elim (Bool-cases (key x == k)) [
        | inl e ↦ rw (e, keeps x) (update-IsFresh (key x) xs h.0)
        | inr e ↦ rw e (update-IsFresh (key x) xs h.0)
      ],
      update-IsDistinct xs h.1,
    )

  pub find-key : (k : String) (xs : List A) (x : A) → find k xs ≡ some x → key x ≡ k
  unfolding find
  find-key k [] x e = ground arith
  find-key k (y ∷ xs) x e = ground (arith, eq_iff (key y) k, find-key k xs x)

  pub find-append :
      (k : String) (xs : List A) (y : A)
      → IsFresh (key y) xs
      → find k (xs ++ y ∷ []) ≡ (if key y == k then some y else find k xs)
  unfolding find
  find-append k [] y h = refl
  find-append k (x ∷ xs) y h = ground (
    arith,
    h.0,
    eq_iff (key x) (key y),
    eq_iff (key x) k,
    eq_iff (key y) k,
    find-append k xs y h.1,
  )

  pub IsFresh-find : (k : String) (xs : List A) → find k xs ≡ none → IsFresh k xs
  unfolding find
  IsFresh-find k [] e = tt
  IsFresh-find k (x ∷ xs) e =
      let miss : (key x == k) ≡ false = ground arith in
      (miss, IsFresh-find k xs (rw (miss, find) at e))

  pub append-IsDistinct :
      (xs : List A) (y : A) → IsFresh (key y) xs → IsDistinct xs → IsDistinct (xs ++ y ∷ [])
  append-IsDistinct [] y f h = (tt, tt)
  append-IsDistinct (x ∷ xs) y f h = (
    All-append (λ z. (key z == key x) ≡ false) xs (y ∷ []) h.0
        (ground (arith, f.0, eq_iff (key x) (key y), eq_iff (key y) (key x)), tt),
    append-IsDistinct xs y f.1 h.1,
  )

  pub filter-IsDistinct : (p : A → Bool) (xs : List A) → IsDistinct xs → IsDistinct (filter p xs)
  filter-IsDistinct p [] h = tt
  filter-IsDistinct p (x ∷ xs) h = elim (Bool-cases (p x)) [
    | inl e ↦ rw e (All-filter (λ z. (key z == key x) ≡ false) p xs h.0, filter-IsDistinct p xs h.1)
    | inr e ↦ rw e (filter-IsDistinct p xs h.1)
  ]

  module _ (le : A → A → Bool) where
    insert-IsDistinct :
        (x : A) (ys : List A) → IsFresh (key x) ys → IsDistinct ys → IsDistinct (insert le x ys)
    unfolding insert
    insert-IsDistinct x [] f h = (tt, tt)
    insert-IsDistinct x (y ∷ ys) f h = elim (Bool-cases (le x y)) [
      | inl e ↦ rw e (f, h)
      | inr e ↦ rw e (
        All-insert le (λ z. (key z == key y) ≡ false) x ys
            (ground (arith, f.0, eq_iff (key x) (key y), eq_iff (key y) (key x))) h.0,
        insert-IsDistinct x ys f.1 h.1,
      )
    ]

    pub sort-IsDistinct : (xs : List A) → IsDistinct xs → IsDistinct (sort le xs)
    unfolding sort
    sort-IsDistinct [] h = tt
    sort-IsDistinct (x ∷ xs) h =
        insert-IsDistinct x (sort le xs) (All-sort le (λ z. (key z == key x) ≡ false) xs h.0)
          (sort-IsDistinct xs h.1)

  -- Each record of a table with distinct keys is the one that its key finds.
  pub All-find : (xs : List A) → IsDistinct xs → All (λ x. find (key x) xs ≡ some x) xs
  unfolding find
  All-find [] d = tt
  All-find (x ∷ xs) d = (
    ground (arith, eq_iff (key x) (key x)),
    All_map₂ (λ y. (key y == key x) ≡ false) (λ y. find (key y) xs ≡ some y)
        (λ y. find (key y) (x ∷ xs) ≡ some y)
        (λ y other e. ground (arith, other, e, eq_iff (key x) (key y), eq_iff (key y) (key x))) xs
        d.0 (All-find xs d.1),
  )

  -- A found record satisfies what all records do.
  pub at_find :
      (P : A → Type 0) (k : String) (xs : List A) (x : A) → All P xs → find k xs ≡ some x → P x
  unfolding find
  at_find P k [] x h e = cc
  at_find P k (y ∷ xs) x h e = elim (Bool-cases (key y == k)) [
    | inl hit ↦ subst P {x = y} {y = x} (ground arith) h.0
    | inr miss ↦ at_find P k xs x h.1 (rw (miss, find) at e)
  ]

module _ {A : Type 0} (Q : A → Type 0) (p : A → Bool) where
  -- What holds of the records that a filter keeps holds of all that pass its test.
  pub All_of-filter : (xs : List A) → All Q (filter p xs) → All (λ x. p x ≡ true → Q x) xs
  All_of-filter [] h = tt
  All_of-filter (x ∷ xs) h = elim (Bool-cases (p x)) [
    | inl e ↦
        let g : All Q (x ∷ filter p xs) = rw (e, if◌then◌else◌) at h in
        (λ _. g.0, All_of-filter xs g.1)
    | inr e ↦ (λ t. cc, All_of-filter xs (rw (e, if◌then◌else◌) at h))
  ]
