-- ===== src/Table.antt =====
-- A database table, as an association list by the column that identifies a row.
use iron_loot.Common.{
  ℕ, ◌≡◌, ◌≢◌, ◌⊎◌, inl, inr, Bool, true, false, Option, none, some, List, [], ◌∷◌, arith, ◌==◌,
  if◌then◌else◌, Bool-cases, find_first,
}

abbrev pub Table {ℓ} : Type ℓ → Type ℓ
Table V = List (ℕ × V)

module _ {ℓ} {V : Type ℓ} where
  abbrev pub lookup : ℕ → Table V → Option V
  lookup k [] = none
  lookup k ((j, v) ∷ t) = if k == j then some v else lookup k t

  -- Writes the row, a new one at the end.
  abbrev pub insert : ℕ → V → Table V → Table V
  insert k v [] = (k, v) ∷ []
  insert k v ((j, w) ∷ t) = if k == j then (k, v) ∷ t else (j, w) ∷ insert k v t

  -- Without the row.
  abbrev pub remove : ℕ → Table V → Table V
  remove k [] = []
  remove k ((j, w) ∷ t) = if k == j then remove k t else (j, w) ∷ remove k t

  pub lookup-insert :
      (j k : ℕ) (v : V) (t : Table V)
      → lookup j (insert k v t) ≡ (if j == k then some v else lookup j t)
  lookup-insert j k v [] = ground arith
  lookup-insert j k v ((i, w) ∷ t) = ground (arith, lookup-insert j k v t)

  pub lookup-insert_self : (k : ℕ) (v : V) (t : Table V) → lookup k (insert k v t) ≡ some v
  lookup-insert_self k v t = ground (arith, lookup-insert k k v t)

  pub lookup-insert_ne :
      (j k : ℕ) (v : V) (t : Table V) → j ≢ k → lookup j (insert k v t) ≡ lookup j t
  lookup-insert_ne j k v t h = ground (arith, lookup-insert j k v t)

-- The first selected row is selected.
pub find_first_holds {ℓ} :
    {A : Type ℓ} (p : A → Bool) (xs : List A) (x : A) → find_first p xs ≡ some x → p x ≡ true
find_first_holds p [] x e = absurd (cc)
find_first_holds p (y ∷ ys) x e = elim (Bool-cases (p y)) [
  | inl q ↦ ground arith
  | inr q ↦ find_first_holds p ys x (ground arith)
]

-- What the first selected row is after a row is written that the `where` clause selects, or does not.
module _ {ℓ} {V : Type ℓ} (p : ℕ × V → Bool) (k : ℕ) (v : V) where
  skipped :
      (j : ℕ) (w : V) (t : Table V)
      → p (j, w) ≡ false
      → (find_first p ((j, w) ∷ t) ≡ none) ⊎ ((x : V) × (find_first p ((j, w) ∷ t) ≡ some (k, x)))
      → (find_first p t ≡ none) ⊎ ((x : V) × (find_first p t ≡ some (k, x)))
  skipped j w t s (inl e) = inl (ground arith)
  skipped j w t s (inr (x, e)) = inr (x, ground arith)

  first_is :
      (j : ℕ) (w : V) (t : Table V)
      → (k == j) ≡ false
      → p (j, w) ≡ true
      → (find_first p ((j, w) ∷ t) ≡ none) ⊎ ((x : V) × (find_first p ((j, w) ∷ t) ≡ some (k, x)))
      → ⊥
  first_is j w t q s (inl e) = ground arith
  first_is j w t q s (inr (x, e)) = ground arith

  pub find_first-insert :
      (t : Table V)
      → p (k, v) ≡ true
      → (find_first p t ≡ none) ⊎ ((w : V) × (find_first p t ≡ some (k, w)))
      → find_first p (insert k v t) ≡ some (k, v)
  find_first-insert [] h e = ground arith
  find_first-insert ((j, w) ∷ t) h e = elim (Bool-cases (k == j)) [
    | inl q ↦ ground arith
    | inr q ↦ elim (Bool-cases (p (j, w))) [
      | inl s ↦ absurd (first_is j w t q s e)
      | inr s ↦ ground (arith, find_first-insert t h (skipped j w t s e))
    ]
  ]
