-- ===== src/Postgres/Pairs.antt =====
-- Lists of rows of which each is kept or changed in place: what the UPDATE statements of
-- adapters/secondary do to the keys.
use cbtraining.Base.{
  String, ◌≡◌, refl, true, false, none, some, List, [], ◌∷◌, ◌++◌, arith, str_eq, All, Option-cases,
  Bool-cases, inl, inr, subst, sym,
}
use cbtraining.Postgres.Sql.{find_by, is_known}
use cbtraining.Postgres.Keys.{Unique, find_by-append_old}

module _ {ℓ} {A : Type ℓ} (R : A → A → Type 0) where
  -- The lists are as long as each other, and their rows are related one by one.
  abbrev pub Pairs : List A → List A → Type 0
  Pairs [] [] = Unit
  Pairs (x ∷ xs) (y ∷ ys) = R x y × Pairs xs ys
  Pairs _ _ = ⊥

  module _ (key : A → String) (same : (x y : A) → R x y → key y ≡ key x) where
    pub Pairs-is_known :
        (k : String) (xs ys : List A) → Pairs xs ys → is_known key k ys ≡ is_known key k xs
    unfolding is_known find_by
    Pairs-is_known k [] [] h = refl
    Pairs-is_known k [] (y ∷ ys) h = absurd h
    Pairs-is_known k (x ∷ xs) [] h = absurd h
    Pairs-is_known k (x ∷ xs) (y ∷ ys) h = ground (arith, same x y h.0, Pairs-is_known k xs ys h.1)

    Pairs-absent :
        (k : String) (xs ys : List A)
        → Pairs xs ys
        → find_by key k xs ≡ none
        → find_by key k ys ≡ none
    unfolding find_by
    Pairs-absent k [] [] h e = refl
    Pairs-absent k [] (y ∷ ys) h e = absurd h
    Pairs-absent k (x ∷ xs) [] h e = absurd h
    Pairs-absent k (x ∷ xs) (y ∷ ys) h e = ground (arith, same x y h.0, Pairs-absent k xs ys h.1)

    pub Pairs-Unique : (xs ys : List A) → Pairs xs ys → Unique key xs → Unique key ys
    Pairs-Unique [] [] h u = tt
    Pairs-Unique [] (y ∷ ys) h u = absurd h
    Pairs-Unique (x ∷ xs) [] h u = absurd h
    Pairs-Unique (x ∷ xs) (y ∷ ys) h u = (
      subst (λ k. find_by key k ys ≡ none) (sym (same x y h.0))
          (Pairs-absent (key x) xs ys h.1 u.0),
      Pairs-Unique xs ys h.1 u.1,
    )

  pub Pairs-All {μ} :
      (P : A → Type μ) (xs ys : List A)
      → ((x y : A) → R x y → P x → P y)
      → Pairs xs ys
      → All P xs
      → All P ys
  Pairs-All P [] [] m h p = tt
  Pairs-All P [] (y ∷ ys) m h p = absurd h
  Pairs-All P (x ∷ xs) [] m h p = absurd h
  Pairs-All P (x ∷ xs) (y ∷ ys) m h p = (m x y h.0 p.0, Pairs-All P xs ys m h.1 p.1)

module _ {ℓ} {A : Type ℓ} (key : A → String) where
  -- The constraints of a key, as the statements test them.
  pub known-append :
      (k : String) (xs : List A) (x : A)
      → is_known key k xs ≡ true
      → is_known key k (xs ++ x ∷ []) ≡ true
  unfolding is_known
  known-append k xs x h = elim (Option-cases (find_by key k xs)) [
    | inl e ↦ absurd (ground arith)
    | inr (y, e) ↦ ground (arith, find_by-append_old key k xs x y)
  ]

  pub unknown-absent :
      (k : String) (xs : List A) → is_known key k xs ≡ false → find_by key k xs ≡ none
  unfolding is_known
  unknown-absent k xs h = ground arith

  pub known-found :
      (k : String) (xs : List A) → is_known key k xs ≡ true → (x : A) × (find_by key k xs ≡ some x)
  unfolding is_known
  known-found k xs h = elim (Option-cases (find_by key k xs)) [
    | inl e ↦ absurd (ground arith)
    | inr (x, e) ↦ (x, e)
  ]

  pub found-All {μ} :
      (P : A → Type μ) (k : String) (xs : List A) (x : A)
      → find_by key k xs ≡ some x
      → All P xs
      → P x
  unfolding find_by
  found-All P k [] x h p = absurd (ground arith)
  found-All P k (y ∷ xs) x h p = elim (Bool-cases (str_eq (key y) k)) [
    | inl e ↦ subst P {x = y} {y = x} (ground arith) p.0
    | inr e ↦ found-All P k xs x (ground arith) p.1
  ]
