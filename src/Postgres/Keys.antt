-- ===== src/Postgres/Keys.antt =====
-- Rows by their key: what a search finds after rows are added, changed or deleted.
use cbtraining.Base.{
  String, ◌≡◌, refl, ◌≢◌, none, some, List, [], ◌∷◌, ◌++◌, arith, str_eq, eq_iff, eq_refl, inl, inr,
  All, Bool-cases,
}
use cbtraining.Postgres.Sql.{find_by, delete_by}

module _ {ℓ} {A : Type ℓ} (key : A → String) where
  -- No key stands twice.
  abbrev pub Unique : List A → Type ℓ
  Unique [] = Unit
  Unique (x ∷ xs) = (find_by key (key x) xs ≡ none) × Unique xs

  pub find_by-append :
      (k : String) (xs : List A) (x : A)
      → find_by key k xs ≡ none
      → find_by key k (xs ++ x ∷ []) ≡ find_by key k (x ∷ [])
  unfolding find_by
  find_by-append k [] x h = refl
  find_by-append k (y ∷ xs) x h = ground (arith, find_by-append k xs x)

  pub find_by-append_old :
      (k : String) (xs : List A) (x y : A)
      → find_by key k xs ≡ some y
      → find_by key k (xs ++ x ∷ []) ≡ some y
  unfolding find_by
  find_by-append_old k [] x y h = ground arith
  find_by-append_old k (z ∷ xs) x y h = ground (arith, find_by-append_old k xs x y)

  pub find_by-one : (x : A) → find_by key (key x) (x ∷ []) ≡ some x
  unfolding find_by
  find_by-one x = ground (arith, eq_refl (key x))

  pub find_by-key : (k : String) (xs : List A) (x : A) → find_by key k xs ≡ some x → key x ≡ k
  unfolding find_by
  find_by-key k [] x h = ground arith
  find_by-key k (y ∷ xs) x h = ground (arith, eq_iff (key y) k, find_by-key k xs x)

  pub find_by-delete_by : (k : String) (xs : List A) → find_by key k (delete_by key k xs) ≡ none
  unfolding find_by delete_by
  find_by-delete_by k [] = refl
  find_by-delete_by k (x ∷ xs) = ground (arith, find_by-delete_by k xs)

  pub find_by-delete_by_ne :
      (j k : String) (xs : List A) → j ≢ k → find_by key j (delete_by key k xs) ≡ find_by key j xs
  unfolding find_by delete_by
  find_by-delete_by_ne j k [] h = refl
  find_by-delete_by_ne j k (x ∷ xs) h =
      ground (arith, eq_iff (key x) k, eq_iff (key x) j, find_by-delete_by_ne j k xs h)

  pub delete_by-Unique : (k : String) (xs : List A) → Unique xs → Unique (delete_by key k xs)
  unfolding delete_by find_by
  delete_by-Unique k [] h = tt
  delete_by-Unique k (x ∷ xs) h =
      ground (arith, delete_by-Unique k xs h.1, find_by-delete_by_ne (key x) k xs, eq_iff (key x) k)

  pub append-Unique :
      (xs : List A) (x : A) → Unique xs → find_by key (key x) xs ≡ none → Unique (xs ++ x ∷ [])
  unfolding find_by
  append-Unique [] x h e = (refl, tt)
  append-Unique (y ∷ xs) x h e = ground (
    arith,
    append-Unique xs x h.1,
    find_by-append (key y) xs x h.0,
    eq_iff (key y) (key x),
    eq_iff (key x) (key y),
  )

  pub delete_by-All {κ} :
      (P : A → Type κ) (k : String) (xs : List A) → All P xs → All P (delete_by key k xs)
  unfolding delete_by
  delete_by-All P k [] h = tt
  delete_by-All P k (x ∷ xs) h = elim (Bool-cases (str_eq (key x) k)) [
    | inl e ↦ rw e (delete_by-All P k xs h.1)
    | inr e ↦ rw e (h.0, delete_by-All P k xs h.1)
  ]
