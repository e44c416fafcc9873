-- ===== src/Checks/Timeline/Ends.antt =====
-- The first start and the last end that `VisualizeTime` of core/testhelpers/utils.go finds.
use mathlib.Core.List.{Memᴰ}
use cbtraining.Base.{
  ℕ, ◌≤◌, ◌≡◌, inl, inr, refl, arith, List, [], ◌∷◌, ltb, All, Bool-cases, if◌then◌else◌,
}
use cbtraining.Checks.{ProcessRecord}
use cbtraining.Checks.Timeline.{earliest, latest}

-- The time of one of the records that is not after those of the others, or not before them.
abbrev pub IsFirst : (ProcessRecord → ℕ) → ℕ → List ProcessRecord → Type 0
IsFirst time t rs = ((r : ProcessRecord) × Memᴰ r rs × (time r ≡ t)) × All (λ r. t ≤ time r) rs

abbrev pub IsLast : (ProcessRecord → ℕ) → ℕ → List ProcessRecord → Type 0
IsLast time t rs = ((r : ProcessRecord) × Memᴰ r rs × (time r ≡ t)) × All (λ r. time r ≤ t) rs

earliest-below :
    (t : ℕ) (rs : List ProcessRecord)
    → (earliest t rs ≤ t) × All (λ r. earliest t rs ≤ r.start_time) rs
unfolding earliest
earliest-below t [] = (omega arith, tt)
earliest-below t (r ∷ rest) =
    let (a, b) = earliest-below (if ltb r.start_time t then r.start_time else t) rest in
    (ground arith, (ground arith, b))

latest-above :
    (t : ℕ) (rs : List ProcessRecord) → (t ≤ latest t rs) × All (λ r. r.end_time ≤ latest t rs) rs
unfolding latest
latest-above t [] = (omega arith, tt)
latest-above t (r ∷ rest) =
    let (a, b) = latest-above (if ltb t r.end_time then r.end_time else t) rest in
    (ground arith, (ground arith, b))

-- The time that is kept is that of a record, if it was so at the beginning.
earliest-met :
    (t : ℕ) (rs all : List ProcessRecord)
    → ((r : ProcessRecord) → Memᴰ r rs → Memᴰ r all)
    → ((r : ProcessRecord) × Memᴰ r all × (r.start_time ≡ t))
    → (r : ProcessRecord) × Memᴰ r all × (r.start_time ≡ earliest t rs)
unfolding earliest
earliest-met t [] all sub m = m
earliest-met t (r ∷ rest) all sub m =
    earliest-met (if ltb r.start_time t then r.start_time else t) rest all
      (λ x i. sub x (Memᴰ.tail i))
      (elim (Bool-cases (ltb r.start_time t)) [
        | inl e ↦ (r, sub r (Memᴰ.head refl), rw e refl)
        | inr e ↦ rw e m
      ])

latest-met :
    (t : ℕ) (rs all : List ProcessRecord)
    → ((r : ProcessRecord) → Memᴰ r rs → Memᴰ r all)
    → ((r : ProcessRecord) × Memᴰ r all × (r.end_time ≡ t))
    → (r : ProcessRecord) × Memᴰ r all × (r.end_time ≡ latest t rs)
unfolding latest
latest-met t [] all sub m = m
latest-met t (r ∷ rest) all sub m =
    latest-met (if ltb t r.end_time then r.end_time else t) rest all (λ x i. sub x (Memᴰ.tail i))
      (elim (Bool-cases (ltb t r.end_time)) [
        | inl e ↦ (r, sub r (Memᴰ.head refl), rw e refl)
        | inr e ↦ rw e m
      ])

pub earliest-all :
    (r : ProcessRecord) (rest : List ProcessRecord)
    → IsFirst (λ x. x.start_time) (earliest r.start_time (r ∷ rest)) (r ∷ rest)
earliest-all r rest = (
  earliest-met r.start_time (r ∷ rest) (r ∷ rest) (λ x i. i) (r, Memᴰ.head refl, refl),
  (earliest-below r.start_time (r ∷ rest)).1,
)

pub latest-all :
    (r : ProcessRecord) (rest : List ProcessRecord)
    → IsLast (λ x. x.end_time) (latest r.end_time (r ∷ rest)) (r ∷ rest)
latest-all r rest = (
  latest-met r.end_time (r ∷ rest) (r ∷ rest) (λ x i. i) (r, Memᴰ.head refl, refl),
  (latest-above r.end_time (r ∷ rest)).1,
)
