-- ===== src/Checks/Assert.antt =====
-- The assertions of core/testhelpers/utils.go: what a check returns, and how many errors it reports to the
-- test.
use mathlib.Core.List.{Memᴰ}
use cbtraining.Base.{
  ℕ, ◌+◌, ◌≡◌, ◌≢◌, ◌↔◌, ◌⊎◌, inl, inr, refl, arith, ap, ◌∙◌, String, Bool, true, false, List, [],
  ◌∷◌, Option, none, some, length, All, Bool-cases, if◌then◌else◌,
}
use cbtraining.Errors.{Result, ok, ◌>>=◌, Error}
use cbtraining.Checks.{
  ProcessRecord, ConflictGraph, build_conflict_graph, check_safety, check_liveness, ParallelPair,
  check_parallelism, last_with,
}
use cbtraining.Checks.Laws.{check_safety-verify_processing_order, check_liveness-nil}

-- The Boolean that an assertion returns, and its calls of `t.Errorf`.
abbrev pub Verdict : Type 0
Verdict = Bool × ℕ

unfoldable pub is_empty {ℓ} : {A : Type ℓ} → List A → Bool
is_empty [] = true
is_empty (x ∷ xs) = false

unfoldable pub assert_error_not_nil : Option Error → ℕ
assert_error_not_nil none = 1
assert_error_not_nil (some e) = 0

unfoldable pub assert_safety : ConflictGraph → Result Verdict
unfolding is_empty
assert_safety g = do violations ← check_safety g; ok (is_empty violations, length violations)

unfoldable pub assert_liveness : List ProcessRecord → List String → Verdict
unfolding is_empty
assert_liveness records submitted =
    let missing = check_liveness records submitted in (is_empty missing, length missing)

unfoldable pub parallel_verdict : List ParallelPair × Bool → Verdict
parallel_verdict (pairs, false) = (true, 0)
parallel_verdict ([], true) = (false, 1)
parallel_verdict (p ∷ pairs, true) = (true, 0)

unfoldable pub assert_parallelism : ConflictGraph → Verdict
unfolding parallel_verdict
assert_parallelism g = parallel_verdict (check_parallelism g)

-- The errors that `AssertAllInvariants` reports.
unfoldable pub assert_all_invariants : List ProcessRecord → List String → Result ℕ
unfolding assert_safety assert_liveness assert_parallelism
assert_all_invariants records submitted = do
  safety ← assert_safety (build_conflict_graph records)
  ok (
      safety.1
      + (assert_liveness records submitted).1
      + (assert_parallelism (build_conflict_graph records)).1)

-- What `GetProcessed` returns in the rounds before the deadline, and after it.
unfoldable pub wait_liveness : List (List ProcessRecord) → List String → Bool
unfolding is_empty
wait_liveness [] submitted = false
wait_liveness (records ∷ later) submitted =
    let more = wait_liveness later submitted in
    if is_empty (check_liveness records submitted) then true else more

length-is_nil {ℓ} : {A : Type ℓ} (xs : List A) → (length xs ≡ 0) ↔ (xs ≡ [])
length-is_nil [] = (λ e. refl, λ e. refl)
length-is_nil (x ∷ xs) = (λ e. absurd (ground arith), λ e. absurd (ground arith))

parallel_verdict-zero :
    (r : List ParallelPair × Bool) → ((parallel_verdict r).1 ≡ 0) ↔ ((r.1 ≡ false) ⊎ (r.0 ≢ []))
unfolding parallel_verdict
parallel_verdict-zero (pairs, false) = (λ e. inl refl, λ h. refl)
parallel_verdict-zero ([], true) =
    (λ e. absurd (ground arith), λ h. elim h [ inl x ↦ absurd (cc) | inr x ↦ absurd (x refl) ])
parallel_verdict-zero (p ∷ pairs, true) = (λ e. inr (λ x. absurd (cc)), λ h. refl)

-- `AssertAllInvariants` never panics, and reports no error exactly if `CheckSafety` finds no violation,
-- every submitted identification has a record, and two independent records overlap, if there are
-- independent ones.
pub assert_all_invariants-zero :
    (records : List ProcessRecord) (submitted : List String)
    → (n : ℕ) × (assert_all_invariants records submitted ≡ ok n)
      × ((n ≡ 0) ↔ (
          (check_safety (build_conflict_graph records) ≡ ok [])
          × All (λ k. last_with k records ≢ none) submitted
          × (((check_parallelism (build_conflict_graph records)).1 ≡ false)
              ⊎ ((check_parallelism (build_conflict_graph records)).0 ≢ []))))
unfolding assert_all_invariants
assert_all_invariants-zero records submitted =
    let g : ConflictGraph = build_conflict_graph records in
    let (vs, found, agree) = check_safety-verify_processing_order records in
    let missing : List String = check_liveness records submitted in
    let (seen, unseen) = check_liveness-nil records submitted in
    let (p0, p1) = parallel_verdict-zero (check_parallelism g) in
    let (v0, v1) = length-is_nil vs in
    let (m0, m1) = length-is_nil missing in
    (
      length vs + length missing + (parallel_verdict (check_parallelism g)).1,
      rw (found, assert_all_invariants) refl,
      (
        λ e. (found ∙ ap ok (v0 (omega arith)), seen (m0 (omega arith)), p0 (omega arith)),
        λ (s, l, p).
            let none_left : vs ≡ [] = ground (arith, found, s) in
            let a : length vs ≡ 0 = v1 none_left in
            let b : length missing ≡ 0 = m1 (unseen l) in
            let c : (parallel_verdict (check_parallelism g)).1 ≡ 0 = p1 p in omega arith,
      ),
    )

-- `WaitLiveness` returns true only if in some round every submitted identification had a record.
pub wait_liveness_sound :
    (rounds : List (List ProcessRecord)) (submitted : List String)
    → wait_liveness rounds submitted ≡ true
    → (records : List ProcessRecord) × Memᴰ records rounds
      × All (λ k. last_with k records ≢ none) submitted
unfolding wait_liveness is_empty
wait_liveness_sound [] submitted h = absurd (ground arith)
wait_liveness_sound (records ∷ later) submitted h =
    elim (Bool-cases (is_empty (check_liveness records submitted))) [
      | inl e ↦ (
        records,
        Memᴰ.head refl,
        (check_liveness-nil records submitted).0 (of_empty (check_liveness records submitted) e),
      )
      | inr e ↦
          let (found, among, seen) = wait_liveness_sound later submitted (ground arith) in
          (found, Memᴰ.tail among, seen)
    ]
  where
    of_empty : (xs : List String) → is_empty xs ≡ true → xs ≡ []
    of_empty [] e = refl
    of_empty (x ∷ xs) e = absurd (cc)
