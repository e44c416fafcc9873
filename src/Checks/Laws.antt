-- ===== src/Checks/Laws.antt =====
-- `CheckSafety`, `VerifyProcessingOrder` and `CheckLiveness` of core/testhelpers/utils.go, compared.
use cbtraining.Base.{
  String, ◌≡◌, ◌≢◌, refl, arith, true, not, List, [], ◌∷◌, none, some, All, All-map, All-append,
  eq_refl, inl, inr, ◌↔◌, Option-cases,
}
use cbtraining.Errors.{ok}
use cbtraining.Checks.{
  ProcessRecord, ConflictEdge, shared_ibans, add_edge, edges_of, all_edges, build_conflict_graph,
  intervals_overlap, last_with, record_at, SafetyViolation, violation, violations, check_safety,
  in_order, order_of, order_ok, verify_processing_order, is_processed, check_liveness,
}

-- Both ends of an edge are records.
abbrev Known : List ProcessRecord → String → Type 0
Known records k = (r : ProcessRecord) × (last_with k records ≡ some r)

Known-more :
    (r : ProcessRecord) (records : List ProcessRecord) (k : String)
    → Known records k
    → Known (r ∷ records) k
unfolding last_with
Known-more r records k (x, e) = (x, ground arith)

Known-head : (r : ProcessRecord) (records : List ProcessRecord) → Known (r ∷ records) r.ete
unfolding last_with
Known-head r records = elim (Option-cases (last_with r.ete records)) [
  | inl e ↦ (r, ground (arith, eq_refl r.ete))
  | inr (x, e) ↦ (x, ground arith)
]

records-Known : (records : List ProcessRecord) → All (λ r. Known records r.ete) records
records-Known [] = tt
records-Known (r ∷ rest) = (
  Known-head r rest,
  All-map (λ x. Known rest x.ete) (λ x. Known (r ∷ rest) x.ete) rest (λ x. Known-more r rest x.ete)
      (records-Known rest),
)

abbrev EdgeKnown : List ProcessRecord → ConflictEdge → Type 0
EdgeKnown records e = Known records e.ete_a × Known records e.ete_b

module _ (whole : List ProcessRecord) where
  add_edge-Known :
      (a b : ProcessRecord) (xs : List String) (later : List ConflictEdge)
      → Known whole a.ete
      → Known whole b.ete
      → All (EdgeKnown whole) later
      → All (EdgeKnown whole) (add_edge a b xs later)
  unfolding add_edge
  add_edge-Known a b [] later k l h = h
  add_edge-Known a b (x ∷ xs) later k l h = ((k, l), h)

  edges_of-Known :
      (a : ProcessRecord) (rest : List ProcessRecord)
      → Known whole a.ete
      → All (λ r. Known whole r.ete) rest
      → All (EdgeKnown whole) (edges_of a rest)
  unfolding edges_of
  edges_of-Known a [] k h = tt
  edges_of-Known a (b ∷ rest) k h =
      add_edge-Known a b (shared_ibans a b) (edges_of a rest) k h.0 (edges_of-Known a rest k h.1)

  all_edges-Known :
      (records : List ProcessRecord)
      → All (λ r. Known whole r.ete) records
      → All (EdgeKnown whole) (all_edges records)
  unfolding all_edges
  all_edges-Known [] h = tt
  all_edges-Known (a ∷ rest) h =
      All-append (EdgeKnown whole) (edges_of a rest) (all_edges rest)
        (edges_of-Known a rest h.0 h.1) (all_edges-Known rest h.1)

  pub in_order-overlap : (a b : ProcessRecord) → in_order a b ≡ not (intervals_overlap a b)
  unfolding in_order intervals_overlap
  in_order-overlap a b = ground arith

  violations-order_ok :
      (edges : List ConflictEdge)
      → All (EdgeKnown whole) edges
      → (vs : List SafetyViolation) × (violations whole edges ≡ ok vs)
        × ((vs ≡ []) ↔ (order_ok whole edges ≡ true))
  unfolding violations record_at violation order_ok order_of
  violations-order_ok [] h = ([], refl, (λ e. refl, λ e. refl))
  violations-order_ok (e ∷ rest) (((a, ea), (b, eb)), h) =
      let (vs, f, same) = violations-order_ok rest h in
      (
        violation a b e.shared vs,
        rw (ea, eb, f, violations, record_at) refl,
        (ground (arith, in_order-overlap a b), ground (arith, in_order-overlap a b)),
      )

-- On whatever was recorded, `CheckSafety` does not panic, and it finds no violation exactly if
-- `VerifyProcessingOrder` accepts the records: the two checks of the tests agree.
pub check_safety-verify_processing_order :
    (records : List ProcessRecord)
    → (vs : List SafetyViolation) × (check_safety (build_conflict_graph records) ≡ ok vs)
      × ((vs ≡ []) ↔ (verify_processing_order records ≡ true))
unfolding check_safety build_conflict_graph verify_processing_order
check_safety-verify_processing_order records =
    violations-order_ok records (all_edges records)
      (all_edges-Known records records (records-Known records))

is_processed-Known :
    (k : String) (records : List ProcessRecord)
    → (is_processed k records ≡ true) ↔ (last_with k records ≢ none)
unfolding is_processed last_with
is_processed-Known k [] = (ground arith, ground arith)
is_processed-Known k (r ∷ rest) =
    let (there, back) = is_processed-Known k rest in (ground (arith, there), ground (arith, back))

-- `CheckLiveness` reports nothing exactly if every submitted identification has a record.
pub check_liveness-nil :
    (records : List ProcessRecord) (submitted : List String)
    → (check_liveness records submitted ≡ []) ↔ All (λ k. last_with k records ≢ none) submitted
unfolding check_liveness
check_liveness-nil records [] = (λ e. tt, λ h. refl)
check_liveness-nil records (k ∷ rest) =
    let (there, back) = check_liveness-nil records rest in
    let (known, seen) = is_processed-Known k records in
    (ground (arith, there, known, seen), ground (arith, back, known, seen))
