-- ===== src/Checks/Complete.antt =====
-- `CheckSafety` of core/testhelpers/utils.go on records of which those that share an account are apart.
use cbtraining.Base.{
  String, ◌≡◌, refl, arith, true, false, List, [], ◌∷◌, ◌++◌, some, eq_iff, All, All-append,
  get_elem?, zero, suc, ap, ◌∙◌, ℕ,
}
use cbtraining.Errors.{ok}
use cbtraining.Checks.{
  ProcessRecord, ConflictEdge, shared_ibans, add_edge, edges_of, all_edges, build_conflict_graph,
  intervals_overlap, last_with, check_safety, order_of, order_ok, verify_processing_order,
  has_account, keep,
}
use cbtraining.Checks.Laws.{check_safety-verify_processing_order, in_order-overlap}
use cbtraining.Checks.Safety.{Distinct, Conflict, last_with-Distinct}

-- The second record does not overlap the first one, if they share an account.
abbrev pub IsApart : ProcessRecord → ProcessRecord → Type 0
IsApart a b = Conflict a b → intervals_overlap a b ≡ false

abbrev pub Separate : List ProcessRecord → Type 0
Separate [] = Unit
Separate (r ∷ rest) = All (IsApart r) rest × Separate rest

pub Separate-append :
    (records : List ProcessRecord) (r : ProcessRecord)
    → Separate records
    → All (λ old. IsApart old r) records
    → Separate (records ++ r ∷ [])
Separate-append [] r s h = (tt, tt)
Separate-append (x ∷ rest) r s h =
    (All-append (IsApart x) rest (r ∷ []) s.0 (h.0, tt), Separate-append rest r s.1 h.1)

shared-Conflict :
    (a b : ProcessRecord) (x : String) (xs : List String) → shared_ibans a b ≡ x ∷ xs → Conflict a b
unfolding shared_ibans has_account keep
shared-Conflict a b x xs e = ground (
  arith,
  eq_iff a.debtor_iban b.debtor_iban,
  eq_iff a.debtor_iban b.creditor_iban,
  eq_iff a.creditor_iban b.debtor_iban,
  eq_iff a.creditor_iban b.creditor_iban,
)

module _ (whole : List ProcessRecord) where
  abbrev Found : ProcessRecord → Type 0
  Found r = last_with r.ete whole ≡ some r

  abbrev Ordered : ConflictEdge → Type 0
  Ordered e = order_of (last_with e.ete_a whole) (last_with e.ete_b whole) ≡ true

  add_edge-Ordered :
      (a b : ProcessRecord) (ys : List String) (later : List ConflictEdge)
      → shared_ibans a b ≡ ys
      → Found a
      → Found b
      → IsApart a b
      → All Ordered later
      → All Ordered (add_edge a b ys later)
  unfolding add_edge order_of
  add_edge-Ordered a b [] later e fa fb h v = v
  add_edge-Ordered a b (y ∷ ys) later e fa fb h v =
      let apart : intervals_overlap a b ≡ false = h (shared-Conflict a b y ys e) in
      (rw (fa, fb, order_of) (in_order-overlap whole a b ∙ rw apart refl), v)

  edges_of-Ordered :
      (a : ProcessRecord) (rest : List ProcessRecord)
      → Found a
      → All Found rest
      → All (IsApart a) rest
      → All Ordered (edges_of a rest)
  unfolding edges_of
  edges_of-Ordered a [] fa fr h = tt
  edges_of-Ordered a (b ∷ rest) fa fr h =
      add_edge-Ordered a b (shared_ibans a b) (edges_of a rest) refl fa fr.0 h.0
        (edges_of-Ordered a rest fa fr.1 h.1)

  all_edges-Ordered :
      (records : List ProcessRecord)
      → All Found records
      → Separate records
      → All Ordered (all_edges records)
  unfolding all_edges
  all_edges-Ordered [] f h = tt
  all_edges-Ordered (a ∷ rest) f h =
      All-append Ordered (edges_of a rest) (all_edges rest) (edges_of-Ordered a rest f.0 f.1 h.0)
        (all_edges-Ordered rest f.1 h.1)

  order_ok-Ordered : (edges : List ConflictEdge) → All Ordered edges → order_ok whole edges ≡ true
  unfolding order_ok
  order_ok-Ordered [] h = refl
  order_ok-Ordered (e ∷ rest) h = rw (h.0, order_ok-Ordered rest h.1, order_ok) refl

get_elem?-All :
    (P : ProcessRecord → Type 0) (records : List ProcessRecord)
    → ((i : ℕ) (r : ProcessRecord) → get_elem? records i ≡ some r → P r)
    → All P records
get_elem?-All P [] h = tt
get_elem?-All P (r ∷ rest) h = (h zero r refl, get_elem?-All P rest (λ i. h (suc i)))

-- If no identification was recorded twice and no two records that share an account overlap, then
-- `CheckSafety` finds no violation.
pub check_safety_complete :
    (records : List ProcessRecord)
    → Distinct records
    → Separate records
    → check_safety (build_conflict_graph records) ≡ ok []
unfolding verify_processing_order build_conflict_graph
check_safety_complete records d h =
    let (vs, found, (agree, back)) = check_safety-verify_processing_order records in
    let all_found =
      get_elem?-All (Found records) records (λ i r p. last_with-Distinct records i r d p) in
    let none_left : vs ≡ [] = back (
      order_ok-Ordered records (all_edges records)
        (all_edges-Ordered records records all_found h)) in
    found ∙ ap ok none_left
