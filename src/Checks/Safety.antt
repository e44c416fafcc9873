-- ===== src/Checks/Safety.antt =====
-- `CheckSafety` of core/testhelpers/utils.go and the intervals of the recorded payments.
use mathlib.Core.List.{Memᴰ}
use cbtraining.Base.{
  ℕ, zero, suc, ◌<◌, String, ◌≡◌, ◌≢◌, arith, true, false, List, [], ◌∷◌, ◌++◌, none, some, eq_iff,
  eq_refl, ◌⊎◌, inl, inr, Bool-cases, get_elem?, ap, ◌∙◌, subst,
}
use cbtraining.Errors.{ok}
use cbtraining.Checks.{
  ProcessRecord, ConflictEdge, shared_ibans, add_edge, edges_of, all_edges, build_conflict_graph,
  intervals_overlap, last_with, check_safety, order_of, order_ok, verify_processing_order,
  has_account, keep,
}
use cbtraining.Checks.Laws.{check_safety-verify_processing_order, in_order-overlap}

-- No identification stands twice.
abbrev pub Distinct : List ProcessRecord → Type 0
Distinct [] = Unit
Distinct (r ∷ rest) = (last_with r.ete rest ≡ none) × Distinct rest

-- The two payments share an account.
abbrev pub Conflict : ProcessRecord → ProcessRecord → Type 0
Conflict a b =
    (a.debtor_iban ≡ b.debtor_iban)
    ⊎ (a.debtor_iban ≡ b.creditor_iban)
    ⊎ (a.creditor_iban ≡ b.debtor_iban)
    ⊎ (a.creditor_iban ≡ b.creditor_iban)

last_with-none_ne :
    (k : String) (records : List ProcessRecord) (i : ℕ) (a : ProcessRecord)
    → last_with k records ≡ none
    → get_elem? records i ≡ some a
    → a.ete ≢ k
unfolding last_with
last_with-none_ne k [] i a n e = absurd (ground arith)
last_with-none_ne k (r ∷ rest) zero a n e = ground (arith, eq_iff r.ete k)
last_with-none_ne k (r ∷ rest) (suc i) a n e = last_with-none_ne k rest i a (ground arith) e

pub last_with-Distinct :
    (records : List ProcessRecord) (i : ℕ) (a : ProcessRecord)
    → Distinct records
    → get_elem? records i ≡ some a
    → last_with a.ete records ≡ some a
unfolding last_with
last_with-Distinct [] i a d e = absurd (ground arith)
last_with-Distinct (r ∷ rest) zero a d e = ground (arith, eq_refl r.ete)
last_with-Distinct (r ∷ rest) (suc i) a d e = ground (arith, last_with-Distinct rest i a d.1 e)

Conflict-shared :
    (a b : ProcessRecord)
    → Conflict a b
    → (x : String) × (xs : List String) × (shared_ibans a b ≡ x ∷ xs)
unfolding shared_ibans has_account keep
Conflict-shared a b c = elim (Bool-cases (has_account a b.debtor_iban)) [
  | inl e ↦ (b.debtor_iban, keep (has_account a b.creditor_iban) b.creditor_iban [], ground arith)
  | inr e ↦ (
    b.creditor_iban,
    [],
    ground (
      arith,
      eq_iff a.debtor_iban b.debtor_iban,
      eq_iff a.debtor_iban b.creditor_iban,
      eq_iff a.creditor_iban b.debtor_iban,
      eq_iff a.creditor_iban b.creditor_iban,
    ),
  )
]

add_edge-head :
    (a r b : ProcessRecord) (x : String) (xs ys : List String) (later : List ConflictEdge)
    → r ≡ b
    → ys ≡ x ∷ xs
    → Memᴰ (record { ete_a = a.ete; ete_b = b.ete; shared = x ∷ xs }) (add_edge a r ys later)
unfolding add_edge
add_edge-head a r b x xs [] later same e = absurd (ground arith)
add_edge-head a r b x xs (y ∷ ys) later same e = Memᴰ.head (ground arith)

add_edge-tail :
    (a r : ProcessRecord) (ys : List String) (later : List ConflictEdge) {e : ConflictEdge}
    → Memᴰ e later
    → Memᴰ e (add_edge a r ys later)
unfolding add_edge
add_edge-tail a r [] later m = m
add_edge-tail a r (y ∷ ys) later m = Memᴰ.tail m

edges_of-mem :
    (a : ProcessRecord) (rest : List ProcessRecord) (j : ℕ) (b : ProcessRecord) (x : String)
    (xs : List String)
    → get_elem? rest j ≡ some b
    → shared_ibans a b ≡ x ∷ xs
    → Memᴰ (record { ete_a = a.ete; ete_b = b.ete; shared = x ∷ xs }) (edges_of a rest)
unfolding edges_of
edges_of-mem a [] j b x xs e s = absurd (ground arith)
edges_of-mem a (r ∷ rest) zero b x xs e s =
    let same : r ≡ b = ground arith in
    add_edge-head a r b x xs (shared_ibans a r) (edges_of a rest) same
      (ap (shared_ibans a) same ∙ s)
edges_of-mem a (r ∷ rest) (suc j) b x xs e s =
    add_edge-tail a r (shared_ibans a r) (edges_of a rest) (edges_of-mem a rest j b x xs e s)

append-mem_left : {e : ConflictEdge} (xs ys : List ConflictEdge) → Memᴰ e xs → Memᴰ e (xs ++ ys)
append-mem_left [] ys m = elim m [ ]
append-mem_left (x ∷ xs) ys (Memᴰ.head h) = Memᴰ.head h
append-mem_left (x ∷ xs) ys (Memᴰ.tail m) = Memᴰ.tail (append-mem_left xs ys m)

append-mem_right : {e : ConflictEdge} (xs ys : List ConflictEdge) → Memᴰ e ys → Memᴰ e (xs ++ ys)
append-mem_right [] ys m = m
append-mem_right (x ∷ xs) ys m = Memᴰ.tail (append-mem_right xs ys m)

all_edges-mem :
    (records : List ProcessRecord) (i j : ℕ) (a b : ProcessRecord) (x : String) (xs : List String)
    → i < j
    → get_elem? records i ≡ some a
    → get_elem? records j ≡ some b
    → shared_ibans a b ≡ x ∷ xs
    → Memᴰ (record { ete_a = a.ete; ete_b = b.ete; shared = x ∷ xs }) (all_edges records)
unfolding all_edges
all_edges-mem [] i j a b x xs h p q s = absurd (ground arith)
all_edges-mem (r ∷ rest) i zero a b x xs h p q s = absurd (omega arith)
all_edges-mem (r ∷ rest) zero (suc j) a b x xs h p q s =
    let same : a ≡ r = ground arith in
    append-mem_left (edges_of r rest) (all_edges rest) (
      subst
        (λ (c : ProcessRecord).
          Memᴰ (record { ete_a = a.ete; ete_b = b.ete; shared = x ∷ xs }) (edges_of c rest))
        same (edges_of-mem a rest j b x xs q s))
all_edges-mem (r ∷ rest) (suc i) (suc j) a b x xs h p q s =
    append-mem_right (edges_of r rest) (all_edges rest)
      (all_edges-mem rest i j a b x xs (omega arith) p q s)

order_ok-mem :
    (records : List ProcessRecord) (edges : List ConflictEdge) {e : ConflictEdge}
    → order_ok records edges ≡ true
    → Memᴰ e edges
    → order_of (last_with e.ete_a records) (last_with e.ete_b records) ≡ true
unfolding order_ok
order_ok-mem records [] h m = elim m [ ]
order_ok-mem records (f ∷ rest) {e} h (Memᴰ.head same) = ground (
  arith,
  ap (λ (z : ConflictEdge). order_of (last_with z.ete_a records) (last_with z.ete_b records)) same,
)
order_ok-mem records (f ∷ rest) h (Memᴰ.tail m) = order_ok-mem records rest (ground arith) m

-- If no identification was recorded twice and `CheckSafety` finds no violation, then no two recorded
-- payments that share an account overlap in time.
pub check_safety_sound :
    (records : List ProcessRecord) (i j : ℕ) (a b : ProcessRecord)
    → Distinct records
    → check_safety (build_conflict_graph records) ≡ ok []
    → i < j
    → get_elem? records i ≡ some a
    → get_elem? records j ≡ some b
    → Conflict a b
    → intervals_overlap a b ≡ false
unfolding verify_processing_order build_conflict_graph order_of
check_safety_sound records i j a b d safe h p q c =
    let (x, xs, s) = Conflict-shared a b c in
    let (vs, found, (agree, _)) = check_safety-verify_processing_order records in
    let accepted : verify_processing_order records ≡ true = agree (ground (arith, found, safe)) in
    let ordered =
      order_ok-mem records (all_edges records) accepted
        (all_edges-mem records i j a b x xs h p q s) in
    ground (
      arith,
      ordered,
      last_with-Distinct records i a d p,
      last_with-Distinct records j b d q,
      in_order-overlap records a b,
    )
