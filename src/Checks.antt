-- ===== src/Checks.antt =====
-- core/testhelpers/utils.go: the graph of the payments that share an account, and the checks on what the
-- processor has recorded. A time is a number of nanoseconds.
pub mod Laws
pub mod Safety
pub mod Complete
pub mod Timeline
pub mod Assert
use cbtraining.Base.{
  ℕ, zero, suc, ◌-◌, ◌/◌, ◌+◌, ℤ, pos, negsuc, String, Bool, true, false, not, ◌&&◌, ◌||◌, List, [],
  ◌∷◌, ◌++◌, Option, none, some, ltb, leb, ◌==◌, str_eq, if◌then◌else◌,
}
use cbtraining.Errors.{Result, ok, err, panic, ◌>>=◌}

-- The fields of `ProcessRecord` that the checks read.
pub record ProcessRecord : Type 0 where
  pub ete : String
  pub start_time : ℕ
  pub end_time : ℕ
  pub debtor_iban : String
  pub creditor_iban : String

pub record ConflictEdge : Type 0 where
  pub ete_a : String
  pub ete_b : String
  pub shared : List String

-- The map `adj` is the list of its pairs of indices.
pub record ConflictGraph : Type 0 where
  pub records : List ProcessRecord
  pub edges : List ConflictEdge
  pub adj : List (ℕ × ℕ)

unfoldable pub has_account : ProcessRecord → String → Bool
has_account a iban = str_eq a.debtor_iban iban || str_eq a.creditor_iban iban

unfoldable pub keep : Bool → String → List String → List String
keep true iban rest = iban ∷ rest
keep false iban rest = rest

unfoldable pub shared_ibans : ProcessRecord → ProcessRecord → List String
unfolding has_account keep
shared_ibans a b =
    keep (has_account a b.debtor_iban) b.debtor_iban
      (keep (has_account a b.creditor_iban) b.creditor_iban [])

unfoldable pub add_edge :
    ProcessRecord → ProcessRecord → List String → List ConflictEdge → List ConflictEdge
add_edge a b [] later = later
add_edge a b (x ∷ xs) later = record { ete_a = a.ete; ete_b = b.ete; shared = x ∷ xs } ∷ later

-- The inner loop: the edges of one record to the later ones.
unfoldable pub edges_of : ProcessRecord → List ProcessRecord → List ConflictEdge
unfolding shared_ibans add_edge
edges_of a [] = []
edges_of a (b ∷ rest) = add_edge a b (shared_ibans a b) (edges_of a rest)

unfoldable pub all_edges : List ProcessRecord → List ConflictEdge
unfolding edges_of
all_edges [] = []
all_edges (a ∷ rest) = edges_of a rest ++ all_edges rest

add_pair : ℕ → ℕ → List String → List (ℕ × ℕ) → List (ℕ × ℕ)
add_pair i j [] later = later
add_pair i j (x ∷ xs) later = (i, j) ∷ (j, i) ∷ later

pairs_of : ℕ → ℕ → ProcessRecord → List ProcessRecord → List (ℕ × ℕ)
unfolding add_pair shared_ibans
pairs_of i j a [] = []
pairs_of i j a (b ∷ rest) = add_pair i j (shared_ibans a b) (pairs_of i (j + 1) a rest)

all_pairs : ℕ → List ProcessRecord → List (ℕ × ℕ)
unfolding pairs_of
all_pairs i [] = []
all_pairs i (a ∷ rest) = pairs_of i (i + 1) a rest ++ all_pairs (i + 1) rest

unfoldable pub build_conflict_graph : List ProcessRecord → ConflictGraph
unfolding all_edges all_pairs
build_conflict_graph records = record {
  records = records;
  edges = all_edges records;
  adj = all_pairs 0 records;
}

unfoldable pub intervals_overlap : ProcessRecord → ProcessRecord → Bool
intervals_overlap a b = ltb a.start_time b.end_time && ltb b.start_time a.end_time

has_pair : ℕ → ℕ → List (ℕ × ℕ) → Bool
has_pair i j [] = false
has_pair i j ((a, b) ∷ rest) = (a == i && b == j) || has_pair i j rest

unfoldable pub is_conflicting : ConflictGraph → ℕ → ℕ → Bool
unfolding has_pair
is_conflicting g i j = has_pair i j g.adj

-- `Sub` and `Milliseconds`, which rounds towards zero.
minus : ℕ → ℤ
minus zero = pos 0
minus (suc n) = negsuc n

milliseconds_between : ℕ → ℕ → ℤ
unfolding minus
milliseconds_between start stop =
    if leb start stop then pos ((stop - start) / 1000000) else minus ((start - stop) / 1000000)

unfoldable pub overlap_ms : ProcessRecord → ProcessRecord → ℤ
unfolding milliseconds_between
overlap_ms a b =
    milliseconds_between (if ltb a.start_time b.start_time then b.start_time else a.start_time)
      (if ltb b.end_time a.end_time then b.end_time else a.end_time)

-- The map from an identification to its last record.
unfoldable pub last_with : String → List ProcessRecord → Option ProcessRecord
last_with k [] = none
last_with k (r ∷ rest) =
    let later = last_with k rest in
    elim later [ some x ↦ some x | none ↦ if str_eq r.ete k then some r else none ]

-- A key that is missing has the index 0.
unfoldable pub record_at : String → List ProcessRecord → Result ProcessRecord
unfolding last_with
record_at k records = elim (last_with k records) [
  | some r ↦ ok r
  | none ↦ elim records [ [] ↦ panic | ◌∷◌ r rest ↦ ok r ]
]

pub record SafetyViolation : Type 0 where
  pub rec_a : ProcessRecord
  pub rec_b : ProcessRecord
  pub shared : List String
  pub overlap : ℤ

unfoldable pub violation :
    ProcessRecord → ProcessRecord → List String → List SafetyViolation → List SafetyViolation
unfolding overlap_ms
violation a b shared later =
    if intervals_overlap a b
    then record { rec_a = a; rec_b = b; shared = shared; overlap = overlap_ms a b } ∷ later
    else later

unfoldable pub violations : List ProcessRecord → List ConflictEdge → Result (List SafetyViolation)
unfolding record_at violation
violations records [] = ok []
violations records (e ∷ rest) = do
  a ← record_at e.ete_a records
  b ← record_at e.ete_b records
  later ← violations records rest
  ok (violation a b e.shared later)

unfoldable pub check_safety : ConflictGraph → Result (List SafetyViolation)
unfolding violations
check_safety g = violations g.records g.edges

-- One has ended when the other starts.
unfoldable pub in_order : ProcessRecord → ProcessRecord → Bool
in_order a b = not (ltb b.start_time a.end_time) || not (ltb a.start_time b.end_time)

unfoldable pub order_of : Option ProcessRecord → Option ProcessRecord → Bool
unfolding in_order
order_of (some a) (some b) = in_order a b
order_of none b = true
order_of (some a) none = true

unfoldable pub order_ok : List ProcessRecord → List ConflictEdge → Bool
unfolding order_of last_with
order_ok records [] = true
order_ok records (e ∷ rest) =
    order_of (last_with e.ete_a records) (last_with e.ete_b records) && order_ok records rest

unfoldable pub verify_processing_order : List ProcessRecord → Bool
unfolding order_ok build_conflict_graph
verify_processing_order records = order_ok records (build_conflict_graph records).edges

unfoldable pub is_processed : String → List ProcessRecord → Bool
is_processed k [] = false
is_processed k (r ∷ rest) = str_eq r.ete k || is_processed k rest

unfoldable pub check_liveness : List ProcessRecord → List String → List String
unfolding is_processed
check_liveness records [] = []
check_liveness records (k ∷ rest) =
    let missing = check_liveness records rest in
    if is_processed k records then missing else k ∷ missing

pub record ParallelPair : Type 0 where
  pub rec_a : ProcessRecord
  pub rec_b : ProcessRecord
  pub overlap : ℤ

paired : ProcessRecord → ProcessRecord → List ParallelPair → List ParallelPair
unfolding overlap_ms
paired a b later =
    if intervals_overlap a b
    then record { rec_a = a; rec_b = b; overlap = overlap_ms a b } ∷ later
    else later

-- The inner loop, from index `j` on; the flag says that an independent pair was seen.
parallel_of : ConflictGraph → ℕ → ℕ → ProcessRecord → List ProcessRecord → List ParallelPair × Bool
unfolding paired is_conflicting
parallel_of g i j a [] = ([], false)
parallel_of g i j a (b ∷ rest) =
    let later = parallel_of g i (j + 1) a rest in
    if is_conflicting g i j then later else (paired a b later.0, true)

parallel_all : ConflictGraph → ℕ → List ProcessRecord → List ParallelPair × Bool
unfolding parallel_of
parallel_all g i [] = ([], false)
parallel_all g i (a ∷ rest) =
    let first = parallel_of g i (i + 1) a rest in
    let later = parallel_all g (i + 1) rest in (first.0 ++ later.0, first.1 || later.1)

unfoldable pub check_parallelism : ConflictGraph → List ParallelPair × Bool
unfolding parallel_all
check_parallelism g = parallel_all g 0 g.records
