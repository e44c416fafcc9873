-- ===== src/Builders/Chains.antt =====
-- The payments that `BuildMany`, `BuildDependentChain` and `BuildConcurrentPressure` of
-- core/testhelpers/builders.go build together.
use cbtraining.Base.{
  ℕ, zero, suc, ◌≡◌, ◌≤◌, ◌<◌, refl, List, [], ◌∷◌, String, some, none, Option, arith, length, ap,
  ltb, Bool-cases, inl, inr, All,
}
use cbtraining.Errors.{Result, ok, panic}
use cbtraining.Ports.{PaymentRequest, PaymentAccountDto}
use cbtraining.Builders.{
  IbanPair, Built, build, with_debtor, with_creditor, build_many, linked, gen_ibans,
  build_dependent_chain, into_one, build_concurrent_pressure, new_payment_builder,
}
use cbtraining.Builders.Random.{Source, gen_iban}

abbrev iban_of : Option PaymentAccountDto → Option String
iban_of none = none
iban_of (some a) = some a.iban

-- The request is from one IBAN of the pair to the other.
pub record Pays (pair : IbanPair) (req : PaymentRequest) : Type 0 where
  pub from : iban_of req.debtor_pacc ≡ some pair.debtor
  pub to : iban_of req.creditor_pacc ≡ some pair.creditor

-- The n-th request is for the n-th pair, and there are no others.
abbrev pub PaysAll : List IbanPair → List PaymentRequest → Type 0
PaysAll [] [] = Unit
PaysAll (pair ∷ pairs) (req ∷ reqs) = Pays pair req × PaysAll pairs reqs
PaysAll _ _ = ⊥

pub build_many-PaysAll :
    (r : Source) (pairs : List IbanPair) (k : ℕ) → PaysAll pairs (build_many r pairs k).0.0
unfolding build_many build with_debtor with_creditor
build_many-PaysAll r [] k = tt
build_many-PaysAll r (pair ∷ pairs) k =
    (record { from = refl; to = refl }, build_many-PaysAll r pairs (new_payment_builder r k).1)

-- Each payment is from the account that the one before pays.
abbrev pub IsChain : List IbanPair → Type 0
IsChain [] = Unit
IsChain (p ∷ []) = Unit
IsChain (p ∷ q ∷ rest) = (p.creditor ≡ q.debtor) × IsChain (q ∷ rest)

linked-IsChain : (from : String) (ibans : List String) → IsChain (linked from ibans)
unfolding linked
linked-IsChain from [] = tt
linked-IsChain from (to ∷ []) = tt
linked-IsChain from (to ∷ next ∷ rest) = (refl, linked-IsChain to (next ∷ rest))

length-linked : (from : String) (ibans : List String) → length (linked from ibans) ≡ length ibans
unfolding linked
length-linked from [] = refl
length-linked from (to ∷ rest) = ap suc (length-linked to rest)

length-gen_ibans : (r : Source) (n k : ℕ) → length (gen_ibans r n k).0 ≡ n
unfolding gen_ibans
length-gen_ibans r zero k = refl
length-gen_ibans r (suc n) k = ap suc (length-gen_ibans r n (gen_iban r k).1)

-- What `BuildDependentChain` gives for a length.
abbrev pub ChainOf : ℕ → Result Built → Type 0
ChainOf n (ok (reqs, pbs)) =
    (pairs : List IbanPair) × (2 ≤ n) × (length pairs ≡ n) × IsChain pairs × PaysAll pairs reqs
ChainOf n panic = n < 2
ChainOf n (Result.err e) = ⊥

-- Whatever math/rand gives, `BuildDependentChain` panics for a length below 2, and builds else that many
-- requests, of which each pays from the account that the one before pays to.
pub build_dependent_chain-ChainOf :
    (r : Source) (n k : ℕ) → ChainOf n (build_dependent_chain r n k).0
unfolding build_dependent_chain
build_dependent_chain-ChainOf r n k = elim (Bool-cases (ltb n 2)) [
  | inl e ↦ rw e (ground arith)
  | inr e ↦
      let from : String = (gen_iban r k).0 in
      let ibans : List String = (gen_ibans r n (gen_iban r k).1).0 in
      rw e (
        linked from ibans,
        ground arith,
        ground (arith, length-linked from ibans, length-gen_ibans r n (gen_iban r k).1),
        linked-IsChain from ibans,
        build_many-PaysAll r (linked from ibans) _,
      )
]

-- All payments are to one account.
pub into_one-shared :
    (r : Source) (shared : String) (n k : ℕ)
    → (length (into_one r shared n k).0 ≡ n)
      × All (λ (p : IbanPair). p.creditor ≡ shared) (into_one r shared n k).0
unfolding into_one
into_one-shared r shared zero k = (refl, tt)
into_one-shared r shared (suc n) k =
    let (size, same) = into_one-shared r shared n (gen_iban r k).1 in (ap suc size, (refl, same))

-- `BuildConcurrentPressure` builds `count` requests that all pay to one account.
pub build_concurrent_pressure-shared :
    (r : Source) (count k : ℕ)
    → (shared : String) × (pairs : List IbanPair) × (length pairs ≡ count)
      × All (λ (p : IbanPair). p.creditor ≡ shared) pairs
      × PaysAll pairs (build_concurrent_pressure r count k).0.0
unfolding build_concurrent_pressure
build_concurrent_pressure-shared r count k =
    let shared : String = (gen_iban r k).0 in
    let k1 : ℕ = (gen_iban r k).1 in
    let (size, same) = into_one-shared r shared count k1 in
    (
      shared,
      (into_one r shared count k1).0,
      size,
      same,
      build_many-PaysAll r (into_one r shared count k1).0 _,
    )
