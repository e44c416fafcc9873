-- ===== src/Tests/Checking.antt =====
-- Three recorded payments: two that share an account, one after the other, and one beside them.
use cbtraining.Base.{
  ◌⊎◌, ℕ, ℤ, pos, false, arith, String, ℕ, ◌≡◌, refl, arith, ◌↔◌, inl, inr, List, [], ◌∷◌, true,
  false,
}
use cbtraining.Errors.{ok}
use cbtraining.Checks.{
  ProcessRecord, SafetyViolation, build_conflict_graph, check_safety, verify_processing_order,
  last_with, intervals_overlap, all_edges, edges_of, add_edge, shared_ibans, has_account, keep,
  violations, violation, record_at,
}
use cbtraining.Checks.Timeline.{Row, visualize_time}
use cbtraining.Checks.Timeline.Bars.{Drawn, visualize_time-AreRows}
use cbtraining.Checks.Laws.{check_safety-verify_processing_order}
use cbtraining.Checks.Safety.{check_safety_sound}

abbrev recorded : String → ℕ → ℕ → String → String → ProcessRecord
recorded ete start_time end_time from to = record {
  ete = ete;
  start_time = start_time;
  end_time = end_time;
  debtor_iban = from;
  creditor_iban = to;
}

abbrev sample_records : List ProcessRecord
sample_records =
    recorded "a" 0 10 "A" "B" ∷ recorded "b" 10 20 "B" "C" ∷ recorded "c" 5 15 "D" "E" ∷ []

no_violation : check_safety (build_conflict_graph sample_records) ≡ ok []
unfolding check_safety build_conflict_graph all_edges edges_of add_edge shared_ibans has_account
    keep violations violation record_at intervals_overlap last_with
no_violation = refl

check_safety-verify_processing_order_example :
    (vs : List SafetyViolation) × (check_safety (build_conflict_graph sample_records) ≡ ok vs)
    × ((vs ≡ []) ↔ (verify_processing_order sample_records ≡ true))
check_safety-verify_processing_order_example = check_safety-verify_processing_order sample_records

check_safety_sound_example :
    intervals_overlap (recorded "a" 0 10 "A" "B") (recorded "b" 10 20 "B" "C") ≡ false
unfolding last_with
check_safety_sound_example =
    check_safety_sound sample_records 0 1 (recorded "a" 0 10 "A" "B") (recorded "b" 10 20 "B" "C")
      (refl, (refl, (refl, tt))) no_violation (omega arith) refl refl (inr (inr (inl refl)))

abbrev tagged_records : List ProcessRecord
tagged_records =
    record {
      ete = "E2E.1";
      start_time = 6;
      end_time = 8;
      debtor_iban = "DE00000000000001";
      creditor_iban = "DE00000000000002";
    }
    ∷ []

-- A quotient that is the time itself.
abbrev as_is : ℕ → ℕ → ℕ → ℤ
as_is t from to = pos t

visualize_time-AreRows_example :
    (vs : List SafetyViolation) × (rows : List Row) × (check_safety
        (build_conflict_graph tagged_records)
      ≡ ok vs)
    × (visualize_time as_is tagged_records ≡ ok rows)
    × (((tagged_records ≡ []) × (rows ≡ [])) ⊎ Drawn as_is vs tagged_records rows)
visualize_time-AreRows_example = visualize_time-AreRows as_is tagged_records (omega arith, tt)
