-- ===== src/Tests/Merging.antt =====
-- Runs of the dispatcher in which a payment meets two groups.
use cbtraining.Base.{
  false, String, str_eq, eq_iff, ◌≢◌, ◌≡◌, refl, arith, [], ◌∷◌, some, get_elem?, inl, ◌↔◌, true,
  none,
}
use cbtraining.Entity.{PaymentTx, cred_iban, deb_iban}
use cbtraining.Dispatcher.{Dispatcher, Group, new_dispatcher, new_group, sending, awaiting}
use cbtraining.Dispatcher.Add.{enter, route, start_merge, assign, relabel}
use cbtraining.Dispatcher.System.{Reachable}
use cbtraining.Dispatcher.Partition.{SameGroup, Joined, enter-joins}
use cbtraining.Dispatcher.Exclusion.{Handles, SharesAccount}
use cbtraining.Dispatcher.Overlap.{Separate, merge_overlaps}
use cbtraining.Dispatcher.Reentry.{reentry_overlaps}
use cbtraining.Tests.{sample_tx, first_tx}

abbrev second_tx : PaymentTx String
second_tx = sample_tx "DE00000000000003" "DE00000000000004"

-- From an account of the second group to one of the first.
abbrev third_tx : PaymentTx String
third_tx = sample_tx "DE00000000000003" "DE00000000000002"

abbrev two_groups : Dispatcher String
two_groups = record new_dispatcher {
  iban_to_group = assign "DE00000000000004" 1 (
      assign "DE00000000000003" 1
        (assign "DE00000000000002" 0 (assign "DE00000000000001" 0 (λ x. none))));
  semaphore = 2;
  wg = 2;
  groups = new_group ∷ new_group ∷ [];
  calls = sending first_tx 0 ∷ sending second_tx 1 ∷ [];
}

-- The state of the map after the third payment has entered.
abbrev entered : Dispatcher String
entered = record two_groups {
  iban_to_group = relabel 1 0 two_groups.iban_to_group;
  groups = new_group ∷ record new_group { merging = true; cancelled = true } ∷ [];
}

enter-joins_example :
    SameGroup entered.iban_to_group "DE00000000000001" "DE00000000000004"
    ↔ Joined two_groups.iban_to_group
        (cred_iban third_tx)
        (deb_iban third_tx)
        "DE00000000000001"
        "DE00000000000004"
unfolding enter route start_merge cred_iban deb_iban assign
enter-joins_example =
    enter-joins third_tx two_groups {u = entered} {k' = awaiting third_tx 0 1} refl
      (inl (ground arith)) refl "DE00000000000001" "DE00000000000004"

other_text : (s t : String) → str_eq s t ≡ false → s ≢ t
other_text s t h = ground (arith, eq_iff s t)

separate : Separate first_tx second_tx
unfolding cred_iban deb_iban
separate = (
  other_text "DE00000000000002" "DE00000000000004" refl,
  other_text "DE00000000000002" "DE00000000000003" refl,
  other_text "DE00000000000001" "DE00000000000004" refl,
  other_text "DE00000000000001" "DE00000000000003" refl,
)

merge_overlaps_example :
    (t : Dispatcher String) × Reachable 2 t
    × (g : Group String) × (h : Group String) × (get_elem? t.groups 0 ≡ some g)
    × Handles g.worker second_tx
    × (get_elem? t.groups 1 ≡ some h)
    × Handles h.worker second_tx
    × SharesAccount second_tx second_tx
    × (t.panicked ≡ false)
unfolding cred_iban deb_iban
merge_overlaps_example =
    merge_overlaps first_tx second_tx separate 2 third_tx second_tx (omega arith) refl refl refl
      refl

reentry_overlaps_example :
    (t : Dispatcher String) × Reachable 3 t
    × (g : Group String) × (h : Group String) × (get_elem? t.groups 0 ≡ some g)
    × Handles g.worker third_tx
    × (get_elem? t.groups 1 ≡ some h)
    × Handles h.worker second_tx
    × SharesAccount third_tx second_tx
    × (t.panicked ≡ false)
    × ((g.cancelled ≡ false) × (g.merging ≡ false))
    × ((h.cancelled ≡ false) × (h.merging ≡ false))
unfolding cred_iban deb_iban
reentry_overlaps_example =
    reentry_overlaps 3 first_tx second_tx third_tx separate (omega arith) refl refl
