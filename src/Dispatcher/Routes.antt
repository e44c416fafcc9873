-- ===== src/Dispatcher/Routes.antt =====
-- The map of core/entity/dispather.go, the payments whose accounts it points to a group, and the steps of
-- `add` that meet two different groups.
use cbtraining.Base.{
  ℕ, String, ◌≡◌, ◌⊎◌, Option, none, some, Bool, false, not, arith, All, All-map, ◌==◌, eq_iff,
}
use cbtraining.Entity.{PaymentTx, cred_iban, deb_iban}
use cbtraining.Dispatcher.{
  WorkerAt, processing, drain_processing, Group, CallAt, calling, has_slot, awaiting, relocking,
  moving_next, moving, sending, Dispatcher,
}
use cbtraining.Dispatcher.Add.{assign}
use cbtraining.Dispatcher.System.{Fired, added}

-- The two groups that `add` finds are there, and differ.
unfoldable pub clash : Option ℕ → Option ℕ → Bool
clash none gB = false
clash (some a) none = false
clash (some a) (some b) = not (a == b)

abbrev pub Extends : (String → Option ℕ) → (String → Option ℕ) → Type 0
Extends m m' = (iban : String) (j : ℕ) → m iban ≡ some j → m' iban ≡ some j

-- An IBAN that has no group, or that one, may be assigned.
pub assign-Extends :
    (iban : String) (g : ℕ) (m : String → Option ℕ)
    → (m iban ≡ none) ⊎ (m iban ≡ some g)
    → Extends m (assign iban g m)
unfolding assign
assign-Extends iban g m h other j e = ground (arith, eq_iff iban other)

pub assign_self : (iban : String) (g : ℕ) (m : String → Option ℕ) → assign iban g m iban ≡ some g
unfolding assign
assign_self iban g m = ground (arith, eq_iff iban iban)

module _ {D : Type 0} where
  unfoldable pub clash_of : PaymentTx D → Dispatcher D → Bool
  unfolding clash
  clash_of tx s = clash (s.iban_to_group (cred_iban tx)) (s.iban_to_group (deb_iban tx))

  -- The call is at a critical section in which it meets two different groups.
  unfoldable pub clashes : CallAt D → Dispatcher D → Bool
  unfolding clash_of
  clashes (calling tx) s = clash_of tx s
  clashes (has_slot tx) s = clash_of tx s
  clashes _ s = false

  -- The step goes through a critical section of `add` that meets two different groups.
  unfoldable pub meets : {max_worker : ℕ} {s t : Dispatcher D} → Fired max_worker s t → Bool
  unfolding clashes
  meets {s = s} (added i c k k' u e f g) = clashes k s
  meets _ = false

  -- Both accounts of a payment point to group number `j`.
  abbrev pub Points : (String → Option ℕ) → ℕ → PaymentTx D → Type 0
  Points m j tx = (m (cred_iban tx) ≡ some j) × (m (deb_iban tx) ≡ some j)

  abbrev pub HandRouted : (String → Option ℕ) → ℕ → WorkerAt D → Type 0
  HandRouted m j (processing tx) = Points m j tx
  HandRouted m j (drain_processing tx) = Points m j tx
  HandRouted m j _ = Unit

  pub record GroupRouted (m : String → Option ℕ) (j : ℕ) (g : Group D) : Type 0 where
    pub buffered : All (Points m j) g.ch
    pub held : HandRouted m j g.worker

  abbrev pub CallRouted : (String → Option ℕ) → CallAt D → Type 0
  CallRouted m (sending tx j) = Points m j tx
  CallRouted m (awaiting tx a b) = ⊥
  CallRouted m (relocking tx a b) = ⊥
  CallRouted m (moving_next tx a b) = ⊥
  CallRouted m (moving tx a b p) = ⊥
  CallRouted m _ = Unit

  module _ (m m' : String → Option ℕ) (more : Extends m m') where
    pub Points-Extends : (j : ℕ) (tx : PaymentTx D) → Points m j tx → Points m' j tx
    Points-Extends j tx p = (more (cred_iban tx) j p.0, more (deb_iban tx) j p.1)

    pub HandRouted-Extends : (j : ℕ) (w : WorkerAt D) → HandRouted m j w → HandRouted m' j w
    HandRouted-Extends j (processing tx) p = Points-Extends j tx p
    HandRouted-Extends j (drain_processing tx) p = Points-Extends j tx p
    HandRouted-Extends j _ p = tt

    pub GroupRouted-Extends : (j : ℕ) (g : Group D) → GroupRouted m j g → GroupRouted m' j g
    GroupRouted-Extends j g v = record {
      buffered = All-map (Points m j) (Points m' j) g.ch (Points-Extends j) v.buffered;
      held = HandRouted-Extends j g.worker v.held;
    }

    pub CallRouted-Extends : (k : CallAt D) → CallRouted m k → CallRouted m' k
    CallRouted-Extends (sending tx j) p = Points-Extends j tx p
    CallRouted-Extends (awaiting tx a b) p = p
    CallRouted-Extends (relocking tx a b) p = p
    CallRouted-Extends (moving_next tx a b) p = p
    CallRouted-Extends (moving tx a b q) p = p
    CallRouted-Extends _ p = tt
