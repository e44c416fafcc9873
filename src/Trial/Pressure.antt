-- ===== src/Trial/Pressure.antt =====
-- `TestSafety_ConcurrentPressure` of core/infrastructure_test.go: every payment is to one account.
use cbtraining.Base.{
  ℕ, ◌≡◌, refl, sym, subst, arith, String, List, [], ◌∷◌, All, All-append, All-set, All-get, some,
  set,
}
use cbtraining.Errors.{ok}
use cbtraining.Entity.{cred_iban}
use cbtraining.Dispatcher.{calling, has_slot, Dispatcher}
use cbtraining.Dispatcher.Worker.{Effect, apply}
use cbtraining.Dispatcher.System.{Fired, called, added, worked, awaited, cancelled}
use cbtraining.Dispatcher.Routes.{clashes, meets}
use cbtraining.Checks.{ProcessRecord, build_conflict_graph, check_safety}
use cbtraining.Checks.Safety.{Distinct}
use cbtraining.Trial.{Condition, IsCalm, Trial, starts, goes}
use cbtraining.Trial.Safe.{checked_run_safe}
use cbtraining.Dispatcher.Ready.{advance-calls}
use cbtraining.Trial.Pressed.{CallTo, Pressed, Pressed-clash, advance-Leaves, kept_map}

module _ {D : Type 0} (x : String) where
  -- Every new payment is to the account.
  abbrev pub PaysTo : (max_worker : ℕ) → Condition D max_worker
  PaysTo max_worker s t (called tx e) = cred_iban tx ≡ x
  PaysTo max_worker s t _ = Unit

  apply-rest :
      (e : Effect D) (s : Dispatcher D) {t : Dispatcher D}
      → apply e s ≡ some t
      → (t.iban_to_group ≡ s.iban_to_group) × (t.calls ≡ s.calls)
  unfolding apply
  apply-rest e s h = ground arith

  -- The step meets no two groups, and what holds of the state holds after it.
  module _ (max_worker : ℕ) (s t : Dispatcher D) (v : Pressed x s) where
    Pressed-IsCalm : (f : Fired max_worker s t) → IsCalm max_worker s t f
    unfolding meets clashes
    Pressed-IsCalm (added i c (calling tx) k' u e f g) =
        Pressed-clash x tx s (All-get (CallTo x) s.calls i v.calls e) v.map
    Pressed-IsCalm (added i c (has_slot tx) k' u e f g) =
        Pressed-clash x tx s (All-get (CallTo x) s.calls i v.calls e) v.map
    Pressed-IsCalm _ = refl

    Pressed-step : (f : Fired max_worker s t) → PaysTo max_worker s t f → Pressed x t
    Pressed-step (called tx e) p = subst (Pressed x) (sym e) (record {
      map = v.map;
      calls = All-append (CallTo x) s.calls (calling tx ∷ []) v.calls (p, tt);
    })
    Pressed-step (added i c k k' u e f g) p =
        let (to, one) =
          advance-Leaves x max_worker i c k s f (All-get (CallTo x) s.calls i v.calls e) v.map in
        subst (Pressed x) {x = record u { calls = set u.calls i k' }} (sym g) (record {
          map = one;
          calls =
              subst (λ ks. All (CallTo x) (set ks i k')) (sym (advance-calls max_worker i c k s f))
                (All-set (CallTo x) s.calls i k' v.calls to);
        })
    Pressed-step (worked j c g g' e p w h) q =
        let (em, ec) = apply-rest e (record s { groups = set s.groups j g' }) h in
        record { map = kept_map x s t em v.map; calls = subst (All (CallTo x)) (sym ec) v.calls }
    Pressed-step (awaited j g g' p w e) q =
        subst (Pressed x) (sym e) (record { map = v.map; calls = v.calls })
    Pressed-step (cancelled e) q =
        subst (Pressed x) (sym e) (record { map = v.map; calls = v.calls })

  Trial-Pressed :
      {max_worker now : ℕ} {s : Dispatcher D} {since : ℕ → ℕ} {records : List ProcessRecord}
      → Trial max_worker (PaysTo max_worker) s now since records
      → Pressed x s × Trial max_worker (IsCalm max_worker) s now since records
  Trial-Pressed starts = (record { map = λ iban j e. absurd (ground arith); calls = tt }, starts)
  Trial-Pressed {max_worker} (goes {s} {t} r f p later l cut) =
      let (v, calm) = Trial-Pressed r in
      (
        Pressed-step max_worker s t v f p,
        goes calm f (Pressed-IsCalm max_worker s t v f) later l cut,
      )

  -- In every run in which all payments are to one account, with a clock that does not go back,
  -- `CheckSafety` finds no violation in what the processor of the tests has recorded, if no
  -- identification is recorded twice.
  pub pressure_safe :
      {max_worker now : ℕ} {s : Dispatcher D} {since : ℕ → ℕ} {records : List ProcessRecord}
      → Trial max_worker (PaysTo max_worker) s now since records
      → Distinct records
      → check_safety (build_conflict_graph records) ≡ ok []
  pressure_safe r d = checked_run_safe (Trial-Pressed r).1 d
