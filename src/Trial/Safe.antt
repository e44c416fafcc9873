-- ===== src/Trial/Safe.antt =====
-- The runs of core/infrastructure_test.go and `CheckSafety` of core/testhelpers/utils.go.
use cbtraining.Base.{ℕ, ◌≡◌, sym, subst, List, [], ◌∷◌, All, All-map, All-append}
use cbtraining.Errors.{ok}
use cbtraining.Dispatcher.{Dispatcher}
use cbtraining.Dispatcher.Routes.{Extends}
use cbtraining.Dispatcher.Calm.{start, later, Fired-Extends, Routed, Calm, Calm-Routed}
use cbtraining.Checks.{ProcessRecord, build_conflict_graph, check_safety}
use cbtraining.Checks.Safety.{Distinct}
use cbtraining.Checks.Complete.{IsApart, Separate, Separate-append, check_safety_complete}
use cbtraining.Trial.{IsCalm, Trial, starts, goes, entered, records_after}
use cbtraining.Trial.Watch.{Kept, Kept-step}
use cbtraining.Trial.Steps.{Fired-Enters, Fresh-apart, Fresh-Kept, Grows, same, more, Fired-Grows}

module _ {D : Type 0} where
  pub Trial-Calm :
      {max_worker now : ℕ} {s : Dispatcher D} {since : ℕ → ℕ} {records : List ProcessRecord}
      → Trial max_worker (IsCalm max_worker) s now since records
      → Calm max_worker s
  Trial-Calm starts = start
  Trial-Calm (goes r f n now' l cut) = later (Trial-Calm r) f n

  record Watched (s : Dispatcher D) (now : ℕ) (since : ℕ → ℕ) (records : List ProcessRecord)
      : Type 0 where
    kept : All (Kept s now since) records
    separate : Separate records

  Grows-Watched :
      (s t : Dispatcher D) (since since' : ℕ → ℕ) (now now' : ℕ)
      (records records' : List ProcessRecord)
      → Extends s.iban_to_group t.iban_to_group
      → All (Kept t now' since') records
      → Watched s now since records
      → Grows s t since now' records records'
      → Watched t now' since' records'
  Grows-Watched s t since since' now now' records records' m k v (same e) =
      subst (Watched t now' since') (sym e) (record { kept = k; separate = v.separate })
  Grows-Watched s t since since' now now' records records' m k v (more r e w) =
      subst (Watched t now' since') (sym e) (record {
        kept =
            All-append (Kept t now' since') records (r ∷ []) k
              (Fresh-Kept s t since since' now' r m w, tt);
        separate = Separate-append records r v.separate (
            All-map (Kept s now since) (λ old. IsApart old r) records
              (λ old h. Fresh-apart s t since now now' old r h w) v.kept);
      })

  Trial-Watched :
      {max_worker now : ℕ} {s : Dispatcher D} {since : ℕ → ℕ} {records : List ProcessRecord}
      → Trial max_worker (IsCalm max_worker) s now since records
      → Watched s now since records
  Trial-Watched starts = record { kept = tt; separate = tt }
  Trial-Watched {max_worker} (goes {s} {t} {now} {since} {records} r f n now' l cut) =
      let v : Watched s now since records = Trial-Watched r in
      let routed : Routed s = Calm-Routed (Trial-Calm r) in
      let m : Extends s.iban_to_group t.iban_to_group = Fired-Extends max_worker s t routed f n in
      Grows-Watched s t since (entered f now' since) now now' records
        (records_after f cut now' since records) m
        (All-map (Kept s now since) (Kept t now' (entered f now' since)) records
          (λ old.
            Kept-step s t since (entered f now' since) now now' old m l
              (Fired-Enters s t since now' f))
          v.kept)
        v (Fired-Grows s t since now' cut records routed f)

  -- In a run in which no call of `add` meets two different groups, with a clock that does not go back,
  -- `CheckSafety` finds no violation in what the processor of the tests has recorded, if no
  -- identification is recorded twice: no two payments that share an account were in `ProcessTX` at the
  -- same time.
  pub checked_run_safe :
      {max_worker now : ℕ} {s : Dispatcher D} {since : ℕ → ℕ} {records : List ProcessRecord}
      → Trial max_worker (IsCalm max_worker) s now since records
      → Distinct records
      → check_safety (build_conflict_graph records) ≡ ok []
  checked_run_safe {records = records} r d =
      check_safety_complete records d (Trial-Watched r).separate
