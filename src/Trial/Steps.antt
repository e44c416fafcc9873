-- ===== src/Trial/Steps.antt =====
-- What one step does to the records of a run, and to the times at which the workers entered `ProcessTX`.
use cbtraining.Base.{
  ℕ, ◌≤◌, ◌≡◌, inl, inr, refl, ◌∙◌, sym, ap, subst, arith, List, [], ◌∷◌, ◌++◌, some, Bool, true,
  false, ◌==◌, Bool-cases, get_elem?, set, get_elem?-set_self, get_elem?-set_ne,
}
use cbtraining.Entity.{PaymentTx, cred_iban, deb_iban, to_tx_request}
use cbtraining.Dispatcher.{WorkerAt, Group, Dispatcher}
use cbtraining.Dispatcher.Worker.{Choice, Effect, handles, negative, work, await, apply}
use cbtraining.Dispatcher.System.{Fired, called, added, worked, awaited, cancelled}
use cbtraining.Dispatcher.Moves.{advance-Touch, apply-groups}
use cbtraining.Dispatcher.Routes.{Extends, Points}
use cbtraining.Dispatcher.Exclusion.{Handles, Handles-Points}
use cbtraining.Dispatcher.Calm.{Routed}
use cbtraining.Checks.{ProcessRecord, intervals_overlap}
use cbtraining.Trial.{entered, records_after}
use cbtraining.Mocks.{process_record, mock_process_tx}
use cbtraining.Checks.Safety.{Conflict}
use cbtraining.Trial.Watch.{IsHandling, Kept, Enters, set-Enters, Touch-Enters}

module _ {D : Type 0} where
  pub Fired-Enters :
      {max_worker : ℕ} (s t : Dispatcher D) (since : ℕ → ℕ) (later : ℕ) (f : Fired max_worker s t)
      → Enters s t since (entered f later since) later
  unfolding entered await
  Fired-Enters s t since later (called tx e) i h q a =
      inl (h, ap (λ (d : Dispatcher D). get_elem? d.groups i) (sym e) ∙ q, a, refl)
  Fired-Enters s t since later (added i c k k' u e f g) n h q a =
      subst (λ (x : Dispatcher D). Enters s x since since later)
        {x = record u { calls = set u.calls i k' }} {y = t} (sym g)
        (Touch-Enters k s u since later (advance-Touch _ i c k s f)) n h q a
  Fired-Enters s t since later (awaited j g g' p w e) n h q a =
      set-Enters s t since later j g g' p (ap (λ (d : Dispatcher D). d.groups) e) (ground arith) n h
        q a
  Fired-Enters s t since later (cancelled e) i h q a =
      inl (h, ap (λ (d : Dispatcher D). get_elem? d.groups i) (sym e) ∙ q, a, refl)
  Fired-Enters s t since later (worked j c g g' e p w f) i h q a = elim (Bool-cases (i == j)) [
    | inl same ↦ inr (rw same refl)
    | inr differ ↦
        let old : get_elem? s.groups i ≡ some h =
          sym (get_elem?-set_ne s.groups j i g' (λ x. ground arith))
          ∙ ap (λ gs. get_elem? gs i)
              (sym (apply-groups e (record s { groups = set s.groups j g' }) f))
          ∙ q in
        inl (h, old, a, rw differ refl)
  ]

  -- The payment that a step of a worker hands over.
  abbrev Hands : Effect D → PaymentTx D → Type 0
  Hands (handles tx) tx' = tx ≡ tx'
  Hands (negative tx) tx' = tx ≡ tx'
  Hands _ tx' = ⊥

  work-Hands :
      (c : Choice) (root_done : Bool) (g : Group D) (tx : PaymentTx D) {g' : Group D} {e : Effect D}
      → work c root_done g ≡ some (g', e)
      → Hands e tx
      → Handles g.worker tx × (IsHandling g'.worker → ⊥)
  unfolding work
  work-Hands c root_done g tx h v = ground arith

  -- A new record: its accounts point to the group whose worker has just left `ProcessTX`.
  pub record Fresh (s t : Dispatcher D) (since : ℕ → ℕ) (now : ℕ) (r : ProcessRecord) : Type 0 where
    pub home : ℕ
    pub before : Group D
    pub after : Group D
    pub debtor : s.iban_to_group r.debtor_iban ≡ some home
    pub creditor : s.iban_to_group r.creditor_iban ≡ some home
    pub was_there : get_elem? s.groups home ≡ some before
    pub was_handling : IsHandling before.worker
    pub is_there : get_elem? t.groups home ≡ some after
    pub is_done : IsHandling after.worker → ⊥
    pub from : r.start_time ≡ since home
    pub until : r.end_time ≡ now

  pub data Grows (s t : Dispatcher D) (since : ℕ → ℕ) (now : ℕ)
      (records records' : List ProcessRecord) : Type 0 where
    same : records' ≡ records → Grows s t since now records records'
    more :
        (r : ProcessRecord)
        → records' ≡ records ++ r ∷ []
        → Fresh s t since now r
        → Grows s t since now records records'

  Handles-IsHandling : (w : WorkerAt D) (tx : PaymentTx D) → Handles w tx → IsHandling w
  Handles-IsHandling w tx (inl e) = subst IsHandling (sym e) tt
  Handles-IsHandling w tx (inr e) = subst IsHandling (sym e) tt

  -- `ProcessTX` returns.
  returned-Grows :
      (s t : Dispatcher D) (since : ℕ → ℕ) (now j : ℕ) (c : Choice) (g g' : Group D) (e : Effect D)
      (tx : PaymentTx D) (cut : Bool) (records : List ProcessRecord)
      → Routed s
      → get_elem? s.groups j ≡ some g
      → work c s.root_done g ≡ some (g', e)
      → apply e (record s { groups = set s.groups j g' }) ≡ some t
      → Hands e tx
      → Grows s t since now records (mock_process_tx cut (since j) now (to_tx_request tx) records).1
  unfolding mock_process_tx process_record to_tx_request deb_iban cred_iban
  returned-Grows s t since now j c g g' e tx true records v p w f h = same refl
  returned-Grows s t since now j c g g' e tx false records v p w f h =
      let (hands, done) = work-Hands c s.root_done g tx w h in
      let points : Points s.iban_to_group j tx =
        Handles-Points s.iban_to_group j g.worker tx hands (v.groups j g p).held in
      let there : get_elem? t.groups j ≡ some g' =
        ap (λ gs. get_elem? gs j) (apply-groups e (record s { groups = set s.groups j g' }) f)
        ∙ get_elem?-set_self s.groups j g' p in
      more (process_record (since j) now (to_tx_request tx)) refl (record {
        home = j;
        before = g;
        after = g';
        debtor = points.1;
        creditor = points.0;
        was_there = p;
        was_handling = Handles-IsHandling g.worker tx hands;
        is_there = there;
        is_done = done;
        from = refl;
        until = refl;
      })

  pub Fired-Grows :
      {max_worker : ℕ} (s t : Dispatcher D) (since : ℕ → ℕ) (now : ℕ) (cut : Bool)
      (records : List ProcessRecord)
      → Routed s
      → (f : Fired max_worker s t)
      → Grows s t since now records (records_after f cut now since records)
  unfolding records_after
  Fired-Grows s t since now cut records v (worked j c g g' (handles tx) p w f) =
      returned-Grows s t since now j c g g' (handles tx) tx cut records v p w f refl
  Fired-Grows s t since now cut records v (worked j c g g' (negative tx) p w f) =
      returned-Grows s t since now j c g g' (negative tx) tx cut records v p w f refl
  Fired-Grows s t since now cut records v (worked j c g g' _ p w f) = same refl
  Fired-Grows s t since now cut records v _ = same refl

  -- An old record of a shared account has ended when the new one started.
  pub Fresh-apart :
      (s t : Dispatcher D) (since : ℕ → ℕ) (now later : ℕ) (old r : ProcessRecord)
      → Kept s now since old
      → Fresh s t since later r
      → Conflict old r
      → intervals_overlap old r ≡ false
  unfolding intervals_overlap
  Fresh-apart s t since now later old r v w c =
      let one : v.home ≡ w.home = one_home c in
      let ended : old.end_time ≤ since w.home =
        subst (λ i. old.end_time ≤ since i) one
          (v.served w.before (ap (get_elem? s.groups) one ∙ w.was_there) w.was_handling) in
      ground (arith, w.from)
    where
      one_home : Conflict old r → v.home ≡ w.home
      one_home (inl e) = ground (arith, v.debtor, w.debtor, ap s.iban_to_group e)
      one_home (inr (inl e)) = ground (arith, v.debtor, w.creditor, ap s.iban_to_group e)
      one_home (inr (inr (inl e))) = ground (arith, v.creditor, w.debtor, ap s.iban_to_group e)
      one_home (inr (inr (inr e))) = ground (arith, v.creditor, w.creditor, ap s.iban_to_group e)

  -- The new record is kept.
  pub Fresh-Kept :
      (s t : Dispatcher D) (since since' : ℕ → ℕ) (later : ℕ) (r : ProcessRecord)
      → Extends s.iban_to_group t.iban_to_group
      → Fresh s t since later r
      → Kept t later since' r
  Fresh-Kept s t since since' later r m v = record {
    by_now = rw v.until (omega arith);
    home = v.home;
    debtor = m r.debtor_iban v.home v.debtor;
    creditor = m r.creditor_iban v.home v.creditor;
    served = λ h p q.
        let one : h ≡ v.after = ground (arith, v.is_there) in
        absurd (v.is_done (subst (λ (x : Group D). IsHandling x.worker) one q));
  }
