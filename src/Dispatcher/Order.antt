-- ===== src/Dispatcher/Order.antt =====
-- The order in which `runWorker` handles the payments of one account that `add` has sent, in runs in
-- which no call of `add` meets two different groups.
use mathlib.Core.List.{reverse, reverse-cons}
use cbtraining.Base.{
  ℕ, String, ◌≡◌, refl, ◌∙◌, sym, ap, List, [], ◌∷◌, ◌++◌, append-nil, append_assoc, some, Option,
  Bool, arith, get_elem?, set, All, All-append, All-get, subst,
}
use cbtraining.Entity.{PaymentTx}
use cbtraining.Dispatcher.{WorkerAt, processing, drain_processing, Group, CallAt, Dispatcher}
use cbtraining.Dispatcher.Worker.{Choice, Effect, handles, negative, work, await, apply}
use cbtraining.Dispatcher.System.{Fired, called, added, worked, awaited, cancelled}
use cbtraining.Dispatcher.Routes.{Points, HandRouted, GroupRouted, CallRouted}
use cbtraining.Dispatcher.Calm.{start, later, Routed, Calm, Calm-Routed}
use cbtraining.Dispatcher.Line.{only, held, queue, line, only-append, line-set_same}
use cbtraining.Dispatcher.Ends.{line-front, line-back, quiet_or_Alone}
use cbtraining.Dispatcher.Sends.{Adds, keeps, sends, advance-Adds}

module _ {D : Type 0} where
  -- The payments of an account in a record of the newest first, oldest first.
  pub past : String → List (PaymentTx D) → List (PaymentTx D)
  past x txs = only x (reverse txs)

  past-cons :
      (x : String) (tx : PaymentTx D) (txs : List (PaymentTx D))
      → past x (tx ∷ txs) ≡ past x txs ++ only x (tx ∷ [])
  unfolding past
  past-cons x tx txs = ap (only x) (reverse-cons tx txs) ∙ only-append x (reverse txs) (tx ∷ [])

  -- What a step of a worker hands over.
  handed : Effect D → List (PaymentTx D)
  handed (handles tx) = tx ∷ []
  handed (negative tx) = tx ∷ []
  handed _ = []

  work-queue :
      (c : Choice) (root_done : Bool) (g : Group D) {g' : Group D} {e : Effect D}
      → work c root_done g ≡ some (g', e)
      → queue g ≡ handed e ++ queue g'
  unfolding work handed
  work-queue c root_done g h = ground arith

  apply-handed :
      (e : Effect D) (s : Dispatcher D) {t : Dispatcher D}
      → apply e s ≡ some t
      → (t.groups ≡ s.groups) × (t.accepted ≡ s.accepted) × (t.handled ≡ handed e ++ s.handled)
  unfolding apply handed
  apply-handed e s h = ground arith

  await-queue : (g : Group D) {g' : Group D} → await g ≡ some g' → queue g' ≡ queue g
  unfolding await
  await-queue g h = ground arith

  -- What was accepted for the account is what was handled for it, followed by what is queued for it.
  abbrev Lined : String → Dispatcher D → Type 0
  Lined x s = past x s.accepted ≡ past x s.handled ++ line x s.groups

  All-front : (P : PaymentTx D → Type 0) (xs ys : List (PaymentTx D)) → All P (xs ++ ys) → All P xs
  All-front P [] ys h = tt
  All-front P (x ∷ xs) ys h = (h.0, All-front P xs ys h.1)

  GroupRouted-queue :
      (m : String → Option ℕ) (j : ℕ) (g : Group D) → GroupRouted m j g → All (Points m j) (queue g)
  GroupRouted-queue m j g v =
      All-append (Points m j) (held g.worker) g.ch (in_hand g.worker v.held) v.buffered
    where
      in_hand : (w : WorkerAt D) → HandRouted m j w → All (Points m j) (held w)
      in_hand (processing tx) h = (h, tt)
      in_hand (drain_processing tx) h = (h, tt)
      in_hand _ h = tt

  past-handed :
      (x : String) (e : Effect D) (txs : List (PaymentTx D))
      → past x (handed e ++ txs) ≡ past x txs ++ only x (handed e)
  unfolding handed only
  past-handed x (handles tx) txs = past-cons x tx txs
  past-handed x (negative tx) txs = past-cons x tx txs
  past-handed x _ txs = sym (append-nil _)

  worked-Lined :
      (x : String) (s t : Dispatcher D) (j : ℕ) (c : Choice) (g g' : Group D) (e : Effect D)
      → Routed s
      → get_elem? s.groups j ≡ some g
      → work c s.root_done g ≡ some (g', e)
      → apply e (record s { groups = set s.groups j g' }) ≡ some t
      → Lined x s
      → Lined x t
  worked-Lined x s t j c g g' e r p w h v =
      let (eg, ea, eh) = apply-handed e (record s { groups = set s.groups j g' }) h in
      let split : queue g ≡ handed e ++ queue g' = work-queue c s.root_done g w in
      let routed : All (Points s.iban_to_group j) (handed e ++ queue g') =
        subst (All (Points s.iban_to_group j)) split
          (GroupRouted-queue s.iban_to_group j g (r.groups j g p)) in
      ap (past x) ea
      ∙ v
      ∙ ap (λ l. past x s.handled ++ l)
          (line-front x s.groups j g g' (handed e) p split (
            quiet_or_Alone s x j (handed e) r
              (All-front (Points s.iban_to_group j) (handed e) (queue g') routed)))
      ∙ sym (append_assoc (past x s.handled) (only x (handed e)) (line x (set s.groups j g')))
      ∙ ap (λ l. l ++ line x (set s.groups j g')) (sym (past-handed x e s.handled))
      ∙ rw (eg, eh) refl

  sent-Lined :
      (x : String) (s u : Dispatcher D) (tx : PaymentTx D) (j : ℕ) (g g' : Group D)
      → Routed s
      → Points s.iban_to_group j tx
      → get_elem? s.groups j ≡ some g
      → u.groups ≡ set s.groups j g'
      → queue g' ≡ queue g ++ tx ∷ []
      → u.accepted ≡ tx ∷ s.accepted
      → u.handled ≡ s.handled
      → Lined x s
      → Lined x u
  sent-Lined x s u tx j g g' r pt p eg eq ea eh v =
      ap (past x) ea
      ∙ past-cons x tx s.accepted
      ∙ ap (λ l. l ++ only x (tx ∷ [])) v
      ∙ append_assoc (past x s.handled) (line x s.groups) (only x (tx ∷ []))
      ∙ ap (λ l. past x s.handled ++ l)
          (sym (
            line-back x s.groups j g g' (tx ∷ []) p eq (quiet_or_Alone s x j (tx ∷ []) r (pt, tt))))
      ∙ rw (eg, eh) refl

  Adds-Lined :
      (x : String) (s u : Dispatcher D) (k : CallAt D)
      → Routed s
      → CallRouted s.iban_to_group k
      → Adds s u k
      → Lined x s
      → Lined x u
  Adds-Lined x s u k r c (keeps el ea eh) v = ap (past x) ea ∙ v ∙ rw (sym (el x), eh) refl
  Adds-Lined x s u k r c (sends tx j g g' ek p eg eq ea eh) v =
      sent-Lined x s u tx j g g' r (subst (CallRouted s.iban_to_group) ek c) p eg eq ea eh v

  step-Lined :
      (max_worker : ℕ) (x : String) (s t : Dispatcher D)
      → Routed s
      → Fired max_worker s t
      → Lined x s
      → Lined x t
  step-Lined max_worker x s t r (called tx e) v = ground arith
  step-Lined max_worker x s t r (added i c k k' u e f g) v =
      let routed : CallRouted s.iban_to_group k =
        All-get (CallRouted s.iban_to_group) s.calls i r.calls e in
      subst (Lined x) {x = record u { calls = set u.calls i k' }} {y = t} (sym g)
        (Adds-Lined x s u k r routed (advance-Adds max_worker i c k s f routed) v)
  step-Lined max_worker x s t r (worked j c g g' e p w h) v =
      worked-Lined x s t j c g g' e r p w h v
  step-Lined max_worker x s t r (awaited j g g' p w e) v =
      let same : line x (set s.groups j g') ≡ line x s.groups =
        line-set_same x s.groups j g g' p (ap (only x) (await-queue g w)) in
      subst (Lined x) {x = record s { groups = set s.groups j g' }} {y = t} (sym e)
        (v ∙ ap (λ l. past x s.handled ++ l) (sym same))
  step-Lined max_worker x s t r (cancelled e) v = ground arith

  -- In a run in which no call of `add` meets two different groups, for every account: the payments of
  -- the account that were accepted are, in the order in which they were accepted, those that were
  -- handled, in the order in which they were handled, followed by those still in the groups.
  pub calm_order :
      {max_worker : ℕ} {s : Dispatcher D} (x : String)
      → Calm max_worker s
      → past x s.accepted ≡ past x s.handled ++ line x s.groups
  unfolding past only line
  calm_order x start = refl
  calm_order {max_worker} x (later {s} {t} r f n) =
      step-Lined max_worker x s t (Calm-Routed r) f (calm_order x r)
