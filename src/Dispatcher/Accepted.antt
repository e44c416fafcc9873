-- ===== src/Dispatcher/Accepted.antt =====
-- A payment on the accounts of a group whose worker has left: a call of `add`, step by step, and what
-- follows it.
use cbtraining.Base.{
  ℕ, ◌+◌, ◌<◌, ◌≡◌, ◌∙◌, ap, refl, List, [], ◌∷◌, ◌++◌, none, some, false, arith, get_elem?, set,
  length, get_elem?-set_self, get_elem?-append_last, set-append_last,
}
use cbtraining.Errors.{ok}
use cbtraining.Entity.{PaymentTx, cred_iban, deb_iban}
use cbtraining.Dispatcher.{
  Group, CallAt, returned, Dispatcher, chan_buffer, sending, counting, calling,
}
use cbtraining.Dispatcher.Worker.{Choice, first}
use cbtraining.Dispatcher.Add.{advance, enter, send}
use cbtraining.Dispatcher.System.{calls, adds, step, Reach, Reachable, here, next}
use cbtraining.Dispatcher.Lost.{IsDead, Stays, dead_channel_kept}

module _ {D : Type 0} where
  -- The step of the call that was made last.
  step-last :
      (max_worker : ℕ) (c : Choice) (cs : List (CallAt D)) (k k' : CallAt D) (s u : Dispatcher D)
      → s.panicked ≡ false
      → s.calls ≡ cs ++ k ∷ []
      → advance max_worker (length cs) c k s ≡ some (k', u)
      → u.calls ≡ s.calls
      → step max_worker (adds (length cs) c) s ≡ some (record u { calls = cs ++ k' ∷ [] })
  unfolding step
  step-last max_worker c cs k k' s u p e a f = ground (
    arith,
    get_elem?-append_last cs k,
    set-append_last cs k k',
    ap (λ l. get_elem? l (length cs)) e,
    ap (λ l. set l (length cs) k') (f ∙ e),
  )

  -- Group number `j` is dead and has room, and both accounts of `tx` point to it.
  pub record Trap (j : ℕ) (g : Group D) (tx : PaymentTx D) (s : Dispatcher D) : Type 0 where
    pub at : get_elem? s.groups j ≡ some g
    pub dead : IsDead g
    pub room : length g.ch < chan_buffer
    pub creditor : s.iban_to_group (cred_iban tx) ≡ some j
    pub debtor : s.iban_to_group (deb_iban tx) ≡ some j
    pub serving : s.root_done ≡ false
    pub running : s.panicked ≡ false
    pub free : s.mu ≡ none

  with_call : CallAt D → Dispatcher D → Dispatcher D → Dispatcher D
  with_call k s u = record u { calls = s.calls ++ k ∷ [] }

  filled : PaymentTx D → Group D → Group D
  filled tx g = record g { ch = g.ch ++ tx ∷ [] }

  counted : Group D → Group D
  counted g = record g { wg = g.wg + 1 }

  after_send : ℕ → Group D → PaymentTx D → Dispatcher D → Dispatcher D
  unfolding filled
  after_send j g tx s = record s {
    groups = set s.groups j (filled tx g);
    accepted = tx ∷ s.accepted;
  }

  after_count : ℕ → Group D → PaymentTx D → Dispatcher D → Dispatcher D
  unfolding after_send counted
  after_count j g tx s = record (after_send j g tx s) {
    groups = set (set s.groups j (filled tx g)) j (counted (filled tx g));
  }

  module _ (max_worker : ℕ) {j : ℕ} {g : Group D} (tx : PaymentTx D) (s : Dispatcher D)
      (h : Trap j g tx s) where
    call_step : step max_worker (calls tx) s ≡ some (with_call (calling tx) s s)
    unfolding step with_call
    call_step = ground (arith, h.running)

    enter_step :
        step max_worker (adds (length s.calls) first) (with_call (calling tx) s s)
        ≡ some (with_call (sending tx j) s s)
    unfolding with_call advance enter
    enter_step =
        step-last max_worker first s.calls (calling tx) (sending tx j) (with_call (calling tx) s s)
          (with_call (calling tx) s s) h.running refl
          (ground (arith, h.serving, h.free, h.creditor, h.debtor)) refl

    send_step :
        step max_worker (adds (length s.calls) first) (with_call (sending tx j) s s)
        ≡ some (with_call (counting tx j) s (after_send j g tx s))
    unfolding with_call advance send after_send
    send_step =
        step-last max_worker first s.calls (sending tx j) (counting tx j)
          (with_call (sending tx j) s s) (with_call (sending tx j) s (after_send j g tx s))
          h.running refl (ground (arith, h.at, h.room)) refl

    count_step :
        step max_worker
          (adds (length s.calls) first)
          (with_call (counting tx j) s (after_send j g tx s))
        ≡ some (with_call (returned (ok tt)) s (after_count j g tx s))
    unfolding with_call advance after_count
    count_step =
        step-last max_worker first s.calls (counting tx j) (returned (ok tt))
          (with_call (counting tx j) s (after_send j g tx s))
          (with_call (counting tx j) s (after_count j g tx s)) h.running refl
          (ground (arith, get_elem?-set_self s.groups j (filled tx g) h.at)) refl

    accept_Reach : Reach max_worker s (with_call (returned (ok tt)) s (after_count j g tx s))
    accept_Reach =
        next _ (next _ (next _ (next (calls tx) here call_step) enter_step) send_step) count_step

  pub Reach-trans :
      {max_worker : ℕ} {s t u : Dispatcher D}
      → Reach max_worker s t
      → Reach max_worker t u
      → Reach max_worker s u
  Reach-trans r here = r
  Reach-trans r (next a w h) = next a (Reach-trans r w) h

  -- In a reachable state where both accounts of a payment point to a dead group with room, a call of
  -- `add` can return without an error and leave the payment in the group's channel, where it stays in
  -- every continuation.
  pub accepted_for_ever :
      {max_worker j : ℕ} {g : Group D} (tx : PaymentTx D) (s : Dispatcher D)
      → Reachable max_worker s
      → Trap j g tx s
      → (t : Dispatcher D) × Reach max_worker s t
        × (t.calls ≡ s.calls ++ returned (ok tt) ∷ [])
        × (t.accepted ≡ tx ∷ s.accepted)
        × (t.handled ≡ s.handled)
        × (t.root_done ≡ s.root_done)
        × ((u : Dispatcher D) → Reach max_worker t u → Stays j (g.ch ++ tx ∷ []) u)
  unfolding with_call after_count
  accepted_for_ever {max_worker} {j} {g} tx s r h = (
    with_call (returned (ok tt)) s (after_count j g tx s),
    accept_Reach max_worker tx s h,
    refl,
    refl,
    refl,
    refl,
    λ u w.
        dead_channel_kept (Reach-trans r (accept_Reach max_worker tx s h)) j
          {g = counted (filled tx g)}
          (get_elem?-set_self (set s.groups j (filled tx g)) j (counted (filled tx g))
            (get_elem?-set_self s.groups j (filled tx g) h.at))
          (record { gone = h.dead.gone; silent = h.dead.silent }) w,
  )
