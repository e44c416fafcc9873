-- ===== src/Dispatcher/Add.antt =====
-- `add` of core/PaymentManagerService.go. What stands between `Mu.Lock` and `Mu.Unlock` is one step,
-- except for the drain, which can block while it holds the mutex.
use cbtraining.Base.{
  ℕ, ◌+◌, ◌-◌, String, List, [], ◌∷◌, ◌++◌, Option, none, some, Bool, true, ltb, ◌==◌, str_eq,
  if◌then◌else◌, length, get_elem?, set,
}
use cbtraining.Errors.{ok, err, dispatcher_shuting}
use cbtraining.Entity.{PaymentTx, cred_iban, deb_iban}
use cbtraining.Dispatcher.{
  Group, CallAt, calling, want_slot, has_slot, awaiting, relocking, moving_next, moving, sending,
  counting, returned, Dispatcher, chan_buffer, new_group,
}
use cbtraining.Dispatcher.Worker.{Choice, first, second}

-- `m[iban] = g`
unfoldable pub assign : String → ℕ → (String → Option ℕ) → String → Option ℕ
assign iban g m other = if str_eq iban other then some g else m other

unfoldable pub redirect : ℕ → ℕ → Option ℕ → Option ℕ
redirect b a none = none
redirect b a (some g) = if g == b then some a else some g

-- The loop over the map that points every IBAN of `gB` to `gA`.
unfoldable pub relabel : ℕ → ℕ → (String → Option ℕ) → String → Option ℕ
unfolding redirect
relabel b a m iban = redirect b a (m iban)

module _ {D : Type 0} where
  -- `gB.Merging.Store(true)`, the loop over the map, `gB.WorkerCancelSig()`
  unfoldable pub start_merge : ℕ → ℕ → Dispatcher D → Option (Dispatcher D)
  start_merge a b s = elim (get_elem? s.groups b) [
    | none ↦ none
    | some g ↦ some (record s {
      groups = set s.groups b (record g { merging = true; cancelled = true });
      iban_to_group = relabel b a s.iban_to_group;
    })
  ]

  -- The `switch` on the groups of the two IBANs.
  unfoldable pub route :
      Option ℕ → Option ℕ → PaymentTx D → Dispatcher D → Option (CallAt D × Dispatcher D)
  route none none tx s = some (want_slot tx, s)
  route (some a) none tx s =
      some (sending tx a, record s { iban_to_group = assign (deb_iban tx) a s.iban_to_group })
  route none (some b) tx s =
      some (sending tx b, record s { iban_to_group = assign (cred_iban tx) b s.iban_to_group })
  route (some a) (some b) tx s =
      if a == b
      then some (sending tx a, s)
      else elim (start_merge a b s) [ none ↦ none | some t ↦ some (awaiting tx a b, t) ]

  -- The first critical section.
  unfoldable pub enter : PaymentTx D → Dispatcher D → Option (CallAt D × Dispatcher D)
  unfolding route
  enter tx s =
      if s.root_done
      then some (returned (err dispatcher_shuting), s)
      else route (s.iban_to_group (cred_iban tx)) (s.iban_to_group (deb_iban tx)) tx s

  -- Both IBANs of `tx` point to `g`.
  unfoldable pub connect : PaymentTx D → ℕ → Dispatcher D → Dispatcher D
  connect tx g s = record s {
    iban_to_group = assign (cred_iban tx) g (assign (deb_iban tx) g s.iban_to_group);
  }

  -- `add` found a group after all, and gives the slot back.
  unfoldable pub join : PaymentTx D → ℕ → Dispatcher D → Option (CallAt D × Dispatcher D)
  join tx g s =
      if s.semaphore == 0
      then none
      else some (sending tx g, record (connect tx g s) { semaphore = s.semaphore - 1 })

  -- `NewGroup`, both entries of the map, `Wg.Add(1)`, `go runWorker(g)`
  open_group : PaymentTx D → Dispatcher D → CallAt D × Dispatcher D
  open_group tx s = (
    sending tx (length s.groups),
    record (connect tx (length s.groups) s) { groups = s.groups ++ new_group ∷ []; wg = s.wg + 1 },
  )

  unfoldable pub reroute :
      Option ℕ → Option ℕ → PaymentTx D → Dispatcher D → Option (CallAt D × Dispatcher D)
  unfolding join open_group
  reroute none none tx s = some (open_group tx s)
  reroute (some a) gB tx s = join tx a s
  reroute none (some b) tx s = join tx b s

  -- The second critical section, with a slot of the semaphore.
  unfoldable pub reenter : PaymentTx D → Dispatcher D → Option (CallAt D × Dispatcher D)
  unfolding reroute
  reenter tx s = reroute (s.iban_to_group (cred_iban tx)) (s.iban_to_group (deb_iban tx)) tx s

  -- `g.Ch <- tx`, which blocks on a full buffer.
  unfoldable pub send : ℕ → PaymentTx D → Dispatcher D → Option (Dispatcher D)
  send k tx s = elim (get_elem? s.groups k) [
    | none ↦ none
    | some g ↦
        if ltb (length g.ch) chan_buffer
        then some (record s { groups = set s.groups k (record g { ch = g.ch ++ tx ∷ [] }) })
        else none
  ]

  -- The `select` of the drain loop; its `default` relabels once more and unlocks.
  drain_from :
      PaymentTx D → ℕ → ℕ → Group D → List (PaymentTx D) → Dispatcher D → CallAt D × Dispatcher D
  drain_from tx a b g [] s =
      (sending tx a, record s { iban_to_group = relabel b a s.iban_to_group; mu = none })
  drain_from tx a b g (p ∷ rest) s =
      (moving tx a b p, record s { groups = set s.groups b (record g { ch = rest }) })

  unfoldable pub drain_step : PaymentTx D → ℕ → ℕ → Dispatcher D → Option (CallAt D × Dispatcher D)
  unfolding drain_from
  drain_step tx a b s = elim (get_elem? s.groups b) [
    | none ↦ none
    | some g ↦ some (drain_from tx a b g g.ch s)
  ]

  -- `g.Wg.Add(1)`
  count_in : ℕ → Dispatcher D → Option (Dispatcher D)
  count_in k s = elim (get_elem? s.groups k) [
    | none ↦ none
    | some g ↦ some (record s { groups = set s.groups k (record g { wg = g.wg + 1 }) })
  ]

  unfoldable pub is_ready : ℕ → Dispatcher D → Bool
  is_ready b s = elim (get_elem? s.groups b) [ none ↦ Bool.false | some g ↦ g.drain_ready ]

  shuting : CallAt D
  shuting = returned (err dispatcher_shuting)

  -- `case <-RootCtx.Done(): return ErrDispatcherShuting`
  give_up : Dispatcher D → Option (CallAt D × Dispatcher D)
  unfolding shuting
  give_up s = if s.root_done then some (shuting, s) else none

  when_free : Option ℕ → Option (CallAt D × Dispatcher D) → Option (CallAt D × Dispatcher D)
  when_free none r = r
  when_free (some i) r = none

  sent : PaymentTx D → ℕ → Option (Dispatcher D) → Option (CallAt D × Dispatcher D)
  sent tx k none = none
  sent tx k (some s) = some (counting tx k, record s { accepted = tx ∷ s.accepted })

  moved : PaymentTx D → ℕ → ℕ → Option (Dispatcher D) → Option (CallAt D × Dispatcher D)
  moved tx a b none = none
  moved tx a b (some s) = some (moving_next tx a b, s)

  counted : Option (Dispatcher D) → Option (CallAt D × Dispatcher D)
  counted none = none
  counted (some s) = some (returned (ok tt), s)

  -- One step of call number `i`, with `max_worker` slots; `none` where it blocks or is over.
  unfoldable pub advance :
      ℕ → ℕ → Choice → CallAt D → Dispatcher D → Option (CallAt D × Dispatcher D)
  unfolding drain_step count_in is_ready give_up when_free sent moved counted
  advance max_worker i c (calling tx) s = when_free s.mu (enter tx s)
  advance max_worker i first (want_slot tx) s =
      if ltb s.semaphore max_worker
      then some (has_slot tx, record s { semaphore = s.semaphore + 1 })
      else none
  advance max_worker i second (want_slot tx) s = give_up s
  advance max_worker i c (has_slot tx) s = when_free s.mu (reenter tx s)
  advance max_worker i first (awaiting tx a b) s =
      if is_ready b s then some (relocking tx a b, s) else none
  advance max_worker i second (awaiting tx a b) s = give_up s
  advance max_worker i c (relocking tx a b) s =
      when_free s.mu (some (moving_next tx a b, record s { mu = some i }))
  advance max_worker i c (moving_next tx a b) s = drain_step tx a b s
  advance max_worker i c (moving tx a b p) s = moved tx a b (send a p s)
  advance max_worker i first (sending tx k) s = sent tx k (send k tx s)
  advance max_worker i second (sending tx k) s = give_up s
  advance max_worker i c (counting tx k) s = counted (count_in k s)
  advance max_worker i c (returned r) s = none
