-- ===== src/Dispatcher/Descent.antt =====
-- Every step of a call of `add`, of a worker and of the goroutine of `NewGroup`, in
-- core/PaymentManagerService.go, takes at least one off what is left to do.
use cbtraining.Base.{
  ℕ, ◌+◌, ◌≤◌, ◌<◌, ◌≡◌, none, some, Option, Bool, arith, get_elem?, set, length, sum, sum-set,
  sum-append, subst,
}
use cbtraining.Entity.{PaymentTx}
use cbtraining.Dispatcher.{Group, CallAt, calling, has_slot, relocking, counting, Dispatcher}
use cbtraining.Dispatcher.Worker.{Choice, Effect, work, await}
use cbtraining.Dispatcher.Add.{advance, enter, reenter, start_merge, connect}
use cbtraining.Dispatcher.Moves.{
  Change, merges, takes, drains, counts, Touch, untouched, opened, touched,
}
use cbtraining.Dispatcher.Sends.{Silent, Silent-Gives}
use cbtraining.Dispatcher.Measure.{
  group_steps, call_steps, emptied, target, size_at, measure, size_at-set, size_at-append,
}

module _ {D : Type 0} where
  pub work-descends :
      (c : Choice) (root_done : Bool) (g : Group D) {g' : Group D} {e : Effect D}
      → work c root_done g ≡ some (g', e)
      → (group_steps g' < group_steps g) × (length g'.ch ≤ length g.ch)
  unfolding work
  work-descends c root_done g h = ground arith

  pub await-descends :
      (g : Group D) {g' : Group D}
      → await g ≡ some g'
      → (group_steps g' < group_steps g) × (length g'.ch ≤ length g.ch)
  unfolding await
  await-descends g h = ground arith

  -- A group that has less to do.
  pub group-descends :
      (s : Dispatcher D) (j : ℕ) (g g' : Group D)
      → get_elem? s.groups j ≡ some g
      → (group_steps g' < group_steps g) × (length g'.ch ≤ length g.ch)
      → measure (record s { groups = set s.groups j g' }) < measure s
  group-descends s j g g' p (l, m) =
      ground (
        arith,
        sum-set group_steps s.groups j g' p,
        size_at-set s.groups j 0 g g' (target s.calls) p,
      )

  Change-size :
      (k : CallAt D) (b : ℕ) (h h' : Group D)
      → Silent k
      → Change k b h h'
      → length h'.ch ≤ length h.ch
  Change-size k b h h' q (merges e) = rw e (omega arith)
  Change-size k b h h' q (counts e) = rw e (omega arith)
  Change-size k b h h' q (takes tx to l e) = absurd (Silent-Gives k b tx q to)
  Change-size k b h h' q (drains tx a p rest f e r) = absurd (subst Silent f q)

  -- Such a step puts no payment in any channel.
  pub Touch-size :
      (k : CallAt D) (s u : Dispatcher D)
      → Silent k
      → Touch (Change k) s u
      → (o : Option ℕ) → size_at u.groups o ≤ size_at s.groups o
  Touch-size k s u q (untouched e) o = rw e (omega arith)
  Touch-size k s u q (opened e) o = rw e (size_at-append s.groups o)
  Touch-size k s u q (touched b h h' p e r) o =
      rw e (ground (arith, size_at-set s.groups b 0 h h' o p, Change-size k b h h' q r))

  -- What is left to do in the groups and in the call.
  abbrev pub Less : Dispatcher D → Dispatcher D → CallAt D → CallAt D → Type 0
  Less s u k k' = sum group_steps u.groups + call_steps k' < sum group_steps s.groups + call_steps k

  enter-Less :
      (tx : PaymentTx D) (s : Dispatcher D) {u : Dispatcher D} {k' : CallAt D}
      → enter tx s ≡ some (k', u)
      → Less s u (calling tx) k' × (emptied k' ≡ none)
  unfolding enter start_merge
  enter-Less tx s h = grind (arith, sum-set)

  reenter-Less :
      (tx : PaymentTx D) (s : Dispatcher D) {u : Dispatcher D} {k' : CallAt D}
      → reenter tx s ≡ some (k', u)
      → Less s u (has_slot tx) k' × (emptied k' ≡ none)
  unfolding reenter connect
  reenter-Less tx s h = grind (arith, sum-append)

  abbrev pub Outside : CallAt D → Type 0
  Outside (relocking tx a b) = ⊥
  Outside k = Silent k

  pub Outside-Less :
      (max_worker i : ℕ) (c : Choice) (k : CallAt D) (s : Dispatcher D) {u : Dispatcher D}
      {k' : CallAt D}
      → advance max_worker i c k s ≡ some (k', u)
      → Outside k
      → Less s u k k' × (emptied k' ≡ none)
  unfolding advance
  Outside-Less max_worker i c (calling tx) s {u} {k'} h q =
      enter-Less tx s {u = u} {k' = k'} (ground arith)
  Outside-Less max_worker i c (has_slot tx) s {u} {k'} h q =
      reenter-Less tx s {u = u} {k' = k'} (ground arith)
  Outside-Less max_worker i c (counting tx j) s h q = grind (arith, sum-set)
  Outside-Less max_worker i c k s h q = ground arith
