-- ===== src/Dispatcher/Ends.antt =====
-- The two ends of a group's queue: `runWorker` takes from the front, `add` sends to the back.
use cbtraining.Base.{
  ℕ, String, ◌≡◌, ◌≢◌, ◌⊎◌, inl, inr, refl, ◌∙◌, sym, ap, List, [], ◌∷◌, ◌++◌, append-nil, some,
  arith, get_elem?, set, All, get_elem?-set_ne, get_elem?-set_self, Bool-cases, eq_iff,
}
use cbtraining.Entity.{PaymentTx, cred_iban, deb_iban}
use cbtraining.Dispatcher.{Group, Dispatcher}
use cbtraining.Dispatcher.Routes.{Points}
use cbtraining.Dispatcher.Calm.{Routed}
use cbtraining.Dispatcher.Line.{
  touches, only, queue, line, only-append, line-set_same, line-one, queue-elsewhere,
}

module _ {D : Type 0} where
  -- The other groups have no payment of the account in their queues.
  abbrev pub Alone : String → List (Group D) → ℕ → Type 0
  Alone x gs j = (i : ℕ) (h : Group D) → i ≢ j → get_elem? gs i ≡ some h → only x (queue h) ≡ []

  Alone-line :
      (x : String) (gs : List (Group D)) (j : ℕ) (g g' : Group D)
      → get_elem? gs j ≡ some g
      → Alone x gs j
      → line x (set gs j g') ≡ only x (queue g')
  Alone-line x gs j g g' p alone =
      line-one x (set gs j g') j g' (get_elem?-set_self gs j g' p)
        (λ i h d q. alone i h d (sym (get_elem?-set_ne gs j i g' (λ e. d (sym e))) ∙ q))

  -- Payments leave the queue of group number `j` at its front.
  pub line-front :
      (x : String) (gs : List (Group D)) (j : ℕ) (g g' : Group D) (front : List (PaymentTx D))
      → get_elem? gs j ≡ some g
      → queue g ≡ front ++ queue g'
      → (only x front ≡ []) ⊎ Alone x gs j
      → line x gs ≡ only x front ++ line x (set gs j g')
  line-front x gs j g g' front p e (inl quiet) = rw (quiet) (
      sym (
        line-set_same x gs j g g' p
          (sym (ap (only x) e ∙ only-append x front (queue g') ∙ rw (quiet) refl))))
  line-front x gs j g g' front p e (inr alone) =
      line-one x gs j g p alone
      ∙ ap (only x) e
      ∙ only-append x front (queue g')
      ∙ ap (λ l. only x front ++ l) (sym (Alone-line x gs j g g' p alone))

  -- They join it at its back.
  pub line-back :
      (x : String) (gs : List (Group D)) (j : ℕ) (g g' : Group D) (back : List (PaymentTx D))
      → get_elem? gs j ≡ some g
      → queue g' ≡ queue g ++ back
      → (only x back ≡ []) ⊎ Alone x gs j
      → line x (set gs j g') ≡ line x gs ++ only x back
  line-back x gs j g g' back p e (inl quiet) =
      line-set_same x gs j g g' p
        (ap (only x) e ∙ only-append x (queue g) back ∙ rw (quiet) (append-nil _))
      ∙ rw (quiet) (sym (append-nil _))
  line-back x gs j g g' back p e (inr alone) =
      Alone-line x gs j g g' p alone
      ∙ ap (only x) e
      ∙ only-append x (queue g) back
      ∙ ap (λ l. l ++ only x back) (sym (line-one x gs j g p alone))

  -- Payments that are all in the group of both of their accounts.
  pub quiet_or_Alone :
      (s : Dispatcher D) (x : String) (j : ℕ) (txs : List (PaymentTx D))
      → Routed s
      → All (Points s.iban_to_group j) txs
      → (only x txs ≡ []) ⊎ Alone x s.groups j
  unfolding only touches
  quiet_or_Alone s x j [] v h = inl refl
  quiet_or_Alone s x j (tx ∷ rest) v (hp, hr) = elim (Bool-cases (touches x tx)) [
    | inl e ↦
        let here_too : s.iban_to_group x ≡ some j =
          ground (arith, eq_iff (cred_iban tx) x, eq_iff (deb_iban tx) x, ap s.iban_to_group) in
        inr (λ i h d q. queue-elsewhere s.iban_to_group x i j h here_too d (v.groups i h q))
    | inr e ↦ elim (quiet_or_Alone s x j rest v hr) [
      | inl quiet ↦ inl (rw e quiet)
      | inr alone ↦ inr alone
    ]
  ]
