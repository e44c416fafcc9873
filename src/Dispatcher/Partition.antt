-- ===== src/Dispatcher/Partition.antt =====
-- What the map from IBANs to groups stands for: the accounts fall into classes, and a payment joins
-- the classes of its two accounts. This is the abstract view of the first critical section of `add`.
use cbtraining.Base.{
  ℕ, String, ◌≡◌, ◌≢◌, ◌⊎◌, ◌↔◌, inl, inr, refl, Option, none, some, true, false, arith, subst, ◌∙◌,
  ap, Option-cases, Bool-cases, ◌==◌, eq_iff, get_elem?, get_elem?-set_self,
}
use cbtraining.Entity.{PaymentTx, cred_iban, deb_iban}
use cbtraining.Dispatcher.{CallAt, Dispatcher, Group}
use cbtraining.Dispatcher.Add.{enter, route, start_merge, assign, relabel, redirect}

abbrev IbanMap : Type 0
IbanMap = String → Option ℕ

abbrev pub SameGroup : (String → Option ℕ) → String → String → Type 0
SameGroup m x y = (m x ≡ m y) × (m x ≢ none)

-- `x` is one of the two accounts, or in the class of one of them.
abbrev pub Tied : (String → Option ℕ) → String → String → String → Type 0
Tied m c d x = (x ≡ c) ⊎ (x ≡ d) ⊎ SameGroup m x c ⊎ SameGroup m x d

-- The classes after the two accounts are joined.
abbrev pub Joined : (String → Option ℕ) → String → String → String → String → Type 0
Joined m c d x y = SameGroup m x y ⊎ (Tied m c d x × Tied m c d y)

module _ (m : String → Option ℕ) (c d : String) (a b : ℕ) (ea : m c ≡ some a) where
  new_debtor-joins : m d ≡ none → (x y : String) → SameGroup (assign d a m) x y ↔ Joined m c d x y
  unfolding assign
  new_debtor-joins ed x y = (
    λ h. grind (arith, eq_iff d x, eq_iff d y),
    λ h. ground (arith, eq_iff d x, eq_iff d y, ap m),
  )

  SameGroup-joins : m d ≡ some a → (x y : String) → SameGroup m x y ↔ Joined m c d x y
  SameGroup-joins ed x y = (inl, λ h. ground (arith, ap m))

  merge-joins : m d ≡ some b → (x y : String) → SameGroup (relabel b a m) x y ↔ Joined m c d x y
  unfolding relabel redirect
  merge-joins ed x y = (λ h. ground (arith, ap m), λ h. ground (arith, ap m))

new_creditor-joins :
    (m : String → Option ℕ) (c d : String) (b : ℕ)
    → m c ≡ none
    → m d ≡ some b
    → (x y : String) → SameGroup (assign c b m) x y ↔ Joined m c d x y
unfolding assign
new_creditor-joins m c d b ec ed x y =
    (λ h. grind (arith, eq_iff c x, eq_iff c y), λ h. ground (arith, eq_iff c x, eq_iff c y, ap m))

module _ {D : Type 0} where
  route-joins :
      (gA gB : Option ℕ) (tx : PaymentTx D) (s : Dispatcher D) {u : Dispatcher D} {k' : CallAt D}
      → s.iban_to_group (cred_iban tx) ≡ gA
      → s.iban_to_group (deb_iban tx) ≡ gB
      → (gA ≢ none) ⊎ (gB ≢ none)
      → route gA gB tx s ≡ some (k', u)
      → (x y : String)
      → SameGroup u.iban_to_group x y ↔ Joined s.iban_to_group (cred_iban tx) (deb_iban tx) x y
  unfolding route start_merge
  route-joins none none tx s ea eb f h x y = absurd (ground arith)
  route-joins (some a) none tx s {u} ea eb f h x y =
      subst (λ m. SameGroup m x y ↔ Joined s.iban_to_group (cred_iban tx) (deb_iban tx) x y)
        {x = assign (deb_iban tx) a s.iban_to_group} {y = u.iban_to_group} (ground arith)
        (new_debtor-joins s.iban_to_group (cred_iban tx) (deb_iban tx) a a ea eb x y)
  route-joins none (some b) tx s {u} ea eb f h x y =
      subst (λ m. SameGroup m x y ↔ Joined s.iban_to_group (cred_iban tx) (deb_iban tx) x y)
        {x = assign (cred_iban tx) b s.iban_to_group} {y = u.iban_to_group} (ground arith)
        (new_creditor-joins s.iban_to_group (cred_iban tx) (deb_iban tx) b ea eb x y)
  route-joins (some a) (some b) tx s {u} ea eb f h x y = elim (Bool-cases (a == b)) [
    | inl same ↦
        subst (λ m. SameGroup m x y ↔ Joined s.iban_to_group (cred_iban tx) (deb_iban tx) x y)
          {x = s.iban_to_group} {y = u.iban_to_group} (ground arith)
          (SameGroup-joins s.iban_to_group (cred_iban tx) (deb_iban tx) a a ea (ground arith) x y)
    | inr differ ↦
        subst (λ m. SameGroup m x y ↔ Joined s.iban_to_group (cred_iban tx) (deb_iban tx) x y)
          {x = relabel b a s.iban_to_group} {y = u.iban_to_group} (ground arith)
          (merge-joins s.iban_to_group (cred_iban tx) (deb_iban tx) a b ea eb x y)
  ]

  -- While the root context is live and one of the two accounts has a group, the first critical section
  -- of `add` leaves two accounts in one group exactly if they were in one group before, or each of them
  -- is an account of the payment or was in the group of one.
  pub enter-joins :
      (tx : PaymentTx D) (s : Dispatcher D) {u : Dispatcher D} {k' : CallAt D}
      → s.root_done ≡ false
      → (s.iban_to_group (cred_iban tx) ≢ none) ⊎ (s.iban_to_group (deb_iban tx) ≢ none)
      → enter tx s ≡ some (k', u)
      → (x y : String)
      → SameGroup u.iban_to_group x y ↔ Joined s.iban_to_group (cred_iban tx) (deb_iban tx) x y
  unfolding enter
  enter-joins tx s {u} {k'} live known h =
      route-joins (s.iban_to_group (cred_iban tx)) (s.iban_to_group (deb_iban tx)) tx s {u = u}
        {k' = k'} refl refl known (ground arith)

  start_merge-map :
      (a b : ℕ) (s : Dispatcher D) {u : Dispatcher D}
      → start_merge a b s ≡ some u
      → u.iban_to_group ≡ relabel b a s.iban_to_group
  unfolding start_merge
  start_merge-map a b s h = ground arith

  -- A merge leaves no account with the group that it empties, and cancels that group.
  pub start_merge-clears :
      (a b : ℕ) (s : Dispatcher D) {u : Dispatcher D}
      → a ≢ b
      → start_merge a b s ≡ some u
      → (x : String) → u.iban_to_group x ≢ some b
  unfolding relabel redirect
  start_merge-clears a b s d h x e =
      ground (arith, ap (λ (m : String → Option ℕ). m x) (start_merge-map a b s h))

  start_merge-group :
      (a b : ℕ) (s : Dispatcher D) {g : Group D} {u : Dispatcher D}
      → get_elem? s.groups b ≡ some g
      → start_merge a b s ≡ some u
      → get_elem? u.groups b ≡ some (record g { merging = true; cancelled = true })
  unfolding start_merge
  start_merge-group a b s {g} p h =
      ground
        (arith, get_elem?-set_self s.groups b (record g { merging = true; cancelled = true }) p)

  -- When the two accounts of a payment point to different groups, the merge takes effect in the map at
  -- once: a payment that the worker of the debtor's group is handling, or that waits in its channel, has
  -- its accounts pointed to the other group, while that worker still stands where it stood.
  merge_redirects :
      (tx old : PaymentTx D) (a b : ℕ) (s : Dispatcher D) {g : Group D} {u : Dispatcher D}
      {k' : CallAt D}
      → s.root_done ≡ false
      → s.iban_to_group (cred_iban tx) ≡ some a
      → s.iban_to_group (deb_iban tx) ≡ some b
      → a ≢ b
      → get_elem? s.groups b ≡ some g
      → s.iban_to_group (cred_iban old) ≡ some b
      → s.iban_to_group (deb_iban old) ≡ some b
      → enter tx s ≡ some (k', u)
      → (u.iban_to_group (cred_iban old) ≡ some a)
        × (u.iban_to_group (deb_iban old) ≡ some a)
        × (get_elem? u.groups b ≡ some (record g { merging = true; cancelled = true }))
  unfolding enter route relabel redirect
  merge_redirects tx old a b s {g} {u} live ca db d p co do_ h =
      elim (Option-cases (start_merge a b s)) [
        | inl e ↦ absurd (ground arith)
        | inr (t, e) ↦
            let same : t ≡ u = ground arith in
            let em : u.iban_to_group ≡ relabel b a s.iban_to_group =
              start_merge-map a b s (e ∙ ap some same) in
            (
              ground (arith, ap (λ (m : String → Option ℕ). m (cred_iban old)) em),
              ground (arith, ap (λ (m : String → Option ℕ). m (deb_iban old)) em),
              start_merge-group a b s p (e ∙ ap some same),
            )
      ]
