-- ===== src/Http/Laws.antt =====
-- The status codes of adapters/primary/http/handlers.go.
use cbtraining.Base.{ℕ, String, Bool, Option, none, some, ◌≡◌, ◌≢◌, refl, arith, ◌⊎◌, inl, inr, ap}
use cbtraining.Errors.{Result, Result-cases, ok, err, panic, payment_not_found}
use cbtraining.Ports.{PaymentRequest}
use cbtraining.Entity.{Libs, PaymentTx}
use cbtraining.Postgres.{Tables, Server}
use cbtraining.Postgres.Repo.{get_tx_by_id}
use cbtraining.Manager.{World, payment_cmd, get_payment_info}
use cbtraining.Manager.Laws.{Dispatched, payment_cmd-cases, get_payment_info-cases}
use cbtraining.Http.{
  info, Body, Response, respond, confirmation, error_response, create_payment, handle_payment_info,
}

respond-success :
    {A : Type 0} (n : ℕ) (body : A → Body) (m : Result A) (r : Response)
    → n ≢ 500
    → respond n body m ≡ ok r
    → r.code ≡ n
    → (a : A) × (m ≡ ok a)
unfolding respond
respond-success n body (ok a) r d h c = (a, refl)
respond-success n body (err e) r d h c = absurd (ground arith)
respond-success n body panic r d h c = absurd (ground arith)

respond-code :
    {A : Type 0} (n : ℕ) (body : A → Body) (m : Result A) (r : Response)
    → respond n body m ≡ ok r
    → (r.code ≡ n) ⊎ (r.code ≡ 500)
unfolding respond
respond-code n body (ok a) r h = ground arith
respond-code n body (err e) r h = ground arith
respond-code n body panic r h = absurd (ground arith)

module _ (pg : Server) (L : Libs) where
  open L use {Decimal}

  -- The code 201 is sent only for a payment that passed every check, that was stored, and that was
  -- given to `add`; the code 400 is sent only for a body that could not be bound.
  pub create_payment-codes :
      (w : World Decimal) (bound : Option PaymentRequest) (t : Tables) (r : Response)
      → (create_payment pg L w bound t).answer ≡ ok r
      → (r.code ≡ 201
          → (req : PaymentRequest) × (tx : PaymentTx Decimal) × (bound ≡ some req)
            × Dispatched pg L w t tx (payment_cmd pg L w req t))
        × (r.code ≡ 400 → bound ≡ none)
  unfolding create_payment
  create_payment-codes w none t r h = (λ c. absurd (ground arith), λ c. refl)
  create_payment-codes w (some req) t r h = (
    λ c.
        let (a, e) = respond-success 201 confirmation _ r (omega arith) h c in
        elim (payment_cmd-cases pg L w req t) [
          | inl refused ↦ absurd (refused.not_ok a e)
          | inr (tx, d) ↦ (req, tx, refl, d)
        ],
    λ c.
        absurd
          (ground (arith, respond-code 201 confirmation (payment_cmd pg L w req t).answer r h)),
  )

-- The handler of a query always answers, and with 200 or 500 alone: a payment that is not there is
-- reported with the code 500, never with 404.
handle_payment_info-code :
    (L : Libs) (lost : ℕ → Bool) (txid : String) (t : Tables)
    → (r : Response) × (handle_payment_info L lost txid t ≡ ok r)
      × ((r.code ≡ 200) ⊎ (r.code ≡ 500))
      × (get_tx_by_id L lost txid t ≡ ok none
          → (r.code ≡ 500) × (r.body ≡ error_response payment_not_found))
unfolding handle_payment_info respond
handle_payment_info-code L lost txid t =
    let (alive, (_, missing), _) = get_payment_info-cases L lost txid t in
    elim (Result-cases (get_payment_info L lost txid t)) [
      | inl (i, e) ↦ (_, ap (respond 200 info) e, inl refl, λ h. absurd (ground (arith, missing h)))
      | inr (inl (x, e)) ↦
          (_, ap (respond 200 info) e, inr refl, λ h. (refl, ground (arith, missing h)))
      | inr (inr e) ↦ absurd (alive e)
    ]
