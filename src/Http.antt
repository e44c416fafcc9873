-- ===== src/Http.antt =====
-- adapters/primary/http/handlers.go: the two handlers, with the status codes that they send.
pub mod Laws
use cbtraining.Base.{ℕ, String, Bool, Option, none, some, []}
use cbtraining.Errors.{Error, Result, ok, err, panic, external}
use cbtraining.Ports.{PaymentRequest, TxConfirmation, PaymentInfo}
use cbtraining.Entity.{Libs}
use cbtraining.Postgres.{Tables, Server}
use cbtraining.Manager.{World, Outcome, payment_cmd, get_payment_info}

pub data Body : Type 0 where
  confirmation : TxConfirmation → Body
  info : PaymentInfo → Body
  error_response : Error → Body

pub record Response : Type 0 where
  pub code : ℕ
  pub body : Body

-- The answer of a service: `success` is the code of a result, and every error has the code 500.
unfoldable pub respond : {A : Type 0} → ℕ → (A → Body) → Result A → Result Response
respond success body (ok a) = ok (record { code = success; body = body a })
respond success body (err e) = ok (record { code = 500; body = error_response e })
respond success body panic = panic

module _ (pg : Server) (L : Libs) where
  open L use {Decimal}

  -- `bound` is the request that `ShouldBindJSON` has read, if it could.
  unfoldable pub create_payment :
      World Decimal → Option PaymentRequest → Tables → Outcome Decimal Response
  unfolding respond
  create_payment w none t = record {
    answer = ok (record { code = 400; body = error_response external });
    stored = t;
    added = [];
  }
  create_payment w (some req) t =
      let o = payment_cmd pg L w req t in
      record { answer = respond 201 confirmation o.answer; stored = o.stored; added = o.added }

unfoldable pub handle_payment_info : Libs → (ℕ → Bool) → String → Tables → Result Response
unfolding respond
handle_payment_info L lost txid t = respond 200 info (get_payment_info L lost txid t)
