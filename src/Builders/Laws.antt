-- ===== src/Builders/Laws.antt =====
-- What core/entity makes of the requests and records that core/testhelpers/builders.go builds.
use cbtraining.Base.{suc, sym, ◌∙◌, ℕ, String, len, slice, some, ◌≡◌, ◌≤◌, refl, arith, ap}
use cbtraining.Errors.{ok}
use cbtraining.ValObj.{
  Metadata, debtor, creditor, pending, parse_currency, val_status, new_metadata,
}
use cbtraining.ValObj.Laws.{parse_end_to_end_identification_complete}
use cbtraining.Entity.{
  Libs, PaymentTx, PaymentAccount, cred_iban, deb_iban, new_payment_tx_from_dto,
  recover_payment_tx_from_rec, gen_txid,
}
use cbtraining.Builders.{
  PaymentBuilder, new_payment_builder, with_debtor, with_creditor, build, buider_to_tx_rec,
}
use cbtraining.Builders.Random.{Source, metadata_now}
use cbtraining.Builders.Proper.{
  IsIban, Proper, new_payment_builder-Proper, account_of, dto_accepted, rec_accepted, settled,
  Proper-settled,
}

module _ (L : Libs) where
  open L use {Decimal, new_from_string, unmarshal_metadata, marshal_metadata}

  -- The transaction that the checks of core/entity make of a builder.
  abbrev built_tx :
      String → Decimal → Metadata → PaymentBuilder → PaymentAccount → PaymentTx Decimal
  built_tx txid amount meta pb cred = record {
    txid = txid;
    status = pending;
    amount = amount;
    currency = record { currency = "EUR" };
    end_to_end_identification = record { identification = pb.end_to_end_identificator };
    transaction_type = pb.tx_type;
    debtor_pacc = account_of pb.debtor_iban debtor pb.deb_party_bic pb.deb_partyname;
    creditor_pacc = cred;
    metadata = meta;
  }

  Proper-request :
      (pb : PaymentBuilder) (uuid : String) (now later : ℕ) (amount : Decimal)
      → Proper pb
      → new_from_string "300.00" ≡ some amount
      → 34 ≤ len uuid
      → new_payment_tx_from_dto L uuid now later (build (settled pb))
        ≡ ok (
            built_tx
              (slice uuid 0 34)
              amount
              (record { created_at = now; updated_at = later })
              pb
              (account_of pb.creditor_iban creditor pb.deb_party_bic pb.deb_partyname))
  unfolding new_payment_tx_from_dto build gen_txid parse_currency
  Proper-request pb uuid now later amount v am u =
      rw
        (
          am,
          parse_end_to_end_identification_complete pb.end_to_end_identificator v.end_to_end,
          dto_accepted pb.creditor_iban pb.deb_party_bic pb.deb_partyname creditor v.creditor
              v.deb_bic,
          dto_accepted pb.debtor_iban pb.deb_party_bic pb.deb_partyname debtor v.debtor v.deb_bic,
        )
        (ground arith)

  Proper-record :
      (pb : PaymentBuilder) (amount : Decimal)
      → Proper pb
      → new_from_string "300.00" ≡ some amount
      → unmarshal_metadata (marshal_metadata pb.metadata) ≡ some pb.metadata
      → pb.metadata.created_at ≤ pb.metadata.updated_at
      → recover_payment_tx_from_rec L (buider_to_tx_rec marshal_metadata (settled pb))
        ≡ ok (
            built_tx pb.txid amount pb.metadata pb
              (account_of pb.creditor_iban creditor pb.cred_party_bic pb.cred_party_name))
  unfolding recover_payment_tx_from_rec buider_to_tx_rec parse_currency val_status new_metadata
  Proper-record pb amount v am md order =
      rw
        (
          am,
          md,
          parse_end_to_end_identification_complete pb.end_to_end_identificator v.end_to_end,
          rec_accepted pb.creditor_iban pb.cred_party_bic pb.cred_party_name creditor _ v.creditor
              v.cred_bic,
          rec_accepted pb.debtor_iban pb.deb_party_bic pb.deb_partyname debtor _ v.debtor v.deb_bic,
        )
        (ground arith)

  -- A transaction between the two accounts.
  abbrev pub IsBetween : String → String → PaymentTx Decimal → Type 0
  IsBetween from to tx = (deb_iban tx ≡ from) × (cred_iban tx ≡ to)

  -- The builder of a payment between two accounts.
  abbrev pub builder_between : Source → ℕ → String → String → PaymentBuilder
  builder_between r k from to = with_debtor from (with_creditor to (new_payment_builder r k).0)

  builder_between-Proper :
      (r : Source) (k : ℕ) (from to : String)
      → IsIban from
      → IsIban to
      → Proper (builder_between r k from to)
  unfolding with_debtor with_creditor
  builder_between-Proper r k from to f t =
      let v : Proper (new_payment_builder r k).0 = new_payment_builder-Proper r k in
      record {
        deb_bic = v.deb_bic;
        cred_bic = v.cred_bic;
        debtor = f;
        creditor = t;
        end_to_end = v.end_to_end;
        status = v.status;
        amount = v.amount;
        currency = v.currency;
        deb_cur = v.deb_cur;
        cred_cur = v.cred_cur;
        deb_contry = v.deb_contry;
        cred_contry = v.cred_contry;
      }

  -- Whatever math/rand gives, the request that the builder makes for two IBANs of 15 to 34 bytes is one
  -- that `NewPaymentTXFromDTO` accepts, and the transaction is between them, where decimal reads
  -- "300.00" and the text of a UUID has at least 34 bytes.
  pub build_accepted :
      (r : Source) (k : ℕ) (from to uuid : String) (now later : ℕ) (amount : Decimal)
      → IsIban from
      → IsIban to
      → new_from_string "300.00" ≡ some amount
      → 34 ≤ len uuid
      → (tx : PaymentTx Decimal) × (new_payment_tx_from_dto L uuid now later
            (build (builder_between r k from to))
          ≡ ok tx)
        × IsBetween from to tx
  unfolding deb_iban cred_iban with_debtor with_creditor
  build_accepted r k from to uuid now later amount f t am u =
      let pb : PaymentBuilder = builder_between r k from to in
      let v : Proper pb = builder_between-Proper r k from to f t in
      (
        _,
        ap (λ b. new_payment_tx_from_dto L uuid now later (build b)) (sym (Proper-settled pb v))
            ∙ Proper-request pb uuid now later amount v am u,
        (refl, refl),
      )

  -- Whatever math/rand gives, the record that the builder makes for two IBANs of 15 to 34 bytes is one
  -- that `RecoverPaymentTXFromRec` recovers, and the transaction is between them, where decimal reads
  -- "300.00", the builder's metadata are read back as written, and the clock does not go back.
  pub buider_to_tx_rec-recovered :
      (r : Source) (k : ℕ) (from to : String) (amount : Decimal)
      → IsIban from
      → IsIban to
      → new_from_string "300.00" ≡ some amount
      → ((m : Metadata) → unmarshal_metadata (marshal_metadata m) ≡ some m)
      → ((i : ℕ) → r.clock i ≤ r.clock (suc i))
      → (tx : PaymentTx Decimal) × (recover_payment_tx_from_rec L
            (buider_to_tx_rec marshal_metadata (builder_between r k from to))
          ≡ ok tx)
        × IsBetween from to tx
  unfolding deb_iban cred_iban with_debtor with_creditor new_payment_builder metadata_now
  buider_to_tx_rec-recovered r k from to amount f t am md clock =
      let pb : PaymentBuilder = builder_between r k from to in
      let v : Proper pb = builder_between-Proper r k from to f t in
      (
        _,
        ap (λ b. recover_payment_tx_from_rec L (buider_to_tx_rec marshal_metadata b))
              (sym (Proper-settled pb v))
            ∙ Proper-record pb amount v am (md pb.metadata) (clock _),
        (refl, refl),
      )
