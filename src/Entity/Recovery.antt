-- ===== src/Entity/Recovery.antt =====
-- A transaction that is written to a record and read back, as `PandingRecovery` does after a restart.
use cbtraining.Base.{String, ◌≡◌, ◌≤◌, arith, Option, some, none}
use cbtraining.Errors.{ok, err, metadata_not_valid}
use cbtraining.ValObj.{Metadata, new_metadata, parse_country_of_residence}
use cbtraining.ValObj.Laws.{
  as_recovered, val_role-role_string, val_status-status_string, parse_currency_complete,
  parse_end_to_end_identification_complete,
}
use cbtraining.Entity.{
  Libs, PaymentParty, PaymentAccount, PaymentTx, recover_pp_from_rec, recover_pa_from_rec,
  recover_payment_tx_from_rec, to_party_record, to_pa_record, to_record,
}
use cbtraining.Entity.Validity.{IsValidParty, IsValidAccount, IsValidTx}

recover_pp_from_rec-to_party_record :
    (pp : PaymentParty) → IsValidParty pp → recover_pp_from_rec (to_party_record pp) ≡ ok pp
unfolding recover_pp_from_rec to_party_record parse_country_of_residence
recover_pp_from_rec-to_party_record pp v = ground (arith, val_role-role_string pp.role)

recover_pa_from_rec-to_pa_record :
    (pa : PaymentAccount)
    → IsValidAccount pa
    → recover_pa_from_rec (to_pa_record pa) (to_party_record pa.payment_party) ≡ ok pa
unfolding recover_pa_from_rec to_pa_record
recover_pa_from_rec-to_pa_record pa v = ground (
  arith,
  parse_currency_complete pa.acc_curency.currency v.code,
  recover_pp_from_rec-to_party_record pa.payment_party v.party,
)

new_metadata_complete :
    (unmarshal : String → Option Metadata) (text : String) (md : Metadata)
    → unmarshal text ≡ some md
    → md.created_at ≤ md.updated_at
    → new_metadata unmarshal text ≡ ok md
unfolding new_metadata
new_metadata_complete unmarshal text md e h = ground arith

module _ (L : Libs) where
  open L use {Decimal, new_from_string, decimal_string, unmarshal_metadata}

  unread :
      (tx : PaymentTx Decimal)
      → IsValidTx tx
      → new_from_string (decimal_string tx.amount) ≡ some tx.amount
      → unmarshal_metadata "" ≡ none
      → recover_payment_tx_from_rec L (to_record L tx) ≡ err metadata_not_valid
  unfolding recover_payment_tx_from_rec to_record to_pa_record new_metadata
  unread tx v amount e = ground (
    arith,
    val_status-status_string tx.status,
    parse_currency_complete tx.currency.currency v.code,
    parse_end_to_end_identification_complete tx.end_to_end_identification.identification
        v.end_to_end,
    recover_pa_from_rec-to_pa_record tx.debtor_pacc v.debtor,
    recover_pa_from_rec-to_pa_record tx.creditor_pacc v.creditor,
  )

  -- The record of a valid transaction, in which `ToRecord` leaves the metadata empty, is refused by the
  -- recovery if JSON reads no empty text. Once a query has put a text for the metadata there, the
  -- transaction is recovered with every field as before but two: `Completed` and `Failed` come back as
  -- `Processing`, and the metadata is what the text is read as, whatever it was before. For an amount
  -- that can be read back, and a text whose two times are in order.
  pub recover_payment_tx_from_rec-to_record :
      (tx : PaymentTx Decimal) (text : String) (md : Metadata)
      → IsValidTx tx
      → new_from_string (decimal_string tx.amount) ≡ some tx.amount
      → unmarshal_metadata text ≡ some md
      → md.created_at ≤ md.updated_at
      → unmarshal_metadata "" ≡ none
      → (recover_payment_tx_from_rec L (to_record L tx) ≡ err metadata_not_valid)
        × (recover_payment_tx_from_rec L (record (to_record L tx) { metadata = text })
            ≡ ok (record tx { status = as_recovered tx.status; metadata = md }))
  unfolding recover_payment_tx_from_rec to_record to_pa_record
  recover_payment_tx_from_rec-to_record tx text md v amount e h none_read = (
    unread tx v amount none_read,
    ground (
      arith,
      val_status-status_string tx.status,
      parse_currency_complete tx.currency.currency v.code,
      parse_end_to_end_identification_complete tx.end_to_end_identification.identification
          v.end_to_end,
      recover_pa_from_rec-to_pa_record tx.debtor_pacc v.debtor,
      recover_pa_from_rec-to_pa_record tx.creditor_pacc v.creditor,
      new_metadata_complete unmarshal_metadata text md,
    ),
  )
