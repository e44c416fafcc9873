-- ===== src/Builders.antt =====
-- core/testhelpers/builders.go: payments for the tests, built from random pieces. A builder is a value:
-- the `With` methods, which change it in place, are called on one that nothing else holds.
pub mod Random
pub mod Shapes
pub mod Times
pub mod Proper
pub mod Laws
pub mod Chains
use cbtraining.Base.{
  ℕ, zero, suc, String, List, [], ◌∷◌, ◌++◌, Option, none, some, ltb, if◌then◌else◌,
}
use cbtraining.Errors.{Result, ok, panic}
use cbtraining.ValObj.{Metadata, status_string, pending, role_string, debtor, creditor}
use cbtraining.Ports.{
  PaymentPartyDto, PaymentAccountDto, PaymentRequest, PartyRecord, PaRecord, TxRecord, TxRequest,
}
use cbtraining.Entity.{Libs}
use cbtraining.Builders.Random.{
  Source, Gen, always, ◌>>=◌, gen_txid, gen_iban, gen_end_to_end_identification, gen_bic,
  gen_party_name, metadata_now,
}

pub record PaymentBuilder : Type 0 where
  pub txid : String
  pub status : String
  pub deb_party_bic : String
  pub deb_partyname : String
  pub debtor_iban : String
  pub debitor_cur : String
  pub debtor_contry : String
  pub cred_party_bic : String
  pub cred_party_name : String
  pub creditor_iban : String
  pub creditor_cur : String
  pub creditor_contry : String
  pub amount : String
  pub currency : String
  pub tx_type : String
  pub end_to_end_identificator : String
  pub metadata : Metadata

module _ (r : Source) where
  unfoldable pub new_payment_builder : Gen PaymentBuilder
  new_payment_builder = do
    txid ← gen_txid r
    deb ← gen_iban r
    cred ← gen_iban r
    ete ← gen_end_to_end_identification r
    deb_bic ← gen_bic r
    cred_bic ← gen_bic r
    deb_name ← gen_party_name r
    cred_name ← gen_party_name r
    meta ← metadata_now r
    always (record {
      txid = txid;
      status = status_string pending;
      deb_party_bic = deb_bic;
      deb_partyname = deb_name;
      debtor_iban = deb;
      debitor_cur = "BYN";
      debtor_contry = "BY";
      cred_party_bic = cred_bic;
      cred_party_name = cred_name;
      creditor_iban = cred;
      creditor_cur = "BYN";
      creditor_contry = "BY";
      amount = "300.00";
      currency = "EUR";
      tx_type = "001";
      end_to_end_identificator = ete;
      metadata = meta;
    })

unfoldable pub with_debtor : String → PaymentBuilder → PaymentBuilder
with_debtor iban pb = record pb { debtor_iban = iban }

unfoldable pub with_creditor : String → PaymentBuilder → PaymentBuilder
with_creditor iban pb = record pb { creditor_iban = iban }

-- The creditor's party gets the name and the BIC of the debtor's, and its account the debtor's currency.
unfoldable pub build : PaymentBuilder → PaymentRequest
build pb = record {
  amount = pb.amount;
  currency = pb.currency;
  end_to_end_identification = pb.end_to_end_identificator;
  transaction_type = pb.tx_type;
  debtor = some (record {
    bic = pb.deb_party_bic;
    role = "debtor";
    contry_of_residence = pb.debtor_contry;
    name = pb.deb_partyname;
  });
  debtor_pacc = some (record { iban = pb.debtor_iban; acc_curency = pb.debitor_cur });
  creditor = some (record {
    bic = pb.deb_party_bic;
    role = "creditor";
    contry_of_residence = pb.creditor_contry;
    name = pb.deb_partyname;
  });
  creditor_pacc = some (record { iban = pb.creditor_iban; acc_curency = pb.debitor_cur });
}

-- `marshal` is `Metadata.String`.
unfoldable pub buider_to_tx_rec : (Metadata → String) → PaymentBuilder → TxRecord
buider_to_tx_rec marshal pb = record {
  txid = pb.txid;
  status = pb.status;
  amount = pb.amount;
  currency = pb.currency;
  end_to_end_identification = pb.end_to_end_identificator;
  transaction_type = pb.tx_type;
  debtor_pacc = some (record {
    iban = pb.debtor_iban;
    acc_curency = pb.debitor_cur;
    party = some (record {
      bic = pb.deb_party_bic;
      role = role_string debtor;
      contry_of_residence = pb.debtor_contry;
      name = pb.deb_partyname;
    });
  });
  creditor_pacc = some (record {
    iban = pb.creditor_iban;
    acc_curency = pb.creditor_cur;
    party = some (record {
      bic = pb.cred_party_bic;
      role = role_string creditor;
      contry_of_residence = pb.creditor_contry;
      name = pb.cred_party_name;
    });
  });
  metadata = marshal pb.metadata;
}

-- The accounts of the request must be there. `zero_decimal` is what an amount that is not read leaves.
module _ (L : Libs) (zero_decimal : L.Decimal) where
  or_zero : Option L.Decimal → L.Decimal
  or_zero none = zero_decimal
  or_zero (some d) = d

  of_accounts :
      PaymentRequest
      → String
      → Metadata
      → Option PaymentAccountDto
      → Option PaymentAccountDto
      → Result (TxRequest L.Decimal)
  unfolding or_zero
  of_accounts preq txid meta (some deb) (some cred) = ok (record {
    txid = txid;
    status = status_string pending;
    amount = or_zero (L.new_from_string preq.amount);
    currency = preq.currency;
    end_to_end_identification = preq.end_to_end_identification;
    transaction_type = preq.transaction_type;
    debtor_iban = deb.iban;
    creditor_iban = cred.iban;
    metadata = L.marshal_metadata meta;
  })
  of_accounts preq txid meta deb cred = panic

  unfoldable pub payreq_to_tx_req :
      PaymentRequest → String → Metadata → Result (TxRequest L.Decimal)
  unfolding of_accounts
  payreq_to_tx_req preq txid meta = of_accounts preq txid meta preq.debtor_pacc preq.creditor_pacc

pub record IbanPair : Type 0 where
  pub debtor : String
  pub creditor : String

-- Each IBAN pays the next one.
unfoldable pub linked : String → List String → List IbanPair
linked from [] = []
linked from (to ∷ rest) = record { debtor = from; creditor = to } ∷ linked to rest

-- The requests and the builders that they were built by.
abbrev pub Built : Type 0
Built = List PaymentRequest × List PaymentBuilder

abbrev pub also : PaymentBuilder → Built → Built
also pb (reqs, pbs) = (build pb ∷ reqs, pb ∷ pbs)

module _ (r : Source) where
  unfoldable pub build_many : List IbanPair → Gen Built
  build_many [] = always ([], [])
  build_many (pair ∷ pairs) = do
    pb ← new_payment_builder r
    rest ← build_many pairs
    always (also (with_debtor pair.debtor (with_creditor pair.creditor pb)) rest)

  unfoldable pub build_independent_pair : Gen Built
  build_independent_pair = do
    a ← gen_iban r
    b ← gen_iban r
    c ← gen_iban r
    d ← gen_iban r
    build_many (record { debtor = a; creditor = b } ∷ record { debtor = c; creditor = d } ∷ [])

  unfoldable pub gen_ibans : ℕ → Gen (List String)
  gen_ibans zero = always []
  gen_ibans (suc n) = do iban ← gen_iban r; rest ← gen_ibans n; always (iban ∷ rest)

  chain : ℕ → Gen Built
  unfolding linked
  chain length = do from ← gen_iban r; ibans ← gen_ibans length; build_many (linked from ibans)

  unfoldable pub build_dependent_chain : ℕ → Gen (Result Built)
  unfolding chain
  build_dependent_chain length =
      if ltb length 2 then always panic else (do built ← chain length; always (ok built))

  -- `n` payments of new IBANs to `shared`.
  unfoldable pub into_one : String → ℕ → Gen (List IbanPair)
  into_one shared zero = always []
  into_one shared (suc n) = do
    from ← gen_iban r
    rest ← into_one shared n
    always (record { debtor = from; creditor = shared } ∷ rest)

  unfoldable pub build_concurrent_pressure : ℕ → Gen Built
  build_concurrent_pressure count = do
    shared ← gen_iban r
    pairs ← into_one shared count
    build_many pairs

unfoldable pub merge_payment_requests : List (List PaymentRequest) → List PaymentRequest
merge_payment_requests [] = []
merge_payment_requests (slice ∷ slices) = slice ++ merge_payment_requests slices
