-- ===== src/Postgres.antt =====
-- adapters/secondary/postgres and migrations: the five tables, with the rows that the migrations
-- declare. A time is a number, and `NULL` is `none`.
pub mod Sql
pub mod Repo
pub mod Keys
pub mod Process
pub mod Stored
pub mod Stages
pub mod Insert
pub mod Registry
pub mod Pairs
pub mod Consistent
pub mod Loaded
use cbtraining.Base.{ℕ, String, List, [], Option}

pub record PartyRow : Type 0 where
  pub bic : String
  pub role : String
  pub country_of_residence : String
  pub name : String

pub record AccountRow : Type 0 where
  pub iban : String
  pub account_currency : String
  pub party_bic : String

pub record HistoryRow : Type 0 where
  pub txid : String
  pub status : String
  pub amount : String  -- the text of the `NUMERIC`
  pub currency : String
  pub end_to_end_id : String
  pub transaction_type : String
  pub debtor_account_id : String
  pub creditor_account_id : String
  pub created_at : ℕ
  pub updated_at : ℕ

pub record PendingRow : Type 0 where
  pub txid : String
  pub created_at : ℕ

pub record OutboxRow : Type 0 where
  pub txid : String
  pub topic : String
  pub payload : String
  pub created_at : ℕ
  pub sent_at : Option ℕ

pub record Tables : Type 0 where
  pub party_registry : List PartyRow
  pub pa_registry : List AccountRow
  pub tx_history : List HistoryRow
  pub pending : List PendingRow
  pub outbox : List OutboxRow

abbrev pub no_rows : Tables
no_rows = record {
  party_registry = [];
  pa_registry = [];
  tx_history = [];
  pending = [];
  outbox = [];
}

-- The text columns of the tables.
pub data Column : Type 0 where
  bic role country_of_residence name : Column
  iban account_currency party_bic : Column
  txid status amount currency end_to_end_id transaction_type : Column
  debtor_account_id creditor_account_id : Column
  topic payload : Column

-- What the server does with values: `cast` is the value that a column stores, or `none` where the
-- server refuses it; `stamp` is a time as a TIMESTAMPTZ keeps it; `json_times` is the text of
-- `json_build_object` on the two times.
pub record Server : Type 0 where
  pub cast : Column → String → Option String
  pub stamp : ℕ → ℕ
  pub json_times : ℕ → ℕ → String
