-- ===== src/Builders/Proper.antt =====
-- What NewPaymentBuilder of core/testhelpers/builders.go makes, and what the checks of core/entity accept
-- of it.
use cbtraining.Base.{ℕ, String, len, Option, ◌≡◌, ◌≤◌, ◌⊎◌, refl, arith}
use cbtraining.Errors.{ok}
use cbtraining.ValObj.{
  Role, debtor, creditor, role_string, parse_currency, parse_country_of_residence, val_role,
}
use cbtraining.ValObj.Laws.{IsEndToEndId}
use cbtraining.Ports.{PartyRecord}
use cbtraining.Entity.{
  PaymentAccount, new_pa_from_dto, recover_pa_from_rec, new_payment_party_from_dto,
  recover_pp_from_rec,
}
use cbtraining.Builders.{PaymentBuilder, new_payment_builder}
use cbtraining.Builders.Random.{Source, gen_iban}
use cbtraining.Builders.Shapes.{
  gen_iban-len, gen_bic-len, gen_end_to_end_identification-IsEndToEndId,
}

abbrev pub IsBic : String → Type 0
IsBic bic = (len bic ≡ 8) ⊎ (len bic ≡ 11)

abbrev pub IsIban : String → Type 0
IsIban iban = (15 ≤ len iban) × (len iban ≤ 34)

-- The pieces of a builder that the value objects check.
pub record Proper (pb : PaymentBuilder) : Type 0 where
  pub deb_bic : IsBic pb.deb_party_bic
  pub cred_bic : IsBic pb.cred_party_bic
  pub debtor : IsIban pb.debtor_iban
  pub creditor : IsIban pb.creditor_iban
  pub end_to_end : IsEndToEndId pb.end_to_end_identificator
  pub status : pb.status ≡ "pending"
  pub amount : pb.amount ≡ "300.00"
  pub currency : pb.currency ≡ "EUR"
  pub deb_cur : pb.debitor_cur ≡ "BYN"
  pub cred_cur : pb.creditor_cur ≡ "BYN"
  pub deb_contry : pb.debtor_contry ≡ "BY"
  pub cred_contry : pb.creditor_contry ≡ "BY"

pub gen_iban-IsIban : (r : Source) (k : ℕ) → IsIban (gen_iban r k).0
gen_iban-IsIban r k = ground (arith, gen_iban-len r k)

pub new_payment_builder-Proper : (r : Source) (k : ℕ) → Proper (new_payment_builder r k).0
unfolding new_payment_builder
new_payment_builder-Proper r k = record {
  deb_bic = gen_bic-len r _;
  cred_bic = gen_bic-len r _;
  debtor = gen_iban-IsIban r _;
  creditor = gen_iban-IsIban r _;
  end_to_end = gen_end_to_end_identification-IsEndToEndId r _;
  status = refl;
  amount = refl;
  currency = refl;
  deb_cur = refl;
  cred_cur = refl;
  deb_contry = refl;
  cred_contry = refl;
}

-- An account as the builder writes it.
abbrev pub account_of : String → Role → String → String → PaymentAccount
account_of iban role bic name = record {
  iban = iban;
  acc_curency = record { currency = "BYN" };
  payment_party = record {
    bic = bic;
    role = role;
    contry_of_residence = record { country_code = "BY" };
    name = name;
  };
}

pub dto_accepted :
    (iban bic name : String) (role : Role)
    → IsIban iban
    → IsBic bic
    → new_pa_from_dto
        (record { iban = iban; acc_curency = "BYN" })
        (record { bic = bic; role = role_string role; contry_of_residence = "BY"; name = name })
      ≡ ok (account_of iban role bic name)
unfolding new_pa_from_dto new_payment_party_from_dto parse_currency parse_country_of_residence
    val_role
dto_accepted iban bic name debtor v b = ground arith
dto_accepted iban bic name creditor v b = ground arith

pub rec_accepted :
    (iban bic name : String) (role : Role) (party : Option PartyRecord)
    → IsIban iban
    → IsBic bic
    → recover_pa_from_rec
        (record { iban = iban; acc_curency = "BYN"; party = party })
        (record { bic = bic; role = role_string role; contry_of_residence = "BY"; name = name })
      ≡ ok (account_of iban role bic name)
unfolding recover_pa_from_rec recover_pp_from_rec parse_currency parse_country_of_residence val_role
rec_accepted iban bic name debtor party v b = ground arith
rec_accepted iban bic name creditor party v b = ground arith

-- The constants of the builder, put in their places.
abbrev pub settled : PaymentBuilder → PaymentBuilder
settled pb = record pb {
  status = "pending";
  amount = "300.00";
  currency = "EUR";
  debitor_cur = "BYN";
  creditor_cur = "BYN";
  debtor_contry = "BY";
  creditor_contry = "BY";
}

pub Proper-settled : (pb : PaymentBuilder) → Proper pb → settled pb ≡ pb
Proper-settled pb v =
    ground
      (arith, v.status, v.amount, v.currency, v.deb_cur, v.cred_cur, v.deb_contry, v.cred_contry)
