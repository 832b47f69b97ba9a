-- ===== src/Tenant/Lines.antt =====
-- What each line that the store writes folds to.
use ephemora_cell.Common.{
  suc, ◌*◌, ◌/◌, ◌≡◌, refl, String, Bool, true, false, Option, some, arith, ok, raised,
  if◌then◌else◌, text_key,
}
use ephemora_cell.Common.Dict.{insert, erase, contains}
use ephemora_cell.Common.Json.{Json}
use ephemora_cell.Common.Decimal.{int_of}
use ephemora_cell.Common.Moment.{Moment, Iso, aware}
use ephemora_cell.Tenant.Values.{Charge, Error, Dimension, from_line, plus, charge_dict}
use ephemora_cell.Tenant.Values.Bounds.{IsSafe}
use ephemora_cell.Tenant.Book.{
  Account, fold, fold_admit, fold_settle, fold_expire, admit_id_of, parse_stamp,
}
use ephemora_cell.Tenant.{refuse_line, admit_line, settle_line, expire_line}

from_line-charge_dict : (c : Charge) → IsSafe c → from_line (charge_dict c) ≡ ok c
unfolding from_line int_of
from_line-charge_dict c h = ground arith

-- The reservation that an admission's line leaves: its expiry is cut to milliseconds.
abbrev pub reserving : Account → String → Charge → Moment → Account
reserving a id reserve expires = record a {
  reservations = insert id (reserve, some (aware (expires / 1000 * 1000))) a.reservations;
}

abbrev pub settled : Account → String → Charge → Bool → Bool → Account
settled a id charged violation unknown = record a {
  runs = suc a.runs;
  charged = charged;
  violations = if violation then suc a.violations else a.violations;
  unknown = if unknown then suc a.unknown else a.unknown;
  reservations = erase id a.reservations;
}

abbrev pub released : Account → String → Account
released a id = record a { reservations = erase id a.reservations }

module _ (iso : Iso) (show_other : Json → String) (a : Account) (name : String) (now : Moment) where
  pub fold-refuse_line :
      (limit : Dimension) (r : Option Json)
      → fold iso show_other a (refuse_line iso name now limit r)
        ≡ ok (record a { refused = suc a.refused })
  unfolding fold
  fold-refuse_line limit r = refl

  pub fold-admit_line :
      (id : String) (expires : Moment) (reserve : Charge) (r : Option Json)
      → IsSafe reserve
      → fold iso show_other a (admit_line iso name now id expires reserve r)
        ≡ ok (reserving a id reserve expires)
  unfolding fold fold_admit admit_id_of parse_stamp
  fold-admit_line id expires reserve r safe =
      rw (from_line-charge_dict reserve safe, iso.stamp_named expires, iso.from_iso-stamp expires)

  pub fold-settle_line :
      (id : String) (charge charged : Charge) (violation unknown : Bool)
      → IsSafe charge
      → contains id a.reservations ≡ true
      → plus a.charged charge ≡ ok charged
      → fold iso show_other a (settle_line iso name now id charge violation unknown)
        ≡ ok (settled a id charged violation unknown)
  unfolding fold fold_settle admit_id_of
  fold-settle_line id charge charged true true safe found sum =
      rw (found, from_line-charge_dict charge safe, sum)
  fold-settle_line id charge charged true false safe found sum =
      rw (found, from_line-charge_dict charge safe, sum)
  fold-settle_line id charge charged false true safe found sum =
      rw (found, from_line-charge_dict charge safe, sum)
  fold-settle_line id charge charged false false safe found sum =
      rw (found, from_line-charge_dict charge safe, sum)

  pub fold-settle_line_raised :
      (id : String) (charge : Charge) (e : Error) (violation unknown : Bool)
      → IsSafe charge
      → contains id a.reservations ≡ true
      → plus a.charged charge ≡ raised e
      → fold iso show_other a (settle_line iso name now id charge violation unknown) ≡ raised e
  unfolding fold fold_settle admit_id_of
  fold-settle_line_raised id charge e violation unknown safe found sum =
      rw (found, from_line-charge_dict charge safe, sum)

  pub fold-expire_line :
      (id : String) → fold iso show_other a (expire_line iso name now id) ≡ ok (released a id)
  unfolding fold fold_expire admit_id_of
  fold-expire_line id = refl
