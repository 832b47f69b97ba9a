-- ===== src/Tenant/Seal.antt =====
-- A sealed line is one that the reader accepts: `apply` of it leads to the account that the writer
-- folded.
use ephemora_cell.Common.{
  ◌≡◌, refl, String, false, arith, ok, ◌>>=◌, ◌>>◌, Outcome-cases, inl, inr, eq_iff, str_eq,
  text_key,
}
use ephemora_cell.Common.Json.{Json, Fields, end, field, get, has, with_field}
use ephemora_cell.Common.Decimal.{int_of}
use ephemora_cell.Common.Moment.{Iso}
use ephemora_cell.Tenant.Values.{mapping_of}
use ephemora_cell.Tenant.Book.{
  Account, fold, fold_admit, fold_settle, fold_expire, apply, agree, totals, sealed, admit_id_of,
}

get-with_field_ne :
    (k j : String) (v : Json) (d : Fields) → str_eq j k ≡ false → get k (with_field d j v) ≡ get k d
get-with_field_ne k j v end h = rw h
get-with_field_ne k j v (field i w d) h = ground (arith, get-with_field_ne k j v d h)

has-with_field_ne :
    (k j : String) (v : Json) (d : Fields) → str_eq j k ≡ false → has k (with_field d j v) ≡ has k d
has-with_field_ne k j v end h = rw h
has-with_field_ne k j v (field i w d) h = ground (arith, has-with_field_ne k j v d h)

get-with_field_self :
    (k : String) (v : Json) (d : Fields) → has k d ≡ false → get k (with_field d k v) ≡ v
get-with_field_self k v end h = ground (arith, eq_iff k k)
get-with_field_self k v (field i w d) h = ground (arith, get-with_field_self k v d)

-- The totals that an account writes are those that it is compared with.
agree-totals : (a : Account) → (mapping_of (totals a) >>= λ d. agree d a >> ok a) ≡ ok a
unfolding totals agree int_of
agree-totals a = ground arith

module _ (iso : Iso) (show_other : Json → String) where
  -- `fold` does not read the totals.
  fold-with_totals :
      (a : Account) (line : Fields) (v : Json)
      → fold iso show_other a (with_field line "totals" v) ≡ fold iso show_other a line
  unfolding fold fold_admit fold_settle fold_expire admit_id_of
  fold-with_totals a line v = rw (
    get-with_field_ne "tenant_entry_version" "totals" v line refl,
    get-with_field_ne "kind" "totals" v line refl,
    get-with_field_ne "charge" "totals" v line refl,
    get-with_field_ne "expires_at" "totals" v line refl,
    get-with_field_ne "admit_id" "totals" v line refl,
    has-with_field_ne "admit_id" "totals" v line refl,
    get-with_field_ne "violation" "totals" v line refl,
    get-with_field_ne "unknown" "totals" v line refl,
  )

  -- A line that was sealed on an account folds it into one that `apply` reaches too.
  pub apply-sealed :
      (a : Account) (line record' : Fields)
      → has "totals" line ≡ false
      → sealed iso show_other a line ≡ ok record'
      → (a' : Account) × (fold iso show_other a line ≡ ok a')
        × (record' ≡ with_field line "totals" (totals a'))
        × (apply iso show_other a record' ≡ ok a')
  unfolding sealed apply
  apply-sealed a line record' bare h = elim (Outcome-cases (fold iso show_other a line)) [
    | inr (e, f) ↦ ground (arith, f)
    | inl (a', f) ↦
        let made : record' ≡ with_field line "totals" (totals a') = ground (arith, f) in
        (
          a',
          f,
          made,
          rw
              (
                made,
                apply,
                fold-with_totals a line (totals a'),
                f,
                get-with_field_self "totals" (totals a') line bare,
              )
              (agree-totals a'),
        )
  ]
