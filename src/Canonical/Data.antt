-- ===== src/Canonical/Data.antt =====
-- What `_jcs_value` of ephemora_cell/execution_report.py is applied to, and what it may raise.
use ephemora_cell.Common.{Bool}
use ephemora_cell.Common.Int.{ℤ}
use ephemora_cell.Common.Bytes.{Text}

pub data JcsError : Type 0 where
  type_error value_error index_error : JcsError

-- A float is NaN or infinite, a zero of either sign, or a number with its sign and the text that `repr`
-- gives for its absolute value.
pub data Float : Type 0 where
  special zero_float : Float
  finite : (negative : Bool) → Text → Float

-- The key of an item of a `dict`.
pub data Key : Type 0 where
  name : Text → Key
  no_text : Key

-- A Python value; `other` is of a type that JSON does not have.
mutual
  pub data Value : Type 0 where
    null other : Value
    bool : Bool → Value
    int : ℤ → Value
    float : Float → Value
    str : Text → Value
    list : Values → Value
    dict : Members → Value

  pub data Values : Type 0 where
    nil : Values
    cons : Value → Values → Values

  pub data Members : Type 0 where
    end : Members
    member : Key → Value → Members → Members
