-- ===== src/Prelude/Value.antt =====
-- The values of the dictionaries that the nodes, the configuration and the context exchange.
use Prim.Native.Nat.{ℕ, zero}
use Prim.Native.String.{String}
use mathlib.Core.Bool.{Bool, true, false}
use mathlib.Core.Option.{Option, none, some}
use mathlib.Core.List.{List, [], ◌∷◌}
use data_engineer.Prelude.Dict.{Dict}

-- `negsuc n` is -(n + 1).
pub data ℤ : Type 0 where
  pos : ℕ → ℤ
  negsuc : ℕ → ℤ

mutual
  -- A float is kept as the text of its `repr`, and `zero_real` is 0.0. `obj` is an object with its
  -- attributes, such as a dataclass.
  pub data Value : Type 0 where
    null : Value
    boolean : Bool → Value
    int : ℤ → Value
    real : String → Value
    zero_real : Value
    str : String → Value
    list : Items → Value
    dict : Fields → Value
    obj : Fields → Value

  pub data Items : Type 0 where
    nil : Items
    cons : Value → Items → Items

  pub data Fields : Type 0 where
    end : Fields
    field : String → Value → Fields → Fields

abbrev pub entries : Fields → Dict Value
entries end = []
entries (field k v fs) = (k, v) ∷ entries fs

abbrev pub items : Items → List Value
items nil = []
items (cons v vs) = v ∷ items vs

-- `bool(v)`
abbrev pub truthy : Value → Bool
truthy null = false
truthy (boolean b) = b
truthy (int (pos zero)) = false
truthy (int _) = true
truthy (real r) = true
truthy zero_real = false
truthy (str String.[]) = false
truthy (str _) = true
truthy (list nil) = false
truthy (list _) = true
truthy (dict end) = false
truthy (dict _) = true
truthy (obj _) = true

-- `d.get(k)`, where `None` stands for a key that is missing too.
abbrev pub present : Option Value → Option Value
present (some null) = none
present o = o
