-- ===== src/Base/Json.antt =====
-- JSON values, as in the JSONB columns `object_scope`, `request_params` and `config`.
-- A Python dict is the list of its entries, in order.
use Prim.Native.Nat.{ℕ}
use Prim.Native.String.{String}
use mathlib.Core.Path.{◌≡◌, refl}
use mathlib.Core.Bool.{Bool, true, false, not}
use mathlib.Core.Option.{Option, none, some}
use native.Mathlib.Omega.{arith}
use text.Mathlib.Text.{◌==◌}
use text.Mathlib.TextEquality.{eq_iff}
use quant_stock.Base.Tests.{ltb, if◌then◌else◌}
use quant_stock.Base.Result.{Result, ok, err, value_error, type_error, require}
use quant_stock.Base.Decimal.{show, read}

mutual
  pub data Json : Type 0 where
    null : Json
    flag : Bool → Json
    num : ℕ → Json
    str : String → Json
    array : Items → Json
    object : Dict → Json

  pub data Items : Type 0 where
    nil : Items
    cons : Json → Items → Items

  pub data Dict : Type 0 where
    empty : Dict
    entry : String → Json → Dict → Dict

-- d.get(k)
unfoldable pub get : Dict → String → Option Json
get empty k = none
get (entry j v d) k = let rest = get d k in if j == k then some v else rest

-- {**d, k: v}
unfoldable pub put : Dict → String → Json → Dict
put empty k v = entry k v empty
put (entry j w d) k v = let rest = put d k v in if j == k then entry j v d else entry j w rest

-- bool(v)
unfoldable pub truthy : Json → Bool
truthy null = false
truthy (flag b) = b
truthy (num n) = ltb 0 n
truthy (str s) = not (s == "")
truthy (array nil) = false
truthy (array (cons v vs)) = true
truthy (object empty) = false
truthy (object (entry k v d)) = true

abbrev pub or_else : Option Json → Json → Json
or_else none v = v
or_else (some w) v = if truthy w then w else v

-- d.get(k) or v, with None for a missing key
unfoldable pub get_or : Dict → String → Json → Json
get_or d k v = or_else (get d k) v

-- int(v)
unfoldable pub to_int : Json → Result ℕ
to_int (num n) = ok n
to_int (flag b) = ok (if b then 1 else 0)
to_int (str s) = require (read s) (value_error "invalid literal for int()")
to_int _ = err (type_error "int() argument must be a string or a number")

-- str(v) of the scalars. The callers convert no container; its text is not spelled out.
unfoldable pub to_text : Json → String
to_text null = "None"
to_text (flag b) = if b then "True" else "False"
to_text (num n) = show n
to_text (str s) = s
to_text (array vs) = "[]"
to_text (object d) = "{}"

-- d.get(k, default)
abbrev pub get_default : Dict → String → Json → Json
get_default d k default = elim (get d k) [ none ↦ default | some v ↦ v ]

-- str(d.get(k, default))
unfoldable pub get_text : Dict → String → String → String
get_text d k default = elim (get d k) [ none ↦ default | some v ↦ to_text v ]

pub get-put :
    (d : Dict) (k j : String) (v : Json) → get (put d k v) j ≡ (if k == j then some v else get d j)
unfolding get put
get-put empty k j v = refl
get-put (entry i w d) k j v = ground (arith, eq_iff k j, eq_iff i k, eq_iff i j, get-put d k j v)
