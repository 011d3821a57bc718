-- ===== src/Prelude/Json.antt =====
-- JSON values as `json.loads` gives them, numbers natural; an object keeps its keys in order.
use Prim.Native.Nat.{ℕ, zero, suc}
use Prim.Native.String.{String}
use mathlib.Core.Bool.{Bool, true, false, not}
use mathlib.Core.List.{List, [], ◌∷◌}
use mathlib.Core.Option.{Option, none, some}
use llm_agent_runtime.Prelude.Tests.{◌==◌, str_eq, if◌then◌else◌}

mutual
  pub data Json : Type 0 where
    null : Json
    bool : Bool → Json
    num : ℕ → Json
    str : String → Json
    arr : Items → Json
    obj : Fields → Json

  pub data Items : Type 0 where
    nil : Items
    cons : Json → Items → Items

  pub data Fields : Type 0 where
    end : Fields
    field : String → Json → Fields → Fields

-- `d.get(k)`
abbrev pub field_of : String → Fields → Option Json
field_of k end = none
field_of k (field j v fs) = if str_eq j k then some v else field_of k fs

-- `d[k] = v`
abbrev pub set_field : String → Json → Fields → Fields
set_field k v end = field k v end
set_field k v (field j u fs) = if str_eq j k then field j v fs else field j u (set_field k v fs)

-- `d.setdefault(k, v)`
abbrev pub set_default : String → Json → Fields → Fields
set_default k v end = field k v end
set_default k v (field j u fs) = if str_eq j k then field j u fs else field j u (set_default k v fs)

-- `d.pop(k, None)`
abbrev pub without_field : String → Fields → Fields
without_field k end = end
without_field k (field j u fs) =
    let rest = without_field k fs in if str_eq j k then rest else field j u rest

abbrev pub items : Items → List Json
items nil = []
items (cons v vs) = v ∷ items vs

abbrev pub array : List Json → Items
array [] = nil
array (v ∷ vs) = cons v (array vs)

abbrev keys : Fields → List Json
keys end = []
keys (field k v fs) = str k ∷ keys fs

abbrev characters : String → List Json
characters String.[] = []
characters (String.◌∷◌ c s) = str (String.◌∷◌ c String.[]) ∷ characters s

-- `bool(v)`
abbrev pub truthy : Json → Bool
truthy null = false
truthy (bool b) = b
truthy (num n) = not (n == 0)
truthy (str s) = not (str_eq s "")
truthy (arr nil) = false
truthy (arr (cons v vs)) = true
truthy (obj end) = false
truthy (obj (field k v fs)) = true

-- `for item in v or []`; `none` is the `TypeError` of a value that is no iterable
pub iterate : Json → Option (List Json)
iterate null = some []
iterate (bool false) = some []
iterate (bool true) = none
iterate (num zero) = some []
iterate (num (suc n)) = none
iterate (str s) = some (characters s)
iterate (arr vs) = some (items vs)
iterate (obj fs) = some (keys fs)
