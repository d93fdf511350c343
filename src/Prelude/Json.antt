-- ===== src/Prelude/Json.antt =====
-- What `json.loads` gives, and what the source does with it. Numbers are natural, which is all that
-- the programs print whose output is read. `repr` of a text is a parameter.
use Prim.Native.String.{String, ◌++◌ as ◌<>◌}
use Prim.Native.Nat.{ℕ, zero, suc}
use mathlib.Core.Bool.{Bool, true, false, not}
use mathlib.Core.Option.{Option, none, some}
use mathlib.Core.List.{List, [], ◌∷◌}
use net_twin.Prelude.Tests.{◌==◌, string_eq, if◌then◌else◌}
use net_twin.Prelude.Text.{is_empty, isdigit, int, strip}
use net_twin.Prelude.Decimal.{show}
use net_twin.Prelude.Result.{Result, ok, err}

mutual
  pub data Json : Type 0 where
    null : Json
    flag : Bool → Json
    number : ℕ → Json
    text : String → Json
    list : Items → Json
    dict : Fields → Json

  pub data Items : Type 0 where
    nil : Items
    cons : Json → Items → Items

  pub data Fields : Type 0 where
    end : Fields
    field : String → Json → Fields → Fields

-- What reading a value of another shape raises.
pub data JsonFault : Type 0 where
  not_dict not_list not_number not_text : JsonFault
  missing : String → JsonFault

unfoldable pub elements : Items → List Json
elements nil = []
elements (cons j js) = j ∷ elements js

unfoldable pub of_list : List Json → Items
of_list [] = nil
of_list (j ∷ js) = cons j (of_list js)

-- `d.get(key)`
unfoldable pub get : String → Fields → Option Json
get key end = none
get key (field k j fs) = let rest = get key fs in if key == k then some j else rest

-- `{k: v for k, v in d.items() if not drop(k)}`
unfoldable pub keep_unless : (String → Bool) → Fields → Fields
keep_unless drop end = end
keep_unless drop (field k j fs) =
    let rest = keep_unless drop fs in if drop k then rest else field k j rest

-- `bool(j)`
unfoldable pub truthy : Json → Bool
truthy null = false
truthy (flag b) = b
truthy (number zero) = false
truthy (number (suc n)) = true
truthy (text s) = not (is_empty s)
truthy (list nil) = false
truthy (list (cons j js)) = true
truthy (dict end) = false
truthy (dict (field k j fs)) = true

-- `d.get(key) or {}`, of which `get` is called next
unfoldable pub dict_or_empty : Option Json → Result JsonFault Fields
unfolding truthy
dict_or_empty none = ok end
dict_or_empty (some (dict fs)) = ok fs
dict_or_empty (some j) = if truthy j then err not_dict else ok end

-- `int(j)`, where a text is digits between blanks
unfoldable pub int_of : Json → Result JsonFault ℕ
int_of (number n) = ok n
int_of (flag true) = ok 1
int_of (flag false) = ok 0
int_of (text s) = if isdigit (strip s) then ok (int (strip s)) else err not_number
int_of j = err not_number

-- The elements of a list over which a loop runs.
unfoldable pub as_list : Json → Result JsonFault (List Json)
unfolding elements
as_list (list js) = ok (elements js)
as_list j = err not_list

singles : String → List Json
singles String.[] = []
singles (String.◌∷◌ c s) = text (String.◌∷◌ c "") ∷ singles s

keys : Fields → List Json
keys end = []
keys (field k j fs) = text k ∷ keys fs

-- What a `for` over any value runs over: a text's characters, a dict's keys.
unfoldable pub iterated : Json → Result JsonFault (List Json)
unfolding elements singles keys
iterated (list js) = ok (elements js)
iterated (text s) = ok (singles s)
iterated (dict fs) = ok (keys fs)
iterated j = err not_list

-- `d[key] = j`
unfoldable pub set : String → Json → Fields → Fields
set k j end = field k j end
set k j (field l i fs) = let rest = set k j fs in if k == l then field l j fs else field l i rest

-- `j or default`
unfoldable pub or_else : Json → Option Json → Json
unfolding truthy
or_else d none = d
or_else d (some j) = if truthy j then j else d

unfoldable pub as_dict : Json → Result JsonFault Fields
as_dict (dict fs) = ok fs
as_dict j = err not_dict

module _ (repr : String → String) where
  unfoldable mutual
    -- `repr(j)`
    pub repr_of : Json → String
    repr_of null = "None"
    repr_of (flag true) = "True"
    repr_of (flag false) = "False"
    repr_of (number n) = show n
    repr_of (text s) = repr s
    repr_of (list js) = "[" <> (repr_items js <> "]")
    repr_of (dict fs) = "{" <> (repr_fields fs <> "}")

    pub repr_items : Items → String
    repr_items nil = ""
    repr_items (cons j nil) = repr_of j
    repr_items (cons j (cons k js)) = repr_of j <> (", " <> repr_items (cons k js))

    pub repr_fields : Fields → String
    repr_fields end = ""
    repr_fields (field k j end) = repr k <> (": " <> repr_of j)
    repr_fields (field k j (field l i fs)) =
        repr k <> (": " <> (repr_of j <> (", " <> repr_fields (field l i fs))))

  -- `str(j)`
  unfoldable pub str : Json → String
  unfolding repr_of
  str (text s) = s
  str j = repr_of j
