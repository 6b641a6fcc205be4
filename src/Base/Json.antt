-- ===== src/Base/Json.antt =====
-- JSON values as Python decodes them. Floats are left out: no modelled field accepts one.
use Prim.Native.Nat.{ℕ, zero, suc, ◌+◌, ◌/◌, ◌%◌}
use mathlib.Core.Bool.{Bool, true, false}
use mathlib.Core.Option.{Option, none, some}
use mathlib.Core.List.{List, [], ◌∷◌}
use deb_builder.Base.Tests.{◌==◌, ltb, if◌then◌else◌}
use deb_builder.Base.Lists.{length}
use deb_builder.Base.Texts.{Text, ◌=t◌}

mutual
  pub data Value : Type 0 where
    null : Value
    bool : Bool → Value
    int : ℕ → Value
    negative : ℕ → Value
    text : Text → Value
    array : Items → Value
    object : Fields → Value

  pub data Items : Type 0 where
    nil : Items
    item : Value → Items → Items

  pub data Fields : Type 0 where
    end : Fields
    field : Text → Value → Fields → Fields

-- dict.get(key); a decoded object has no key twice
unfoldable pub get : Text → Fields → Option Value
get key end = none
get key (field k v rest) = if k =t key then some v else get key rest

abbrev pub keys : Fields → List Text
keys end = []
keys (field k v rest) = k ∷ keys rest

-- str(n): `negative n` is -(n + 1)
decimal_loop : ℕ → ℕ → Text → Text
decimal_loop zero n acc = acc
decimal_loop (suc fuel) n acc =
    let rest = decimal_loop fuel (n / 10) ((48 + n % 10) ∷ acc) in
    if n / 10 == 0 then (48 + n % 10) ∷ acc else rest

unfoldable pub decimal : ℕ → Text
unfolding decimal_loop
decimal n = decimal_loop (suc n) n []

-- The bytes of one character in the string that `json.dumps(…, ensure_ascii=False)` writes, as UTF-8.
char_size : ℕ → ℕ
char_size c =
    if c == b'"'
    then 2
    else if c == 92
    then 2
    else if c == 8
    then 2
    else if c == 9
    then 2
    else if c == 10
    then 2
    else if c == 12
    then 2
    else if c == 13
    then 2
    else if ltb c 32
    then 6
    else if ltb c 128
    then 1
    else if ltb c 2048
    then 2
    else if ltb c 65536
    then 3
    else 4

chars_size : Text → ℕ
chars_size [] = 0
chars_size (c ∷ t) = char_size c + chars_size t

unfoldable pub string_size : Text → ℕ
unfolding char_size chars_size
string_size t = 2 + chars_size t

bool_size : Bool → ℕ
bool_size true = 4
bool_size false = 5

-- len(json.dumps(value, ensure_ascii=False, separators=(",", ":")).encode("utf-8")); every item and
-- field is counted with a comma, and the brackets of a container that is not empty save one.
unfoldable mutual
  unfolding string_size decimal bool_size

  pub json_size : Value → ℕ
  json_size null = 4
  json_size (bool b) = bool_size b
  json_size (int n) = length (decimal n)
  json_size (negative n) = 1 + length (decimal (n + 1))
  json_size (text t) = string_size t
  json_size (array nil) = 2
  json_size (array (item v rest)) = 1 + items_size (item v rest)
  json_size (object end) = 2
  json_size (object (field k v rest)) = 1 + fields_size (field k v rest)

  pub items_size : Items → ℕ
  items_size nil = 0
  items_size (item v rest) = json_size v + 1 + items_size rest

  pub fields_size : Fields → ℕ
  fields_size end = 0
  fields_size (field k v rest) = string_size k + 1 + json_size v + 1 + fields_size rest

-- A dictionary display, in the order in which it is written.
abbrev pub dict : List (Text × Value) → Fields
dict [] = end
dict ((k, v) ∷ rest) = field k v (dict rest)

abbrev pub texts : List Text → Items
texts [] = nil
texts (t ∷ rest) = item (text t) (texts rest)
