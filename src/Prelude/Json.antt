-- ===== src/Prelude/Json.antt =====
-- Values of the dynamic language, as `JSON.parse` and `Response.json` produce them, and the reads
-- that the program makes of them. Numbers are integers.
use mathlib.Core.Bool.{Bool, true, false}
use mathlib.Core.Option.{Option, none, some}
use mathlib.Core.List.{List, [], ◌∷◌, ◌++◌}
use bsg.Prelude.Tests.{if◌then◌else◌}
use bsg.Prelude.Texts.{Text, codes, text_eq, nonempty}
use bsg.Prelude.Int.{ℤ, pos, nonzero, Number, finite, nan}
use bsg.Prelude.Decimal.{integer_text}

mutual
  pub data Json : Type 0 where
    undefined null : Json
    bool : Bool → Json
    num : ℤ → Json
    str : Text → Json
    arr : Items → Json
    obj : Fields → Json

  pub data Items : Type 0 where
    nil : Items
    cons : Json → Items → Items

  pub data Fields : Type 0 where
    end : Fields
    field : Text → Json → Fields → Fields

-- Boolean(v)
abbrev pub truthy : Json → Bool
truthy undefined = false
truthy null = false
truthy (bool b) = b
truthy (num n) = nonzero n
truthy (str s) = nonempty s
truthy (arr xs) = true
truthy (obj fs) = true

-- `v || w`
abbrev pub or_json : Json → Json → Json
or_json v w = if truthy v then v else w

abbrev pub lookup_field : Text → Fields → Json
lookup_field k end = undefined
lookup_field k (field j v fs) = if text_eq j k then v else lookup_field k fs

-- `v.k`: a TypeError, which is `none`, on undefined and null. Built-in properties are not modelled.
abbrev pub get : Json → Text → Option Json
get undefined k = none
get null k = none
get (obj fs) k = some (lookup_field k fs)
get v k = some undefined

-- `v?.k`
abbrev pub get_opt : Json → Text → Json
get_opt (obj fs) k = lookup_field k fs
get_opt v k = undefined

abbrev pub items : Items → List Json
items nil = []
items (cons v vs) = v ∷ items vs

-- Array.isArray(v) ? v : []
abbrev pub elements : Json → List Json
elements (arr xs) = items xs
elements v = []

-- `v === s`
abbrev pub is_str : Json → Text → Bool
is_str (str t) s = text_eq t s
is_str v s = false

-- A value where the program's types promise a string or null.
abbrev pub as_text : Json → Option Text
as_text (str s) = some s
as_text v = none

-- Number(v). A text stands for no number: numeric texts are not modelled.
abbrev pub to_number : Json → Number
to_number null = finite (pos 0)
to_number (bool true) = finite (pos 1)
to_number (bool false) = finite (pos 0)
to_number (num n) = finite n
to_number v = nan

-- The strings of an array, where the program's types promise an array of strings.
abbrev strings : List Json → List Text
strings [] = []
strings (str s ∷ vs) = s ∷ strings vs
strings (v ∷ vs) = strings vs

abbrev pub string_elements : Json → List Text
string_elements v = strings (elements v)

-- String(v), as in a template
abbrev mutual
  pub json_text : Json → Text
  json_text undefined = codes "undefined"
  json_text null = codes "null"
  json_text (bool true) = codes "true"
  json_text (bool false) = codes "false"
  json_text (num n) = integer_text n
  json_text (str s) = s
  json_text (arr xs) = items_text xs
  json_text (obj fs) = codes "[object Object]"

  -- In an array, undefined and null are written as nothing.
  pub item_text : Json → Text
  item_text undefined = []
  item_text null = []
  item_text (bool true) = codes "true"
  item_text (bool false) = codes "false"
  item_text (num n) = integer_text n
  item_text (str s) = s
  item_text (arr xs) = items_text xs
  item_text (obj fs) = codes "[object Object]"

  pub items_text : Items → Text
  items_text nil = []
  items_text (cons v nil) = item_text v
  items_text (cons v (cons w vs)) = item_text v ++ (codes "," ++ items_text (cons w vs))
