-- ===== src/Base/Json.antt =====
-- What `JSON.parse` returns. A number is kept as the text that `String(n)` gives; an object has its
-- entries in their order, and no key twice.
use Prim.Native.String.{String}
use mathlib.Core.Bool.{Bool}
use mathlib.Core.Option.{Option, none, some}
use mathlib.Core.List.{List, [], ◌∷◌}
use text.Mathlib.Text.{◌==◌ as str_eq}
use evergent.Base.Tests.{if◌then◌else◌}

mutual
  pub data Json : Type 0 where
    null : Json
    boolean : Bool → Json
    number : String → Json
    string : String → Json
    array : Items → Json
    object : Fields → Json

  pub data Items : Type 0 where
    nil : Items
    cons : Json → Items → Items

  pub data Fields : Type 0 where
    end : Fields
    field : String → Json → Fields → Fields

-- The elements of an array, and `Object.entries(o)`
abbrev pub elements : Items → List Json
elements nil = []
elements (cons v items) = v ∷ elements items

abbrev pub entries : Fields → List (String × Json)
entries end = []
entries (field k v fields) = (k, v) ∷ entries fields

-- `o[k]`, where nothing stands for `undefined`
abbrev pub lookup : String → Fields → Option Json
lookup k end = none
lookup k (field j v fields) = if str_eq j k then some v else lookup k fields
