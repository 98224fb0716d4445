-- ===== src/Js.antt =====
-- JavaScript values as the program meets them behind `unknown` and `Record<string, unknown>`: what
-- `JSON.parse` returns, tool arguments and token claims. A number is a fraction, since every finite
-- double is one, or one of the values that are not finite. An object lists its own properties.
pub mod Numbers
use aws_mcp_gateway.Base.{
  Bool, true, false, Option, none, some, String, List, [], ◌∷◌, ◌==◌, string_eq, if◌then◌else◌,
}
use aws_mcp_gateway.Js.Numbers.{Num}

mutual
  pub data Value : Type 0 where
    undefined null : Value
    boolean : Bool → Value
    number : Num → Value
    text : String → Value
    array : Items → Value
    object : Fields → Value

  pub data Items : Type 0 where
    nil : Items
    item : Value → Items → Items

  pub data Fields : Type 0 where
    end : Fields
    field : String → Value → Fields → Fields

-- `record.key`; a property that is not there reads as `undefined`
unfoldable pub get : String → Fields → Value
get key end = undefined
get key (field k v fs) = if k == key then v else get key fs

-- `typeof value === "string" ? value : undefined`
abbrev pub as_text : Value → Option String
as_text (text s) = some s
as_text v = none

-- `typeof value === "number" ? value : undefined`
abbrev pub as_number : Value → Option Num
as_number (number n) = some n
as_number v = none

-- `items.filter((item): item is string => typeof item === "string")`
unfoldable pub texts : Items → List String
texts nil = []
texts (item (text s) vs) = s ∷ texts vs
texts (item v vs) = texts vs

-- `Array.isArray(value) ? value.filter(isString) : undefined`
abbrev pub as_texts : Value → Option (List String)
as_texts (array vs) = some (texts vs)
as_texts v = none

-- an array of texts
unfoldable pub texts_value : List String → Items
texts_value [] = nil
texts_value (s ∷ ss) = item (text s) (texts_value ss)
