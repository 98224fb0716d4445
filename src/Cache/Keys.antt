-- ===== src/Cache/Keys.antt =====
-- cache/keys.ts: the key under which an answer is kept. `JSON.stringify` and the digest are the platform's.
use aws_mcp_gateway.Base.{Bool, String, List, [], ◌∷◌, is_before, ◌<>◌, join, if◌then◌else◌}
use aws_mcp_gateway.Js.{
  Value, undefined, null, boolean, number, text, array, object, Items, nil, item, Fields, end,
  field,
}
use aws_mcp_gateway.Js.Numbers.{Num}

-- `Serialized`
mutual
  pub data Serialized : Type 0 where
    null_key undefined_key : Serialized
    string_key : String → Serialized
    number_key : Num → Serialized
    boolean_key : Bool → Serialized
    array_key : SerializedItems → Serialized
    object_key : SerializedFields → Serialized

  pub data SerializedItems : Type 0 where
    no_items : SerializedItems
    item_key : Serialized → SerializedItems → SerializedItems

  pub data SerializedFields : Type 0 where
    no_fields : SerializedFields
    field_key : String → Serialized → SerializedFields → SerializedFields

-- a field put at its place among fields in order
unfoldable pub put_field : String → Serialized → SerializedFields → SerializedFields
put_field key value no_fields = field_key key value no_fields
put_field key value (field_key k v fields) =
    let rest = put_field key value fields in
    if is_before key k then field_key key value (field_key k v fields) else field_key k v rest

-- `serializeForKey`, on an array and on the own properties of an object too
unfoldable mutual
  unfolding put_field

  pub serialize_for_key : Value → Serialized
  serialize_for_key undefined = undefined_key
  serialize_for_key null = null_key
  serialize_for_key (boolean b) = boolean_key b
  serialize_for_key (number n) = number_key n
  serialize_for_key (text s) = string_key s
  serialize_for_key (array items) = array_key (serialize_items items)
  serialize_for_key (object fields) = object_key (serialize_fields fields)

  pub serialize_items : Items → SerializedItems
  serialize_items nil = no_items
  serialize_items (item v vs) = item_key (serialize_for_key v) (serialize_items vs)

  pub serialize_fields : Fields → SerializedFields
  serialize_fields end = no_fields
  serialize_fields (field k v fs) = put_field k (serialize_for_key v) (serialize_fields fs)

-- The platform's `JSON.stringify` of a serialized value, and the SHA-256 of a text, in hexadecimal.
pub record Hashing : Type 0 where
  pub stringify : Serialized → String
  pub sha256_hex : String → String

module _ (hashing : Hashing) where
  -- each key with its serialized value
  parts_of : SerializedFields → List String
  parts_of no_fields = []
  parts_of (field_key k v fields) = (k <> "=" <> hashing.stringify v) ∷ parts_of fields

  -- `normalizeParams`
  unfoldable pub normalize_params : Fields → String
  unfolding parts_of
  normalize_params params = join "&" (parts_of (serialize_fields params))

  -- `buildCacheKey`
  unfoldable pub build_cache_key : String → Fields → String
  build_cache_key tool_name params =
      "ce:" <> hashing.sha256_hex (tool_name <> ":" <> normalize_params params)
