-- ===== src/Audit/Values.antt =====
-- What mcp/audit/tool-input.ts does with a property of the arguments of a tool, which are an object.
use aws_mcp_gateway.Base.{
  ℕ, zero, suc, not, Bool, true, false, String, is_empty, if◌then◌else◌, units,
}
use aws_mcp_gateway.Js.{
  Value, undefined, null, boolean, number, text, array, object, Items, nil, item, Fields, field,
  get,
}
use aws_mcp_gateway.Js.Numbers.{whole, num_lt, ratio, nan}

-- `Boolean(value)`
unfoldable pub is_truthy : Value → Bool
is_truthy undefined = false
is_truthy null = false
is_truthy (boolean b) = b
is_truthy (number (ratio zero d)) = false
is_truthy (number nan) = false
is_truthy (number n) = true
is_truthy (text s) = not (is_empty s)
is_truthy value = true

unfoldable pub count : Items → ℕ
count nil = 0
count (item v vs) = suc (count vs)

-- `value?.length`
unfoldable pub length_of : Value → Value
unfolding count
length_of (text s) = number (whole (units s))
length_of (array items) = number (whole (count items))
length_of (object fields) = get "length" fields
length_of value = undefined

-- `value ?? other`
unfoldable pub or_value : Value → Value → Value
or_value undefined other = other
or_value null other = other
or_value value other = value

-- `value > 0`, on a number
unfoldable pub more_than_none : Value → Bool
more_than_none (number n) = num_lt (whole 0) n
more_than_none value = false

unfoldable pub is_undefined : Value → Bool
is_undefined undefined = true
is_undefined value = false

module _ (args : Fields) where
  -- `key: args.name?.length ?? 0`
  unfoldable pub length_field : String → String → Fields → Fields
  unfolding length_of or_value
  length_field key name rest =
      field key (or_value (length_of (get name args)) (number (whole 0))) rest

  -- `key: Boolean(args.name)`
  unfoldable pub flag_field : String → String → Fields → Fields
  unfolding is_truthy
  flag_field key name rest = field key (boolean (is_truthy (get name args))) rest

  -- `name: args.name`
  unfoldable pub same_field : String → Fields → Fields
  same_field name rest = field name (get name args) rest

  -- `...(args.name !== undefined ? { name: args.name } : {})`
  unfoldable pub given_field : String → Fields → Fields
  unfolding is_undefined
  given_field name rest =
      if is_undefined (get name args) then rest else field name (get name args) rest

  -- `regionCount: args.regions?.length ?? "all"`
  unfoldable pub region_count : Fields → Fields
  unfolding length_of or_value
  region_count rest =
      field "regionCount" (or_value (length_of (get "regions" args)) (text "all")) rest

  -- `include: args.include ?? [other]`
  unfoldable pub include_field : String → Fields → Fields
  unfolding or_value
  include_field other rest =
      field "include" (or_value (get "include" args) (array (item (text other) nil))) rest
