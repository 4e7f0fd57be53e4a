-- ===== src/Json.antt =====
-- The dynamic values (`interface{}`) that `encoding/json` unmarshals into, with Go's checked type
-- assertions on them. A number is kept as its text: no part of the program computes with one.
use test_network_function.Prelude.{Bytes, Bool, Option, none, some, str_eq, if◌then◌else◌}

mutual
  pub data Value : Type 0 where
    null : Value
    bool : Bool → Value
    number : Bytes → Value
    str : Bytes → Value
    arr : Items → Value
    obj : Fields → Value

  -- `[]interface{}`
  pub data Items : Type 0 where
    nil : Items
    cons : Value → Items → Items

  -- `map[string]interface{}`
  pub data Fields : Type 0 where
    end : Fields
    field : Bytes → Value → Fields → Fields

-- `v, ok := m[key]`
unfoldable pub get : Bytes → Fields → Option Value
get k end = none
get k (field j v m) = if str_eq j k then some v else get k m

-- `xs, ok := v.([]interface{})`
unfoldable pub as_array : Value → Option Items
as_array (arr xs) = some xs
as_array _ = none

-- `m, ok := v.(map[string]interface{})`
unfoldable pub as_object : Value → Option Fields
as_object (obj m) = some m
as_object _ = none

-- `b, ok := v.(bool)`
unfoldable pub as_bool : Value → Option Bool
as_bool (bool b) = some b
as_bool _ = none

-- `s, ok := v.(string)`
unfoldable pub as_string : Value → Option Bytes
as_string (str s) = some s
as_string _ = none

unfoldable pub append : Items → Items → Items
append nil ys = ys
append (cons x xs) ys = cons x (append xs ys)
