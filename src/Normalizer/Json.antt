-- ===== src/Normalizer/Json.antt =====
-- `serde_json::Value`, as far as the code reads it: a number is its text, and an object is its map,
-- each key once, in the map's order.
use rust_waf.Common.{Bool, Option, none, some, Bytes, bytes_eq, if◌then◌else◌}

mutual
  pub data Value : Type 0 where
    null : Value
    bool : Bool → Value
    number : Bytes → Value
    string : Bytes → Value
    array : Elements → Value
    object : Members → Value

  pub data Elements : Type 0 where
    no_more : Elements
    element : Value → Elements → Elements

  pub data Members : Type 0 where
    no_member : Members
    member : Bytes → Value → Members → Members

unfoldable pub get : Bytes → Members → Option Value
get key Members.no_member = none
get key (Members.member k v rest) =
    let found = get key rest in if bytes_eq k key then some v else found
