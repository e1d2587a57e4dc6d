-- ===== src/Graph/Values.antt =====
-- The helpers `unwrap` and `normalizeTransaction` of packages/graphql-gateway/src/schema/resolvers.ts
-- on JSON; `undefined` is `none`. A field that is set to `undefined` is no field, and no key is
-- `__proto__`. `toUpperCase` and how an index is printed are parameters.
use banking_platform.Base.{ℕ, zero, suc, ◌+◌, ◌-◌, String, Option, none, some, if◌then◌else◌}
use banking_platform.Base.Int.{ℤ, pos, negsuc}
use text.Mathlib.Text.{◌==◌ as str_eq}
use banking_platform.Security.Json.{
  Json, null, boolean, number, str, array, object, Items, nil, cons, Fields, end, field, truthy,
  spread,
}

-- A value, or a `TypeError`.
pub data Evaluated (A : Type 0) : Type 0 where
  value : A → Evaluated A
  type_error : Evaluated A

abbrev pub then_value : {A B : Type 0} → Evaluated A → (A → Evaluated B) → Evaluated B
then_value (value a) f = f a
then_value type_error f = type_error

abbrev pub lookup : String → Fields → Option Json
lookup name end = none
lookup name (field key v fields) = if str_eq key name then some v else lookup name fields

-- `value?.name` for names that only objects have.
abbrev pub member_of : String → Option Json → Option Json
member_of name (some (object fields)) = lookup name fields
member_of name _ = none

-- `a ?? b`.
abbrev pub nullish : Option Json → Option Json → Option Json
nullish none b = b
nullish (some null) b = b
nullish (some v) b = some v

unfoldable pub unwrap : Option Json → Option Json
unwrap response = nullish (member_of "data" response) response

-- `{ ...text }`: its characters.
abbrev pub spread_text : (ℕ → String) → ℕ → String → Fields
spread_text index i String.[] = end
spread_text index i (String.◌∷◌ c s) =
    field (index i) (str (String.◌∷◌ c "")) (spread_text index (i + 1) s)

-- `{ ...v }`.
abbrev pub spread_any : (ℕ → String) → Json → Fields
spread_any index null = end
spread_any index (boolean b) = end
spread_any index (number n) = end
spread_any index (str s) = spread_text index 0 s
spread_any index (array items) = spread index 0 items
spread_any index (object fields) = fields

module _ (upper : String → String) (index : ℕ → String) where
  -- `v ? v.toUpperCase() : v`.
  abbrev pub upper_if_truthy : Json → Evaluated Json
  upper_if_truthy (str s) = value (str (if str_eq s "" then s else upper s))
  upper_if_truthy v = if truthy v then type_error else value v

  abbrev pub put : String → Json → Evaluated Json → Evaluated Fields → Evaluated Fields
  put key v changed fields =
      then_value changed (λ w. then_value fields (λ fs. value (field key w fs)))

  abbrev pub upper_field : String → Fields → Evaluated Fields
  upper_field name end = value end
  upper_field name (field key v fields) =
      let rest = upper_field name fields in
      put key v (if str_eq key name then upper_if_truthy v else value v) rest

  abbrev pub upper_fields : Fields → Evaluated Json
  upper_fields fields =
      then_value (upper_field "type" fields)
        (λ typed. then_value (upper_field "status" typed) (λ fs. value (object fs)))

  -- `normalizeTransaction`.
  unfoldable pub normalize : Json → Evaluated Json
  normalize txn = if truthy txn then upper_fields (spread_any index txn) else value txn

  abbrev pub normalize_option : Option Json → Evaluated (Option Json)
  normalize_option none = value none
  normalize_option (some txn) = then_value (normalize txn) (λ v. value (some v))

  -- `items.map(normalizeTransaction)`.
  abbrev pub normalize_items : Items → Evaluated Items
  normalize_items nil = value nil
  normalize_items (cons v items) =
      let rest = normalize_items items in
      then_value (normalize v) (λ w. then_value rest (λ ws. value (cons w ws)))

  -- `list.map(normalizeTransaction)`.
  abbrev pub normalize_list : Json → Evaluated Json
  normalize_list (array items) = then_value (normalize_items items) (λ ws. value (array ws))
  normalize_list _ = type_error

abbrev pub take_items : ℕ → Items → Items
take_items zero items = nil
take_items (suc n) nil = nil
take_items (suc n) (cons v items) = cons v (take_items n items)

abbrev pub length_items : Items → ℕ
length_items nil = 0
length_items (cons v items) = length_items items + 1

-- `list.slice(0, limit)`: a negative limit leaves out as many at the end.
abbrev pub slice_items : ℤ → Items → Items
slice_items (pos n) items = take_items n items
slice_items (negsuc n) items = take_items (length_items items - suc n) items

-- `limit ? list.slice(0, limit) : list`; the limit 0 and `null` are none. What is no array has no
-- `map` afterwards.
abbrev pub limit_list : Option ℤ → Json → Evaluated Json
limit_list none list = value list
limit_list (some (pos zero)) list = value list
limit_list (some limit) (array items) = value (array (slice_items limit items))
limit_list (some limit) _ = type_error
