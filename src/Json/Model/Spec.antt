-- ===== src/Json/Model/Spec.antt =====
-- What `_validate_json_model` of scripts/contracts/contractlib.py promises, by recursion on the
-- value: its nodes, its depth, and which values are in the JSON data model.
use Prim.Native.Nat.{max}
use bytedesk_agent_delivery.Prelude.{
  ℕ, suc, ◌+◌, ◌≡◌, refl, Bool, true, false, not, ◌&&◌, [], ◌∷◌, ◌++◌, arith,
}
use bytedesk_agent_delivery.Json.{
  Value, null, boolean, integer, floating, string, array, object, other, Items, nil, cons, Fields,
  end, field, Key, name, non_string,
}
use bytedesk_agent_delivery.Json.Model.{
  contains_surrogate, outside_safe_range, is_finite, Stack, push_items,
}

-- The values and member names of a value, each a node.
unfoldable mutual
  pub count : Value → ℕ
  count (array items) = suc (count_items items)
  count (object fields) = suc (count_fields fields)
  count null = 1
  count (boolean b) = 1
  count (integer z) = 1
  count (floating bits) = 1
  count (string text) = 1
  count other = 1

  pub count_items : Items → ℕ
  count_items nil = 0
  count_items (cons value rest) = count value + count_items rest

  pub count_fields : Fields → ℕ
  count_fields end = 0
  count_fields (field key value rest) = suc (count value) + count_fields rest

-- How many levels a value has below its own.
unfoldable mutual
  pub levels : Value → ℕ
  levels (array items) = levels_items items
  levels (object fields) = levels_fields fields
  levels null = 0
  levels (boolean b) = 0
  levels (integer z) = 0
  levels (floating bits) = 0
  levels (string text) = 0
  levels other = 0

  pub levels_items : Items → ℕ
  levels_items nil = 0
  levels_items (cons value rest) = max (suc (levels value)) (levels_items rest)

  pub levels_fields : Fields → ℕ
  levels_fields end = 0
  levels_fields (field key value rest) = max (suc (levels value)) (levels_fields rest)

unfoldable pub is_name : Key → Bool
is_name (name text) = not (contains_surrogate text)
is_name non_string = false

-- The JSON data model: safe integers, finite floats, texts without surrogates, text names.
unfoldable mutual
  pub in_model : Value → Bool
  in_model (array items) = in_model_items items
  in_model (object fields) = in_model_fields fields
  in_model null = true
  in_model (boolean b) = true
  in_model (integer z) = not (outside_safe_range z)
  in_model (floating bits) = is_finite bits
  in_model (string text) = not (contains_surrogate text)
  in_model other = false

  pub in_model_items : Items → Bool
  in_model_items nil = true
  in_model_items (cons value rest) = in_model value && in_model_items rest

  pub in_model_fields : Fields → Bool
  in_model_fields end = true
  in_model_fields (field key value rest) = is_name key && (in_model value && in_model_fields rest)

-- The same, of the values on a stack with their depths.
unfoldable pub count_stack : Stack → ℕ
count_stack [] = 0
count_stack ((value, depth) ∷ stack) = count value + count_stack stack

unfoldable pub reach_stack : Stack → ℕ
reach_stack [] = 0
reach_stack ((value, depth) ∷ stack) = max (depth + levels value) (reach_stack stack)

unfoldable pub in_model_stack : Stack → Bool
in_model_stack [] = true
in_model_stack ((value, depth) ∷ stack) = in_model value && in_model_stack stack

pub count_stack-append : (s t : Stack) → count_stack (s ++ t) ≡ count_stack s + count_stack t
unfolding count_stack
count_stack-append [] t = omega arith
count_stack-append ((v, d) ∷ s) t = omega (arith, count_stack-append s t)

pub reach_stack-append : (s t : Stack) → reach_stack (s ++ t) ≡ max (reach_stack s) (reach_stack t)
unfolding reach_stack
reach_stack-append [] t = omega arith
reach_stack-append ((v, d) ∷ s) t = omega (arith, reach_stack-append s t)

pub in_model_stack-append :
    (s t : Stack) → in_model_stack (s ++ t) ≡ (in_model_stack s && in_model_stack t)
unfolding in_model_stack
in_model_stack-append [] t = refl
in_model_stack-append ((v, d) ∷ s) t = ground (arith, in_model_stack-append s t)

-- The children of a value, as they are pushed.
pub push_items-count :
    (d : ℕ) (items : Items) → count_stack (push_items d items) ≡ count_items items
unfolding push_items count_stack count
push_items-count d nil = refl
push_items-count d (cons v rest) = omega (arith, push_items-count d rest)

pub push_items-reach :
    (d : ℕ) (items : Items)
    → max d (reach_stack (push_items (d + 1) items)) ≡ d + levels_items items
unfolding push_items reach_stack levels
push_items-reach d nil = omega arith
push_items-reach d (cons v rest) = omega (arith, push_items-reach d rest)

pub push_items-in_model :
    (d : ℕ) (items : Items) → in_model_stack (push_items d items) ≡ in_model_items items
unfolding push_items in_model_stack in_model
push_items-in_model d nil = refl
push_items-in_model d (cons v rest) = ground (arith, push_items-in_model d rest)
