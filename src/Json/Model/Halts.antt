-- ===== src/Json/Model/Halts.antt =====
-- The walk of `_validate_json_model` of scripts/contracts/contractlib.py ends.
use Prim.Native.Nat.{max}
use bytedesk_agent_delivery.Prelude.{
  ℕ, zero, suc, ◌+◌, ◌≤◌, ◌<◌, ◌≢◌, not, [], ◌∷◌, ◌++◌, err, require, ltb, >>=-eq-err, inl, inr,
  arith,
}
use bytedesk_agent_delivery.Json.{
  Value, integer, floating, string, object, Fields, end, field, Key, name, non_string, depth_limit,
  out_of_fuel, max_json_model_depth, max_json_model_nodes,
}
use bytedesk_agent_delivery.Json.Model.{
  register_preflight_node, Stack, check_key, push_fields, visit, validate_loop, validate_json_model,
}
use bytedesk_agent_delivery.Json.Model.Laws.{register-ok, visit-Visited}

check_key-halts : (key : Key) → check_key key ≢ err out_of_fuel
unfolding check_key
check_key-halts (name text) h = ground arith
check_key-halts non_string h = cc

register-halts : (nodes : ℕ) → register_preflight_node nodes ≢ err out_of_fuel
unfolding register_preflight_node
register-halts nodes h = ground arith

push_fields-halts :
    (nodes depth : ℕ) (fields : Fields) → push_fields nodes depth fields ≢ err out_of_fuel
unfolding push_fields
push_fields-halts nodes depth end h = cc
push_fields-halts nodes depth (field key value rest) h =
    elim (>>=-eq-err (push_fields nodes depth rest) _ h) [
      | inl e ↦ push_fields-halts nodes depth rest e
      | inr (a, _, k) ↦ elim (>>=-eq-err (check_key key) _ k) [
        | inl e ↦ check_key-halts key e
        | inr (b, _, k') ↦ elim (>>=-eq-err (register_preflight_node a.0) _ k') [
          | inl e ↦ register-halts a.0 e
          | inr (c, _, k'') ↦ cc
        ]
      ]
    ]

visit-halts : (nodes depth : ℕ) (value : Value) → visit nodes depth value ≢ err out_of_fuel
unfolding visit
visit-halts nodes depth (object fields) h = push_fields-halts nodes (depth + 1) fields h
visit-halts nodes depth (integer z) h = ground arith
visit-halts nodes depth (floating bits) h = ground arith
visit-halts nodes depth (string text) h = ground arith
visit-halts nodes depth _ h = cc

validate_loop-halts :
    (fuel nodes maximum_depth : ℕ) (stack : Stack)
    → max_json_model_nodes < fuel + nodes
    → nodes ≤ max_json_model_nodes
    → validate_loop fuel nodes maximum_depth stack ≢ err out_of_fuel
unfolding validate_loop
validate_loop-halts fuel nodes md [] lt le h = cc
validate_loop-halts zero nodes md (top ∷ stack) lt le h = absurd (omega arith)
validate_loop-halts (suc fuel) nodes md ((current, depth) ∷ stack) lt le h =
    elim (>>=-eq-err (require (not (ltb max_json_model_depth depth)) depth_limit) _ h) [
      | inl e ↦ ground arith
      | inr (_, _, k) ↦ elim (>>=-eq-err (register_preflight_node nodes) _ k) [
        | inl e ↦ register-halts nodes e
        | inr (n, en, k') ↦ elim (>>=-eq-err (visit n depth current) _ k') [
          | inl e ↦ visit-halts n depth current e
          | inr ((visited, children), ev, k'') ↦
              let (one, room) = register-ok nodes n en in
              let v = visit-Visited nodes depth current (visited, children) (rw one at ev) in
              validate_loop-halts fuel visited (max md depth) (children ++ stack)
                (omega (arith, v.grew)) (v.bounded (omega arith)) k''
        ]
      ]
    ]

-- The walk over a value always ends: it returns, or it raises one of the program's exceptions.
pub validate_json_model-halts : (value : Value) → validate_json_model value ≢ err out_of_fuel
unfolding validate_json_model
validate_json_model-halts value =
    validate_loop-halts (suc max_json_model_nodes) 0 0 ((value, 1) ∷ []) (omega arith) (omega arith)
