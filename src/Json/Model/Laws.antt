-- ===== src/Json/Model/Laws.antt =====
-- `_validate_json_model` of scripts/contracts/contractlib.py meets its specification.
use Prim.Native.Nat.{max}
use bytedesk_agent_delivery.Prelude.{
  ℕ, zero, suc, ◌+◌, ◌≤◌, ◌<◌, ◌≡◌, refl, ◌∙◌, sym, Bool, true, not, [], ◌∷◌, ◌++◌, ok, require,
  ltb, >>=-eq-ok, ok-injective, arith,
}
use bytedesk_agent_delivery.Json.{
  Value, null, boolean, integer, floating, string, array, object, other, Fields, end, field, Key,
  name, non_string, depth_limit, max_json_model_depth, max_json_model_nodes,
}
use bytedesk_agent_delivery.Json.Model.{
  register_preflight_node, Stack, push_items, check_key, push_fields, visit, validate_loop,
  validate_json_model,
}
use bytedesk_agent_delivery.Json.Model.Spec.{
  count, count_fields, levels, levels_fields, in_model, in_model_fields, is_name, count_stack,
  reach_stack, in_model_stack, count_stack-append, reach_stack-append, in_model_stack-append,
  push_items-count, push_items-reach, push_items-in_model,
}

-- What a visit that returns has counted and pushed.
pub record Visited (start nodes depth counted levels_below : ℕ) (valid : Bool) (result : ℕ × Stack)
    : Type 0 where
  pub counted_all : result.0 + count_stack result.1 ≡ nodes + counted
  pub reached : max depth (reach_stack result.1) ≡ depth + levels_below
  pub kept : in_model_stack result.1 ≡ valid
  pub grew : start ≤ result.0
  pub bounded : start ≤ max_json_model_nodes → result.0 ≤ max_json_model_nodes

check_key-is_name : (key : Key) → check_key key ≡ ok tt → is_name key ≡ true
unfolding check_key is_name
check_key-is_name (name text) h = ground arith
check_key-is_name non_string h = cc

pub register-ok :
    (nodes n : ℕ)
    → register_preflight_node nodes ≡ ok n
    → (n ≡ suc nodes) × (n ≤ max_json_model_nodes)
unfolding register_preflight_node
register-ok nodes n h = ground arith

push_fields-Visited :
    (nodes depth : ℕ) (fields : Fields) (r : ℕ × Stack)
    → push_fields nodes (depth + 1) fields ≡ ok r
    → Visited nodes nodes depth
        (count_fields fields)
        (levels_fields fields)
        (in_model_fields fields)
        r
unfolding push_fields count levels in_model count_stack reach_stack in_model_stack
push_fields-Visited nodes depth end r h = ground arith
push_fields-Visited nodes depth (field key value rest) r h =
    let ((later, pushed), h1, h2) = >>=-eq-ok (push_fields nodes (depth + 1) rest) _ h in
    let ih = push_fields-Visited nodes depth rest (later, pushed) h1 in
    let (u, h3, h4) = >>=-eq-ok (check_key key) _ h2 in
    let (n, h5, h6) = >>=-eq-ok (register_preflight_node later) _ h4 in
    let (e, b) = register-ok later n h5 in
    let er : r ≡ (n, (value, depth + 1) ∷ pushed) = sym (ok-injective h6) in
    rw er (record {
      counted_all = omega (arith, ih.counted_all);
      reached = omega (arith, ih.reached);
      kept = rw (check_key-is_name key h3, ih.kept) refl;
      grew = omega (arith, ih.grew);
      bounded = λ le. b;
    })

pub visit-Visited :
    (nodes depth : ℕ) (value : Value) (r : ℕ × Stack)
    → visit (suc nodes) depth value ≡ ok r
    → Visited (suc nodes) nodes depth (count value) (levels value) (in_model value) r
unfolding visit count levels in_model count_stack reach_stack in_model_stack
visit-Visited nodes depth null r h = ground arith
visit-Visited nodes depth (boolean b) r h = ground arith
visit-Visited nodes depth (integer z) r h = ground arith
visit-Visited nodes depth (floating bits) r h = ground arith
visit-Visited nodes depth (string text) r h = ground arith
visit-Visited nodes depth (array items) r h = rw (sym (ok-injective h)) (record {
  counted_all = omega (arith, push_items-count (depth + 1) items);
  reached = push_items-reach depth items;
  kept = push_items-in_model (depth + 1) items;
  grew = omega arith;
  bounded = λ le. le;
})
visit-Visited nodes depth (object fields) r h =
    let v = push_fields-Visited (suc nodes) depth fields r h in
    record {
      counted_all = omega (arith, v.counted_all);
      reached = v.reached;
      kept = v.kept;
      grew = v.grew;
      bounded = v.bounded;
    }
visit-Visited nodes depth other r h = cc

depth-ok :
    (depth : ℕ) {u : Unit {0}}
    → require (not (ltb max_json_model_depth depth)) depth_limit ≡ ok u
    → depth ≤ max_json_model_depth
depth-ok depth h = ground arith

-- A run of the loop that returns has counted every value and name on its stack, has seen how deep
-- they reach, and has found them in the model.
validate_loop_sound :
    (fuel nodes maximum_depth : ℕ) (stack : Stack) (r : ℕ × ℕ)
    → nodes ≤ max_json_model_nodes
    → maximum_depth ≤ max_json_model_depth
    → validate_loop fuel nodes maximum_depth stack ≡ ok r
    → (r.0 ≡ nodes + count_stack stack)
      × (r.1 ≡ max maximum_depth (reach_stack stack))
      × (in_model_stack stack ≡ true)
      × (r.0 ≤ max_json_model_nodes)
      × (r.1 ≤ max_json_model_depth)
unfolding validate_loop count_stack reach_stack in_model_stack
validate_loop_sound fuel nodes md [] r le le' h =
    rw (sym (ok-injective h)) (omega arith, omega arith, refl, le, le')
validate_loop_sound zero nodes md (top ∷ stack) r le le' h = cc
validate_loop_sound (suc fuel) nodes md ((current, depth) ∷ stack) r le le' h =
    let (u, h1, h2) = >>=-eq-ok (require (not (ltb max_json_model_depth depth)) depth_limit) _ h in
    let (n, h3, h4) = >>=-eq-ok (register_preflight_node nodes) _ h2 in
    let ((visited, children), h5, h6) = >>=-eq-ok (visit n depth current) _ h4 in
    let (e, b) = register-ok nodes n h3 in
    let v = visit-Visited nodes depth current (visited, children) (rw e at h5) in
    let (p, q, t, x, y) =
      validate_loop_sound fuel visited (max md depth) (children ++ stack) r
        (v.bounded (omega arith)) (omega (arith, depth-ok depth h1)) h6 in
    (
      omega (arith, v.counted_all, count_stack-append children stack),
      omega (arith, v.reached, reach_stack-append children stack),
      rw (← v.kept) (sym (in_model_stack-append children stack) ∙ t),
      x,
      y,
    )

count-pos : (value : Value) → 0 < count value
unfolding count
count-pos (array items) = omega arith
count-pos (object fields) = omega arith
count-pos _ = omega arith

check_key-ok : (key : Key) → is_name key ≡ true → check_key key ≡ ok tt
unfolding check_key is_name
check_key-ok (name text) h = ground arith
check_key-ok non_string h = cc

register-total :
    (nodes : ℕ) → nodes < max_json_model_nodes → register_preflight_node nodes ≡ ok (suc nodes)
unfolding register_preflight_node
register-total nodes h = ground arith

push_fields-total :
    (nodes depth : ℕ) (fields : Fields)
    → in_model_fields fields ≡ true
    → nodes + count_fields fields ≤ max_json_model_nodes
    → (r : ℕ × Stack) × (push_fields nodes (depth + 1) fields ≡ ok r)
unfolding push_fields count in_model
push_fields-total nodes depth end h le = ((nodes, []), refl)
push_fields-total nodes depth (field key value rest) h le =
    let named : is_name key ≡ true = ground arith in
    let valid : in_model_fields rest ≡ true = ground arith in
    let ((later, pushed), e) = push_fields-total nodes depth rest valid (omega arith) in
    let v = push_fields-Visited nodes depth rest (later, pushed) e in
    let room : later < max_json_model_nodes = omega (arith, v.counted_all, count-pos value) in
    (
      (suc later, (value, depth + 1) ∷ pushed),
      rw (e, check_key-ok key named, register-total later room),
    )

visit-total :
    (nodes depth : ℕ) (value : Value)
    → in_model value ≡ true
    → nodes + count value ≤ max_json_model_nodes
    → (r : ℕ × Stack) × (visit (suc nodes) depth value ≡ ok r)
unfolding visit count in_model
visit-total nodes depth null h le = ((suc nodes, []), refl)
visit-total nodes depth (boolean b) h le = ((suc nodes, []), refl)
visit-total nodes depth (integer z) h le = ((suc nodes, []), rw h)
visit-total nodes depth (floating bits) h le = ((suc nodes, []), rw h)
visit-total nodes depth (string text) h le = ((suc nodes, []), rw h)
visit-total nodes depth (array items) h le = ((suc nodes, push_items (depth + 1) items), refl)
visit-total nodes depth (object fields) h le =
    push_fields-total (suc nodes) depth fields h (omega arith)
visit-total nodes depth other h le = cc

validate_loop-total :
    (fuel nodes maximum_depth : ℕ) (stack : Stack)
    → in_model_stack stack ≡ true
    → nodes + count_stack stack ≤ max_json_model_nodes
    → reach_stack stack ≤ max_json_model_depth
    → count_stack stack ≤ fuel
    → (r : ℕ × ℕ) × (validate_loop fuel nodes maximum_depth stack ≡ ok r)
unfolding validate_loop count_stack reach_stack in_model_stack
validate_loop-total fuel nodes md [] h le deep enough = ((nodes, md), refl)
validate_loop-total zero nodes md ((current, depth) ∷ stack) h le deep enough =
    absurd (omega (arith, count-pos current))
validate_loop-total (suc fuel) nodes md ((current, depth) ∷ stack) h le deep enough =
    let shallow : depth ≤ max_json_model_depth = omega arith in
    let test : require (not (ltb max_json_model_depth depth)) depth_limit ≡ ok tt = ground arith in
    let valid : in_model current ≡ true = ground arith in
    let valid_rest : in_model_stack stack ≡ true = ground arith in
    let ((visited, children), e) = visit-total nodes depth current valid (omega arith) in
    let v = visit-Visited nodes depth current (visited, children) e in
    let (r, er) =
      validate_loop-total fuel visited (max md depth) (children ++ stack)
        (in_model_stack-append children stack ∙ rw (v.kept, valid) valid_rest)
        (omega (arith, v.counted_all, count_stack-append children stack))
        (omega (arith, v.reached, reach_stack-append children stack))
        (omega (arith, v.counted_all, v.grew, count_stack-append children stack)) in
    (r, rw (test, register-total nodes (omega (arith, count-pos current)), e) er)

-- `_validate_json_model` returns exactly the node count and the depth of a value, and only for a value
-- in the JSON data model that has at most 100,000 nodes and 64 levels.
pub validate_json_model_sound :
    (value : Value) (nodes depth : ℕ)
    → validate_json_model value ≡ ok (nodes, depth)
    → (nodes ≡ count value)
      × (depth ≡ suc (levels value))
      × (in_model value ≡ true)
      × (nodes ≤ max_json_model_nodes)
      × (depth ≤ max_json_model_depth)
unfolding validate_json_model count_stack reach_stack in_model_stack
validate_json_model_sound value nodes depth h =
    let (p, q, t, x, y) =
      validate_loop_sound (suc max_json_model_nodes) 0 0 ((value, 1) ∷ []) (nodes, depth)
        (omega arith) (omega arith) h in
    (omega arith, omega arith, ground arith, x, y)

-- Every value in the JSON data model with at most 100,000 nodes and 64 levels is accepted, with its
-- node count and its depth.
pub validate_json_model_complete :
    (value : Value)
    → in_model value ≡ true
    → count value ≤ max_json_model_nodes
    → suc (levels value) ≤ max_json_model_depth
    → validate_json_model value ≡ ok (count value, suc (levels value))
unfolding validate_json_model count_stack reach_stack in_model_stack
validate_json_model_complete value valid small shallow =
    let ((n, d), e) =
      validate_loop-total (suc max_json_model_nodes) 0 0 ((value, 1) ∷ []) (ground arith)
        (omega arith) (omega arith) (omega arith) in
    let (p, q, _, _, _) = validate_json_model_sound value n d e in rw (← p, ← q) e
