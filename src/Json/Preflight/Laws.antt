-- ===== src/Json/Preflight/Laws.antt =====
-- `_preflight_json_bytes` of scripts/contracts/contractlib.py ends on every payload, and what it counts
-- stays within the limits and within the length of the payload.
use bytedesk_agent_delivery.Prelude.{
  ℕ, zero, suc, ◌+◌, ◌≤◌, ◌<◌, ◌≡◌, ◌≢◌, refl, sym, Bytes, codes, [], ◌∷◌, ok, err, Option, none,
  some, length, ltb, arith, Bool-cases, inl, inr, >>=-eq-ok, >>=-eq-err, ok-injective,
}
use bytedesk_agent_delivery.Digest.Laws.{strip_prefix-length}
use bytedesk_agent_delivery.Json.{
  out_of_fuel, max_json_model_depth, max_json_model_nodes, max_structured_json_bytes,
}
use bytedesk_agent_delivery.Json.Model.{register_preflight_node}
use bytedesk_agent_delivery.Json.Preflight.{
  skip_string, skip_number, Scan, enter_value, count_node, open_container, scan_string, scan_scalar,
  literal, Token, separator, opening, closing, quoted, digit, further, token, scan_further, round,
  scan_loop, preflight_json_bytes,
}

skip_string-le : (bs : Bytes) → length (skip_string bs) ≤ length bs
unfolding skip_string
skip_string-le [] = omega arith
skip_string-le (c ∷ []) = omega arith
skip_string-le (c ∷ d ∷ rest) = ground (arith, skip_string-le rest, skip_string-le (d ∷ rest))

skip_number-le : (bs : Bytes) → length (skip_number bs) ≤ length bs
unfolding skip_number
skip_number-le [] = omega arith
skip_number-le (c ∷ rest) = ground (arith, skip_number-le rest)

literal-lt :
    (payload behind : Bytes) → literal payload ≡ some behind → length behind < length payload
unfolding literal
literal-lt payload behind h = ground (
  arith,
  strip_prefix-length (codes "true") payload behind,
  strip_prefix-length (codes "null") payload behind,
  strip_prefix-length (codes "false") payload behind,
)

-- What holds between two rounds of the scan.
pub record IsScan (s : Scan) : Type 0 where
  depth_counted : s.depth ≤ s.nodes
  maximum_counted : s.maximum_depth ≤ s.nodes
  within_nodes : s.nodes ≤ max_json_model_nodes
  within_depth : s.maximum_depth ≤ max_json_model_depth

-- A step that keeps the invariant, counts one node at most and forgets none.
record Steps (s t : Scan) : Type 0 where
  kept : IsScan t
  one : t.nodes ≤ s.nodes + 1
  more : s.nodes ≤ t.nodes
  deeper : s.maximum_depth ≤ t.maximum_depth

open_container-Steps : (s t : Scan) → IsScan s → open_container s ≡ ok t → Steps s t
unfolding open_container enter_value count_node register_preflight_node
open_container-Steps s t i h = ground arith

scan_scalar-Steps : (s t : Scan) → IsScan s → scan_scalar s ≡ ok t → Steps s t
unfolding scan_scalar enter_value count_node register_preflight_node
scan_scalar-Steps s t i h = ground arith

scan_string-Steps : (rest : Bytes) (s t : Scan) → IsScan s → scan_string rest s ≡ ok t → Steps s t
unfolding scan_string enter_value count_node register_preflight_node
scan_string-Steps rest s t i h = ground arith

open_container-halts : (s : Scan) → open_container s ≢ err out_of_fuel
unfolding open_container enter_value count_node register_preflight_node
open_container-halts s h = ground arith

scan_scalar-halts : (s : Scan) → scan_scalar s ≢ err out_of_fuel
unfolding scan_scalar enter_value count_node register_preflight_node
scan_scalar-halts s h = ground arith

scan_string-halts : (rest : Bytes) (s : Scan) → scan_string rest s ≢ err out_of_fuel
unfolding scan_string enter_value count_node register_preflight_node
scan_string-halts rest s h = ground arith

-- A round consumes a byte at least, and is a step.
record Round (rest : Bytes) (s : Scan) (r : Bytes × Scan) : Type 0 where
  shorter : length r.0 ≤ length rest
  step : Steps s r.1

scan_further-Round :
    (o : Option Bytes) (c : ℕ) (rest : Bytes) (s : Scan) (r : Bytes × Scan)
    → IsScan s
    → ((behind : Bytes) → o ≡ some behind → length behind < length (c ∷ rest))
    → scan_further o rest s ≡ ok r
    → Round rest s r
unfolding scan_further
scan_further-Round none c rest s r i shorter h = ground arith
scan_further-Round (some behind) c rest s r i shorter h =
    let (t, ht, e) = >>=-eq-ok (scan_scalar s) _ h in
    rw (sym (ok-injective e))
      (record { shorter = omega (arith, shorter behind refl); step = scan_scalar-Steps s t i ht })

round-Round :
    (t : Token) (c : ℕ) (rest : Bytes) (s : Scan) (r : Bytes × Scan)
    → IsScan s
    → round t c rest s ≡ ok r
    → Round rest s r
unfolding round
round-Round separator c rest s r i h = ground arith
round-Round closing c rest s r i h = ground arith
round-Round opening c rest s r i h =
    let (t, ht, e) = >>=-eq-ok (open_container s) _ h in
    rw (sym (ok-injective e))
      (record { shorter = omega arith; step = open_container-Steps s t i ht })
round-Round quoted c rest s r i h =
    let (t, ht, e) = >>=-eq-ok (scan_string (skip_string rest) s) _ h in
    rw (sym (ok-injective e)) (record {
      shorter = skip_string-le rest;
      step = scan_string-Steps (skip_string rest) s t i ht;
    })
round-Round digit c rest s r i h =
    let (t, ht, e) = >>=-eq-ok (scan_scalar s) _ h in
    rw (sym (ok-injective e))
      (record { shorter = skip_number-le rest; step = scan_scalar-Steps s t i ht })
round-Round further c rest s r i h =
    scan_further-Round (literal (c ∷ rest)) c rest s r i (literal-lt (c ∷ rest)) h

scan_further-halts :
    (o : Option Bytes) (rest : Bytes) (s : Scan) → scan_further o rest s ≢ err out_of_fuel
unfolding scan_further
scan_further-halts (some behind) rest s h = elim (>>=-eq-err (scan_scalar s) _ h) [
  | inl e ↦ scan_scalar-halts s e
  | inr (_, _, e) ↦ cc
]
scan_further-halts none rest s h = cc

round-halts : (t : Token) (c : ℕ) (rest : Bytes) (s : Scan) → round t c rest s ≢ err out_of_fuel
unfolding round
round-halts separator c rest s h = cc
round-halts closing c rest s h = cc
round-halts opening c rest s h = elim (>>=-eq-err (open_container s) _ h) [
  | inl e ↦ open_container-halts s e
  | inr (_, _, e) ↦ cc
]
round-halts quoted c rest s h = elim (>>=-eq-err (scan_string (skip_string rest) s) _ h) [
  | inl e ↦ scan_string-halts (skip_string rest) s e
  | inr (_, _, e) ↦ cc
]
round-halts digit c rest s h = elim (>>=-eq-err (scan_scalar s) _ h) [
  | inl e ↦ scan_scalar-halts s e
  | inr (_, _, e) ↦ cc
]
round-halts further c rest s h = scan_further-halts (literal (c ∷ rest)) rest s h

scan_loop-halts :
    (fuel : ℕ) (bs : Bytes) (s : Scan)
    → IsScan s
    → length bs ≤ fuel
    → scan_loop fuel bs s ≢ err out_of_fuel
unfolding scan_loop
scan_loop-halts fuel [] s i le h = cc
scan_loop-halts zero (c ∷ rest) s i le h = absurd (omega arith)
scan_loop-halts (suc fuel) (c ∷ rest) s i le h = elim (>>=-eq-err (round (token c) c rest s) _ h) [
  | inl e ↦ round-halts (token c) c rest s e
  | inr ((behind, scanned), e, k) ↦
      let r = round-Round (token c) c rest s (behind, scanned) i e in
      scan_loop-halts fuel behind scanned r.step.kept (omega (arith, r.shorter)) k
]

scan_loop-bounds :
    (fuel : ℕ) (bs : Bytes) (s : Scan) (r : ℕ × ℕ)
    → IsScan s
    → scan_loop fuel bs s ≡ ok r
    → (r.0 ≤ s.nodes + length bs)
      × (r.1 ≤ r.0)
      × (r.0 ≤ max_json_model_nodes)
      × (r.1 ≤ max_json_model_depth)
unfolding scan_loop
scan_loop-bounds fuel [] s r i h = ground arith
scan_loop-bounds zero (c ∷ rest) s r i h = cc
scan_loop-bounds (suc fuel) (c ∷ rest) s r i h =
    let ((behind, scanned), e, k) = >>=-eq-ok (round (token c) c rest s) _ h in
    let v = round-Round (token c) c rest s (behind, scanned) i e in
    let (a, b, x, y) = scan_loop-bounds fuel behind scanned r v.step.kept k in
    (omega (arith, v.shorter, v.step.one), b, x, y)

abbrev start : Scan
start = record { nodes = 0; depth = 0; maximum_depth = 0 }

-- The preflight ends on every payload: it returns, or it raises one of the program's exceptions.
pub preflight_json_bytes-halts : (payload : Bytes) → preflight_json_bytes payload ≢ err out_of_fuel
unfolding preflight_json_bytes
preflight_json_bytes-halts payload h =
    elim (Bool-cases (ltb max_structured_json_bytes (length payload))) [
      | inl e ↦ ground arith
      | inr e ↦
          scan_loop-halts (length payload) payload start (omega arith) (omega arith) (rw e at h)
    ]

-- What the preflight returns is within the limits: at most 4 MiB of payload, at most one node for
-- each byte and 100,000 in all, and at most 64 levels, no more than there are nodes.
pub preflight_json_bytes-bounds :
    (payload : Bytes) (nodes depth : ℕ)
    → preflight_json_bytes payload ≡ ok (nodes, depth)
    → (length payload ≤ max_structured_json_bytes)
      × (nodes ≤ length payload)
      × (depth ≤ nodes)
      × (nodes ≤ max_json_model_nodes)
      × (depth ≤ max_json_model_depth)
unfolding preflight_json_bytes
preflight_json_bytes-bounds payload nodes depth h =
    elim (Bool-cases (ltb max_structured_json_bytes (length payload))) [
      | inl e ↦ absurd (ground arith)
      | inr e ↦
          let (a, b, x, y) =
            scan_loop-bounds (length payload) payload start (nodes, depth) (omega arith)
              (rw e at h) in
          (ground arith, omega arith, b, x, y)
    ]
