-- ===== src/Rpc/ParamPack/Arguments.antt =====
-- `HM_PARAM_PACK` and `HM_PARAM_EXTRACT` over arguments whose marks and types are right.
use hermes_core.Prelude.{
  ℕ, ◌+◌, ◌%◌, ◌≤◌, ◌<◌, ◌≡◌, refl, false, some, List, [], ◌∷◌, ◌++◌, map, length, All, arith,
  append_assoc, append-nil, length-append, beq_refl, ap, ◌∙◌,
}
use hermes_core.Common.Bytes.{u32_mod}
use hermes_core.Common.Status.{hm_success}
use hermes_core.Rpc.ParamPack.{
  Pack, Node, int_node, buf_node, buffer, buffer_c, buffers_list, Arg, int_arg, buffer_arg,
  buffer_c_arg, buffers_list_arg, other_arg, created, create, create_loop, slot_of, extract,
  extract_loop, out_of, type_code, magic, max_params, slot,
}

-- Arguments that are an int32_t or a buffer.
abbrev pub IsPlain : Arg → Type 0
IsPlain (int_arg v) = Unit
IsPlain (buffer_arg b) = Unit
IsPlain (buffer_c_arg b) = Unit
IsPlain (buffers_list_arg l) = ⊥
IsPlain (other_arg t) = ⊥

abbrev pub node_of : Arg → Node
node_of (int_arg v) = int_node (v % u32_mod)
node_of (buffer_arg b) = buf_node buffer b
node_of (buffer_c_arg b) = buf_node buffer_c b
node_of (buffers_list_arg l) = buf_node buffers_list []
node_of (other_arg t) = int_node 0

abbrev pub pack_of : List Node → Pack
pack_of nodes = record { nodes = nodes; readed = false; whole_data_length = 0 }

slot_of-node_of : (fuel : ℕ) (a : Arg) → IsPlain a → slot_of fuel a ≡ slot (node_of a)
unfolding slot_of
slot_of-node_of fuel (int_arg v) h = refl
slot_of-node_of fuel (buffer_arg b) h = refl
slot_of-node_of fuel (buffer_c_arg b) h = refl
slot_of-node_of fuel (buffers_list_arg l) h = absurd h
slot_of-node_of fuel (other_arg t) h = absurd h

create_step :
    (fuel : ℕ) (nodes : List Node) (a : Arg) (args : List (ℕ × Arg))
    → IsPlain a
    → length nodes < max_params
    → create_loop fuel nodes ((magic, a) ∷ args) ≡ create_loop fuel (nodes ++ node_of a ∷ []) args
unfolding create_loop
create_step fuel nodes a args h few = ground (arith, slot_of-node_of fuel a h)

create_loop-node_of :
    (fuel : ℕ) (nodes : List Node) (args : List Arg)
    → All IsPlain args
    → length nodes + length args ≤ max_params
    → create_loop fuel nodes (map (λ a. (magic, a)) args)
      ≡ created (pack_of (nodes ++ map node_of args))
create_loop-node_of fuel nodes [] h few = rw append-nil (unfold create_loop in refl)
create_loop-node_of fuel nodes (a ∷ args) h few =
    create_step fuel nodes a (map (λ x. (magic, x)) args) h.0 (omega arith)
    ∙ create_loop-node_of fuel (nodes ++ node_of a ∷ []) args h.1
        (omega (arith, length-append nodes (node_of a ∷ [])))
    ∙ ap (λ ns. created (pack_of ns)) (append_assoc nodes (node_of a ∷ []) (map node_of args))

-- `HM_PARAM_PACK` of at most 20 integers and buffers gives a pack of just these, in order; every
-- integer is cut to 32 bits.
pub create-node_of :
    (fuel : ℕ) (args : List Arg)
    → All IsPlain args
    → length args ≤ max_params
    → create fuel (map (λ a. (magic, a)) args) ≡ created (pack_of (map node_of args))
unfolding create
create-node_of fuel args h few = create_loop-node_of fuel [] args h (omega arith)

extract_loop-out_of :
    (nodes : List Node)
    → extract_loop nodes (map (λ c. (magic, c)) (map type_code nodes))
      ≡ (hm_success, map out_of nodes)
unfolding extract_loop
extract_loop-out_of [] = refl
extract_loop-out_of (n ∷ nodes) = rw (beq_refl (type_code n), extract_loop-out_of nodes)

-- `HM_PARAM_EXTRACT` with the types of all the nodes succeeds and stores all the values, in order.
pub extract-out_of :
    (p : Pack)
    → extract (some p) (map (λ c. (magic, c)) (map type_code p.nodes))
      ≡ (hm_success, map out_of p.nodes)
unfolding extract
extract-out_of p = extract_loop-out_of p.nodes
