-- ===== src/Rpc/ParamPack/Parse.antt =====
-- The input side of src/rpc/param_pack.c: the check of a buffer, reading it, receiving one.
use hermes_core.Prelude.{
  ℕ, zero, suc, Bool, true, false, not, Option, none, some, List, [], ◌∷◌, length, take, drop,
  if◌then◌else◌, ltb, ◌==◌,
}
use hermes_core.Common.Bytes.{Bytes, get_u32, value_u32}
use hermes_core.Common.Status.{hm_success}
use hermes_core.Rpc.ParamPack.{
  Pack, Node, int_node, buf_node, int_type, buf_type, node_type_of, max_params,
}
use hermes_core.Rpc.Transport.{Transport}

-- `buf_length` and that many bytes behind it, unless they pass the end.
unfoldable pub skip_buffer : Bytes → Option Bytes
skip_buffer bs = elim (get_u32 bs) [
  | none ↦ none
  | some (len, r) ↦ if ltb (length r) len then none else some (drop len r)
]

unfoldable pub skip_int : Bytes → Option Bytes
skip_int bs = elim (get_u32 bs) [ none ↦ none | some (v, r) ↦ some r ]

-- One round of the loop of `hm_param_pack_check_buf_`; `none` is its `return false`.
unfoldable pub skip_param : Bytes → Option Bytes
skip_param bs = elim (get_u32 bs) [
  | none ↦ none
  | some (code, r) ↦ elim (node_type_of code) [
    | none ↦ none
    | some int_type ↦ skip_int r
    | some (buf_type k) ↦ skip_buffer r
  ]
]

unfoldable pub check_loop : ℕ → Bytes → Bool
check_loop zero bs = true
check_loop (suc n) bs = elim (skip_param bs) [ none ↦ false | some r ↦ check_loop n r ]

unfoldable pub check_buf : Bytes → Bool
check_buf bs = elim (get_u32 bs) [ none ↦ false | some (count, r) ↦ check_loop count r ]

-- One round of the loop of `hm_param_pack_read`, which makes no checks: `none` is a read past the
-- end of the buffer, or a type that the `switch` leaves without a value.
unfoldable pub read_buffer : Bytes → Option (Bytes × Bytes)
read_buffer bs = elim (get_u32 bs) [
  | none ↦ none
  | some (len, r) ↦ if ltb (length r) len then none else some (take len r, drop len r)
]

unfoldable pub read_param : Bytes → Option (Node × Bytes)
read_param bs = elim (get_u32 bs) [
  | none ↦ none
  | some (code, r) ↦ elim (node_type_of code) [
    | none ↦ none
    | some int_type ↦ elim (get_u32 r) [ none ↦ none | some (v, r') ↦ some (int_node v, r') ]
    | some (buf_type k) ↦ elim (read_buffer r) [
      | none ↦ none
      | some (b, r') ↦ some (buf_node k b, r')
    ]
  ]
]

abbrev pub cons_node : Node → Option (List Node) → Option (List Node)
cons_node n none = none
cons_node n (some nodes) = some (n ∷ nodes)

unfoldable pub read_loop : ℕ → Bytes → Option (List Node)
read_loop zero bs = some []
read_loop (suc n) bs = elim (read_param bs) [
  | none ↦ none
  | some (node, r) ↦ cons_node node (read_loop n r)
]

-- `fault` is undefined behaviour.
pub data Read : Type 0 where
  pack : Pack → Read
  null : Read
  fault : Read

unfoldable pub read_nodes : ℕ → Bytes → Read
read_nodes count bs = elim (get_u32 bs) [
  | none ↦ fault
  | some (n, r) ↦ elim (read_loop count r) [
    | none ↦ fault
    | some nodes ↦ pack (record { nodes = nodes; readed = true; whole_data_length = length bs })
  ]
]

unfoldable pub read : Option Bytes → Read
read none = null
read (some bs) =
    if not (check_buf bs)
    then null
    else if ltb max_params (value_u32 bs)
    then null
    else read_nodes (value_u32 bs) bs

-- A fault does not occur, since `read` checks first.
abbrev pub pack? : Read → Option Pack
pack? (pack p) = some p
pack? null = none
pack? fault = none

module _ {S : Type 0} (t : Transport S) where
  unfoldable pub receive : S → Option Pack × S
  receive s =
      let first = t.recv s 4 in
      let second = t.recv first.2 (value_u32 first.1) in
      if not (first.0 == hm_success)
      then (none, first.2)
      else if not (second.0 == hm_success)
      then (none, second.2)
      else (pack? (read (some second.1)), second.2)
