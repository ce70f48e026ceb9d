-- ===== src/Rpc/ParamPack.antt =====
-- src/rpc/param_pack.c: packs of parameters, to and from bytes and transports.
-- A node's `type` and `union` are one data type. Numbers are little-endian, as on the platforms
-- that the library supports. `malloc` does not fail (the code asserts).
pub mod Wire
pub mod Bounds
pub mod Length
pub mod RoundTrip
pub mod Transfer
pub mod Arguments
pub mod Parse
use hermes_core.Prelude.{
  ℕ, zero, suc, ◌+◌, ◌%◌, Bool, true, false, ◌||◌, not, Option, none, some, List, [], ◌∷◌, ◌++◌,
  length, is_empty, take, drop, if◌then◌else◌, ltb, ◌==◌,
}
use hermes_core.Common.Bytes.{Bytes, u32_mod, put_u32, get_u32, value_u32}
use hermes_core.Common.Status.{
  Status, hm_success, hm_fail, hm_invalid_parameter, hm_buffer_too_small,
}
use hermes_core.Rpc.BuffersList
use hermes_core.Rpc.BuffersList.{Buffers}
use hermes_core.Rpc.Transport.{Transport, Step, ok, err, pure, ◌>>=◌, ◌>>◌, send_bytes}

abbrev pub magic : ℕ
magic = 0x26048026

abbrev pub type_int32 : ℕ
type_int32 = 0x26048027

abbrev pub type_buffer : ℕ
type_buffer = 0x26048028

abbrev pub type_buffer_c : ℕ
type_buffer_c = 0x26048029

abbrev pub type_buffers_list : ℕ
type_buffers_list = 0x26048030

abbrev pub max_params : ℕ
max_params = 20

pub data BufferKind : Type 0 where
  buffer buffer_c buffers_list : BufferKind

-- `int_val` by its bit pattern; `buf_val` with its `data_length`.
pub data Node : Type 0 where
  int_node : ℕ → Node
  buf_node : BufferKind → Bytes → Node

pub data NodeType : Type 0 where
  int_type : NodeType
  buf_type : BufferKind → NodeType

-- The cases of the `switch` statements over a type; `none` is `default`.
unfoldable pub node_type_of : ℕ → Option NodeType
node_type_of code =
    if code == type_int32
    then some int_type
    else if code == type_buffer
    then some (buf_type buffer)
    else if code == type_buffer_c
    then some (buf_type buffer_c)
    else if code == type_buffers_list
    then some (buf_type buffers_list)
    else none

abbrev pub kind_code : BufferKind → ℕ
kind_code buffer = type_buffer
kind_code buffer_c = type_buffer_c
kind_code buffers_list = type_buffers_list

abbrev pub type_code : Node → ℕ
type_code (int_node v) = type_int32
type_code (buf_node k b) = kind_code k

-- `param_count` is the number of nodes.
pub record Pack : Type 0 where
  pub nodes : List Node
  pub readed : Bool
  pub whole_data_length : ℕ

-- What follows a mark among the variadic arguments: a type and the values that it announces.
pub data Arg : Type 0 where
  int_arg : ℕ → Arg
  buffer_arg buffer_c_arg : Bytes → Arg
  buffers_list_arg : Option Buffers → Arg
  other_arg : ℕ → Arg

pub data Slot : Type 0 where
  slot : Node → Slot
  bad_type : Slot
  diverges : Slot

unfoldable pub slot_of : ℕ → Arg → Slot
slot_of fuel (int_arg v) = slot (int_node (v % u32_mod))
slot_of fuel (buffer_arg b) = slot (buf_node buffer b)
slot_of fuel (buffer_c_arg b) = slot (buf_node buffer_c b)
slot_of fuel (buffers_list_arg l) = elim (BuffersList.to_buf fuel l) [
  | none ↦ diverges
  | some (n, b) ↦ slot (buf_node buffers_list b)
]
slot_of fuel (other_arg t) = bad_type

pub data Created : Type 0 where
  created : Pack → Created
  null : Created
  diverged : Created

create_loop : ℕ → List Node → List (ℕ × Arg) → Created
unfolding slot_of
create_loop fuel nodes [] =
    created (record { nodes = nodes; readed = false; whole_data_length = 0 })
create_loop fuel nodes ((mark, a) ∷ args) =
    let next : Created = elim (slot_of fuel a) [
      | slot n ↦ create_loop fuel (nodes ++ n ∷ []) args
      | bad_type ↦ null
      | diverges ↦ diverged
    ] in
    if mark == 0
    then created (record { nodes = nodes; readed = false; whole_data_length = 0 })
    else if (length nodes == max_params) || not (mark == magic)
    then null
    else next

-- `HM_PARAM_PACK`: the marked arguments in order, then a mark 0.
unfoldable pub create : ℕ → List (ℕ × Arg) → Created
unfolding create_loop
create fuel args = create_loop fuel [] args

-- What `hm_param_pack_extract_` stores through the pointers that it is given.
pub data Out : Type 0 where
  int_out : ℕ → Out
  buf_out : Bytes → Out
  buffers_list_out : Option (Option Buffers) → Out

abbrev pub out_of : Node → Out
out_of (int_node v) = int_out v
out_of (buf_node buffer b) = buf_out b
out_of (buf_node buffer_c b) = buf_out b
out_of (buf_node buffers_list b) = buffers_list_out (BuffersList.extract (some b))

extract_loop : List Node → List (ℕ × ℕ) → Status × List Out
extract_loop nodes [] = (hm_success, [])
extract_loop [] ((mark, type) ∷ args) = if mark == 0 then (hm_success, []) else (hm_fail, [])
extract_loop (n ∷ nodes) ((mark, type) ∷ args) =
    let rest = extract_loop nodes args in
    if mark == 0
    then (hm_success, [])
    else if not (mark == magic) || not (type == type_code n)
    then (hm_fail, [])
    else (rest.0, out_of n ∷ rest.1)

-- `HM_PARAM_EXTRACT`: the marked types in order, then a mark 0. The results are the status and what
-- has been stored by then.
unfoldable pub extract : Option Pack → List (ℕ × ℕ) → Status × List Out
unfolding extract_loop
extract none args = (hm_invalid_parameter, [])
extract (some p) args = extract_loop p.nodes args
