-- ===== src/Tests/Packs.antt =====
-- Packs and lists of buffers written, read, sent and received.
use hermes_core.Prelude.{
  ◌≤◌, ◌<◌, ◌≡◌, ◌⊎◌, ◌&&◌, refl, true, false, not, none, some, List, [], ◌∷◌, ◌++◌, arith, length,
  ltb, if◌then◌else◌,
}
use hermes_core.Common.Bytes.{Bytes, value_u32}
use hermes_core.Common.Status.{hm_success, hm_buffer_too_small}
use hermes_core.Rpc.BuffersList
use hermes_core.Rpc.BuffersList.{Buffers, Iterator, iterator_create, get_needed_buffer_size, to_buf}
use hermes_core.Rpc.BuffersList.Extract.{encoding, extract-encoding}
use hermes_core.Rpc.BuffersList.Laws.{to_buf-diverges}
use hermes_core.Rpc.Loopback.{Wires, server_end, server_sink, server_source}
use hermes_core.Rpc.ParamPack.{Pack, Arg, int_arg, buffer_arg, max_params}
use hermes_core.Rpc.ParamPack.Bounds.{read_total}
use hermes_core.Rpc.ParamPack.Length.{size, output, write-size}
use hermes_core.Rpc.ParamPack.Parse.{read, pack, null, check_buf, receive}
use hermes_core.Rpc.ParamPack.RoundTrip.{delivered, read-output}
use hermes_core.Rpc.ParamPack.Transfer.{message, send-message, receive-message}
use hermes_core.Rpc.ParamPack.Wire.{write, send}
use hermes_core.Rpc.Transport.{ok}
use hermes_core.Tests.Data.{params, params-ok}

abbrev wires : Wires
wires = record { to_server = []; to_client = [] }

read-output_example : read (some (output params)) ≡ pack (delivered params)
read-output_example = read-output params params-ok

-- One integer, 7.
abbrev one_int : Bytes
one_int = 1 ∷ 0 ∷ 0 ∷ 0 ∷ 0x27 ∷ 0x80 ∷ 4 ∷ 0x26 ∷ 7 ∷ 0 ∷ 0 ∷ 0 ∷ []

read_total_example :
    ((read (some one_int) ≡ null)
      × ((check_buf one_int ≡ false) ⊎ (max_params < value_u32 one_int)))
    ⊎ ((p : Pack) × (read (some one_int) ≡ pack p)
        × (check_buf one_int ≡ true)
        × (length p.nodes ≡ value_u32 one_int)
        × (value_u32 one_int ≤ max_params)
        × (p.readed ≡ true)
        × (p.whole_data_length ≡ length one_int))
read_total_example = read_total one_int

write-size_example :
    (length (output params) ≡ size params)
    × (write params true 20 ≡ (
        if true && not (ltb 20 (size params))
        then record { status = hm_success; output = output params; buffer_length = size params }
        else record { status = hm_buffer_too_small; output = []; buffer_length = size params }))
write-size_example = write-size params true 20 refl refl params-ok.small

send-message_example :
    send server_end params wires ≡ ok tt (record { to_server = []; to_client = message params })
send-message_example = send-message server_sink params wires params-ok

receive-message_example :
    receive server_end (record { to_server = message params ++ (8 ∷ []); to_client = [] })
    ≡ (some (delivered params), record { to_server = 8 ∷ []; to_client = [] })
receive-message_example = receive-message server_source params (8 ∷ []) wires params-ok

abbrev args : List Arg
args = int_arg 5 ∷ buffer_arg (1 ∷ []) ∷ []

abbrev two_buffers : Buffers
two_buffers = (1 ∷ 2 ∷ []) ∷ (3 ∷ []) ∷ []

extract-encoding_example :
    BuffersList.extract (some (encoding two_buffers)) ≡ some (some two_buffers)
extract-encoding_example =
    extract-encoding (1 ∷ 2 ∷ []) ((3 ∷ []) ∷ [])
      ((omega arith, omega arith), ((omega arith, omega arith), tt))

to_buf-diverges_example :
    (get_needed_buffer_size 1000 (some two_buffers) ≡ none)
    × (to_buf 1000 (some two_buffers) ≡ none)
to_buf-diverges_example = to_buf-diverges 1000 (1 ∷ 2 ∷ []) ((3 ∷ []) ∷ [])
