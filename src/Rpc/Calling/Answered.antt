-- ===== src/Rpc/Calling/Answered.antt =====
-- The calls of the stores' proxies that bring back buffers.
use hermes_core.Prelude.{
  ◌≤◌, ◌<◌, ◌≡◌, ◌≢◌, ◌∙◌, refl, Bool, true, false, Option, none, some, List, [], ◌∷◌, ◌&&◌, map,
  length, arith, inl, inr, if◌then◌else◌, ◌==◌, Bool-cases,
}
use hermes_core.Common.Bytes.{Bytes, u32_mod, is_given, contents}
use hermes_core.Common.HashTable.{Table}
use hermes_core.Common.Status.{Status, hm_success}
use hermes_core.Rpc.Calling.{out_call}
use hermes_core.Rpc.Calling.Buffers.{
  weight, buffers_pack, buffers-IsSendable, extract_types-buffers,
}
use hermes_core.Rpc.Calling.Remote.{Knows}
use hermes_core.Rpc.Calling.Stores.{arrived, failed-buffers, out_call-buffers}
use hermes_core.Rpc.Loopback.{World, client_end}
use hermes_core.Rpc.Loopback.Calls.{idle}
use hermes_core.Rpc.ParamPack.{
  Pack, BufferKind, buffer_c_arg, max_params, Out, buf_out, type_buffer,
}
use hermes_core.Rpc.Server.{Func}

-- The answer of a stub whose results are buffers: the status alone unless that is HM_SUCCESS.
abbrev pub answer_of :
    {D : Type 0} → BufferKind → Status → List Bytes → D → Option (Status × Option Pack × D)
answer_of k status outs d =
    if status == hm_success
    then some (hm_success, some (buffers_pack k outs), d)
    else some (status, none, d)

-- What the client extracts from it.
abbrev pub answered : {D : Type 0} → Status → List Bytes → D → Status × List Out × World D
answered status outs d =
    if status == hm_success then (hm_success, map buf_out outs, idle d) else (status, [], idle d)

pub not_success : (status : Status) → (status == hm_success) ≡ false → status ≢ hm_success
not_success status h e = ground arith

pub given_some : (x : Option Bytes) → is_given x ≡ true → x ≡ some (contents x)
given_some none h = ground arith
given_some (some bs) h = refl

-- The last of several arguments that are all given, and those before it.
pub given_and :
    (g : Bool) (x : Option Bytes) → (g && is_given x) ≡ true → (x ≡ some (contents x)) × (g ≡ true)
given_and false x h = ground arith
given_and true x h = (given_some x h, refl)

pub out_call-answered :
    {D : Type 0} {table : Table (Func D)} {name : Bytes} {f : Func D} (k : Knows table name f)
    (kind : BufferKind) (b : Bytes) (bs : List Bytes) (d : D) (status : Status) (o : Bytes)
    (os : List Bytes) (d' : D)
    → length (b ∷ bs) ≤ max_params
    → length (o ∷ os) ≤ max_params
    → f (arrived (b ∷ bs)) d ≡ answer_of kind status (o ∷ os) d'
    → weight (b ∷ bs) < u32_mod
    → weight (o ∷ os) < u32_mod
    → status < u32_mod
    → out_call
        (client_end table)
        name
        (map buffer_c_arg (b ∷ bs))
        (map (λ b. type_buffer) (o ∷ os))
        (idle d)
      ≡ answered status (o ∷ os) d'
out_call-answered k kind b bs d status o os d' few few_outs runs small answer word =
    elim (Bool-cases (status == hm_success)) [
      | inl h ↦
          let out =
            out_call-buffers k b bs few small (map (λ b. type_buffer) (o ∷ os)) d
              (buffers_pack kind (o ∷ os)) d' (runs ∙ rw h refl)
              (buffers-IsSendable kind o os few_outs answer) in
          rw (out, extract_types-buffers kind (o ∷ os), h) refl
      | inr h ↦
          let out =
            failed-buffers k b bs few small (map (λ b. type_buffer) (o ∷ os)) d status d'
              (runs ∙ rw h refl) (not_success status h) word in
          rw (out, h) refl
    ]
