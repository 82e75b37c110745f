-- ===== src/Normalizer/Grpc.antt =====
-- crates/waf-normalizer/src/grpc.rs: gRPC framing, and the walk of the protobuf wire format without
-- a schema. A position in a buffer is the rest of the buffer.
use rust_waf.Common.{
  ℕ, zero, suc, ◌+◌, ◌-◌, ◌*◌, ◌/◌, ◌%◌, ◌^◌, ◌≤◌, ◌<◌, min, max, Bool, true, false, not, ◌&&◌,
  ◌||◌, List, [], ◌∷◌, ◌++◌, map, append_assoc, append-nil, Option, none, some, ◌≡◌, refl, sym, ap,
  ◌∙◌, subst, ◌≢◌, ◌↔◌, ◌⊎◌, inl, inr, arith, Bytes, codes, bytes_eq, bytes_eq_iff, is_ascii_digit,
  is_ascii_alphabetic, is_ascii_alphanumeric, to_ascii_lowercase, eq_ignore_ascii_case, starts_with,
  ltb, leb, ◌==◌, within, if◌then◌else◌, ltb→lt, lt→ltb, ==_iff, Bool-cases, Option-cases, length,
  get_elem?, take, drop, any, all, keep, find, is_empty, length-append, take-append-drop,
  length-take, length-drop, length-keep-le, decimal, parse_uint, white_len, trim_start, trim_end,
  trim, split, split_once, strip_prefix, ends_with, cons_head,
}
use rust_waf.Common.Utf8.{is_utf8}
pub mod Rounds
pub mod Bounds
pub mod Framing

pub record GrpcLimits : Type 0 where
  pub max_depth : ℕ
  pub max_fields : ℕ
  pub max_leaves : ℕ

pub record GrpcExtract : Type 0 where
  pub messages : ℕ
  pub total_payload_bytes : ℕ
  pub max_message_len : ℕ
  pub fields : ℕ
  pub max_depth : ℕ
  pub depth_exceeded : Bool
  pub fields_exceeded : Bool
  pub compressed : Bool
  pub malformed : Bool
  pub leaves : List Bytes

abbrev pub no_extract : GrpcExtract
no_extract = record {
  messages = 0;
  total_payload_bytes = 0;
  max_message_len = 0;
  fields = 0;
  max_depth = 0;
  depth_exceeded = false;
  fields_exceeded = false;
  compressed = false;
  malformed = false;
  leaves = [];
}

-- `u32::saturating_add` and `u64::saturating_add`.
abbrev pub u32_saturating_add : ℕ → ℕ → ℕ
u32_saturating_add a b = min (2 ^ 32 - 1) (a + b)

abbrev pub u64_saturating_add : ℕ → ℕ → ℕ
u64_saturating_add a b = min (2 ^ 64 - 1) (a + b)

-- The loop of `read_varint`: `left` bytes may still be read, `k` are read. The bits a byte adds lie
-- above those of `result`, so that `|=` adds them; those above the 64th are lost.
unfoldable pub varint_from : ℕ → ℕ → ℕ → Bytes → Option (ℕ × Bytes)
varint_from zero k result s = none
varint_from (suc left) k result [] = none
varint_from (suc left) k result (byte ∷ s) =
    let more = (result + byte % 128 * 2 ^ (7 * k)) % 2 ^ 64 in
    let rest = varint_from left (k + 1) more s in if ltb byte 128 then some (more, s) else rest

unfoldable pub read_varint : Bytes → Option (ℕ × Bytes)
unfolding varint_from
read_varint = varint_from 10 0 0

-- What one round of the walk leads to: the end of the message, the next field, or a nested message
-- and then the next field.
pub data Round : Type 0 where
  stop : GrpcExtract → Round
  next : Bytes → GrpcExtract → Round
  nested : Bytes → Bytes → GrpcExtract → Round

abbrev pub bad : GrpcExtract → Round
bad out = Round.stop (record out { malformed = true })

-- `i + n > buf.len()` or `i += n`.
unfoldable pub skip_fixed : ℕ → Bytes → GrpcExtract → Round
skip_fixed n s out = if ltb (length s) n then bad out else Round.next (drop n s) out

-- A length-delimited field.
unfoldable pub classify : GrpcLimits → ℕ → Bytes → Bytes → GrpcExtract → Round
classify limits depth field rest out =
    if is_utf8 field
    then if is_empty field
      then Round.next rest out
      else if ltb (length out.leaves) limits.max_leaves
      then Round.next rest (record out { leaves = out.leaves ++ (field ∷ []) })
      else Round.next rest out
    else if leb limits.max_depth depth
    then Round.next rest (record out { depth_exceeded = true })
    else Round.nested field rest out

unfoldable pub skip_varint : Option (ℕ × Bytes) → GrpcExtract → Round
skip_varint none out = bad out
skip_varint (some (v, s)) out = Round.next s out

unfoldable pub delimited : GrpcLimits → ℕ → Option (ℕ × Bytes) → GrpcExtract → Round
unfolding classify
delimited limits depth none out = bad out
delimited limits depth (some (len, s)) out =
    if ltb (length s) len then bad out else classify limits depth (take len s) (drop len s) out

unfoldable pub by_wire_type : GrpcLimits → ℕ → ℕ → Bytes → GrpcExtract → Round
unfolding skip_fixed skip_varint delimited read_varint
by_wire_type limits depth wire s out =
    if wire == 0
    then skip_varint (read_varint s) out
    else if wire == 1
    then skip_fixed 8 s out
    else if wire == 5
    then skip_fixed 4 s out
    else if wire == 2
    then delimited limits depth (read_varint s) out
    else bad out

unfoldable pub after_tag : GrpcLimits → ℕ → Option (ℕ × Bytes) → GrpcExtract → Round
unfolding by_wire_type
after_tag limits depth none out = bad out
after_tag limits depth (some (tag, s)) out =
    let out' = record out { fields = u32_saturating_add out.fields 1 } in
    if ltb limits.max_fields out'.fields
    then Round.stop (record out' { fields_exceeded = true })
    else by_wire_type limits depth (tag % 8) s out'

-- One round of the walk of a message, which is over at its end.
unfoldable pub round : GrpcLimits → ℕ → Bytes → GrpcExtract → Round
unfolding after_tag read_varint
round limits depth [] out = Round.stop out
round limits depth (c ∷ s) out = after_tag limits depth (read_varint (c ∷ s)) out

abbrev pub enter : ℕ → GrpcExtract → GrpcExtract
enter depth out = record out { max_depth = max out.max_depth depth }

abbrev pub and_then : {A B : Type 0} → Option A → (A → Option B) → Option B
and_then none f = none
and_then (some a) f = f a

-- How a round goes on, where `walk` is the rest of the walk, at a depth.
unfoldable pub follow :
    (ℕ → Bytes → GrpcExtract → Option GrpcExtract) → ℕ → Round → Option GrpcExtract
follow walk depth (Round.stop out) = some out
follow walk depth (Round.next rest out) = walk depth rest out
follow walk depth (Round.nested field rest out) =
    and_then (walk (depth + 1) field (enter (depth + 1) out)) (walk depth rest)

unfoldable pub fields_from : ℕ → GrpcLimits → ℕ → Bytes → GrpcExtract → Option GrpcExtract
unfolding round follow
fields_from zero limits depth s out = none
fields_from (suc fuel) limits depth s out =
    follow (λ d s' out'. fields_from fuel limits d s' out') depth (round limits depth s out)

-- Fuel for a message: a round for each byte, and one to see the end.
unfoldable pub parse_message : GrpcLimits → ℕ → Bytes → GrpcExtract → Option GrpcExtract
unfolding fields_from
parse_message limits depth buf out =
    fields_from (suc (length buf)) limits depth buf (enter depth out)

abbrev pub from_be_bytes : ℕ → ℕ → ℕ → ℕ → ℕ
from_be_bytes a b c d = ((a * 256 + b) * 256 + c) * 256 + d

unfoldable pub count_frame : ℕ → GrpcExtract → GrpcExtract
count_frame len out = record out {
  messages = u32_saturating_add out.messages 1;
  total_payload_bytes = u64_saturating_add out.total_payload_bytes len;
  max_message_len = max out.max_message_len len;
}

-- The message of a frame, by its flag.
unfoldable pub take_frame : GrpcLimits → ℕ → Bytes → GrpcExtract → Option GrpcExtract
unfolding parse_message
take_frame limits flag msg out =
    if flag == 0
    then parse_message limits 1 msg out
    else if flag == 1
    then some (record out { compressed = true })
    else some (record out { malformed = true })

unfoldable pub frames_from : ℕ → GrpcLimits → Bytes → GrpcExtract → Option GrpcExtract
unfolding count_frame take_frame
frames_from (suc fuel) limits (flag ∷ a ∷ b ∷ c ∷ d ∷ s) out =
    let len = from_be_bytes a b c d in
    let rest = λ (out' : GrpcExtract). frames_from fuel limits (drop len s) out' in
    if ltb (length s) len
    then some (record out { malformed = true })
    else and_then (take_frame limits flag (take len s) (count_frame len out)) rest
frames_from zero limits s out = none
frames_from (suc fuel) limits s out =
    some (if is_empty s then out else record out { malformed = true })

-- Fuel for a body: a round for each byte, and one to see the end.
unfoldable pub grpc_extract : Bytes → GrpcLimits → Option GrpcExtract
unfolding frames_from
grpc_extract body limits = frames_from (suc (length body)) limits body no_extract
