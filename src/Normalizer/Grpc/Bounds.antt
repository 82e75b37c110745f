-- ===== src/Normalizer/Grpc/Bounds.antt =====
-- crates/waf-normalizer/src/grpc.rs: the end of `grpc_extract` and its limits.
use rust_waf.Common.{
  ℕ, zero, suc, ◌+◌, ◌≤◌, ◌<◌, max, [], ◌∷◌, Option, some, ◌≡◌, refl, arith, Bytes, ltb, ◌==◌,
  length, take, drop, length-drop,
}
use rust_waf.Normalizer.Grpc.{
  GrpcLimits, GrpcExtract, no_extract, Round, round, enter, and_then, follow, fields_from,
  parse_message, from_be_bytes, count_frame, take_frame, frames_from, grpc_extract,
}
use rust_waf.Normalizer.Grpc.Rounds.{InLimits, Reads, by_test, round-Reads}

-- A walk that has enough fuel ends within the limits.
abbrev Ends : GrpcLimits → Option GrpcExtract → Type 0
Ends limits r = (out' : GrpcExtract) × (r ≡ some out') × InLimits limits out'

and_then-Ends :
    (limits : GrpcLimits) (r : Option GrpcExtract) (f : GrpcExtract → Option GrpcExtract)
    → Ends limits r
    → ((out : GrpcExtract) → InLimits limits out → Ends limits (f out))
    → Ends limits (and_then r f)
and_then-Ends limits r f (out, e, h) g = rw e (g out h)

enter-InLimits :
    (limits : GrpcLimits) (depth : ℕ) (out : GrpcExtract)
    → depth ≤ max 1 limits.max_depth
    → InLimits limits out
    → InLimits limits (enter depth out)
unfolding InLimits
enter-InLimits limits depth out l (hd, hl, ha, hb, he) = (ground arith, hl, ha, hb, he)

follow-Ends :
    (limits : GrpcLimits) (depth : ℕ) (s : Bytes) (r : Round)
    (walk : ℕ → Bytes → GrpcExtract → Option GrpcExtract)
    → ((d : ℕ) (s' : Bytes) (out : GrpcExtract)
        → length s' < length s
        → InLimits limits out
        → Ends limits (walk d s' out))
    → Reads limits depth s r
    → Ends limits (follow walk depth r)
unfolding follow Reads
follow-Ends limits depth s (Round.stop out) walk g h = (out, refl, h)
follow-Ends limits depth s (Round.next rest out) walk g (l, h) = g depth rest out l h
follow-Ends limits depth s (Round.nested field rest out) walk g (lf, lr, ld, h) =
    and_then-Ends limits _ (walk depth rest)
      (g (depth + 1) field _ lf (enter-InLimits limits (depth + 1) out (ground arith) h))
      (λ out' h'. g depth rest out' lr h')

fields_from-Ends :
    (fuel : ℕ) (limits : GrpcLimits) (depth : ℕ) (s : Bytes) (out : GrpcExtract)
    → length s < fuel
    → InLimits limits out
    → Ends limits (fields_from fuel limits depth s out)
unfolding fields_from
fields_from-Ends zero limits depth s out l h = elim l [ ]
fields_from-Ends (suc fuel) limits depth s out l h =
    follow-Ends limits depth s (round limits depth s out) _
      (λ d s' out' l' h'. fields_from-Ends fuel limits d s' out' (omega arith) h')
      (round-Reads limits depth s out h)

take_frame-Ends :
    (limits : GrpcLimits) (flag : ℕ) (msg : Bytes) (out : GrpcExtract)
    → InLimits limits out
    → Ends limits (take_frame limits flag msg out)
unfolding take_frame parse_message InLimits
take_frame-Ends limits flag msg out h =
    by_test (Ends limits) (flag == 0)
      (λ e.
        fields_from-Ends (suc (length msg)) limits 1 msg _ (omega arith)
          (enter-InLimits limits 1 out (ground arith) h))
      (λ e. by_test (Ends limits) (flag == 1) (λ e. (_, refl, h)) (λ e. (_, refl, h)))

frames_from-Ends :
    (fuel : ℕ) (limits : GrpcLimits) (s : Bytes) (out : GrpcExtract)
    → length s < fuel
    → InLimits limits out
    → Ends limits (frames_from fuel limits s out)
unfolding frames_from count_frame InLimits
frames_from-Ends zero limits s out l h = elim l [ ]
frames_from-Ends (suc fuel) limits [] out l h = (_, refl, h)
frames_from-Ends (suc fuel) limits (a ∷ []) out l h = (_, refl, h)
frames_from-Ends (suc fuel) limits (a ∷ b ∷ []) out l h = (_, refl, h)
frames_from-Ends (suc fuel) limits (a ∷ b ∷ c ∷ []) out l h = (_, refl, h)
frames_from-Ends (suc fuel) limits (a ∷ b ∷ c ∷ d ∷ []) out l h = (_, refl, h)
frames_from-Ends (suc fuel) limits (flag ∷ a ∷ b ∷ c ∷ d ∷ s) out l h =
    let len = from_be_bytes a b c d in
    by_test (Ends limits) (ltb (length s) len) (λ e. (_, refl, h))
      (λ e. and_then-Ends limits _ _ (take_frame-Ends limits flag (take len s) _ h) (λ out' h'.
        frames_from-Ends fuel limits (drop len s) out' (omega (arith, length-drop len s)) h'))

-- `grpc_extract` ends on every body, and what it returns is within the limits: it went no deeper than
-- `max_depth` (or 1), it holds at most `max_leaves` leaves, each of them UTF-8 text that is not empty,
-- and `fields_exceeded` is true exactly if it met more than `max_fields` fields.
pub grpc_extract-InLimits :
    (body : Bytes) (limits : GrpcLimits)
    → (out : GrpcExtract) × (grpc_extract body limits ≡ some out) × InLimits limits out
unfolding grpc_extract InLimits
grpc_extract-InLimits body limits =
    frames_from-Ends (suc (length body)) limits body no_extract (omega arith)
      (omega arith, omega arith, refl, omega arith, ground arith)
