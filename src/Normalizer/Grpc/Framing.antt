-- ===== src/Normalizer/Grpc/Framing.antt =====
-- crates/waf-normalizer/src/grpc.rs: `grpc_extract` on the frames a sender wrote.
use rust_waf.Common.{
  ℕ, zero, suc, ◌/◌, ◌%◌, ◌≤◌, ◌<◌, true, false, List, [], ◌∷◌, ◌++◌, append_assoc, Option, none,
  some, ◌≡◌, refl, ap, ◌∙◌, arith, Bytes, ltb, if◌then◌else◌, length, take, drop, is_empty,
  length-append,
}
use rust_waf.Normalizer.Grpc.{
  GrpcLimits, GrpcExtract, no_extract, and_then, from_be_bytes, count_frame, take_frame,
  frames_from, grpc_extract,
}

-- What a sender writes: the flag, the length in four bytes, the most significant first, and the
-- message.
pub record Frame : Type 0 where
  pub flag : ℕ
  pub message : Bytes

abbrev pub to_be_bytes : ℕ → Bytes
to_be_bytes n = n / 16777216 ∷ n / 65536 % 256 ∷ n / 256 % 256 ∷ n % 256 ∷ []

unfoldable pub encode : List Frame → Bytes
encode [] = []
encode (f ∷ fs) = f.flag ∷ (to_be_bytes (length f.message) ++ (f.message ++ encode fs))

-- Each message is counted and taken by its flag, in order.
unfoldable pub take_frames : GrpcLimits → List Frame → GrpcExtract → Option GrpcExtract
take_frames limits [] out = some out
take_frames limits (f ∷ fs) out =
    and_then (take_frame limits f.flag f.message (count_frame (length f.message) out))
      (take_frames limits fs)

-- Bytes at the end that are no header.
unfoldable pub at_end : Bytes → GrpcExtract → Option GrpcExtract
at_end tail out = some (if is_empty tail then out else record out { malformed = true })

from_be_bytes-to_be_bytes :
    (n : ℕ) → from_be_bytes (n / 16777216) (n / 65536 % 256) (n / 256 % 256) (n % 256) ≡ n
from_be_bytes-to_be_bytes n = omega arith

take-append : (s t : Bytes) → take (length s) (s ++ t) ≡ s
take-append [] t = ground arith
take-append (a ∷ s) t = ap (◌∷◌ a) (take-append s t)

drop-append : (s t : Bytes) → drop (length s) (s ++ t) ≡ t
drop-append [] t = ground arith
drop-append (a ∷ s) t = drop-append s t

frames_from-tail :
    (fuel : ℕ) (limits : GrpcLimits) (tail : Bytes) (out : GrpcExtract)
    → length tail < 5
    → frames_from (suc fuel) limits tail out ≡ at_end tail out
unfolding frames_from at_end
frames_from-tail fuel limits [] out l = refl
frames_from-tail fuel limits (a ∷ []) out l = refl
frames_from-tail fuel limits (a ∷ b ∷ []) out l = refl
frames_from-tail fuel limits (a ∷ b ∷ c ∷ []) out l = refl
frames_from-tail fuel limits (a ∷ b ∷ c ∷ d ∷ []) out l = refl
frames_from-tail fuel limits (a ∷ b ∷ c ∷ d ∷ e ∷ s) out l = ground (arith, l)

ltb-append : (s t : Bytes) → ltb (length (s ++ t)) (length s) ≡ false
ltb-append s t = ground (arith, length-append s t)

and_then_assoc :
    (r : Option GrpcExtract) (f g h : GrpcExtract → Option GrpcExtract)
    → ((out : GrpcExtract) → f out ≡ and_then (g out) h)
    → and_then r f ≡ and_then (and_then r g) h
and_then_assoc none f g h e = refl
and_then_assoc (some out) f g h e = e out

frames_from-frame :
    (fuel : ℕ) (limits : GrpcLimits) (f : Frame) (rest : Bytes) (out : GrpcExtract)
    → frames_from
        (suc fuel)
        limits
        (f.flag ∷ (to_be_bytes (length f.message) ++ (f.message ++ rest)))
        out
      ≡ and_then
          (take_frame limits f.flag f.message (count_frame (length f.message) out))
          (frames_from fuel limits rest)
unfolding frames_from
frames_from-frame fuel limits f rest out =
    rw
      (
        from_be_bytes-to_be_bytes (length f.message),
        take-append f.message rest,
        drop-append f.message rest,
        ltb-append f.message rest,
      )
      refl

frames_from-encode :
    (fuel : ℕ) (limits : GrpcLimits) (fs : List Frame) (tail : Bytes) (out : GrpcExtract)
    → length fs < fuel
    → length tail < 5
    → frames_from fuel limits (encode fs ++ tail) out
      ≡ and_then (take_frames limits fs out) (at_end tail)
unfolding encode take_frames
frames_from-encode zero limits fs tail out l lt = elim l [ ]
frames_from-encode (suc fuel) limits [] tail out l lt = frames_from-tail fuel limits tail out lt
frames_from-encode (suc fuel) limits (f ∷ fs) tail out l lt =
    ap (λ s. frames_from (suc fuel) limits (f.flag ∷ (to_be_bytes (length f.message) ++ s)) out)
      (append_assoc f.message (encode fs) tail)
    ∙ frames_from-frame fuel limits f (encode fs ++ tail) out
    ∙ and_then_assoc (take_frame limits f.flag f.message (count_frame (length f.message) out)) _ _ _
        (λ out'. frames_from-encode fuel limits fs tail out' (omega arith) lt)

length-encode : (fs : List Frame) (tail : Bytes) → length fs ≤ length (encode fs ++ tail)
unfolding encode
length-encode [] tail = omega arith
length-encode (f ∷ fs) tail = omega (
  arith,
  length-encode fs tail,
  length-append (f.message ++ encode fs) tail,
  length-append f.message (encode fs),
  length-append (encode fs) tail,
)

-- Framing is read back: on the frames a sender wrote, each with its length in four bytes, and fewer
-- than five bytes behind them, `grpc_extract` counts and takes each message by its flag in order, and
-- is malformed for the bytes behind the last frame if there are any.
pub grpc_extract-encode :
    (limits : GrpcLimits) (fs : List Frame) (tail : Bytes)
    → length tail < 5
    → grpc_extract (encode fs ++ tail) limits
      ≡ and_then (take_frames limits fs no_extract) (at_end tail)
unfolding grpc_extract
grpc_extract-encode limits fs tail lt =
    frames_from-encode (suc (length (encode fs ++ tail))) limits fs tail no_extract
      (omega (arith, length-encode fs tail)) lt
