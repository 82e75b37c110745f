-- ===== src/Normalizer/Grpc/Rounds.antt =====
-- crates/waf-normalizer/src/grpc.rs: one round of the walk of a message, and its limits.
use rust_waf.Common.{
  ℕ, zero, suc, ◌+◌, ◌*◌, ◌%◌, ◌^◌, ◌≤◌, ◌<◌, max, Bool, true, false, not, ◌&&◌, List, [], ◌∷◌,
  ◌++◌, Option, none, some, ◌≡◌, refl, sym, arith, Bytes, ltb, leb, ◌==◌, if◌then◌else◌, length,
  take, drop, all, is_empty, length-append, length-take, length-drop,
}
use rust_waf.Common.Utf8.{is_utf8}
use rust_waf.Normalizer.Grpc.{
  GrpcLimits, GrpcExtract, u32_saturating_add, varint_from, read_varint, Round, bad, skip_fixed,
  classify, skip_varint, delimited, by_wire_type, after_tag, round,
}

-- Text that is worth a look.
abbrev pub is_leaf : Bytes → Bool
is_leaf s = is_utf8 s && not (is_empty s)

-- The extract keeps its limits: depth, leaves and what the leaves are, and the mark of too many fields
-- is up exactly if more fields were met than allowed.
unfoldable pub InLimits : GrpcLimits → GrpcExtract → Type 0
InLimits limits out =
    (out.max_depth ≤ max 1 limits.max_depth)
    × (length out.leaves ≤ limits.max_leaves)
    × (all is_leaf out.leaves ≡ true)
    × (out.fields < 2 ^ 32)
    × (out.fields_exceeded ≡ ltb limits.max_fields out.fields)

-- A round keeps the limits, reads on, and goes down only above the greatest depth.
unfoldable pub RoundInLimits : GrpcLimits → ℕ → Bytes → Round → Type 0
unfolding InLimits
RoundInLimits limits depth s (Round.stop out) = InLimits limits out
RoundInLimits limits depth s (Round.next rest out) = (length rest ≤ length s) × InLimits limits out
RoundInLimits limits depth s (Round.nested field rest out) =
    (length field ≤ length s)
    × (length rest ≤ length s)
    × (depth < limits.max_depth)
    × InLimits limits out

-- What is read of a number is shorter than the text.
abbrev Rest : Bytes → Option (ℕ × Bytes) → Type 0
Rest s none = 0 ≤ 0
Rest s (some (v, rest)) = length rest < length s

-- A predicate of both branches is one of a test between them.
pub by_test :
    {A : Type 0} (P : A → Type 0) {x y : A} (b : Bool)
    → (b ≡ true → P x)
    → (b ≡ false → P y)
    → P (if b then x else y)
by_test P true f g = f refl
by_test P false f g = g refl

Rest-cons : (byte : ℕ) (s : Bytes) (r : Option (ℕ × Bytes)) → Rest s r → Rest (byte ∷ s) r
Rest-cons byte s none h = omega arith
Rest-cons byte s (some (v, rest)) h = omega (arith, h)

varint_from-Rest : (left k result : ℕ) (s : Bytes) → Rest s (varint_from left k result s)
unfolding varint_from
varint_from-Rest zero k result s = omega arith
varint_from-Rest (suc left) k result [] = omega arith
varint_from-Rest (suc left) k result (byte ∷ s) =
    let more = (result + byte % 128 * 2 ^ (7 * k)) % 2 ^ 64 in
    by_test (Rest (byte ∷ s)) (ltb byte 128) (λ e. omega arith)
      (λ e.
        Rest-cons byte s (varint_from left (k + 1) more s) (varint_from-Rest left (k + 1) more s))

read_varint-Rest : (s : Bytes) → Rest s (read_varint s)
unfolding read_varint
read_varint-Rest = varint_from-Rest 10 0 0

all-snoc :
    (f : Bytes → Bool) (xs : List Bytes) (x : Bytes)
    → all f xs ≡ true
    → f x ≡ true
    → all f (xs ++ (x ∷ [])) ≡ true
all-snoc f [] x h e = ground arith
all-snoc f (y ∷ xs) x h e = ground (arith, all-snoc f xs x)

bad-InLimits :
    (limits : GrpcLimits) (depth : ℕ) (s : Bytes) (out : GrpcExtract)
    → InLimits limits out
    → RoundInLimits limits depth s (bad out)
unfolding RoundInLimits InLimits
bad-InLimits limits depth s out h = h

classify-InLimits :
    (limits : GrpcLimits) (depth : ℕ) (field rest s : Bytes) (out : GrpcExtract)
    → length field ≤ length s
    → length rest ≤ length s
    → InLimits limits out
    → RoundInLimits limits depth s (classify limits depth field rest out)
unfolding classify InLimits RoundInLimits
classify-InLimits limits depth field rest s out hf hr (hd, hl, ha, hb, he) =
    let P = RoundInLimits limits depth s in
    by_test P (is_utf8 field)
      (λ u.
        by_test P (is_empty field) (λ e. (hr, (hd, hl, ha, hb, he)))
          (λ e.
            by_test P (ltb (length out.leaves) limits.max_leaves)
              (λ l. (
                hr,
                (
                  hd,
                  ground (arith, length-append out.leaves (field ∷ [])),
                  all-snoc is_leaf out.leaves field ha (ground arith),
                  hb,
                  he,
                ),
              ))
              (λ l. (hr, (hd, hl, ha, hb, he)))))
      (λ u.
        by_test P (leb limits.max_depth depth) (λ e. (hr, (hd, hl, ha, hb, he)))
          (λ e. (hf, hr, ground arith, (hd, hl, ha, hb, he))))

skip_varint-InLimits :
    (limits : GrpcLimits) (depth : ℕ) (s : Bytes) (r : Option (ℕ × Bytes)) (out : GrpcExtract)
    → Rest s r
    → InLimits limits out
    → RoundInLimits limits depth s (skip_varint r out)
unfolding skip_varint RoundInLimits InLimits
skip_varint-InLimits limits depth s none out hr h = h
skip_varint-InLimits limits depth s (some (v, rest)) out hr h = (omega (arith, hr), h)

skip_fixed-InLimits :
    (limits : GrpcLimits) (depth n : ℕ) (s : Bytes) (out : GrpcExtract)
    → InLimits limits out
    → RoundInLimits limits depth s (skip_fixed n s out)
unfolding skip_fixed RoundInLimits InLimits
skip_fixed-InLimits limits depth n s out h =
    by_test (RoundInLimits limits depth s) (ltb (length s) n) (λ e. h)
      (λ e. (omega (arith, length-drop n s), h))

delimited-InLimits :
    (limits : GrpcLimits) (depth : ℕ) (s : Bytes) (r : Option (ℕ × Bytes)) (out : GrpcExtract)
    → Rest s r
    → InLimits limits out
    → RoundInLimits limits depth s (delimited limits depth r out)
unfolding delimited
delimited-InLimits limits depth s none out hr h = bad-InLimits limits depth s out h
delimited-InLimits limits depth s (some (len, rest)) out hr h =
    by_test (RoundInLimits limits depth s) (ltb (length rest) len)
      (λ e. bad-InLimits limits depth s out h)
      (λ e.
        classify-InLimits limits depth (take len rest) (drop len rest) s out
          (omega (arith, length-take len rest, hr)) (omega (arith, length-drop len rest, hr)) h)

by_wire_type-InLimits :
    (limits : GrpcLimits) (depth wire : ℕ) (s : Bytes) (out : GrpcExtract)
    → InLimits limits out
    → RoundInLimits limits depth s (by_wire_type limits depth wire s out)
unfolding by_wire_type
by_wire_type-InLimits limits depth wire s out h =
    let P = RoundInLimits limits depth s in
    by_test P (wire == 0)
      (λ e. skip_varint-InLimits limits depth s (read_varint s) out (read_varint-Rest s) h)
      (λ e.
        by_test P (wire == 1) (λ e. skip_fixed-InLimits limits depth 8 s out h)
          (λ e.
            by_test P (wire == 5) (λ e. skip_fixed-InLimits limits depth 4 s out h)
              (λ e.
                by_test P (wire == 2)
                  (λ e.
                    delimited-InLimits limits depth s (read_varint s) out (read_varint-Rest s) h)
                  (λ e. bad-InLimits limits depth s out h))))

-- As `RoundInLimits`, where something is read.
unfoldable pub Reads : GrpcLimits → ℕ → Bytes → Round → Type 0
unfolding InLimits
Reads limits depth s (Round.stop out) = InLimits limits out
Reads limits depth s (Round.next rest out) = (length rest < length s) × InLimits limits out
Reads limits depth s (Round.nested field rest out) =
    (length field < length s)
    × (length rest < length s)
    × (depth < limits.max_depth)
    × InLimits limits out

Reads-longer :
    (limits : GrpcLimits) (depth : ℕ) (s t : Bytes) (r : Round)
    → length s < length t
    → RoundInLimits limits depth s r
    → Reads limits depth t r
unfolding Reads RoundInLimits
Reads-longer limits depth s t (Round.stop out) l h = h
Reads-longer limits depth s t (Round.next rest out) l (hr, h) = (omega arith, h)
Reads-longer limits depth s t (Round.nested field rest out) l (hf, hr, hd, h) =
    (omega arith, omega arith, hd, h)

after_tag-Reads :
    (limits : GrpcLimits) (depth : ℕ) (t : Bytes) (r : Option (ℕ × Bytes)) (out : GrpcExtract)
    → Rest t r
    → InLimits limits out
    → Reads limits depth t (after_tag limits depth r out)
unfolding after_tag Reads InLimits
after_tag-Reads limits depth t none out hr h = h
after_tag-Reads limits depth t (some (tag, s)) out hr (hd, hl, ha, hb, he) =
    by_test (Reads limits depth t) (ltb limits.max_fields (u32_saturating_add out.fields 1))
      (λ e. (hd, hl, ha, ground arith, sym e))
      (λ e.
        Reads-longer limits depth s t _ hr (
          by_wire_type-InLimits limits depth (tag % 8) s _
            (hd, hl, ha, ground arith, ground arith)))

pub round-Reads :
    (limits : GrpcLimits) (depth : ℕ) (s : Bytes) (out : GrpcExtract)
    → InLimits limits out
    → Reads limits depth s (round limits depth s out)
unfolding round Reads
round-Reads limits depth [] out h = h
round-Reads limits depth (c ∷ s) out h =
    after_tag-Reads limits depth (c ∷ s) (read_varint (c ∷ s)) out (read_varint-Rest (c ∷ s)) h
