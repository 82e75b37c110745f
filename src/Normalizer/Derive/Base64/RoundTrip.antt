-- ===== src/Normalizer/Derive/Base64/RoundTrip.antt =====
-- crates/waf-normalizer/src/url.rs: `base64_decode` reads what an encoder writes.
use rust_waf.Common.{
  ℕ, ◌+◌, ◌-◌, ◌*◌, ◌/◌, ◌%◌, ◌≤◌, ◌<◌, Bool, true, false, not, [], ◌∷◌, ◌++◌, some, ◌≡◌, refl, sym,
  ap, ◌∙◌, subst, arith, Bytes, ltb, ◌==◌, if◌then◌else◌, all,
}
use native.Mathlib.Nat.{add-zero}
use mathlib.Core.List.{reverse, reverse-append, reverse-reverse}
use rust_waf.Normalizer.Derive.Base64.{
  drop_padding, trim_padding, val, shift_in, emit, decode_from, base64_decode,
}

-- The letter of a value.
abbrev pub letter : ℕ → ℕ
letter v =
    if ltb v 26
    then v + 65
    else if ltb v 52
    then v + 71
    else if ltb v 62
    then v - 4
    else if v == 62
    then b'+'
    else b'/'

-- The letters of a text, three bytes to four letters, without padding.
abbrev pub encode : Bytes → Bytes
encode [] = []
encode (a ∷ []) = letter (a / 4) ∷ letter (a % 4 * 16) ∷ []
encode (a ∷ b ∷ []) = letter (a / 4) ∷ letter (a % 4 * 16 + b / 16) ∷ letter (b % 16 * 4) ∷ []
encode (a ∷ b ∷ c ∷ s) =
    letter (a / 4)
    ∷ letter (a % 4 * 16 + b / 16)
    ∷ letter (b % 16 * 4 + c / 64)
    ∷ letter (c % 64)
    ∷ encode s

abbrev pub IsBytes : Bytes → Type 0
IsBytes [] = 0 ≤ 0
IsBytes (c ∷ s) = (c < 256) × IsBytes s

val-letter : (v : ℕ) → v < 64 → val (letter v) ≡ some v
unfolding val
val-letter v h = ground arith

letter-ne_padding : (v : ℕ) → v < 64 → (letter v == b'=') ≡ false
letter-ne_padding v h = ground arith

first_letter :
    (buf v : ℕ) (s : Bytes)
    → v < 64
    → decode_from buf 0 (letter v ∷ s) ≡ decode_from (shift_in buf v) 6 s
unfolding decode_from
first_letter buf v s h = rw (val-letter v h) refl

second_letter :
    (buf v : ℕ) (s : Bytes)
    → v < 64
    → decode_from buf 6 (letter v ∷ s)
      ≡ emit (shift_in buf v / 16 % 256) (decode_from (shift_in buf v) 4 s)
unfolding decode_from
second_letter buf v s h = rw (val-letter v h) refl

third_letter :
    (buf v : ℕ) (s : Bytes)
    → v < 64
    → decode_from buf 4 (letter v ∷ s)
      ≡ emit (shift_in buf v / 4 % 256) (decode_from (shift_in buf v) 2 s)
unfolding decode_from
third_letter buf v s h = rw (val-letter v h) refl

fourth_letter :
    (buf v : ℕ) (s : Bytes)
    → v < 64
    → decode_from buf 2 (letter v ∷ s)
      ≡ emit (shift_in buf v / 1 % 256) (decode_from (shift_in buf v) 0 s)
unfolding decode_from
fourth_letter buf v s h = rw (val-letter v h) refl

-- The bytes that come out, whatever was in the buffer.
first_byte :
    (buf v a : ℕ)
    → a < 256
    → v < 16
    → shift_in (shift_in buf (a / 4)) (a % 4 * 16 + v) / 16 % 256 ≡ a
first_byte buf v a ha hv = omega arith

second_byte :
    (buf hi v b : ℕ)
    → b < 256
    → hi < 4
    → v < 4
    → shift_in (shift_in buf (hi * 16 + b / 16)) (b % 16 * 4 + v) / 4 % 256 ≡ b
second_byte buf hi v b hb hhi hv = omega arith

third_byte :
    (buf hi c : ℕ)
    → c < 256
    → hi < 16
    → shift_in (shift_in buf (hi * 4 + c / 64)) (c % 64) / 1 % 256 ≡ c
third_byte buf hi c hc hhi = omega arith

decode_from-nil : (buf bits : ℕ) → decode_from buf bits [] ≡ some []
unfolding decode_from
decode_from-nil buf bits = refl

-- What the letters of a group give: the two bytes, and the rest.
two_letters :
    (buf v a : ℕ) (s : Bytes)
    → a < 256
    → v < 16
    → decode_from buf 0 (letter (a / 4) ∷ letter (a % 4 * 16 + v) ∷ s)
      ≡ emit a (decode_from (shift_in (shift_in buf (a / 4)) (a % 4 * 16 + v)) 4 s)
two_letters buf v a s ha hv =
    first_letter buf (a / 4) (letter (a % 4 * 16 + v) ∷ s) (omega arith)
    ∙ (second_letter (shift_in buf (a / 4)) (a % 4 * 16 + v) s (omega arith)
        ∙ ap
            (λ (k : ℕ). emit k (decode_from (shift_in (shift_in buf (a / 4)) (a % 4 * 16 + v)) 4 s))
            (first_byte buf v a ha hv))

one_letter :
    (buf hi v b : ℕ) (s : Bytes)
    → b < 256
    → hi < 4
    → v < 4
    → decode_from (shift_in buf (hi * 16 + b / 16)) 4 (letter (b % 16 * 4 + v) ∷ s)
      ≡ emit b (decode_from (shift_in (shift_in buf (hi * 16 + b / 16)) (b % 16 * 4 + v)) 2 s)
one_letter buf hi v b s hb hhi hv =
    third_letter (shift_in buf (hi * 16 + b / 16)) (b % 16 * 4 + v) s (omega arith)
    ∙ ap
        (λ (k : ℕ).
          emit k (decode_from (shift_in (shift_in buf (hi * 16 + b / 16)) (b % 16 * 4 + v)) 2 s))
        (second_byte buf hi v b hb hhi hv)

last_letter :
    (buf hi c : ℕ) (s : Bytes)
    → c < 256
    → hi < 16
    → decode_from (shift_in buf (hi * 4 + c / 64)) 2 (letter (c % 64) ∷ s)
      ≡ emit c (decode_from (shift_in (shift_in buf (hi * 4 + c / 64)) (c % 64)) 0 s)
last_letter buf hi c s hc hhi =
    fourth_letter (shift_in buf (hi * 4 + c / 64)) (c % 64) s (omega arith)
    ∙ ap (λ (k : ℕ). emit k (decode_from (shift_in (shift_in buf (hi * 4 + c / 64)) (c % 64)) 0 s))
        (third_byte buf hi c hc hhi)

decode_from-encode : (s : Bytes) (buf : ℕ) → IsBytes s → decode_from buf 0 (encode s) ≡ some s
decode_from-encode [] buf h = decode_from-nil buf 0
decode_from-encode (a ∷ []) buf (ha, h) =
    subst (λ (v : ℕ). decode_from buf 0 (letter (a / 4) ∷ letter v ∷ []) ≡ some (a ∷ []))
      (add-zero (a % 4 * 16))
      (two_letters buf 0 a [] ha (omega arith) ∙ ap (emit a) (decode_from-nil _ 4))
decode_from-encode (a ∷ b ∷ []) buf (ha, (hb, h)) =
    subst
      (λ (v : ℕ).
        decode_from buf 0 (letter (a / 4) ∷ letter (a % 4 * 16 + b / 16) ∷ letter v ∷ [])
        ≡ some (a ∷ b ∷ []))
      (add-zero (b % 16 * 4))
      (two_letters buf (b / 16) a (letter (b % 16 * 4 + 0) ∷ []) ha (omega arith)
        ∙ ap (emit a) (
            one_letter (shift_in buf (a / 4)) (a % 4) 0 b [] hb (omega arith) (omega arith)
            ∙ ap (emit b) (decode_from-nil _ 2)))
decode_from-encode (a ∷ b ∷ c ∷ s) buf (ha, (hb, (hc, h))) =
    two_letters buf (b / 16) a (letter (b % 16 * 4 + c / 64) ∷ letter (c % 64) ∷ encode s) ha
      (omega arith)
    ∙ ap (emit a) (
        one_letter (shift_in buf (a / 4)) (a % 4) (c / 64) b (letter (c % 64) ∷ encode s) hb
          (omega arith) (omega arith)
        ∙ ap (emit b) (
            last_letter (shift_in (shift_in buf (a / 4)) (a % 4 * 16 + b / 16)) (b % 16) c
              (encode s) hc (omega arith)
            ∙ ap (emit c) (decode_from-encode s _ h)))

abbrev pub is_padding : ℕ → Bool
is_padding c = c == b'='

abbrev no_padding : ℕ → Bool
no_padding c = not (is_padding c)

letter-no_padding : (v : ℕ) → v < 64 → no_padding (letter v) ≡ true
letter-no_padding v h = ground (arith, letter-ne_padding v h)

encode-no_padding : (s : Bytes) → IsBytes s → all no_padding (encode s) ≡ true
encode-no_padding [] h = refl
encode-no_padding (a ∷ []) (ha, h) =
    rw (letter-no_padding (a / 4) (omega arith), letter-no_padding (a % 4 * 16) (omega arith)) refl
encode-no_padding (a ∷ b ∷ []) (ha, (hb, h)) =
    rw
      (
        letter-no_padding (a / 4) (omega arith),
        letter-no_padding (a % 4 * 16 + b / 16) (omega arith),
        letter-no_padding (b % 16 * 4) (omega arith),
      )
      refl
encode-no_padding (a ∷ b ∷ c ∷ s) (ha, (hb, (hc, h))) =
    rw
      (
        letter-no_padding (a / 4) (omega arith),
        letter-no_padding (a % 4 * 16 + b / 16) (omega arith),
        letter-no_padding (b % 16 * 4 + c / 64) (omega arith),
        letter-no_padding (c % 64) (omega arith),
      )
      (encode-no_padding s h)

all-append : (p : ℕ → Bool) (s t : Bytes) → all p s ≡ true → all p t ≡ true → all p (s ++ t) ≡ true
all-append p [] t h k = k
all-append p (c ∷ s) t h k = ground (arith, all-append p s t)

all-reverse : (p : ℕ → Bool) (s : Bytes) → all p s ≡ true → all p (reverse s) ≡ true
all-reverse p [] h = refl
all-reverse p (c ∷ s) h =
    subst (λ (t : Bytes). all p t ≡ true) (sym (reverse-append (c ∷ []) s))
      (all-append p (reverse s) (c ∷ []) (all-reverse p s (ground (arith, h))) (ground (arith, h)))

drop_padding-append :
    (s t : Bytes) → all is_padding s ≡ true → drop_padding (s ++ t) ≡ drop_padding t
drop_padding-append [] t h = refl
drop_padding-append (c ∷ s) t h = ground (arith, drop_padding-append s t)

drop_padding-id : (s : Bytes) → all no_padding s ≡ true → drop_padding s ≡ s
drop_padding-id [] h = refl
drop_padding-id (c ∷ s) h = ground (arith, h)

-- Decoding the standard encoding of any bytes, with no padding or any padding behind it, gives the
-- bytes back.
pub base64_decode-encode :
    (s padding : Bytes)
    → IsBytes s
    → all is_padding padding ≡ true
    → base64_decode (encode s ++ padding) ≡ some s
unfolding base64_decode trim_padding
base64_decode-encode s padding h pads = ap (decode_from 0 0) trimmed ∙ decode_from-encode s 0 h
  where
    clean : all no_padding (reverse (encode s)) ≡ true
    clean = all-reverse no_padding (encode s) (encode-no_padding s h)

    trimmed : reverse (drop_padding (reverse (encode s ++ padding))) ≡ encode s
    trimmed =
        ap (λ (t : Bytes). reverse (drop_padding t)) (reverse-append (encode s) padding)
        ∙ (ap reverse (
              drop_padding-append (reverse padding) (reverse (encode s))
                (all-reverse is_padding padding pads)
              ∙ drop_padding-id (reverse (encode s)) clean)
            ∙ reverse-reverse (encode s))
