-- ===== src/Normalizer/Percent/Shrink.antt =====
-- crates/waf-normalizer/src/url.rs: a decoding pass and the length of its input.
use rust_waf.Common.{
  ℕ, ◌≤◌, Bool, true, false, ◌&&◌, ◌||◌, [], ◌∷◌, ◌≡◌, refl, sym, ◌∙◌, arith, Bytes, ◌==◌,
  if◌then◌else◌, length,
}
use rust_waf.Normalizer.Percent.{
  is_space, is_escape, is_overlong, hex_pair, is_hex, still_percent_encoded, percent_decode_bytes,
  collapse_overlong, decode_pass,
}

-- Two bytes that `collapse_overlong` folds into one.
abbrev pub has_overlong : Bytes → Bool
has_overlong [] = false
has_overlong (a ∷ []) = false
has_overlong (a ∷ b ∷ s) = is_overlong a b || has_overlong (b ∷ s)

-- One step of the loop on three bytes or more.
percent_decode_bytes-cons :
    (plus : Bool) (a b c : ℕ) (s : Bytes)
    → percent_decode_bytes plus (a ∷ b ∷ c ∷ s) ≡ (
        if is_space plus a
        then b' ' ∷ percent_decode_bytes plus (b ∷ c ∷ s)
        else if is_escape a b c
        then hex_pair b c ∷ percent_decode_bytes plus s
        else a ∷ percent_decode_bytes plus (b ∷ c ∷ s))
unfolding percent_decode_bytes
percent_decode_bytes-cons plus a b c s = refl

pub length-percent_decode_bytes :
    (plus : Bool) (s : Bytes) → length (percent_decode_bytes plus s) ≤ length s
length-percent_decode_bytes plus [] = unfold percent_decode_bytes in omega arith
length-percent_decode_bytes plus (a ∷ []) = unfold percent_decode_bytes in omega arith
length-percent_decode_bytes plus (a ∷ b ∷ []) = unfold percent_decode_bytes in omega arith
length-percent_decode_bytes plus (a ∷ b ∷ c ∷ s) = rw percent_decode_bytes-cons (
    ground
      (arith, length-percent_decode_bytes plus s, length-percent_decode_bytes plus (b ∷ c ∷ s)))

is_space-escape : (plus : Bool) (a b c : ℕ) → is_escape a b c ≡ true → is_space plus a ≡ false
unfolding is_space is_escape
is_space-escape plus a b c h = percent (a == b'%') (is_hex b) (is_hex c) refl h
  where
    percent : (t x y : Bool) → (a == b'%') ≡ t → (t && x && y) ≡ true → (a == b'+' && plus) ≡ false
    percent true x y e h = ground arith
    percent false x y e h = cc

-- A pass that keeps the length decoded no escape.
percent_decode_bytes-still :
    (plus : Bool) (s : Bytes)
    → length s ≤ length (percent_decode_bytes plus s)
    → still_percent_encoded s ≡ false
unfolding still_percent_encoded
percent_decode_bytes-still plus [] h = refl
percent_decode_bytes-still plus (a ∷ []) h = refl
percent_decode_bytes-still plus (a ∷ b ∷ []) h = refl
percent_decode_bytes-still plus (a ∷ b ∷ c ∷ s) h = ground (
  arith,
  percent_decode_bytes-cons plus a b c s,
  is_space-escape plus a b c,
  length-percent_decode_bytes plus s,
  percent_decode_bytes-still plus (b ∷ c ∷ s),
)

no_space : (a : ℕ) → is_space false a ≡ false
unfolding is_space
no_space a = ground arith

-- Without escapes and without `+` decoding, nothing changes.
pub percent_decode_bytes-id :
    (s : Bytes) → still_percent_encoded s ≡ false → percent_decode_bytes false s ≡ s
unfolding still_percent_encoded
percent_decode_bytes-id [] h = unfold percent_decode_bytes in refl
percent_decode_bytes-id (a ∷ []) h = unfold percent_decode_bytes in rw no_space
percent_decode_bytes-id (a ∷ b ∷ []) h = unfold percent_decode_bytes in simp no_space
percent_decode_bytes-id (a ∷ b ∷ c ∷ s) h = ground (
  arith,
  percent_decode_bytes-cons false a b c s,
  no_space a,
  percent_decode_bytes-id (b ∷ c ∷ s),
)

pub length-collapse_overlong : (s : Bytes) → length (collapse_overlong s) ≤ length s
unfolding collapse_overlong
length-collapse_overlong [] = omega arith
length-collapse_overlong (a ∷ []) = omega arith
length-collapse_overlong (a ∷ b ∷ s) =
    ground (arith, length-collapse_overlong s, length-collapse_overlong (b ∷ s))

collapse_overlong-still :
    (s : Bytes) → length s ≤ length (collapse_overlong s) → has_overlong s ≡ false
unfolding collapse_overlong
collapse_overlong-still [] h = refl
collapse_overlong-still (a ∷ []) h = refl
collapse_overlong-still (a ∷ b ∷ s) h =
    ground (arith, length-collapse_overlong s, collapse_overlong-still (b ∷ s))

pub collapse_overlong-id : (s : Bytes) → has_overlong s ≡ false → collapse_overlong s ≡ s
unfolding collapse_overlong
collapse_overlong-id [] h = refl
collapse_overlong-id (a ∷ []) h = refl
collapse_overlong-id (a ∷ b ∷ s) h = ground (arith, collapse_overlong-id (b ∷ s))

pub length-decode_pass : (plus : Bool) (s : Bytes) → length (decode_pass plus s) ≤ length s
unfolding decode_pass
length-decode_pass plus s = omega (
  arith,
  length-percent_decode_bytes plus s,
  length-collapse_overlong (percent_decode_bytes plus s),
)

-- A pass that keeps the length found no escape in its input, and no overlong pair after decoding.
pub decode_pass-still :
    (plus : Bool) (s : Bytes)
    → length s ≤ length (decode_pass plus s)
    → (still_percent_encoded s ≡ false) × (has_overlong (percent_decode_bytes plus s) ≡ false)
unfolding decode_pass
decode_pass-still plus s h = (
  percent_decode_bytes-still plus s
      (omega (arith, length-collapse_overlong (percent_decode_bytes plus s))),
  collapse_overlong-still (percent_decode_bytes plus s)
      (omega (arith, length-percent_decode_bytes plus s)),
)

-- Where `+` is literal, a pass that keeps the length changes nothing.
pub decode_pass-id : (s : Bytes) → length s ≤ length (decode_pass false s) → decode_pass false s ≡ s
unfolding decode_pass
decode_pass-id s h =
    let (no_escape, no_pair) = decode_pass-still false s h in
    collapse_overlong-id (percent_decode_bytes false s) no_pair
    ∙ percent_decode_bytes-id s no_escape

-- A pass that changes nothing already changed nothing before the overlong pairs.
pub decode_pass-eq :
    (plus : Bool) (s : Bytes)
    → has_overlong (percent_decode_bytes plus s) ≡ false
    → decode_pass plus s ≡ s
    → percent_decode_bytes plus s ≡ s
unfolding decode_pass
decode_pass-eq plus s no_pair e =
    sym (collapse_overlong-id (percent_decode_bytes plus s) no_pair) ∙ e
