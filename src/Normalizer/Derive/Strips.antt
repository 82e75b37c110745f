-- ===== src/Normalizer/Derive/Strips.antt =====
-- crates/waf-normalizer/src/url.rs: `strip_midtoken_tags`, `strip_midtoken_controls` and
-- `strip_vbscript_concat`. The three loops copy a text and leave out what a test at a byte finds.
pub mod Shorter
use rust_waf.Common.{
  ℕ, zero, suc, ◌+◌, ◌-◌, ◌*◌, ◌/◌, ◌%◌, ◌^◌, ◌≤◌, ◌<◌, min, max, Bool, true, false, not, ◌&&◌,
  ◌||◌, List, [], ◌∷◌, ◌++◌, map, append_assoc, append-nil, Option, none, some, ◌≡◌, refl, sym, ap,
  ◌∙◌, subst, ◌≢◌, ◌↔◌, ◌⊎◌, inl, inr, arith, Bytes, codes, bytes_eq, bytes_eq_iff, is_ascii_digit,
  is_ascii_alphabetic, is_ascii_alphanumeric, to_ascii_lowercase, eq_ignore_ascii_case, starts_with,
  ltb, leb, ◌==◌, within, if◌then◌else◌, ltb→lt, lt→ltb, ==_iff, Bool-cases, Option-cases, length,
  get_elem?, take, drop, any, all, keep, find, is_empty, length-append, take-append-drop,
  length-take, length-drop, length-keep-le, decimal, parse_uint, white_len, trim_start, trim_end,
  trim, split, split_once, strip_prefix, strip_prefix_iff, ends_with, cons_head,
}

-- The byte as a character of Latin-1 is alphanumeric by Unicode's table.
abbrev pub latin1_alphanumeric : ℕ → Bool
latin1_alphanumeric c =
    is_ascii_alphanumeric c
    || (any (λ k. k == c) (0xAA ∷ 0xB2 ∷ 0xB3 ∷ 0xB5 ∷ 0xB9 ∷ 0xBA ∷ 0xBC ∷ 0xBD ∷ 0xBE ∷ [])
        || (within 0xC0 0xD6 c || within 0xD8 0xF6 c || within 0xF8 0xFF c))

abbrev pub starts_word : Bytes → Bool
starts_word [] = false
starts_word (c ∷ s) = latin1_alphanumeric c || c == b'_'

-- The loop: `at` sees the text so far, a byte and what follows, and says how much to drop behind the
-- byte that it drops. `skip` bytes are still to be dropped.
unfoldable pub strip_from : (Bytes → ℕ → Bytes → Option ℕ) → ℕ → Bytes → Bool → Bytes → Bytes × Bool
strip_from at skip out changed [] = (out, changed)
strip_from at (suc skip) out changed (c ∷ s) = strip_from at skip out changed s
strip_from at zero out changed (c ∷ s) = elim (at out c s) [
  | none ↦ strip_from at zero (out ++ (c ∷ [])) changed s
  | some n ↦ strip_from at n out true s
]

-- `changed.then_some(out)`
abbrev pub then_some : Bytes × Bool → Option Bytes
then_some (out, changed) = if changed then some out else none

abbrev pub is_ctrl : ℕ → Bool
is_ctrl c = ltb c 0x20 && not (c == b'\t') && not (c == b'\n') && not (c == b'\r')

abbrev pub ctrl_run : Bytes → ℕ
ctrl_run [] = 0
ctrl_run (c ∷ s) = let rest = suc (ctrl_run s) in if is_ctrl c then rest else 0

module _ (ends_alphanumeric : Bytes → Bool) where
  abbrev pub ends_word : Bytes → Bool
  ends_word out = ends_alphanumeric out || ends_with (codes "_") out

  abbrev pub tag_end : Bytes → Option (Bytes × Bytes) → Option ℕ
  tag_end out none = none
  tag_end out (some (inside, after)) =
      if ends_word out && starts_word after && leb (length inside + 1) 24
      then some (length inside + 1)
      else none

  unfoldable pub tag_at : Bytes → ℕ → Bytes → Option ℕ
  tag_at out c s = if c == b'<' then tag_end out (split_once b'>' s) else none

  unfoldable pub strip_midtoken_tags : Bytes → Option Bytes
  unfolding tag_at strip_from
  strip_midtoken_tags s =
      if any (λ c. c == b'<') s then then_some (strip_from tag_at 0 [] false s) else none

  unfoldable pub controls_at : Bytes → ℕ → Bytes → Option ℕ
  controls_at out c s =
      if is_ctrl c && ends_word out && starts_word (drop (ctrl_run s) s)
      then some (ctrl_run s)
      else none

  unfoldable pub strip_midtoken_controls : Bytes → Option Bytes
  unfolding controls_at strip_from
  strip_midtoken_controls s =
      if any is_ctrl s then then_some (strip_from controls_at 0 [] false s) else none

abbrev pub ws_run : Bytes → ℕ
ws_run [] = 0
ws_run (c ∷ s) = let rest = suc (ws_run s) in if c == b' ' || c == b'\t' then rest else 0

-- The bytes up to and with the quote that opens the next literal.
abbrev pub opens_literal : ℕ → Bytes → Option ℕ
opens_literal n [] = none
opens_literal n (c ∷ s) = if c == b'"' then some (n + 1) else none

abbrev pub joins : ℕ → Bytes → Option ℕ
joins n [] = none
joins n (c ∷ s) = if c == b'&' then opens_literal (n + 1 + ws_run s) (drop (ws_run s) s) else none

unfoldable pub joint_at : Bytes → ℕ → Bytes → Option ℕ
joint_at out c s = if c == b'"' then joins (ws_run s) (drop (ws_run s) s) else none

unfoldable pub strip_vbscript_concat : Bytes → Option Bytes
unfolding joint_at strip_from
strip_vbscript_concat s =
    if any (λ c. c == b'&') s then then_some (strip_from joint_at 0 [] false s) else none
