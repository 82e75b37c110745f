-- ===== src/Normalizer/Path.antt =====
-- crates/waf-normalizer/src/url.rs: `normalize_path` and `resolve_path`.
--
-- `str::to_lowercase` (Unicode's table) is the argument `to_lowercase`, NFKC the argument `nfkc`.
pub mod Segments
pub mod Resolved
use mathlib.Core.List.{reverse}
use rust_waf.Common.{
  ℕ, zero, suc, ◌+◌, ◌-◌, ◌*◌, ◌/◌, ◌%◌, ◌^◌, ◌≤◌, ◌<◌, min, max, Bool, true, false, not, ◌&&◌,
  ◌||◌, List, [], ◌∷◌, ◌++◌, map, append_assoc, append-nil, Option, none, some, ◌≡◌, refl, sym, ap,
  ◌∙◌, subst, ◌≢◌, ◌↔◌, ◌⊎◌, inl, inr, arith, Bytes, codes, bytes_eq, bytes_eq_iff, is_ascii_digit,
  is_ascii_alphabetic, is_ascii_alphanumeric, to_ascii_lowercase, eq_ignore_ascii_case, starts_with,
  ltb, leb, ◌==◌, within, if◌then◌else◌, ltb→lt, lt→ltb, ==_iff, Bool-cases, Option-cases, length,
  get_elem?, take, drop, any, all, keep, find, is_empty, length-append, take-append-drop,
  length-take, length-drop, length-keep-le, decimal, parse_uint, white_len, trim_start, trim_end,
  trim, split, split_once, strip_prefix, ends_with, cons_head,
}
use rust_waf.Common.Utf8.{from_utf8_lossy}
use rust_waf.Normalizer.Percent.{percent_overlong_fixpoint, pipeline_cap}

abbrev pub dot : Bytes
dot = codes "."

abbrev pub dot_dot : Bytes
dot_dot = codes ".."

-- The stack of segments, the last one first; `pop` of an empty stack does nothing.
abbrev pub pop : List Bytes → List Bytes
pop [] = []
pop (top ∷ stack) = stack

unfoldable pub push_segment : List Bytes → Bytes → List Bytes
push_segment stack seg =
    if is_empty seg || bytes_eq seg dot
    then stack
    else if bytes_eq seg dot_dot
    then pop stack
    else seg ∷ stack

unfoldable pub push_segments : List Bytes → List Bytes → List Bytes
push_segments stack [] = stack
push_segments stack (seg ∷ segs) = push_segments (push_segment stack seg) segs

unfoldable pub join_segments : List Bytes → Bytes
join_segments [] = []
join_segments (seg ∷ segs) = b'/' ∷ (seg ++ join_segments segs)

abbrev pub or_root : Bytes → Bytes
or_root [] = b'/' ∷ []
or_root (c ∷ s) = c ∷ s

unfoldable pub resolve_path : Bytes → Bytes
unfolding push_segments push_segment join_segments
resolve_path path = or_root (join_segments (reverse (push_segments [] (split b'/' path))))

module _ (nfkc to_lowercase : Bytes → Bytes) where
  unfoldable pub normalize_path : Bytes → Bytes × Bool
  unfolding resolve_path percent_overlong_fixpoint from_utf8_lossy
  normalize_path raw =
      let d = percent_overlong_fixpoint raw false pipeline_cap in
      let no_nulls = keep (λ c. not (c == 0)) (nfkc (from_utf8_lossy d.bytes)) in
      (resolve_path (to_lowercase no_nulls), leb 2 d.passes)
