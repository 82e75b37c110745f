-- ===== src/Normalizer/Derive/Entities.antt =====
-- crates/waf-normalizer/src/url.rs: `html_entity_decode_evasion`.
pub mod Structural
use rust_waf.Common.{
  ℕ, zero, suc, ◌+◌, ◌-◌, ◌*◌, ◌/◌, ◌%◌, ◌^◌, ◌≤◌, ◌<◌, min, max, Bool, true, false, not, ◌&&◌,
  ◌||◌, List, [], ◌∷◌, ◌++◌, map, append_assoc, append-nil, Option, none, some, ◌≡◌, refl, sym, ap,
  ◌∙◌, subst, ◌≢◌, ◌↔◌, ◌⊎◌, inl, inr, arith, Bytes, codes, bytes_eq, bytes_eq_iff, is_ascii_digit,
  is_ascii_alphabetic, is_ascii_alphanumeric, to_ascii_lowercase, eq_ignore_ascii_case, starts_with,
  ltb, leb, ◌==◌, within, if◌then◌else◌, ltb→lt, lt→ltb, ==_iff, Bool-cases, Option-cases, length,
  get_elem?, take, drop, any, all, keep, find, is_empty, length-append, take-append-drop,
  length-take, length-drop, length-keep-le, decimal, parse_uint, white_len, trim_start, trim_end,
  trim, split, split_once, strip_prefix, strip_prefix_iff, ends_with, cons_head,
}
use mathlib.Core.Option
use rust_waf.Common.Chars.{from_u32, encode_utf8, from_str_radix_16}

abbrev pub entity_named : List (Bytes × ℕ)
entity_named =
    (codes "lpar", b'(')
    ∷ (codes "rpar", b')')
    ∷ (codes "equals", b'=')
    ∷ (codes "colon", b':')
    ∷ (codes "sol", b'/')
    ∷ (codes "bsol", 92)
    ∷ (codes "period", b'.')
    ∷ (codes "comma", b',')
    ∷ (codes "excl", b'!')
    ∷ (codes "semi", b';')
    ∷ (codes "quest", b'?')
    ∷ (codes "commat", b'@')
    ∷ (codes "dollar", b'$')
    ∷ (codes "percnt", b'%')
    ∷ (codes "plus", b'+')
    ∷ (codes "ast", b'*')
    ∷ (codes "midast", b'*')
    ∷ (codes "lbrace", b'{')
    ∷ (codes "rbrace", b'}')
    ∷ (codes "lcub", b'{')
    ∷ (codes "rcub", b'}')
    ∷ (codes "lsqb", b'[')
    ∷ (codes "rsqb", b']')
    ∷ (codes "grave", b'`')
    ∷ (codes "lowbar", b'_')
    ∷ (codes "verbar", b'|')
    ∷ (codes "vert", b'|')
    ∷ (codes "num", b'#')
    ∷ (codes "Tab", b'\t')
    ∷ (codes "NewLine", b'\n')
    ∷ []

-- The five characters that are never decoded.
abbrev pub is_structural : ℕ → Bool
is_structural c = c == b'<' || c == b'>' || c == b'&' || c == b'"' || c == b'\''

abbrev pub and_then : {A B : Type 0} → Option A → (A → Option B) → Option B
and_then none f = none
and_then (some a) f = f a

abbrev pub u32_max : ℕ
u32_max = 4294967295

-- The text behind `#`, where `x` or `X` starts a hexadecimal number.
abbrev pub code_point : Bytes → Option ℕ
code_point [] = none
code_point (c ∷ s) =
    if c == b'x' || c == b'X' then from_str_radix_16 s else parse_uint u32_max (c ∷ s)

abbrev pub char_of : Bytes → Option Bytes → Option ℕ
char_of ent (some num) = and_then (code_point num) from_u32
char_of ent none =
    Option.map (λ (e : Bytes × ℕ). e.1) (find (λ (e : Bytes × ℕ). bytes_eq e.0 ent) entity_named)

abbrev pub unless_structural : ℕ → Option ℕ
unless_structural c = if is_structural c then none else some c

-- The character of an entity and the bytes it takes behind the `&`, where its `;` is in the window.
abbrev pub in_window : Option (Bytes × Bytes) → Option (ℕ × ℕ)
in_window none = none
in_window (some (ent, rest)) =
    if leb (length ent) 31
    then Option.map (λ (c : ℕ). (c, length ent + 1))
        (and_then (char_of ent (strip_prefix (codes "#") ent)) unless_structural)
    else none

unfoldable pub entity_at : ℕ → Bytes → Option (ℕ × ℕ)
unfolding from_str_radix_16
entity_at c after = if c == b'&' then in_window (split_once b';' after) else none

-- The text and whether an entity was decoded; `skip` bytes of one are still to be dropped.
unfoldable pub entities_from : ℕ → Bytes → Bytes × Bool
unfolding entity_at
entities_from skip [] = ([], false)
entities_from (suc skip) (c ∷ s) = entities_from skip s
entities_from zero (c ∷ s) = elim (entity_at c s) [
  | none ↦ (c ∷ (entities_from zero s).0, (entities_from zero s).1)
  | some (ch, n) ↦ (encode_utf8 ch ++ (entities_from n s).0, true)
]

unfoldable pub html_entity_decode_evasion : Bytes → Option Bytes
unfolding entities_from
html_entity_decode_evasion s =
    if any (λ c. c == b'&') s && (entities_from 0 s).1 then some (entities_from 0 s).0 else none
