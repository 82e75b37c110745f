-- ===== src/Normalizer/Graphql.antt =====
-- crates/waf-normalizer/src/graphql.rs: `graphql_lex`, the structural metrics of a query.
--
-- The scan position is what is left of the text. The loop runs on fuel, one unit a round; `none` is
-- the end of the fuel. The counters are `u32`s in the source and numbers here.
pub mod Scan
pub mod Counts
pub mod Opaque
pub mod Envelope
use rust_waf.Common.{
  ℕ, zero, suc, ◌+◌, ◌-◌, ◌*◌, ◌/◌, ◌%◌, ◌^◌, ◌≤◌, ◌<◌, min, max, Bool, true, false, not, ◌&&◌,
  ◌||◌, List, [], ◌∷◌, ◌++◌, map, append_assoc, append-nil, Option, none, some, ◌≡◌, refl, sym, ap,
  ◌∙◌, subst, ◌≢◌, ◌↔◌, ◌⊎◌, inl, inr, arith, Bytes, codes, bytes_eq, bytes_eq_iff, is_ascii_digit,
  is_ascii_alphabetic, is_ascii_alphanumeric, to_ascii_lowercase, eq_ignore_ascii_case, starts_with,
  ltb, leb, ◌==◌, within, if◌then◌else◌, ltb→lt, lt→ltb, ==_iff, Bool-cases, Option-cases, length,
  get_elem?, take, drop, any, all, keep, find, is_empty, length-append, take-append-drop,
  length-take, length-drop, length-keep-le, decimal, parse_uint, white_len, trim_start, trim_end,
  trim, split, split_once, strip_prefix, ends_with, cons_head,
}

pub record GraphqlStats : Type 0 where
  pub max_depth : ℕ
  pub aliases : ℕ
  pub fields : ℕ
  pub directives : ℕ
  pub has_introspection : Bool

-- The variables of the loop.
pub record LexState : Type 0 where
  pub depth : ℕ
  pub paren : ℕ
  pub stats : GraphqlStats

abbrev pub no_stats : GraphqlStats
no_stats = record {
  max_depth = 0;
  aliases = 0;
  fields = 0;
  directives = 0;
  has_introspection = false;
}

abbrev pub initial : LexState
initial = record { depth = 0; paren = 0; stats = no_stats }

-- To the end of the line, which stays.
unfoldable pub skip_comment : Bytes → Bytes
skip_comment [] = []
skip_comment (a ∷ s) = let rest = skip_comment s in if a == b'\n' then a ∷ s else rest

-- Behind the closing `"""`, or at the end of the text.
unfoldable pub skip_block : Bytes → Bytes
skip_block [] = []
skip_block (a ∷ []) = []
skip_block (a ∷ b ∷ []) = []
skip_block (a ∷ b ∷ c ∷ s) =
    let escaped = skip_block (c ∷ s) in
    let next = skip_block (b ∷ c ∷ s) in
    if a == b'"' && b == b'"' && c == b'"' then s else if a == b'\\' then escaped else next

-- Behind the closing quote, or at the end of the text.
unfoldable pub skip_string : Bytes → Bytes
skip_string [] = []
skip_string (a ∷ []) = []
skip_string (a ∷ b ∷ s) =
    let escaped = skip_string s in
    let next = skip_string (b ∷ s) in
    if a == b'"' then b ∷ s else if a == b'\\' then escaped else next

abbrev pub is_name_start : ℕ → Bool
is_name_start c = c == b'_' || is_ascii_alphabetic c

abbrev pub is_name_byte : ℕ → Bool
is_name_byte c = c == b'_' || is_ascii_alphanumeric c

unfoldable pub name_of : Bytes → Bytes
name_of [] = []
name_of (a ∷ s) = let rest = a ∷ name_of s in if is_name_byte a then rest else []

unfoldable pub skip_name : Bytes → Bytes
skip_name [] = []
skip_name (a ∷ s) = let rest = skip_name s in if is_name_byte a then rest else a ∷ s

-- `i + 2 < n` and two more quotes: a block string.
unfoldable pub opens_block : Bytes → Bool
opens_block [] = false
opens_block (a ∷ []) = false
opens_block (a ∷ b ∷ s) = a == b'"' && b == b'"'

abbrev pub is_meta_field : Bytes → Bool
is_meta_field name = bytes_eq name (codes "__schema") || bytes_eq name (codes "__type")

unfoldable pub open_brace : LexState → LexState
open_brace st =
    if st.paren == 0
    then record st {
      depth = st.depth + 1;
      stats = record (st.stats) { max_depth = max st.stats.max_depth (st.depth + 1) };
    }
    else st

unfoldable pub close_brace : LexState → LexState
close_brace st = if st.paren == 0 then record st { depth = st.depth - 1 } else st

unfoldable pub count_name : LexState → Bytes → LexState
count_name st name =
    if st.paren == 0 && ltb 0 st.depth
    then record st {
      stats = record (st.stats) {
        fields = st.stats.fields + 1;
        has_introspection = st.stats.has_introspection || is_meta_field name;
      };
    }
    else st

-- The arms of the match on the byte, in the order of the source.
pub data Arm : Type 0 where
  comment block_string string open_paren close_paren open_curly close_curly : Arm
  alias directive name other : Arm

unfoldable pub arm : LexState → ℕ → Bytes → Arm
arm st c s =
    if c == b'#'
    then Arm.comment
    else if c == b'"' && opens_block s
    then Arm.block_string
    else if c == b'"'
    then Arm.string
    else if c == b'('
    then Arm.open_paren
    else if c == b')'
    then Arm.close_paren
    else if c == b'{'
    then Arm.open_curly
    else if c == b'}'
    then Arm.close_curly
    else if c == b':' && st.paren == 0
    then Arm.alias
    else if c == b'@'
    then Arm.directive
    else if is_name_start c
    then Arm.name
    else Arm.other

unfoldable pub act : LexState → ℕ → Bytes → Arm → LexState
unfolding open_brace close_brace count_name name_of
act st c s Arm.comment = st
act st c s Arm.block_string = st
act st c s Arm.string = st
act st c s Arm.open_paren = record st { paren = st.paren + 1 }
act st c s Arm.close_paren = record st { paren = st.paren - 1 }
act st c s Arm.open_curly = open_brace st
act st c s Arm.close_curly = close_brace st
act st c s Arm.alias = record st { stats = record (st.stats) { aliases = st.stats.aliases + 1 } }
act st c s Arm.directive = record st {
  stats = record (st.stats) { directives = st.stats.directives + 1 };
}
act st c s Arm.name = count_name st (c ∷ name_of s)
act st c s Arm.other = st

-- Where the next round reads.
unfoldable pub read_on : ℕ → Bytes → Arm → Bytes
unfolding skip_comment skip_block skip_string skip_name
read_on c s Arm.comment = skip_comment (c ∷ s)
read_on c s Arm.block_string = skip_block (drop 2 s)
read_on c s Arm.string = skip_string s
read_on c s Arm.name = skip_name s
read_on c s _ = s

unfoldable pub lex_from : ℕ → LexState → Bytes → Option GraphqlStats
unfolding arm opens_block act read_on
lex_from zero st s = none
lex_from (suc fuel) st [] = some st.stats
lex_from (suc fuel) st (c ∷ s) = lex_from fuel (act st c s (arm st c s)) (read_on c s (arm st c s))

-- Fuel for a text: a round for each byte, and one to see the end.
unfoldable pub scan : LexState → Bytes → Option GraphqlStats
unfolding lex_from
scan st s = lex_from (suc (length s)) st s

unfoldable pub graphql_lex : Bytes → Option GraphqlStats
unfolding scan
graphql_lex s = scan initial s
