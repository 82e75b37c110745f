-- ===== src/Detection/Crs/Lexer.antt =====
-- crates/waf-detection/src/crs/lexer.rs. Copying a character copies its bytes one by one: no byte of
-- a longer character is a blank, a quote or a backslash.
pub mod RoundTrip
use rust_waf.Common.{
  ℕ, zero, suc, ◌+◌, ◌-◌, ◌*◌, ◌/◌, ◌%◌, ◌^◌, ◌≤◌, ◌<◌, min, max, Bool, true, false, not, ◌&&◌,
  ◌||◌, List, [], ◌∷◌, ◌++◌, map, append_assoc, append-nil, Option, none, some, ◌≡◌, refl, sym, ap,
  ◌∙◌, subst, ◌≢◌, ◌↔◌, ◌⊎◌, inl, inr, arith, Bytes, codes, bytes_eq, bytes_eq_iff, is_ascii_digit,
  is_ascii_alphabetic, is_ascii_alphanumeric, to_ascii_lowercase, eq_ignore_ascii_case, starts_with,
  ltb, leb, ◌==◌, within, if◌then◌else◌, ltb→lt, lt→ltb, ==_iff, Bool-cases, Option-cases, length,
  get_elem?, take, drop, any, all, keep, find, is_empty, length-append, take-append-drop,
  length-take, length-drop, length-keep-le, decimal, parse_uint, white_len, trim_start, trim_end,
  trim, split, split_once, strip_prefix, strip_prefix_iff, ends_with, cons_head,
}
use mathlib.Core.Option
use rust_waf.Common.Chars.{lines}

pub record DirectiveLine : Type 0 where
  pub line_no : ℕ
  pub tokens : List Bytes

abbrev pub backslash : ℕ
backslash = 92

abbrev pub quote : ℕ
quote = b'"'

abbrev pub is_blank : ℕ → Bool
is_blank c = c == b' ' || c == b'\t'

-- Between tokens, or in one, with what it has so far.
pub data Scan : Type 0 where
  gap : Scan
  bareword : Bytes → Scan
  quoted : Bytes → Scan

abbrev pub after_gap : ℕ → Scan
after_gap c =
    if is_blank c then Scan.gap else if c == quote then Scan.quoted [] else Scan.bareword (c ∷ [])

-- The last token, at the end of the line.
abbrev pub last_token : Scan → List Bytes
last_token Scan.gap = []
last_token (Scan.bareword tok) = tok ∷ []
last_token (Scan.quoted tok) = tok ∷ []

-- The last byte inside quotes: a quote ends the token.
abbrev pub last_quoted : Bytes → ℕ → List Bytes
last_quoted tok c = if c == quote then tok ∷ [] else (tok ++ (c ∷ [])) ∷ []

unfoldable pub scan : Scan → Bytes → List Bytes
scan state [] = last_token state
scan Scan.gap (c ∷ s) = scan (after_gap c) s
scan (Scan.bareword tok) (c ∷ s) =
    let done = tok ∷ scan Scan.gap s in
    let more = scan (Scan.bareword (tok ++ (c ∷ []))) s in if is_blank c then done else more
scan (Scan.quoted tok) (c ∷ []) = last_quoted tok c
scan (Scan.quoted tok) (c ∷ d ∷ s) =
    let both = scan (Scan.quoted (tok ++ (d ∷ []))) s in
    let one = scan (Scan.quoted (tok ++ (c ∷ []))) (d ∷ s) in
    let done = tok ∷ scan Scan.gap (d ∷ s) in
    if c == backslash
    then if d == quote || d == backslash then both else one
    else if c == quote
    then done
    else one

abbrev pub skip_blank : Bytes → Bytes
skip_blank [] = []
skip_blank (c ∷ s) = let rest = skip_blank s in if is_blank c then rest else c ∷ s

abbrev pub is_comment : Bytes → Bool
is_comment [] = true
is_comment (c ∷ s) = c == b'#'

abbrev pub directive : ℕ → List Bytes → Option DirectiveLine
directive line_no [] = none
directive line_no (t ∷ ts) = some (record { line_no = line_no; tokens = t ∷ ts })

unfoldable pub tokenize_logical : Bytes → ℕ → Option DirectiveLine
unfolding scan
tokenize_logical line line_no =
    if is_comment (skip_blank line)
    then none
    else directive line_no (scan Scan.gap (skip_blank line))

abbrev pub or_skip : {A : Type 0} → Option A → List A
or_skip none = []
or_skip (some a) = a ∷ []

-- What stands before the backslash that ends a line.
unfoldable pub continuation : Bytes → Option Bytes
continuation raw =
    let line = trim_end raw in
    if ends_with (backslash ∷ []) line then some (take (length line - 1) line) else none

-- The loop over the lines from `line_no` on, with the logical line so far and where it began.
unfoldable pub lex_lines : ℕ → Bytes → ℕ → List Bytes → List DirectiveLine
unfolding tokenize_logical continuation
lex_lines line_no logical start [] =
    if is_empty logical then [] else or_skip (tokenize_logical logical start)
lex_lines line_no logical start (raw ∷ rest) =
    let began = if is_empty logical then line_no else start in
    elim (continuation raw) [
      | some prefix ↦ lex_lines (line_no + 1) (logical ++ prefix) began rest
      | none ↦
          or_skip (tokenize_logical (logical ++ raw) began) ++ lex_lines (line_no + 1) [] began rest
    ]

unfoldable pub lex : Bytes → List DirectiveLine
unfolding lex_lines lines
lex input = lex_lines 1 [] 0 (lines input)
