-- ===== src/Normalizer/Graphql/Opaque.antt =====
-- crates/waf-normalizer/src/graphql.rs: strings, comments and argument lists.
use rust_waf.Common.{
  ℕ, ◌<◌, Bool, true, not, ◌&&◌, [], ◌∷◌, ◌++◌, ◌≡◌, refl, ap, ◌∙◌, ◌≢◌, arith, Bytes, ◌==◌, all,
}
use rust_waf.Normalizer.Graphql.{
  LexState, Arm, arm, act, read_on, open_brace, close_brace, count_name, scan, skip_string,
  skip_comment, opens_block,
}
use rust_waf.Normalizer.Graphql.Scan.{scan-cons}

-- The text holds neither a quote nor a backslash.
abbrev pub plain : Bytes → Bool
plain = all (λ c. not (c == b'"') && not (c == b'\\'))

abbrev pub one_line : Bytes → Bool
one_line = all (λ c. not (c == b'\n'))

skip_string-plain :
    (body rest : Bytes) → plain body ≡ true → skip_string (body ++ (b'"' ∷ rest)) ≡ rest
unfolding skip_string
skip_string-plain [] [] h = refl
skip_string-plain [] (r ∷ rest) h = refl
skip_string-plain (a ∷ []) rest h = ground (arith, skip_string-plain [] rest)
skip_string-plain (a ∷ b ∷ body) rest h = ground (arith, skip_string-plain (b ∷ body) rest)

skip_comment-one_line :
    (body rest : Bytes)
    → one_line body ≡ true
    → skip_comment (body ++ (b'\n' ∷ rest)) ≡ b'\n' ∷ rest
unfolding skip_comment
skip_comment-one_line [] rest h = refl
skip_comment-one_line (a ∷ body) rest h = ground (arith, skip_comment-one_line body rest)

arm-string :
    (st : LexState) (b : ℕ) (s : Bytes) → not (b == b'"') ≡ true → arm st b'"' (b ∷ s) ≡ Arm.string
unfolding arm opens_block
arm-string st b [] h = refl
arm-string st b (c ∷ s) h = ground arith

-- What stands in a string counts for nothing: scanning a string with any body that is not empty
-- and has no quote and no backslash, then `rest`, is scanning `rest`.
pub scan-string :
    (st : LexState) (b : ℕ) (body rest : Bytes)
    → plain (b ∷ body) ≡ true
    → scan st (b'"' ∷ b ∷ (body ++ (b'"' ∷ rest))) ≡ scan st rest
unfolding act read_on
scan-string st b body rest h =
    scan-cons st b'"' (b ∷ (body ++ (b'"' ∷ rest)))
    ∙ rw (arm-string st b (body ++ (b'"' ∷ rest)) (ground arith))
        (ap (scan st) (skip_string-plain (b ∷ body) rest h))

-- What stands in a comment counts for nothing: scanning `#`, any text of one line and its end, then
-- `rest`, is scanning the line's end and `rest`.
pub scan-comment :
    (st : LexState) (body rest : Bytes)
    → one_line body ≡ true
    → scan st (b'#' ∷ (body ++ (b'\n' ∷ rest))) ≡ scan st (b'\n' ∷ rest)
unfolding act read_on arm skip_comment
scan-comment st body rest h =
    scan-cons st b'#' (body ++ (b'\n' ∷ rest)) ∙ ap (scan st) (skip_comment-one_line body rest h)

-- The depth, the greatest depth, the aliases, the fields and the introspection mark are the same.
unfoldable pub SameShape : LexState → LexState → Type 0
SameShape st st' =
    (st'.depth ≡ st.depth)
    × (st'.stats.max_depth ≡ st.stats.max_depth)
    × (st'.stats.aliases ≡ st.stats.aliases)
    × (st'.stats.fields ≡ st.stats.fields)
    × (st'.stats.has_introspection ≡ st.stats.has_introspection)

arm-alias : (st : LexState) (c : ℕ) (s : Bytes) → arm st c s ≡ Arm.alias → st.paren ≡ 0
unfolding arm
arm-alias st c s h = ground arith

act-SameShape :
    (st : LexState) (c : ℕ) (s : Bytes) (a : Arm)
    → 0 < st.paren
    → a ≢ Arm.alias
    → SameShape st (act st c s a)
unfolding act open_brace close_brace count_name SameShape
act-SameShape st c s Arm.comment h ne = (refl, refl, refl, refl, refl)
act-SameShape st c s Arm.block_string h ne = (refl, refl, refl, refl, refl)
act-SameShape st c s Arm.string h ne = (refl, refl, refl, refl, refl)
act-SameShape st c s Arm.open_paren h ne = (refl, refl, refl, refl, refl)
act-SameShape st c s Arm.close_paren h ne = (refl, refl, refl, refl, refl)
act-SameShape st c s Arm.open_curly h ne = ground arith
act-SameShape st c s Arm.close_curly h ne = ground arith
act-SameShape st c s Arm.alias h ne = ground (arith, ne refl)
act-SameShape st c s Arm.directive h ne = (refl, refl, refl, refl, refl)
act-SameShape st c s Arm.name h ne = ground arith
act-SameShape st c s Arm.other h ne = (refl, refl, refl, refl, refl)

-- Depth is aware of parentheses: inside an argument list a round changes neither the depth nor the
-- greatest depth, the aliases, the fields and the introspection mark, whatever byte it reads.
pub act-paren :
    (st : LexState) (c : ℕ) (s : Bytes) → 0 < st.paren → SameShape st (act st c s (arm st c s))
act-paren st c s h = act-SameShape st c s (arm st c s) h (λ e. omega (arith, arm-alias st c s e))
