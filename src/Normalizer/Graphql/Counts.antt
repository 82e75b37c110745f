-- ===== src/Normalizer/Graphql/Counts.antt =====
-- crates/waf-normalizer/src/graphql.rs: the end of the lexer, and its metrics against the length of
-- the text.
use rust_waf.Common.{ℕ, zero, suc, ◌+◌, ◌≤◌, ◌<◌, [], ◌∷◌, some, ◌≡◌, refl, arith, Bytes, length}
use rust_waf.Normalizer.Graphql.{
  GraphqlStats, LexState, initial, Arm, arm, act, read_on, open_brace, close_brace, count_name,
  lex_from, scan, graphql_lex,
}
use rust_waf.Normalizer.Graphql.Scan.{length-read_on}

-- The state after at most `n` bytes.
record Within (n : ℕ) (st : LexState) : Type 0 where
  depth : st.depth ≤ st.stats.max_depth
  max_depth : st.stats.max_depth ≤ n
  aliases : st.stats.aliases ≤ n
  fields : st.stats.fields ≤ n
  directives : st.stats.directives ≤ n

act-Within :
    (n : ℕ) (st : LexState) (c : ℕ) (s : Bytes) (a : Arm)
    → Within n st
    → Within (suc n) (act st c s a)
unfolding act open_brace close_brace count_name
act-Within n st c s Arm.comment w = omega arith
act-Within n st c s Arm.open_curly w = ground arith
act-Within n st c s Arm.close_curly w = ground arith
act-Within n st c s Arm.name w = ground arith
act-Within n st c s _ w = omega arith

abbrev pub Bounded : ℕ → GraphqlStats → Type 0
Bounded n stats =
    (stats.max_depth ≤ n) × (stats.aliases ≤ n) × (stats.fields ≤ n) × (stats.directives ≤ n)

lex_from-Bounded :
    (fuel n : ℕ) (st : LexState) (s : Bytes)
    → Within n st
    → length s < fuel
    → (stats : GraphqlStats) × (lex_from fuel st s ≡ some stats) × Bounded (n + length s) stats
unfolding lex_from
lex_from-Bounded zero n st s w h = elim h [ ]
lex_from-Bounded (suc fuel) n st [] w h = (st.stats, refl, omega arith)
lex_from-Bounded (suc fuel) n st (c ∷ s) w h =
    let (stats, done, bound) =
      lex_from-Bounded fuel (suc n) (act st c s (arm st c s)) (read_on c s (arm st c s))
        (act-Within n st c s (arm st c s) w) (omega (arith, length-read_on st c s)) in
    (stats, done, omega (arith, length-read_on st c s))

-- `graphql_lex` ends on every text, and none of the depth, the aliases, the fields and the
-- directives that it reports exceeds the number of bytes of the text.
pub graphql_lex-Bounded :
    (s : Bytes) → (stats : GraphqlStats) × (graphql_lex s ≡ some stats) × Bounded (length s) stats
unfolding graphql_lex scan
graphql_lex-Bounded s =
    let (stats, done, bound) =
      lex_from-Bounded (suc (length s)) 0 initial s (omega arith) (omega arith) in
    (stats, done, omega arith)
