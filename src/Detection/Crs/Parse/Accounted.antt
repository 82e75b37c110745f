-- ===== src/Detection/Crs/Parse/Accounted.antt =====
-- crates/waf-detection/src/crs/parse.rs: what becomes of each rule of a file.
use rust_waf.Common.{
  Bool, true, false, List, [], ◌∷◌, none, some, ◌≡◌, refl, inl, inr, arith, Bytes, if◌then◌else◌,
  Bool-cases, keep, any,
}
use mathlib.Core.Option
use rust_waf.Detection.Crs.Ast.{CrsRule}
use rust_waf.Detection.Crs.Lexer.{DirectiveLine, lex}
use rust_waf.Detection.Crs.Parse.{Defaults, Assembled, assemble}
use rust_waf.Detection.Crs.Parse.Loaded.{AllLoaded, OfAssembled, assemble-OfAssembled}
use rust_waf.Detection.Crs.Parse.Ruleset.{start, is_secrule, walk_from, finish, parse}
use rust_waf.Detection.Crs.Parse.Chains.{
  panics, link_at, wants_more, chain_links, defaults_after, assembled, loaded_of, accounted,
}
use rust_waf.Detection.Crs.Parse.Walked.{EndsOrPanics, walk_from-Ends, walk_from-panics}

loaded_of-AllLoaded :
    (a : Assembled) (items : List Assembled)
    → OfAssembled a
    → AllLoaded (loaded_of items)
    → AllLoaded (loaded_of (a ∷ items))
loaded_of-AllLoaded (Assembled.loaded r) items h k = (h, k)
loaded_of-AllLoaded (Assembled.skipped s) items h k = k

assembled-AllLoaded :
    (reached : Bool) (defaults : Defaults) (ds : List DirectiveLine)
    → AllLoaded (loaded_of (assembled reached defaults ds))
assembled-AllLoaded reached defaults [] = omega arith
assembled-AllLoaded reached defaults (d ∷ ds) = elim (Bool-cases (is_secrule d)) [
  | inl rule ↦ rw rule (by_reach reached (assembled-AllLoaded (wants_more d) defaults ds))
  | inr other ↦ rw other (assembled-AllLoaded false (defaults_after defaults d) ds)
]
  where
    rest : List Assembled
    rest = assembled (wants_more d) defaults ds

    by_reach :
        (chained : Bool)
        → AllLoaded (loaded_of rest)
        → AllLoaded (
            loaded_of (
              if chained
              then rest
              else assemble defaults (link_at d) (chain_links (wants_more d) ds) ∷ rest))
    by_reach true h = h
    by_reach false h =
        loaded_of-AllLoaded (assemble defaults (link_at d) (chain_links (wants_more d) ds)) rest
          (assemble-OfAssembled defaults (link_at d) (chain_links (wants_more d) ds)) h

AllLoaded-keep :
    (p : CrsRule → Bool) (rules : List CrsRule) → AllLoaded rules → AllLoaded (keep p rules)
AllLoaded-keep p [] h = h
AllLoaded-keep p (r ∷ rules) (hr, h) = elim (Bool-cases (p r)) [
  | inl kept ↦ rw kept (hr, AllLoaded-keep p rules h)
  | inr dropped ↦ rw dropped (AllLoaded-keep p rules h)
]

-- `parse` panics exactly if some SecRule does in the slice behind its operator's name. Otherwise each
-- SecRule that no chain reaches is assembled, once and in order, with all the links of its own chain
-- and the defaults in force at it; the rules it gives are loaded, but for those that a directive
-- anywhere in the file removes by identifier, and the others are skipped. `unit_unsupported` refuses
-- no unit of a loaded rule.
pub parse-accounted :
    (input : Bytes)
    → (parse input ≡ (if any panics (lex input) then none else some (accounted (lex input))))
      × AllLoaded (accounted (lex input)).rules
unfolding parse
parse-accounted input = (
  by_test (any panics (lex input)) refl (walk_from-Ends (lex input) start),
  AllLoaded-keep _ _ (assembled-AllLoaded false start.defaults (lex input)),
)
  where
    by_test :
        (fault : Bool)
        → any panics (lex input) ≡ fault
        → EndsOrPanics start (lex input)
        → Option.map finish (walk_from start (lex input))
          ≡ (if fault then none else some (accounted (lex input)))
    by_test true h k = rw (walk_from-panics (lex input) start h) refl
    by_test false h (inl fault) = cc
    by_test false h (inr (v, e, rules, skipped, gone)) = rw (e, rules, skipped, gone) refl
