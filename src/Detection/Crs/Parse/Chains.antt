-- ===== src/Detection/Crs/Parse/Chains.antt =====
-- crates/waf-detection/src/crs/parse.rs: the chains of a file by looking ahead, as its loops inside
-- each other do.
use rust_waf.Common.{
  ℕ, Bool, true, false, not, ◌&&◌, List, [], ◌∷◌, ◌++◌, Option, none, some, codes, bytes_eq,
  if◌then◌else◌, keep, drop,
}
use rust_waf.Detection.Crs.Ast.{Result, err, CrsRule, SkippedRule, ParsedRuleset}
use rust_waf.Detection.Crs.Lexer.{DirectiveLine}
use rust_waf.Detection.Crs.Parse.{
  RuleParts, parse_secrule, Defaults, update, RuleLink, Assembled, assemble,
}
use rust_waf.Detection.Crs.Parse.Ruleset.{
  start, wants_chain, collect_removed_ids, keyword, is_secrule, contains_id,
}

abbrev pub is_none : {A : Type 0} → Option A → Bool
is_none none = true
is_none (some a) = false

-- A SecRule whose reading panics.
abbrev pub panics : DirectiveLine → Bool
panics d = is_secrule d && is_none (parse_secrule d)

-- What is read at a SecRule; one whose reading panics has no link.
abbrev pub or_unread : Option (Result RuleParts) → Result RuleParts
or_unread none = err []
or_unread (some r) = r

abbrev pub link_at : DirectiveLine → RuleLink
link_at d = (d.line_no, or_unread (parse_secrule d))

abbrev pub wants_more : DirectiveLine → Bool
wants_more d = wants_chain (or_unread (parse_secrule d))

-- The links behind a link: the SecRules that follow at once, items far items each asks for another one.
abbrev pub chain_links : Bool → List DirectiveLine → List RuleLink
chain_links false ds = []
chain_links true [] = []
chain_links true (d ∷ ds) =
    let more = link_at d ∷ chain_links (wants_more d) ds in if is_secrule d then more else []

abbrev pub defaults_after : Defaults → DirectiveLine → Defaults
defaults_after defaults d =
    if bytes_eq (keyword d) (codes "secdefaultaction")
    then update defaults (drop 1 d.tokens)
    else defaults

-- Each SecRule that no chain reaches, assembled with its own chain under the defaults in force there.
abbrev pub assembled : Bool → Defaults → List DirectiveLine → List Assembled
assembled reached defaults [] = []
assembled reached defaults (d ∷ ds) =
    let more = assembled (wants_more d) defaults ds in
    let other = assembled false (defaults_after defaults d) ds in
    if is_secrule d
    then if reached
      then more
      else assemble defaults (link_at d) (chain_links (wants_more d) ds) ∷ more
    else other

abbrev pub removes : DirectiveLine → Bool
removes d =
    not (is_secrule d)
    && (not (bytes_eq (keyword d) (codes "secdefaultaction"))
        && bytes_eq (keyword d) (codes "secruleremovebyid"))

abbrev pub removed : List DirectiveLine → List ℕ
removed [] = []
removed (d ∷ ds) = (if removes d then collect_removed_ids (drop 1 d.tokens) else []) ++ removed ds

abbrev pub loaded_of : List Assembled → List CrsRule
loaded_of [] = []
loaded_of (Assembled.loaded r ∷ items) = r ∷ loaded_of items
loaded_of (Assembled.skipped s ∷ items) = loaded_of items

abbrev pub skipped_of : List Assembled → List SkippedRule
skipped_of [] = []
skipped_of (Assembled.loaded r ∷ items) = skipped_of items
skipped_of (Assembled.skipped s ∷ items) = s ∷ skipped_of items

-- What a file comes to, directive by directive.
abbrev pub accounted : List DirectiveLine → ParsedRuleset
accounted ds = record {
  rules =
      keep (λ (r : CrsRule). not (contains_id r.id (removed ds)))
        (loaded_of (assembled false start.defaults ds));
  skipped = skipped_of (assembled false start.defaults ds);
}
