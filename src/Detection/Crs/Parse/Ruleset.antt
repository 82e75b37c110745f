-- ===== src/Detection/Crs/Parse/Ruleset.antt =====
-- crates/waf-detection/src/crs/parse.rs: the loop over the directives, one directive at a time. A rule
-- whose last link asks for another one stays pending until the next directive.
use rust_waf.Common.{
  ℕ, zero, suc, ◌+◌, ◌-◌, Bool, true, false, not, List, [], ◌∷◌, ◌++◌, Option, none, some, Bytes,
  codes, bytes_eq, ◌==◌, if◌then◌else◌, drop, any, keep, parse_uint, trim, split_once,
}
use mathlib.Core.Option
use rust_waf.Common.Chars.{to_lower}
use rust_waf.Detection.Crs.Ast.{Result, ok, err, CrsRule, SkippedRule, ParsedRuleset}
use rust_waf.Detection.Crs.Lexer.{DirectiveLine, lex}
use rust_waf.Detection.Crs.Parse.Actions.{u64_max, first_piece}
use rust_waf.Detection.Crs.Parse.{
  RuleParts, parse_secrule, Defaults, update, RuleLink, Assembled, assemble,
}

pub data Pending : Type 0 where
  closed : Pending
  chained : RuleLink → List RuleLink → Pending

pub record Walk : Type 0 where
  pub defaults : Defaults
  pub rules : List CrsRule
  pub skipped : List SkippedRule
  pub removed_ids : List ℕ
  pub pending : Pending

abbrev pub start : Walk
start = record {
  defaults = record { transforms = []; severity = none; phase = none };
  rules = [];
  skipped = [];
  removed_ids = [];
  pending = Pending.closed;
}

abbrev pub add_assembled : Walk → Assembled → Walk
add_assembled w (Assembled.loaded r) = record w {
  rules = w.rules ++ (r ∷ []);
  pending = Pending.closed;
}
add_assembled w (Assembled.skipped s) = record w {
  skipped = w.skipped ++ (s ∷ []);
  pending = Pending.closed;
}

abbrev pub close_pending : Walk → Pending → Walk
close_pending w Pending.closed = w
close_pending w (Pending.chained head links) = add_assembled w (assemble w.defaults head links)

abbrev pub wants_chain : Result RuleParts → Bool
wants_chain (ok p) = p.actions.chain
wants_chain (err e) = false

-- A SecRule, as the head of a rule or the next link of the pending one.
abbrev pub take_link : Walk → RuleLink → Bool → Pending → Walk
take_link w link true Pending.closed = record w { pending = Pending.chained link [] }
take_link w link false Pending.closed = add_assembled w (assemble w.defaults link [])
take_link w link true (Pending.chained head links) = record w {
  pending = Pending.chained head (links ++ (link ∷ []));
}
take_link w link false (Pending.chained head links) =
    add_assembled w (assemble w.defaults head (links ++ (link ∷ [])))

-- `a..=b`, as `a` and the number of identifiers.
abbrev pub ids_from : ℕ → ℕ → List ℕ
ids_from a zero = []
ids_from a (suc n) = a ∷ ids_from (a + 1) n

abbrev pub id_range : Option ℕ → Option ℕ → List ℕ
id_range (some a) (some b) = ids_from a (b + 1 - a)
id_range _ _ = []

abbrev pub one_id : Option ℕ → List ℕ
one_id none = []
one_id (some id) = id ∷ []

abbrev pub removed_by : Bytes → Option (Bytes × Bytes) → List ℕ
removed_by tok (some (a, b)) = id_range (parse_uint u64_max (trim a)) (parse_uint u64_max (trim b))
removed_by tok none = one_id (parse_uint u64_max (trim tok))

unfoldable pub collect_removed_ids : List Bytes → List ℕ
collect_removed_ids [] = []
collect_removed_ids (tok ∷ toks) = removed_by tok (split_once b'-' tok) ++ collect_removed_ids toks

abbrev pub keyword : DirectiveLine → Bytes
keyword d = to_lower (first_piece d.tokens)

abbrev pub is_secrule : DirectiveLine → Bool
is_secrule d = bytes_eq (keyword d) (codes "secrule")

-- A directive that is no SecRule.
unfoldable pub other_directive : Walk → DirectiveLine → Walk
other_directive w d =
    if bytes_eq (keyword d) (codes "secdefaultaction")
    then record w { defaults = update w.defaults (drop 1 d.tokens) }
    else if bytes_eq (keyword d) (codes "secruleremovebyid")
    then record w { removed_ids = w.removed_ids ++ collect_removed_ids (drop 1 d.tokens) }
    else w

unfoldable pub step : Walk → DirectiveLine → Option Walk
unfolding other_directive
step w d =
    if is_secrule d
    then Option.map (λ (r : Result RuleParts). take_link w (d.line_no, r) (wants_chain r) w.pending)
        (parse_secrule d)
    else some (other_directive (close_pending w w.pending) d)

abbrev pub then_walk : (Walk → Option Walk) → Option Walk → Option Walk
then_walk go none = none
then_walk go (some w) = go w

unfoldable pub walk_from : Walk → List DirectiveLine → Option Walk
unfolding step
walk_from w [] = some (close_pending w w.pending)
walk_from w (d ∷ ds) = then_walk (λ w'. walk_from w' ds) (step w d)

abbrev pub contains_id : ℕ → List ℕ → Bool
contains_id id ids = any (λ i. i == id) ids

abbrev pub finish : Walk → ParsedRuleset
finish w = record {
  rules = keep (λ (r : CrsRule). not (contains_id r.id w.removed_ids)) w.rules;
  skipped = w.skipped;
}

unfoldable pub parse : Bytes → Option ParsedRuleset
unfolding walk_from
parse input = Option.map finish (walk_from start (lex input))
