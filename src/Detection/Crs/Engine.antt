-- ===== src/Detection/Crs/Engine.antt =====
-- crates/waf-detection/src/crs/module.rs: rules compiled into buckets and a slow path, and run.
--
-- The crate of regular expressions and `format!("{:?}")`, which makes the key of a bucket, are
-- arguments. The sorted map is a list in the order of its keys. `none` from a run is a panic.
pub mod Exact
use rust_waf.Common.{
  ℕ, ◌+◌, Bool, true, false, not, ◌&&◌, ◌||◌, List, [], ◌∷◌, ◌++◌, map, Option, none, some, Bytes,
  codes, bytes_eq, ltb, ◌==◌, if◌then◌else◌, any, is_empty, decimal,
}
use rust_waf.Core.Decision.{Severity, ScoreItem, Decision}
use mathlib.Core.Option
use rust_waf.Core.Context.{RequestContext}
use rust_waf.Detection.Crs.Ast.{
  Result, ok, err, Transform, Variable, MatchUnit, CrsRule, SkippedRule, ParsedRuleset,
}
use rust_waf.Detection.Crs.Operator.{RegexCrate, Matcher, matches, invalid, compile, rx_pattern}
use rust_waf.Detection.Crs.Target.{collect_values}
use rust_waf.Detection.Crs.Transform.{and_then, apply}

pub record Link (Regex : Type 0) : Type 0 where
  pub vars : List Variable
  pub transforms : List Transform
  pub matcher : Matcher Regex
  pub negated : Bool

pub record Compiled (Regex : Type 0) : Type 0 where
  pub id : ℕ
  pub severity : Severity
  pub links : List (Link Regex)

-- The pattern, the identifier and the severity of a rule in a bucket.
pub record FastRule : Type 0 where
  pub pattern : Bytes
  pub id : ℕ
  pub severity : Severity

-- `BucketAcc`, whose three vectors are one list here.
pub record BucketAcc : Type 0 where
  pub vars : List Variable
  pub transforms : List Transform
  pub rules : List FastRule

pub record FastBucket (RegexSet : Type 0) : Type 0 where
  pub vars : List Variable
  pub transforms : List Transform
  pub set : RegexSet
  pub rules : List FastRule

pub record CrsModule (Regex RegexSet : Type 0) : Type 0 where
  pub fast : List (FastBucket RegexSet)
  pub slow : List (Compiled Regex)
  pub skipped : List SkippedRule
  pub loaded : ℕ

-- `<` on texts.
abbrev pub bytes_lt : Bytes → Bytes → Bool
bytes_lt s [] = false
bytes_lt [] (d ∷ t) = true
bytes_lt (c ∷ s) (d ∷ t) = ltb c d || (c == d && bytes_lt s t)

abbrev pub BucketMap : Type 0
BucketMap = List (Bytes × BucketAcc)

abbrev pub push_rule : BucketAcc → FastRule → BucketAcc
push_rule acc r = record acc { rules = acc.rules ++ (r ∷ []) }

-- `entry(key).or_insert_with(..)`, and the rule pushed there.
unfoldable pub add_fast : Bytes → BucketAcc → FastRule → BucketMap → BucketMap
add_fast key empty r [] = (key, push_rule empty r) ∷ []
add_fast key empty r ((k, acc) ∷ buckets) =
    let later = (k, acc) ∷ add_fast key empty r buckets in
    if bytes_eq key k
    then (k, push_rule acc r) ∷ buckets
    else if bytes_lt key k
    then (key, push_rule empty r) ∷ (k, acc) ∷ buckets
    else later

abbrev pub is_single : CrsRule → Bool
is_single rule = is_empty rule.chain && not rule.head.negated

unfoldable pub fast_pattern : CrsRule → Option Bytes
fast_pattern rule = if is_single rule then rx_pattern rule.head.operator else none

abbrev pub skipped_rule : CrsRule → Bytes → SkippedRule
skipped_rule rule reason = record { id = some rule.id; line_no = rule.line_no; reason = reason }

abbrev pub values_each : List Transform → List Bytes → Option (List Bytes)
values_each transforms [] = some []
values_each transforms (v ∷ vs) =
    and_then (apply v transforms) λ v'. Option.map (λ vs'. v' ∷ vs') (values_each transforms vs)

unfoldable pub values_for : List Variable → List Transform → RequestContext → Option (List Bytes)
values_for vars transforms ctx = values_each transforms (collect_values vars ctx)

module _ {Regex RegexSet : Type 0} (crate : RegexCrate Regex RegexSet)
    (debug_key : List Variable → List Transform → Bytes) where
  abbrev pub link_of : MatchUnit → Result (Matcher Regex) → Result (Link Regex)
  link_of u (err reason) = err reason
  link_of u (ok matcher) = ok (record {
    vars = u.variables;
    transforms = u.transforms;
    matcher = matcher;
    negated = u.negated;
  })

  unfoldable pub compile_link : MatchUnit → Result (Link Regex)
  compile_link u = link_of u (compile crate u.operator)

  abbrev pub cons_link :
      Result (Link Regex) → Result (List (Link Regex)) → Result (List (Link Regex))
  cons_link (err reason) links = err reason
  cons_link (ok link) (err reason) = err reason
  cons_link (ok link) (ok links) = ok (link ∷ links)

  unfoldable pub compile_links : List MatchUnit → Result (List (Link Regex))
  unfolding compile_link
  compile_links [] = ok []
  compile_links (u ∷ us) = cons_link (compile_link u) (compile_links us)

  -- The rules sorted into buckets and the slow path, so far.
  pub record Loading : Type 0 where
    pub fast_map : BucketMap
    pub slow : List (Compiled Regex)
    pub skipped : List SkippedRule
    pub loaded : ℕ

  abbrev pub load_slow : Loading → CrsRule → Result (List (Link Regex)) → Loading
  load_slow l rule (err reason) = record l {
    skipped = l.skipped ++ (skipped_rule rule reason ∷ []);
  }
  load_slow l rule (ok links) = record l {
    slow = l.slow ++ (record { id = rule.id; severity = rule.severity; links = links } ∷ []);
    loaded = l.loaded + 1;
  }

  abbrev pub load_fast : Loading → CrsRule → Bytes → Option Regex → Loading
  load_fast l rule pattern none = record l {
    skipped = l.skipped ++ (skipped_rule rule (invalid crate pattern) ∷ []);
  }
  load_fast l rule pattern (some re) = record l {
    fast_map =
        add_fast (debug_key rule.head.variables rule.head.transforms)
          (record { vars = rule.head.variables; transforms = rule.head.transforms; rules = [] })
          (record { pattern = pattern; id = rule.id; severity = rule.severity }) l.fast_map;
    loaded = l.loaded + 1;
  }

  abbrev pub load_by : Loading → CrsRule → Option Bytes → Loading
  load_by l rule none = load_slow l rule (compile_links (rule.head ∷ rule.chain))
  load_by l rule (some pattern) = load_fast l rule pattern (crate.new pattern)

  unfoldable pub load_rules : Loading → List CrsRule → Loading
  unfolding compile_links fast_pattern add_fast
  load_rules l [] = l
  load_rules l (rule ∷ rules) = load_rules (load_by l rule (fast_pattern rule)) rules

  abbrev pub slow_rule : BucketAcc → FastRule → Option Regex → List (Compiled Regex)
  slow_rule acc r none = []
  slow_rule acc r (some re) =
      record {
        id = r.id;
        severity = r.severity;
        links =
            record {
              vars = acc.vars;
              transforms = acc.transforms;
              matcher = Matcher.rx re;
              negated = false;
            }
            ∷ [];
      }
      ∷ []

  abbrev pub slow_rules : BucketAcc → List FastRule → List (Compiled Regex)
  slow_rules acc [] = []
  slow_rules acc (r ∷ rs) = slow_rule acc r (crate.new r.pattern) ++ slow_rules acc rs

  abbrev pub patterns_of : List FastRule → List Bytes
  patterns_of rs = map (λ (r : FastRule). r.pattern) rs

  -- A bucket whose set is too large goes to the slow path.
  abbrev pub add_bucket :
      CrsModule Regex RegexSet → BucketAcc → Option RegexSet → CrsModule Regex RegexSet
  add_bucket m acc none = record m { slow = m.slow ++ slow_rules acc acc.rules }
  add_bucket m acc (some set) = record m {
    fast =
        m.fast
        ++ (record { vars = acc.vars; transforms = acc.transforms; set = set; rules = acc.rules }
            ∷ []);
  }

  unfoldable pub build : CrsModule Regex RegexSet → BucketMap → CrsModule Regex RegexSet
  build m [] = m
  build m ((key, acc) ∷ buckets) =
      build (add_bucket m acc (crate.new_set (patterns_of acc.rules))) buckets

  abbrev pub of_loading : Loading → CrsModule Regex RegexSet
  of_loading l = record { fast = []; slow = l.slow; skipped = l.skipped; loaded = l.loaded }

  unfoldable pub from_parsed : ParsedRuleset → CrsModule Regex RegexSet
  unfolding load_rules build
  from_parsed parsed =
      let l =
        load_rules (record { fast_map = []; slow = []; skipped = parsed.skipped; loaded = 0 })
          parsed.rules in
      build (of_loading l) l.fast_map

  abbrev pub negate_if : Bool → Bool → Bool
  negate_if negated hit = if negated then not hit else hit

  -- The links in order, as far as the first that does not match.
  unfoldable pub eval_links : List (Link Regex) → RequestContext → Option Bool
  eval_links [] ctx = some true
  eval_links (link ∷ links) ctx =
      let rest = eval_links links ctx in
      and_then (values_for link.vars link.transforms ctx) λ values.
        if negate_if link.negated (any (matches crate link.matcher) values)
        then rest
        else some false

  abbrev pub item : ℕ → Severity → ScoreItem
  item id severity = record { rule_id = codes "crs-" ++ decimal id; severity = severity }

  abbrev pub hit : RegexSet → List Bytes → ℕ → Bool
  hit set values i = any (λ v. any (λ j. j == i) (crate.set_matches set v)) values

  abbrev pub fast_items : RegexSet → List Bytes → ℕ → List FastRule → List ScoreItem
  fast_items set values i [] = []
  fast_items set values i (r ∷ rs) =
      let rest = fast_items set values (i + 1) rs in
      if hit set values i then item r.id r.severity ∷ rest else rest

  abbrev pub run_fast : List (FastBucket RegexSet) → RequestContext → Option (List ScoreItem)
  run_fast [] ctx = some []
  run_fast (b ∷ bs) ctx =
      and_then (values_for b.vars b.transforms ctx)
        λ values. Option.map (λ items. fast_items b.set values 0 b.rules ++ items) (run_fast bs ctx)

  abbrev pub cons_if : Bool → ScoreItem → List ScoreItem → List ScoreItem
  cons_if fires i items = if fires then i ∷ items else items

  abbrev pub run_slow : List (Compiled Regex) → RequestContext → Option (List ScoreItem)
  run_slow [] ctx = some []
  run_slow (c ∷ cs) ctx =
      and_then (eval_links c.links ctx)
        λ fires. Option.map (cons_if fires (item c.id c.severity)) (run_slow cs ctx)

  abbrev pub decide : List ScoreItem → Decision
  decide [] = Decision.allow
  decide (i ∷ items) = Decision.scores (i ∷ items)

  unfoldable pub items_of : CrsModule Regex RegexSet → RequestContext → Option (List ScoreItem)
  unfolding values_for eval_links
  items_of m ctx =
      and_then (run_fast m.fast ctx) λ fast. Option.map (λ slow. fast ++ slow) (run_slow m.slow ctx)

  unfoldable pub inspect : CrsModule Regex RegexSet → RequestContext → Option Decision
  unfolding items_of
  inspect m ctx = Option.map decide (items_of m ctx)
