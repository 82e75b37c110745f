-- ===== src/Detection/Crs/Parse.antt =====
-- crates/waf-detection/src/crs/parse.rs: from directives to rules. A slice that panics makes the
-- whole parse `none`.
pub mod Variables
pub mod Actions
pub mod Ruleset
pub mod Loaded
pub mod Chains
pub mod Walked
pub mod Accounted
use rust_waf.Common.{
  ℕ, zero, suc, ◌+◌, ◌-◌, ◌*◌, ◌/◌, ◌%◌, ◌^◌, ◌≤◌, ◌<◌, min, max, Bool, true, false, not, ◌&&◌,
  ◌||◌, List, [], ◌∷◌, ◌++◌, map, append_assoc, append-nil, Option, none, some, ◌≡◌, refl, sym, ap,
  ◌∙◌, subst, ◌≢◌, ◌↔◌, ◌⊎◌, inl, inr, arith, Bytes, codes, bytes_eq, bytes_eq_iff, is_ascii_digit,
  is_ascii_alphabetic, is_ascii_alphanumeric, to_ascii_lowercase, eq_ignore_ascii_case, starts_with,
  ltb, leb, ◌==◌, within, if◌then◌else◌, ltb→lt, lt→ltb, ==_iff, Bool-cases, Option-cases, length,
  get_elem?, take, drop, any, all, keep, find, is_empty, length-append, take-append-drop,
  length-take, length-drop, length-keep-le, decimal, parse_uint, white_len, trim_start, trim_end,
  trim, split, split_once, strip_prefix, strip_prefix_iff, ends_with, cons_head,
}
use mathlib.Core.Option
use rust_waf.Core.Decision.{Severity}
use rust_waf.Common.Chars.{to_lower}
use rust_waf.Detection.Crs.Ast.{
  Result, ok, err, Transform, Operator, TargetKind, Variable, MatchUnit, CrsRule, SkippedRule,
  ParsedRuleset,
}
use rust_waf.Detection.Crs.Lexer.{DirectiveLine, lex}
use rust_waf.Detection.Crs.Parse.Variables.{resolve_transforms, parse_variables, parse_operator}
use rust_waf.Detection.Crs.Parse.Actions.{
  ActionParse, no_actions, u64_max, first_piece, parse_actions,
}

pub record RuleParts : Type 0 where
  pub variables : List Variable
  pub operator : Operator
  pub negated : Bool
  pub actions : ActionParse

abbrev pub actions_at : List Bytes → ActionParse
actions_at [] = no_actions
actions_at (s ∷ rest) = parse_actions s

-- The operands of a SecRule, behind its name.
abbrev pub parts_of : List Bytes → Option (Result RuleParts)
parts_of (vars ∷ op ∷ rest) =
    Option.map
      (λ (o : Bool × Operator). ok (record {
        variables = parse_variables vars;
        operator = o.1;
        negated = o.0;
        actions = actions_at rest;
      }))
      (parse_operator op)
parts_of _ = some (err (codes "malformed SecRule (expected VARIABLES OPERATOR [ACTIONS])"))

unfoldable pub parse_secrule : DirectiveLine → Option (Result RuleParts)
parse_secrule d = parts_of (drop 1 d.tokens)

pub record Defaults : Type 0 where
  pub transforms : List Transform
  pub severity : Option Severity
  pub phase : Option ℕ

abbrev pub or_else : {A : Type 0} → Option A → Option A → Option A
or_else none b = b
or_else (some a) b = some a

abbrev pub unwrap_or : {A : Type 0} → Option A → A → A
unwrap_or none d = d
unwrap_or (some a) d = a

abbrev pub update_by : Defaults → ActionParse → Defaults
update_by d a = record {
  transforms = resolve_transforms [] a.transforms;
  severity = or_else a.severity d.severity;
  phase = or_else a.phase d.phase;
}

abbrev pub update : Defaults → List Bytes → Defaults
update d [] = d
update d (s ∷ rest) = update_by d (parse_actions s)

abbrev pub unsupported_operator : Operator → Option Bytes
unsupported_operator (Operator.unsupported name) = some (codes "unsupported operator @" ++ name)
unsupported_operator _ = none

abbrev pub unsupported_kind : TargetKind → Option Bytes
unsupported_kind (TargetKind.unsupported name) = some (codes "unsupported variable " ++ name)
unsupported_kind _ = none

abbrev pub unsupported_variable : Variable → Option Bytes
unsupported_variable v = or_else (unsupported_kind v.kind) (
    if v.count
    then some (codes "count operator (&VAR) not supported")
    else if v.regex_selector
    then some
        (codes "regex variable selector (:/" ++ (0xE2 ∷ 0x80 ∷ 0xA6 ∷ codes "/) not supported"))
    else none)

abbrev pub unsupported_transform : Transform → Option Bytes
unsupported_transform (Transform.unsupported name) = some (codes "unsupported transform t:" ++ name)
unsupported_transform _ = none

-- The first reason that an item of a list gives.
abbrev pub first_reason : {A : Type 0} → (A → Option Bytes) → List A → Option Bytes
first_reason reason [] = none
first_reason reason (a ∷ rest) = or_else (reason a) (first_reason reason rest)

abbrev pub no_variables : List Variable → Option Bytes
no_variables [] = some (codes "no variables")
no_variables (v ∷ vs) = none

unfoldable pub unit_unsupported : MatchUnit → Option Bytes
unit_unsupported u = or_else (unsupported_operator u.operator) (
    or_else (no_variables u.variables) (
      or_else (first_reason unsupported_variable u.variables)
        (first_reason unsupported_transform u.transforms)))

-- A link of a rule: where it stands, and what was read there.
abbrev pub RuleLink : Type 0
RuleLink = ℕ × Result RuleParts

abbrev pub unit_of : List Transform → RuleParts → MatchUnit
unit_of base p = record {
  variables = p.variables;
  operator = p.operator;
  negated = p.negated;
  transforms = resolve_transforms base p.actions.transforms;
}

abbrev pub blocked : Option Bytes → Option Bytes
blocked none = none
blocked (some act) = some (codes "unsupported action " ++ act)

-- A unit for the rule, or the line and the reason of its first unsupported link.
pub data Units : Type 0 where
  units : List MatchUnit → Units
  skip : ℕ → Bytes → Units

abbrev pub cons_unit : MatchUnit → Units → Units
cons_unit u (Units.units us) = Units.units (u ∷ us)
cons_unit u (Units.skip line_no reason) = Units.skip line_no reason

abbrev pub unless_reason : ℕ → Option Bytes → Units → Units
unless_reason line_no none more = more
unless_reason line_no (some reason) more = Units.skip line_no reason

-- Only the head has the transforms of SecDefaultAction as its base.
unfoldable pub units_of : List Transform → List RuleLink → Units
unfolding unit_unsupported
units_of base [] = Units.units []
units_of base ((line_no, err reason) ∷ links) = Units.skip line_no reason
units_of base ((line_no, ok p) ∷ links) =
    unless_reason line_no
      (or_else (blocked p.actions.blocking_unsupported) (unit_unsupported (unit_of base p)))
      (cons_unit (unit_of base p) (units_of [] links))

-- What a rule with all its links comes to.
pub data Assembled : Type 0 where
  loaded : CrsRule → Assembled
  skipped : SkippedRule → Assembled

abbrev pub with_units : Defaults → ActionParse → ℕ → ℕ → Units → Assembled
with_units d a id line_no (Units.skip at reason) =
    Assembled.skipped (record { id = some id; line_no = at; reason = reason })
with_units d a id line_no (Units.units []) =
    Assembled.skipped (record { id = some id; line_no = line_no; reason = [] })
with_units d a id line_no (Units.units (head ∷ chain)) = Assembled.loaded (record {
  id = id;
  severity = unwrap_or (or_else a.severity d.severity) Severity.warning;
  head = head;
  chain = chain;
  msg = a.msg;
  line_no = line_no;
})

abbrev pub phase_of : Defaults → ActionParse → ℕ
phase_of d a = unwrap_or (or_else a.phase d.phase) 2

abbrev pub with_id : Defaults → List RuleLink → ℕ → ActionParse → Option ℕ → Assembled
with_id d links line_no a none = Assembled.skipped (record {
  id = none;
  line_no = line_no;
  reason = codes "SecRule has no id (cannot form a stable rule_id)";
})
with_id d links line_no a (some id) =
    if leb 3 (phase_of d a)
    then Assembled.skipped (record {
      id = some id;
      line_no = line_no;
      reason =
          codes "response/logging phase "
          ++ (decimal (phase_of d a) ++ codes " not supported (request-time only)");
    })
    else with_units d a id line_no (units_of d.transforms links)

-- The head, and the chained links behind it.
unfoldable pub assemble : Defaults → RuleLink → List RuleLink → Assembled
unfolding units_of
assemble d (line_no, err reason) chained =
    Assembled.skipped (record { id = none; line_no = line_no; reason = reason })
assemble d (line_no, ok p) chained =
    with_id d ((line_no, ok p) ∷ chained) line_no p.actions p.actions.id
