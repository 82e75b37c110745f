-- ===== src/Detection/Crs/Parse/Actions.antt =====
-- crates/waf-detection/src/crs/parse.rs: the actions of a rule.
use rust_waf.Common.{
  ℕ, ◌-◌, Bool, true, false, not, ◌&&◌, ◌||◌, List, [], ◌∷◌, ◌++◌, Option, none, some, Bytes, codes,
  bytes_eq, starts_with, leb, ◌==◌, if◌then◌else◌, length, take, drop, any, is_empty, parse_uint,
  trim, split, split_once, ends_with,
}
use rust_waf.Core.Decision.{Severity}
use rust_waf.Common.Chars.{to_lower, contains}
use rust_waf.Detection.Crs.Ast.{Transform, match_text, map_severity}
use rust_waf.Detection.Crs.Parse.Variables.{map_transform}

pub record ActionParse : Type 0 where
  pub id : Option ℕ
  pub phase : Option ℕ
  pub severity : Option Severity
  pub transforms : List Transform
  pub chain : Bool
  pub msg : Option Bytes
  pub blocking_unsupported : Option Bytes

abbrev pub no_actions : ActionParse
no_actions = record {
  id = none;
  phase = none;
  severity = none;
  transforms = [];
  chain = false;
  msg = none;
  blocking_unsupported = none;
}

abbrev pub push_trimmed : Bytes → List Bytes → List Bytes
push_trimmed cur parts = if is_empty (trim cur) then parts else trim cur ∷ parts

-- Cut at each comma outside single quotes, with the item so far and whether a quote is open.
unfoldable pub actions_from : Bytes → Bool → Bytes → List Bytes
actions_from cur in_q [] = push_trimmed cur []
actions_from cur in_q (c ∷ s) =
    let flip = actions_from (cur ++ (c ∷ [])) (not in_q) s in
    let cut = push_trimmed cur (actions_from [] in_q s) in
    let more = actions_from (cur ++ (c ∷ [])) in_q s in
    if c == b'\'' then flip else if c == b',' && not in_q then cut else more

unfoldable pub split_actions : Bytes → List Bytes
unfolding actions_from
split_actions s = actions_from [] false s

unfoldable pub unquote : Bytes → Bytes
unquote value =
    let v = trim value in
    if leb 2 (length v) && (starts_with (codes "'") v && ends_with (codes "'") v)
    then take (length v - 2) (drop 1 v)
    else v

abbrev pub u64_max : ℕ
u64_max = 18446744073709551615

abbrev pub and_then : {A B : Type 0} → (A → Option B) → Option A → Option B
and_then f none = none
and_then f (some a) = f a

unfoldable pub parse_phase : Bytes → Option ℕ
parse_phase v =
    let word = to_lower (trim v) in
    match_text word
      ((codes "request", some 2) ∷ (codes "response", some 4) ∷ (codes "logging", some 5) ∷ [])
      (parse_uint 255 word)

abbrev pub first_piece : List Bytes → Bytes
first_piece [] = []
first_piece (p ∷ ps) = p

-- `trim_start_matches('!')`
abbrev pub drop_marks : Bytes → Bytes
drop_marks [] = []
drop_marks (c ∷ s) = let rest = drop_marks s in if c == b'!' then rest else c ∷ s

unfoldable pub is_scoring_setvar : Option Bytes → Bool
is_scoring_setvar none = false
is_scoring_setvar (some v) =
    let target = to_lower (drop_marks (trim (first_piece (split b'=' v)))) in
    starts_with (codes "tx.") target
    && (ends_with (codes "_score") target || contains (codes "anomaly_score") target)

abbrev pub ignored_actions : List Bytes
ignored_actions =
    codes "block"
    ∷ codes "deny"
    ∷ codes "drop"
    ∷ codes "pass"
    ∷ codes "allow"
    ∷ codes "status"
    ∷ codes "tag"
    ∷ codes "rev"
    ∷ codes "ver"
    ∷ codes "accuracy"
    ∷ codes "maturity"
    ∷ codes "capture"
    ∷ codes "log"
    ∷ codes "nolog"
    ∷ codes "auditlog"
    ∷ codes "noauditlog"
    ∷ codes "logdata"
    ∷ codes "multimatch"
    ∷ []

abbrev pub stateful_actions : List Bytes
stateful_actions =
    codes "ctl"
    ∷ codes "skip"
    ∷ codes "skipafter"
    ∷ codes "expirevar"
    ∷ codes "initcol"
    ∷ codes "setsid"
    ∷ codes "setuid"
    ∷ codes "exec"
    ∷ codes "deprecatevar"
    ∷ codes "sanitisearg"
    ∷ codes "sanitisematched"
    ∷ codes "sanitisematchedbytes"
    ∷ []

-- The first blocking action stays.
abbrev pub or_first : Option Bytes → Bytes → Option Bytes
or_first none name = some name
or_first (some first) name = some first

abbrev pub block_by : ActionParse → Bytes → ActionParse
block_by out name = record out { blocking_unsupported = or_first out.blocking_unsupported name }

abbrev pub add_value : ActionParse → Option Bytes → ActionParse
add_value out none = out
add_value out (some v) = record out { transforms = out.transforms ++ (map_transform v ∷ []) }

-- An action of no arm of its own: ignored, stateful, without a name, or unknown.
abbrev pub other_action : ActionParse → Bytes → Bytes → ActionParse
other_action out name word =
    if any (bytes_eq word) ignored_actions
    then out
    else if any (bytes_eq word) stateful_actions
    then block_by out name
    else if is_empty word
    then out
    else block_by out word

unfoldable pub take_action : ActionParse → Bytes × Option Bytes → ActionParse
unfolding parse_phase is_scoring_setvar
take_action out (name, value) =
    let word = to_lower name in
    match_text word
      ((codes "id", record out { id = and_then (parse_uint u64_max) value })
        ∷ (codes "phase", record out { phase = and_then parse_phase value })
        ∷ (codes "severity", record out { severity = and_then map_severity value })
        ∷ (codes "t", add_value out value)
        ∷ (codes "chain", record out { chain = true })
        ∷ (codes "msg", record out { msg = value })
        ∷ (codes "setvar", (if is_scoring_setvar value then out else block_by out name))
        ∷ [])
      (other_action out name word)

abbrev pub named : Bytes → Option (Bytes × Bytes) → Bytes × Option Bytes
named item none = (trim item, none)
named item (some (n, v)) = (trim n, some (unquote (trim v)))

unfoldable pub take_actions : ActionParse → List Bytes → ActionParse
unfolding take_action
take_actions out [] = out
take_actions out (item ∷ items) =
    take_actions (take_action out (named item (split_once b':' item))) items

unfoldable pub parse_actions : Bytes → ActionParse
unfolding take_actions split_actions unquote
parse_actions s = take_actions no_actions (split_actions s)
