-- ===== src/Tests/Engine.antt =====
-- crates/waf-detection/src/crs/module.rs: a rule file run on a request, with patterns that match
-- where they are contained.
use rust_waf.Common.{
  ℕ, suc, zero, ◌+◌, ◌<◌, false, List, [], ◌∷◌, none, some, ◌≡◌, refl, sym, subst, arith, Bytes,
  codes, any, get_elem?, ◌==◌, if◌then◌else◌, Bool-cases, inl, inr, split, split_once, decimal,
}
use mathlib.Core.List.{Perm}
use rust_waf.Common.Chars.{contains}
use rust_waf.Core.Decision.{Severity, ScoreItem}
use rust_waf.Core.Context.{RequestContext}
use rust_waf.Detection.Crs.Ast.{Transform, TargetKind, Variable}
use rust_waf.Detection.Crs.Operator.{RegexCrate, Matcher, matches}
use rust_waf.Detection.Crs.Target.{collect_values}
use rust_waf.Detection.Crs.Transform.{apply}
use rust_waf.Normalizer.Percent.{percent_decode, is_space, is_escape}
use rust_waf.Detection.Crs.Engine.{BucketAcc, CrsModule, add_bucket, items_of}
use rust_waf.Detection.Crs.Engine.Exact.{matched_at, SetIsExact, items_of-add_bucket}
use rust_waf.Tests.Requests.{request}

abbrev indices_from : ℕ → List Bytes → Bytes → List ℕ
indices_from n [] v = []
indices_from n (p ∷ ps) v =
    let rest = indices_from (n + 1) ps v in if contains p v then n ∷ rest else rest

abbrev literal : RegexCrate Bytes (List Bytes)
literal = record {
  new = λ p. some p;
  new_error = λ p. [];
  is_match = λ re v. contains re v;
  new_set = λ ps. some ps;
  set_matches = λ set v. indices_from 0 set v;
}

indices_from-below :
    (n i : ℕ) (ps : List Bytes) (v : Bytes)
    → i < n
    → any (λ j. j == i) (indices_from n ps v) ≡ false
indices_from-below n i [] v h = refl
indices_from-below n i (p ∷ ps) v h = elim (Bool-cases (contains p v)) [
  | inl found ↦ rw found (ground (arith, indices_from-below (n + 1) i ps v (omega arith)))
  | inr missing ↦ rw missing (indices_from-below (n + 1) i ps v (omega arith))
]

indices_from-exact :
    (n i : ℕ) (ps : List Bytes) (v : Bytes)
    → any (λ j. j == n + i) (indices_from n ps v) ≡ matched_at literal (get_elem? ps i) v
indices_from-exact n i [] v = refl
indices_from-exact n zero (p ∷ ps) v = elim (Bool-cases (contains p v)) [
  | inl found ↦ rw found (ground (arith))
  | inr missing ↦ rw missing (indices_from-below (n + 1) (n + 0) ps v (omega arith))
]
indices_from-exact n (suc i) (p ∷ ps) v = elim (Bool-cases (contains p v)) [
  | inl found ↦ rw found (ground (arith, indices_from-exact (n + 1) i ps v))
  | inr missing ↦ rw missing (ground (arith, indices_from-exact (n + 1) i ps v))
]

literal-SetIsExact : SetIsExact literal
literal-SetIsExact ps set made v i =
    let same : ps ≡ set = cc in
    subst
      (λ (patterns : List Bytes).
        any (λ j. j == i) (indices_from 0 set v) ≡ matched_at literal (get_elem? patterns i) v)
      (sym same)
      (subst
        (λ (k : ℕ).
          any (λ j. j == k) (indices_from 0 set v) ≡ matched_at literal (get_elem? set i) v)
        (omega arith) (indices_from-exact 0 i set v))

abbrev any_key : List Variable → List Transform → Bytes
any_key vars transforms = []

abbrev arguments : Variable
arguments = record {
  kind = TargetKind.args;
  selector = none;
  negated = false;
  count = false;
  regex_selector = false;
}

-- Two patterns over the arguments in lower case.
abbrev bucket : BucketAcc
bucket = record {
  vars = arguments ∷ [];
  transforms = Transform.lowercase ∷ [];
  rules =
      record { pattern = codes "union"; id = 1; severity = Severity.critical }
      ∷ record { pattern = codes "sleep"; id = 2; severity = Severity.error }
      ∷ [];
}

-- A module with one slow rule, on the method.
abbrev on_method : CrsModule Bytes (List Bytes)
on_method = record {
  fast = [];
  slow =
      record {
        id = 9;
        severity = Severity.notice;
        links =
            record {
              vars = record arguments { kind = TargetKind.request_method } ∷ [];
              transforms = [];
              matcher = Matcher.str_eq (codes "GET");
              negated = false;
            }
            ∷ [];
      }
      ∷ [];
  skipped = [];
  loaded = 1;
}

abbrev attack : RequestContext
attack = record request { query = some (codes "q=UNION") }

abbrev fired : List ScoreItem
fired =
    record { rule_id = codes "crs-1"; severity = Severity.critical }
    ∷ record { rule_id = codes "crs-9"; severity = Severity.notice }
    ∷ []

bucket_fires :
    items_of literal any_key
      (add_bucket literal any_key on_method bucket (some (codes "union" ∷ codes "sleep" ∷ [])))
      attack
    ≡ some fired
unfolding items_of collect_values split apply matches percent_decode split_once is_space is_escape
    decimal
bucket_fires = refl

items_of-add_bucket_example :
    (ys : List ScoreItem) × (items_of literal any_key
        (add_bucket literal any_key on_method bucket none)
        attack
      ≡ some ys)
    × Perm fired ys
items_of-add_bucket_example =
    items_of-add_bucket literal any_key on_method bucket (codes "union" ∷ codes "sleep" ∷ []) attack
      fired literal-SetIsExact refl bucket_fires
