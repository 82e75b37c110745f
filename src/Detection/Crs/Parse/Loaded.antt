-- ===== src/Detection/Crs/Parse/Loaded.antt =====
-- crates/waf-detection/src/crs/parse.rs: what a loaded rule is made of.
use rust_waf.Common.{
  ℕ, ◌≤◌, Bool, true, false, List, [], ◌∷◌, Option, none, some, ◌≡◌, refl, arith, Bytes, leb,
  if◌then◌else◌,
}
use rust_waf.Detection.Crs.Ast.{ok, err, Transform, MatchUnit, CrsRule, SkippedRule}
use rust_waf.Detection.Crs.Parse.{
  Defaults, RuleLink, Assembled, assemble, with_id, with_units, phase_of, Units, cons_unit,
  unless_reason, units_of, unit_of, unit_unsupported, or_else, blocked,
}

-- In no unit of the rule does `unit_unsupported` find a part to refuse.
abbrev pub AllSupported : List MatchUnit → Type 0
AllSupported [] = 0 ≤ 0
AllSupported (u ∷ us) = (unit_unsupported u ≡ none) × AllSupported us

abbrev pub AllLoaded : List CrsRule → Type 0
AllLoaded [] = 0 ≤ 0
AllLoaded (r ∷ rs) = AllSupported (r.head ∷ r.chain) × AllLoaded rs

abbrev OfUnits : Units → Type 0
OfUnits (Units.units us) = AllSupported us
OfUnits (Units.skip line_no reason) = 0 ≤ 0

units_of-OfUnits : (base : List Transform) (links : List RuleLink) → OfUnits (units_of base links)
unfolding units_of
units_of-OfUnits base [] = omega arith
units_of-OfUnits base ((line_no, err reason) ∷ links) = omega arith
units_of-OfUnits base ((line_no, ok p) ∷ links) =
    by_reason (blocked p.actions.blocking_unsupported) (unit_unsupported (unit_of base p)) refl
      (units_of [] links) (units_of-OfUnits [] links)
  where
    by_reason :
        (act reason : Option Bytes)
        → unit_unsupported (unit_of base p) ≡ reason
        → (more : Units) → OfUnits more
        → OfUnits (unless_reason line_no (or_else act reason) (cons_unit (unit_of base p) more))
    by_reason (some act) reason e more h = omega arith
    by_reason none (some reason) e more h = omega arith
    by_reason none none e (Units.units us) h = (e, h)
    by_reason none none e (Units.skip at reason) h = omega arith

abbrev pub OfAssembled : Assembled → Type 0
OfAssembled (Assembled.loaded r) = AllSupported (r.head ∷ r.chain)
OfAssembled (Assembled.skipped s) = 0 ≤ 0

pub assemble-OfAssembled :
    (d : Defaults) (head : RuleLink) (links : List RuleLink) → OfAssembled (assemble d head links)
unfolding assemble
assemble-OfAssembled d (line_no, err reason) links = omega arith
assemble-OfAssembled d (line_no, ok p) links = by_id p.actions.id
  where
    by_units :
        (id : ℕ) (us : Units) → OfUnits us → OfAssembled (with_units d p.actions id line_no us)
    by_units id (Units.units []) h = omega arith
    by_units id (Units.units (u ∷ us)) h = h
    by_units id (Units.skip at reason) h = omega arith

    by_phase :
        (id : ℕ) (late : Bool) (s : SkippedRule) (us : Units)
        → OfUnits us
        → OfAssembled (if late then Assembled.skipped s else with_units d p.actions id line_no us)
    by_phase id true s us h = omega arith
    by_phase id false s us h = by_units id us h

    by_id : (id : Option ℕ) → OfAssembled (with_id d ((line_no, ok p) ∷ links) line_no p.actions id)
    by_id none = omega arith
    by_id (some id) =
        by_phase id (leb 3 (phase_of d p.actions)) _
          (units_of d.transforms ((line_no, ok p) ∷ links))
          (units_of-OfUnits d.transforms ((line_no, ok p) ∷ links))
