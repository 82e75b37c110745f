-- ===== src/Detection/Graphql/Caps.antt =====
-- crates/waf-detection/src/graphql.rs: what the GraphQL module decides.
use rust_waf.Common.{
  ◌%◌, ◌^◌, ◌≤◌, true, false, ◌&&◌, List, [], ◌∷◌, Option, none, some, ◌≡◌, refl, sym, ap, ◌∙◌,
  subst, ◌≢◌, ◌↔◌, ◌⊎◌, inl, inr, arith, Bytes, ltb, Bool-cases, Option-cases, length,
}
use rust_waf.Core.Decision.{Decision}
use rust_waf.Core.Context.{RequestContext}
use rust_waf.Core.Config.{GraphqlConfig}
use rust_waf.Normalizer.Graphql.{GraphqlStats, graphql_lex}
use rust_waf.Normalizer.Graphql.Counts.{graphql_lex-Bounded}
use rust_waf.Normalizer.Json.{Value}
use rust_waf.Detection.Graphql.{
  reject, exceeded, first_of, judge_shape, judge_operations, judge, operations, inspect,
}

-- A shape within the caps, without introspection where that is blocked.
abbrev pub WithinCaps : GraphqlConfig → GraphqlStats → Type 0
WithinCaps cfg st =
    (st.max_depth ≤ cfg.max_depth)
    × (st.aliases ≤ cfg.max_aliases)
    × (st.fields ≤ cfg.max_fields)
    × (st.directives ≤ cfg.max_directives)
    × ((cfg.block_introspection && st.has_introspection) ≡ false)

abbrev pub EachWithinCaps : GraphqlConfig → List Bytes → Type 0
EachWithinCaps cfg [] = 0 ≤ 0
EachWithinCaps cfg (op ∷ ops) =
    ((st : GraphqlStats) × (graphql_lex op ≡ some st) × WithinCaps cfg st) × EachWithinCaps cfg ops

exceeded_iff :
    (cfg : GraphqlConfig) (st : GraphqlStats) → (exceeded cfg st ≡ none) ↔ WithinCaps cfg st
unfolding exceeded
exceeded_iff cfg st = ground arith

some-injective : (a b : GraphqlStats) → some a ≡ some b → a ≡ b
some-injective a b h = cc

exceeded-ne-allow :
    (cfg : GraphqlConfig) (st : GraphqlStats) → exceeded cfg st ≢ some Decision.allow
unfolding exceeded reject
exceeded-ne-allow cfg st h = ground arith

judge_shape_total :
    (cfg : GraphqlConfig) (rest : Option Decision) (st : GraphqlStats)
    → ((d : Decision) × (rest ≡ some d))
    → (d : Decision) × (judge_shape cfg rest (some st) ≡ some d)
judge_shape_total cfg rest st total = elim (Option-cases (exceeded cfg st)) [
  | inl within_caps ↦ rw within_caps total
  | inr (d, h) ↦ rw h (d, refl)
]

judge_operations_total :
    (cfg : GraphqlConfig) (ops : List Bytes) → (d : Decision) × (judge_operations cfg ops ≡ some d)
unfolding judge_operations
judge_operations_total cfg [] = (Decision.allow, refl)
judge_operations_total cfg (op ∷ ops) =
    let (st, e, _) = graphql_lex-Bounded op in
    let (d, h) =
      judge_shape_total cfg (judge_operations cfg ops) st (judge_operations_total cfg ops) in
    (d, ap (judge_shape cfg (judge_operations cfg ops)) e ∙ h)

judge_shape_iff :
    (cfg : GraphqlConfig) (rest : Option Decision) (shape : Option GraphqlStats)
    → (judge_shape cfg rest shape ≡ some Decision.allow) ↔ (
        ((st : GraphqlStats) × (shape ≡ some st) × WithinCaps cfg st)
        × (rest ≡ some Decision.allow))
judge_shape_iff cfg rest none = ((λ e. cc), (λ ((st, e, _), _). cc))
judge_shape_iff cfg rest (some st) = (forth, back)
  where
    forth :
        first_of (exceeded cfg st) rest ≡ some Decision.allow
        → ((st' : GraphqlStats) × (some st ≡ some st') × WithinCaps cfg st')
          × (rest ≡ some Decision.allow)
    forth e = elim (Option-cases (exceeded cfg st)) [
      | inl within_caps ↦ ((st, refl, (exceeded_iff cfg st).0 within_caps), (rw within_caps at e))
      | inr (d, h) ↦ absurd (exceeded-ne-allow cfg st (h ∙ (rw h at e)))
    ]

    back :
        ((st' : GraphqlStats) × (some st ≡ some st') × WithinCaps cfg st')
          × (rest ≡ some Decision.allow)
        → first_of (exceeded cfg st) rest ≡ some Decision.allow
    back ((st', same, caps), e) =
        rw
          ((exceeded_iff cfg st).1 (subst (WithinCaps cfg) (some-injective st' st (sym same)) caps))
          e

judge_operations_iff :
    (cfg : GraphqlConfig) (ops : List Bytes)
    → (judge_operations cfg ops ≡ some Decision.allow) ↔ EachWithinCaps cfg ops
unfolding judge_operations
judge_operations_iff cfg [] = ((λ e. omega arith), (λ e. refl))
judge_operations_iff cfg (op ∷ ops) =
    let one = judge_shape_iff cfg (judge_operations cfg ops) (graphql_lex op) in
    let others = judge_operations_iff cfg ops in
    ((λ e. ((one.0 e).0, others.0 (one.0 e).1)), (λ (caps, rest). one.1 (caps, others.1 rest)))

judge_iff :
    (cfg : GraphqlConfig) (ops : List Bytes)
    → (judge cfg ops ≡ some Decision.allow)
      ↔ ((ops ≡ []) ⊎ ((length ops % 2 ^ 32 ≤ cfg.max_batch) × EachWithinCaps cfg ops))
unfolding judge reject
judge_iff cfg [] = ((λ e. inl refl), (λ e. refl))
judge_iff cfg (op ∷ ops) = ground (arith, judge_operations_iff cfg (op ∷ ops))

judge_total : (cfg : GraphqlConfig) (ops : List Bytes) → (d : Decision) × (judge cfg ops ≡ some d)
unfolding judge
judge_total cfg [] = (Decision.allow, refl)
judge_total cfg (op ∷ ops) = elim (Bool-cases (ltb cfg.max_batch (length (op ∷ ops) % 2 ^ 32))) [
  | inl over ↦ rw over (reject _, refl)
  | inr fits ↦ rw fits (judge_operations_total cfg (op ∷ ops))
]

-- The enabled module lets a request through exactly when it carries no operation, or no more
-- operations than `max_batch`, counted modulo 2^32, each with a shape within the caps: no deeper,
-- with no more aliases, fields and directives than allowed, and without introspection where that is
-- blocked.
pub inspect-EachWithinCaps :
    (from_str : Bytes → Option Value) (cfg : GraphqlConfig) (ctx : RequestContext)
    → cfg.enabled ≡ true
    → (inspect from_str cfg ctx ≡ some Decision.allow) ↔ (
        (operations from_str cfg ctx ≡ [])
        ⊎ ((length (operations from_str cfg ctx) % 2 ^ 32 ≤ cfg.max_batch)
            × EachWithinCaps cfg (operations from_str cfg ctx)))
unfolding inspect
inspect-EachWithinCaps from_str cfg ctx on = rw on (judge_iff cfg (operations from_str cfg ctx))

-- On every request the module decides: the lexer ends on every operation.
pub inspect-some :
    (from_str : Bytes → Option Value) (cfg : GraphqlConfig) (ctx : RequestContext)
    → (d : Decision) × (inspect from_str cfg ctx ≡ some d)
unfolding inspect
inspect-some from_str cfg ctx = elim (Bool-cases cfg.enabled) [
  | inl on ↦ rw on (judge_total cfg (operations from_str cfg ctx))
  | inr off ↦ rw off (Decision.allow, refl)
]
