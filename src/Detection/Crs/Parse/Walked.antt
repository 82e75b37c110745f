-- ===== src/Detection/Crs/Parse/Walked.antt =====
-- crates/waf-detection/src/crs/parse.rs: the walk over the directives comes to the same rules.
use rust_waf.Common.{
  ℕ, Bool, true, false, List, [], ◌∷◌, ◌++◌, append_assoc, append-nil, Option, none, some, ◌≡◌,
  refl, sym, ap, ◌∙◌, subst, ◌⊎◌, inl, inr, arith, codes, bytes_eq, Bool-cases, drop, any,
}
use rust_waf.Detection.Crs.Ast.{Result}
use rust_waf.Detection.Crs.Lexer.{DirectiveLine}
use rust_waf.Detection.Crs.Parse.{RuleParts, parse_secrule, Defaults, RuleLink, Assembled, assemble}
use rust_waf.Detection.Crs.Parse.Ruleset.{
  Pending, Walk, add_assembled, close_pending, wants_chain, take_link, collect_removed_ids, keyword,
  is_secrule, other_directive, step, walk_from,
}
use rust_waf.Detection.Crs.Parse.Chains.{
  panics, or_unread, link_at, wants_more, chain_links, defaults_after, assembled, removed,
  loaded_of, skipped_of,
}

-- A walk that adds these rules and identifiers to what it had, and ends.
abbrev pub Ends : Walk → List Assembled → List ℕ → Option Walk → Type 0
Ends w items ids out =
    (v : Walk) × (out ≡ some v)
    × (v.rules ≡ w.rules ++ loaded_of items)
    × (v.skipped ≡ w.skipped ++ skipped_of items)
    × (v.removed_ids ≡ w.removed_ids ++ ids)

-- The pending rule, with the links that the next directives add to it.
abbrev pending_part : Defaults → Pending → List DirectiveLine → List Assembled
pending_part defaults Pending.closed ds = []
pending_part defaults (Pending.chained head links) ds =
    assemble defaults head (links ++ chain_links true ds) ∷ []

abbrev is_open : Pending → Bool
is_open Pending.closed = false
is_open (Pending.chained head links) = true

abbrev pub ahead : Walk → List DirectiveLine → List Assembled
ahead w ds = pending_part w.defaults w.pending ds ++ assembled (is_open w.pending) w.defaults ds

-- A rule that the walk adds is the first of those it comes to.
add_assembled-Ends :
    (w : Walk) (a : Assembled) (items : List Assembled) (ids : List ℕ) (out : Option Walk)
    → Ends (add_assembled w a) items ids out
    → Ends w (a ∷ items) ids out
add_assembled-Ends w (Assembled.loaded r) items ids out (v, e, rules, skipped, gone) =
    (v, e, rules ∙ append_assoc w.rules (r ∷ []) (loaded_of items), skipped, gone)
add_assembled-Ends w (Assembled.skipped s) items ids out (v, e, rules, skipped, gone) =
    (v, e, rules, skipped ∙ append_assoc w.skipped (s ∷ []) (skipped_of items), gone)

add_assembled-ahead :
    (w : Walk) (a : Assembled) (ds : List DirectiveLine)
    → ahead (add_assembled w a) ds ≡ assembled false w.defaults ds
add_assembled-ahead w (Assembled.loaded r) ds = refl
add_assembled-ahead w (Assembled.skipped s) ds = refl

-- What a walk comes to if it has a link at hand, with the links and the rules behind it.
abbrev grown : Defaults → Pending → RuleLink → List RuleLink → List Assembled → List Assembled
grown defaults Pending.closed link links items = assemble defaults link links ∷ items
grown defaults (Pending.chained head before) link links items =
    assemble defaults head (before ++ (link ∷ links)) ∷ items

added-Ends :
    (w : Walk) (a : Assembled) (ds : List DirectiveLine) (ids : List ℕ) (out : Option Walk)
    → Ends (add_assembled w a) (ahead (add_assembled w a) ds) ids out
    → Ends w (a ∷ assembled false w.defaults ds) ids out
added-Ends w a ds ids out h = add_assembled-Ends w a (assembled false w.defaults ds) ids out (
    subst (λ (items : List Assembled). Ends (add_assembled w a) items ids out)
      (add_assembled-ahead w a ds) h)

take_link-Ends :
    (more : Bool) (p : Pending) (w : Walk) (link : RuleLink) (ds : List DirectiveLine)
    (ids : List ℕ) (out : Option Walk)
    → Ends (take_link w link more p) (ahead (take_link w link more p) ds) ids out
    → Ends w (grown w.defaults p link (chain_links more ds) (assembled more w.defaults ds)) ids out
take_link-Ends true Pending.closed w link ds ids out h = h
take_link-Ends true (Pending.chained head links) w link ds ids out h =
    subst
      (λ (all : List RuleLink).
        Ends w (assemble w.defaults head all ∷ assembled true w.defaults ds) ids out)
      (append_assoc links (link ∷ []) (chain_links true ds)) h
take_link-Ends false Pending.closed w link ds ids out h =
    added-Ends w (assemble w.defaults link []) ds ids out h
take_link-Ends false (Pending.chained head links) w link ds ids out h =
    added-Ends w (assemble w.defaults head (links ++ (link ∷ []))) ds ids out h

last-Ends :
    (p : Pending) (w : Walk)
    → Ends w (pending_part w.defaults p [] ++ []) [] (some (close_pending w p))
last-Ends Pending.closed w =
    (w, refl, sym (append-nil w.rules), sym (append-nil w.skipped), sym (append-nil w.removed_ids))
last-Ends (Pending.chained head links) w = rw (append-nil links) (
    add_assembled-Ends w a [] [] (some v) (
      v,
      refl,
      sym (append-nil v.rules),
      sym (append-nil v.skipped),
      sym (append-nil v.removed_ids),
    ))
  where
    a : Assembled
    a = assemble w.defaults head links

    v : Walk
    v = add_assembled w a

ahead_rule :
    (p : Pending) (defaults : Defaults) (d : DirectiveLine) (ds : List DirectiveLine)
    → is_secrule d ≡ true
    → pending_part defaults p (d ∷ ds) ++ assembled (is_open p) defaults (d ∷ ds)
      ≡ grown defaults p
          (link_at d)
          (chain_links (wants_more d) ds)
          (assembled (wants_more d) defaults ds)
ahead_rule Pending.closed defaults d ds rule = rw rule refl
ahead_rule (Pending.chained head links) defaults d ds rule = rw rule refl

other_directive-Ends :
    (w : Walk) (d : DirectiveLine) (ds : List DirectiveLine) (out : Option Walk)
    → is_secrule d ≡ false
    → w.pending ≡ Pending.closed
    → Ends (other_directive w d) (ahead (other_directive w d) ds) (removed ds) out
    → Ends w (assembled false (defaults_after w.defaults d) ds) (removed (d ∷ ds)) out
unfolding other_directive
other_directive-Ends w d ds out other shut h =
    elim (Bool-cases (bytes_eq (keyword d) (codes "secdefaultaction"))) [
      | inl defaults ↦ rw (other, defaults) (rw (defaults, shut) at h)
      | inr no_defaults ↦ elim (Bool-cases (bytes_eq (keyword d) (codes "secruleremovebyid"))) [
        | inl gone ↦ rw (other, no_defaults, gone) (regroup (rw (no_defaults, gone, shut) at h))
        | inr ignored ↦ rw (other, no_defaults, ignored) (rw (no_defaults, ignored, shut) at h)
      ]
    ]
  where
    regroup :
        Ends
          (record w { removed_ids = w.removed_ids ++ collect_removed_ids (drop 1 d.tokens) })
          (assembled false w.defaults ds)
          (removed ds)
          out
        → Ends w
            (assembled false w.defaults ds)
            (collect_removed_ids (drop 1 d.tokens) ++ removed ds)
            out
    regroup (v, e, rules, skipped, ids) = (
      v,
      e,
      rules,
      skipped,
      ids ∙ append_assoc w.removed_ids (collect_removed_ids (drop 1 d.tokens)) (removed ds),
    )

-- A directive that is no SecRule closes the pending rule first.
close_pending-Ends :
    (p : Pending) (w : Walk) (d : DirectiveLine) (ds : List DirectiveLine) (ids : List ℕ)
    (out : Option Walk)
    → is_secrule d ≡ false
    → Ends
        (close_pending w p)
        (assembled false (defaults_after (close_pending w p).defaults d) ds)
        ids
        out
    → Ends w
        (pending_part w.defaults p (d ∷ ds) ++ assembled (is_open p) w.defaults (d ∷ ds))
        ids
        out
close_pending-Ends Pending.closed w d ds ids out other h = rw other h
close_pending-Ends (Pending.chained head links) w d ds ids out other h =
    rw (other, append-nil links) (by_added (assemble w.defaults head links) h)
  where
    by_added :
        (a : Assembled)
        → Ends
            (add_assembled w a)
            (assembled false (defaults_after (add_assembled w a).defaults d) ds)
            ids
            out
        → Ends w (a ∷ assembled false (defaults_after w.defaults d) ds) ids out
    by_added (Assembled.loaded r) k =
        add_assembled-Ends w (Assembled.loaded r) (assembled false (defaults_after w.defaults d) ds)
          ids out k
    by_added (Assembled.skipped t) k =
        add_assembled-Ends w (Assembled.skipped t)
          (assembled false (defaults_after w.defaults d) ds) ids out k

close_pending-closed :
    (p : Pending) (w : Walk) → w.pending ≡ p → (close_pending w p).pending ≡ Pending.closed
close_pending-closed Pending.closed w e = e
close_pending-closed (Pending.chained head links) w e = by_added (assemble w.defaults head links)
  where
    by_added : (a : Assembled) → (add_assembled w a).pending ≡ Pending.closed
    by_added (Assembled.loaded r) = refl
    by_added (Assembled.skipped t) = refl

abbrev pub EndsOrPanics : Walk → List DirectiveLine → Type 0
EndsOrPanics w ds = (any panics ds ≡ true) ⊎ Ends w (ahead w ds) (removed ds) (walk_from w ds)

abbrev linked : Walk → DirectiveLine → Result RuleParts → Walk
linked w d r = take_link w (d.line_no, r) (wants_chain r) w.pending

walk_from_rule :
    (w : Walk) (d : DirectiveLine) (ds : List DirectiveLine) (r : Result RuleParts)
    → is_secrule d ≡ true
    → parse_secrule d ≡ some r
    → walk_from w (d ∷ ds) ≡ walk_from (linked w d r) ds
unfolding walk_from step
walk_from_rule w d ds r rule e = rw (rule, e) refl

walk_from_other :
    (w : Walk) (d : DirectiveLine) (ds : List DirectiveLine)
    → is_secrule d ≡ false
    → walk_from w (d ∷ ds) ≡ walk_from (other_directive (close_pending w w.pending) d) ds
unfolding walk_from step
walk_from_other w d ds other = rw other refl

walk_from_panic :
    (w : Walk) (d : DirectiveLine) (ds : List DirectiveLine)
    → is_secrule d ≡ true
    → parse_secrule d ≡ none
    → walk_from w (d ∷ ds) ≡ none
unfolding walk_from step
walk_from_panic w d ds rule e = rw (rule, e) refl

removed_rule :
    (d : DirectiveLine) (ds : List DirectiveLine)
    → is_secrule d ≡ true
    → removed (d ∷ ds) ≡ removed ds
removed_rule d ds rule = rw rule refl

ahead-read :
    (w : Walk) (d : DirectiveLine) (ds : List DirectiveLine) (r : Result RuleParts)
    → is_secrule d ≡ true
    → parse_secrule d ≡ some r
    → ahead w (d ∷ ds)
      ≡ grown w.defaults w.pending
          (d.line_no, r)
          (chain_links (wants_chain r) ds)
          (assembled (wants_chain r) w.defaults ds)
ahead-read w d ds r rule e =
    ahead_rule w.pending w.defaults d ds rule
    ∙ ap
        (λ (o : Option (Result RuleParts)).
          grown w.defaults w.pending (d.line_no, or_unread o)
            (chain_links (wants_chain (or_unread o)) ds)
            (assembled (wants_chain (or_unread o)) w.defaults ds))
        e

Ends-same :
    (w : Walk) (items items' : List Assembled) (ids ids' : List ℕ) (out out' : Option Walk)
    → items' ≡ items
    → ids' ≡ ids
    → out' ≡ out
    → Ends w items ids out
    → Ends w items' ids' out'
Ends-same w items items' ids ids' out out' a b c (v, e, rules, skipped, gone) =
    (v, c ∙ e, rw a rules, rw a skipped, rw b gone)

pub walk_from-Ends : (ds : List DirectiveLine) (w : Walk) → EndsOrPanics w ds
unfolding walk_from
walk_from-Ends [] w = inr (last-Ends w.pending w)
walk_from-Ends (d ∷ ds) w = elim (Bool-cases (is_secrule d)) [
  | inl rule ↦ by_read rule (parse_secrule d) refl (walk_from-Ends ds)
  | inr other ↦ by_rest other (walk_from-Ends ds (other_directive (close_pending w w.pending) d))
]
  where
    by_rest :
        is_secrule d ≡ false
        → EndsOrPanics (other_directive (close_pending w w.pending) d) ds
        → EndsOrPanics w (d ∷ ds)
    by_rest other (inl fault) = inl (ground (arith, fault))
    by_rest other (inr h) =
        let closed : Walk = close_pending w w.pending in
        let out : Option Walk = walk_from (other_directive closed d) ds in
        inr (
          Ends-same w (ahead w (d ∷ ds)) (ahead w (d ∷ ds)) (removed (d ∷ ds)) (removed (d ∷ ds))
            out (walk_from w (d ∷ ds)) refl refl (walk_from_other w d ds other)
            (close_pending-Ends w.pending w d ds (removed (d ∷ ds)) out other (
              other_directive-Ends closed d ds out other (close_pending-closed w.pending w refl)
                h)))

    by_read :
        is_secrule d ≡ true
        → (r : Option (Result RuleParts)) → parse_secrule d ≡ r
        → ((w' : Walk) → EndsOrPanics w' ds)
        → EndsOrPanics w (d ∷ ds)
    by_read rule none e later = inl (rw (rule, e) refl)
    by_read rule (some r) e later = elim (later (linked w d r)) [
      | inl fault ↦ inl (ground (arith, fault))
      | inr h ↦ inr (
          Ends-same w
            (grown w.defaults w.pending (d.line_no, r) (chain_links (wants_chain r) ds)
              (assembled (wants_chain r) w.defaults ds))
            (ahead w (d ∷ ds)) (removed ds) (removed (d ∷ ds)) (walk_from (linked w d r) ds)
            (walk_from w (d ∷ ds)) (ahead-read w d ds r rule e) (removed_rule d ds rule)
            (walk_from_rule w d ds r rule e)
            (take_link-Ends (wants_chain r) w.pending w (d.line_no, r) ds (removed ds)
              (walk_from (linked w d r) ds) h))
    ]

pub walk_from-panics :
    (ds : List DirectiveLine) (w : Walk) → any panics ds ≡ true → walk_from w ds ≡ none
unfolding walk_from
walk_from-panics [] w h = cc
walk_from-panics (d ∷ ds) w h = elim (Bool-cases (is_secrule d)) [
  | inl rule ↦ by_read rule (parse_secrule d) refl h (walk_from-panics ds)
  | inr other ↦
      walk_from_other w d ds other
      ∙ walk_from-panics ds (other_directive (close_pending w w.pending) d) (rw other at h)
]
  where
    by_read :
        is_secrule d ≡ true
        → (r : Option (Result RuleParts)) → parse_secrule d ≡ r
        → any panics (d ∷ ds) ≡ true
        → ((w' : Walk) → any panics ds ≡ true → walk_from w' ds ≡ none)
        → walk_from w (d ∷ ds) ≡ none
    by_read rule none e fault later = walk_from_panic w d ds rule e
    by_read rule (some r) e fault later =
        walk_from_rule w d ds r rule e ∙ later (linked w d r) (rw (rule, e) at fault)
