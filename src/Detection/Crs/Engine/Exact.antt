-- ===== src/Detection/Crs/Engine/Exact.antt =====
-- crates/waf-detection/src/crs/module.rs: a bucket against the rules it is made of.
use rust_waf.Common.{
  ℕ, suc, ◌+◌, Bool, true, false, List, [], ◌∷◌, ◌++◌, append-nil, append_assoc, Option, none, some,
  ◌≡◌, refl, sym, ◌∙◌, subst, inl, inr, arith, Bytes, ◌==◌, if◌then◌else◌, Option-cases, get_elem?,
  any,
}
use mathlib.Core.Option
use mathlib.Core.List.Perm
use mathlib.Core.List.Permᴰ
use mathlib.Core.List.{Perm}
use rust_waf.Core.Decision.{ScoreItem}
use rust_waf.Core.Context.{RequestContext}
use rust_waf.Detection.Crs.Ast.{Transform, Variable}
use rust_waf.Detection.Crs.Operator.{RegexCrate, Matcher, matches}
use rust_waf.Detection.Crs.Transform.{and_then}
use rust_waf.Detection.Crs.Engine.{
  Compiled, FastRule, BucketAcc, FastBucket, CrsModule, values_for, slow_rule, slow_rules,
  patterns_of, add_bucket, eval_links, item, hit, fast_items, run_fast, cons_if, run_slow, items_of,
}

any-ext : (p q : Bytes → Bool) (vs : List Bytes) → ((v : Bytes) → p v ≡ q v) → any p vs ≡ any q vs
any-ext p q [] h = refl
any-ext p q (v ∷ vs) h = rw (h v, any-ext p q vs h) refl

any-never : (vs : List Bytes) → any (λ v. false) vs ≡ false
any-never [] = refl
any-never (v ∷ vs) = any-never vs

some_if : (b : Bool) → (if b then some true else some false) ≡ some b
some_if true = refl
some_if false = refl

module _ {Regex RegexSet : Type 0} (crate : RegexCrate Regex RegexSet) where
  abbrev pub matched : Option Regex → Bytes → Bool
  matched none v = false
  matched (some re) v = crate.is_match re v

  abbrev pub matched_at : Option Bytes → Bytes → Bool
  matched_at none v = false
  matched_at (some pattern) v = matched (crate.new pattern) v

  -- What the crate documents of a set: the indices are those of the patterns that match by
  -- themselves.
  abbrev pub SetIsExact : Type 0
  SetIsExact =
      (patterns : List Bytes) (set : RegexSet)
      → crate.new_set patterns ≡ some set
      → (v : Bytes) (i : ℕ)
      → any (λ j. j == i) (crate.set_matches set v) ≡ matched_at (get_elem? patterns i) v

  module _ (debug_key : List Variable → List Transform → Bytes) where
    abbrev AlignedAt : RegexSet → ℕ → List FastRule → Type 0
    AlignedAt set i rs =
        (k : ℕ) (v : Bytes)
        → any (λ j. j == i + k) (crate.set_matches set v)
          ≡ matched_at (get_elem? (patterns_of crate debug_key rs) k) v

    AlignedAt-tail :
        (set : RegexSet) (i : ℕ) (r : FastRule) (rs : List FastRule)
        → AlignedAt set i (r ∷ rs)
        → AlignedAt set (i + 1) rs
    AlignedAt-tail set i r rs h k v =
        subst
          (λ (n : ℕ).
            any (λ j. j == n) (crate.set_matches set v)
            ≡ matched_at (get_elem? (patterns_of crate debug_key rs) k) v)
          (omega arith) (h (suc k) v)

    hit-matched :
        (set : RegexSet) (i : ℕ) (r : FastRule) (rs : List FastRule) (values : List Bytes)
        → AlignedAt set i (r ∷ rs)
        → hit crate debug_key set values i ≡ any (matched (crate.new r.pattern)) values
    hit-matched set i r rs values h = any-ext _ _ values λ v.
        subst
          (λ (n : ℕ). any (λ j. j == n) (crate.set_matches set v) ≡ matched (crate.new r.pattern) v)
          (omega arith) (h 0 v)

    module _ (acc : BucketAcc) (ctx : RequestContext) (values : List Bytes)
        (no_panic : values_for acc.vars acc.transforms ctx ≡ some values) where
      eval_rx :
          (re : Regex)
          → eval_links crate debug_key
              (record {
                vars = acc.vars;
                transforms = acc.transforms;
                matcher = Matcher.rx re;
                negated = false;
              }
                ∷ [])
              ctx
            ≡ some (any (crate.is_match re) values)
      unfolding eval_links matches
      eval_rx re = rw no_panic (some_if (any (crate.is_match re) values))

      run_slow-rule :
          (r : FastRule) (found : Option Regex) (rest : List (Compiled Regex))
          (items : List ScoreItem)
          → run_slow crate debug_key rest ctx ≡ some items
          → run_slow crate debug_key (slow_rule crate debug_key acc r found ++ rest) ctx
            ≡ some (
                if any (matched found) values
                then item crate debug_key r.id r.severity ∷ items
                else items)
      run_slow-rule r none rest items h = rw (any-never values) h
      run_slow-rule r (some re) rest items h = rw (eval_rx re, h) refl

      run_slow-fast_items :
          (set : RegexSet) (i : ℕ) (rs : List FastRule)
          → AlignedAt set i rs
          → run_slow crate debug_key (slow_rules crate debug_key acc rs) ctx
            ≡ some (fast_items crate debug_key set values i rs)
      run_slow-fast_items set i [] h = refl
      run_slow-fast_items set i (r ∷ rs) h = rw (hit-matched set i r rs values h) (
          run_slow-rule r (crate.new r.pattern) (slow_rules crate debug_key acc rs)
            (fast_items crate debug_key set values (i + 1) rs)
            (run_slow-fast_items set (i + 1) rs (AlignedAt-tail set i r rs h)))

    map-append-nil :
        (r : Option (List ScoreItem)) → r ≡ Option.map (λ (ys : List ScoreItem). [] ++ ys) r
    map-append-nil none = refl
    map-append-nil (some ys) = refl

    map-cons_if :
        (fires : Bool) (i : ScoreItem) (xs : List ScoreItem) (r : Option (List ScoreItem))
        → Option.map
            (cons_if crate debug_key fires i)
            (Option.map (λ (ys : List ScoreItem). xs ++ ys) r)
          ≡ Option.map (λ (ys : List ScoreItem). cons_if crate debug_key fires i xs ++ ys) r
    map-cons_if fires i xs none = refl
    map-cons_if true i xs (some ys) = refl
    map-cons_if false i xs (some ys) = refl

    run_slow-append :
        (cs ds : List (Compiled Regex)) (ctx : RequestContext)
        → run_slow crate debug_key (cs ++ ds) ctx
          ≡ and_then (run_slow crate debug_key cs ctx) (λ xs.
            Option.map (λ (ys : List ScoreItem). xs ++ ys) (run_slow crate debug_key ds ctx))
    run_slow-append [] ds ctx = map-append-nil (run_slow crate debug_key ds ctx)
    run_slow-append (c ∷ cs) ds ctx = elim (Option-cases (eval_links crate debug_key c.links ctx)) [
      | inl fault ↦ rw fault refl
      | inr (fires, e) ↦
          rw (e, run_slow-append cs ds ctx)
            (elim (Option-cases (run_slow crate debug_key cs ctx)) [
              | inl fault ↦ rw fault refl
              | inr (xs, found) ↦ rw found (
                  map-cons_if fires (item crate debug_key c.id c.severity) xs
                    (run_slow crate debug_key ds ctx))
            ])
    ]

    -- What a bucket of the list adds behind the others.
    run_fast-append :
        (bs : List (FastBucket RegexSet)) (b : FastBucket RegexSet) (ctx : RequestContext)
        → run_fast crate debug_key (bs ++ (b ∷ [])) ctx
          ≡ and_then (run_fast crate debug_key bs ctx) (λ xs.
            Option.map
              (λ (values : List Bytes). xs ++ fast_items crate debug_key b.set values 0 b.rules)
              (values_for b.vars b.transforms ctx))
    run_fast-append [] b ctx = elim (Option-cases (values_for b.vars b.transforms ctx)) [
      | inl fault ↦ rw fault refl
      | inr (values, e) ↦
          rw (e, append-nil (fast_items crate debug_key b.set values 0 b.rules)) refl
    ]
    run_fast-append (a ∷ bs) b ctx = elim (Option-cases (values_for a.vars a.transforms ctx)) [
      | inl fault ↦ rw fault refl
      | inr (seen, e) ↦
          rw (e, run_fast-append bs b ctx)
            (elim (Option-cases (run_fast crate debug_key bs ctx)) [
              | inl fault ↦ rw fault refl
              | inr (xs, found) ↦
                  rw found (elim (Option-cases (values_for b.vars b.transforms ctx)) [
                    | inl fault ↦ rw fault refl
                    | inr (values, k) ↦
                        rw
                          (
                            k,
                            append_assoc (fast_items crate debug_key a.set seen 0 a.rules) xs
                                (fast_items crate debug_key b.set values 0 b.rules),
                          )
                          refl
                  ])
            ])
    ]

    abbrev combined :
        RegexSet
        → List FastRule
        → Option (List ScoreItem)
        → Option (List Bytes)
        → Option (List ScoreItem)
        → Option (List ScoreItem)
    combined set rs fast values slow =
        and_then
          (and_then fast λ fs.
            Option.map (λ (vs : List Bytes). fs ++ fast_items crate debug_key set vs 0 rs) values)
          λ xs. Option.map (λ (ys : List ScoreItem). xs ++ ys) slow

    items_of-combined :
        (m : CrsModule Regex RegexSet) (acc : BucketAcc) (set : RegexSet) (ctx : RequestContext)
        → items_of crate debug_key (add_bucket crate debug_key m acc (some set)) ctx
          ≡ combined set acc.rules
              (run_fast crate debug_key m.fast ctx)
              (values_for acc.vars acc.transforms ctx)
              (run_slow crate debug_key m.slow ctx)
    unfolding items_of
    items_of-combined m acc set ctx =
        rw
          (run_fast-append m.fast
            (record { vars = acc.vars; transforms = acc.transforms; set = set; rules = acc.rules })
            ctx)
          refl

    -- If a bucket's set is made and is exact, then a run that does not panic fires the same rules,
    -- as often, with the set as with the slow rules that stand in for a set that is too large.
    pub items_of-add_bucket :
        (m : CrsModule Regex RegexSet) (acc : BucketAcc) (set : RegexSet) (ctx : RequestContext)
        (xs : List ScoreItem)
        → SetIsExact
        → crate.new_set (patterns_of crate debug_key acc.rules) ≡ some set
        → items_of crate debug_key (add_bucket crate debug_key m acc (some set)) ctx ≡ some xs
        → (ys : List ScoreItem) × (items_of crate debug_key
              (add_bucket crate debug_key m acc none)
              ctx
            ≡ some ys)
          × Perm xs ys
    unfolding items_of
    items_of-add_bucket m acc set ctx xs exact made ran =
        by_parts (run_fast crate debug_key m.fast ctx) refl (values_for acc.vars acc.transforms ctx)
          refl (run_slow crate debug_key m.slow ctx) refl
          (sym (items_of-combined m acc set ctx) ∙ ran)
      where
        by_parts :
            (fast : Option (List ScoreItem))
            → run_fast crate debug_key m.fast ctx ≡ fast
            → (values : Option (List Bytes)) → values_for acc.vars acc.transforms ctx ≡ values
            → (slow : Option (List ScoreItem)) → run_slow crate debug_key m.slow ctx ≡ slow
            → combined set acc.rules fast values slow ≡ some xs
            → (ys : List ScoreItem) × (items_of crate debug_key
                  (add_bucket crate debug_key m acc none)
                  ctx
                ≡ some ys)
              × Perm xs ys
        by_parts none f values v slow s e = cc
        by_parts (some fs) f none v slow s e = cc
        by_parts (some fs) f (some vs) v none s e = cc
        by_parts (some fs) f (some vs) v (some ss) s e =
            let items : List ScoreItem = fast_items crate debug_key set vs 0 acc.rules in
            let aligned : AlignedAt set 0 acc.rules = λ k v'.
              subst
                (λ (n : ℕ).
                  any (λ j. j == n) (crate.set_matches set v')
                  ≡ matched_at (get_elem? (patterns_of crate debug_key acc.rules) k) v')
                (omega arith) (exact (patterns_of crate debug_key acc.rules) set made v' k) in
            let same : run_slow crate debug_key (slow_rules crate debug_key acc acc.rules) ctx
                ≡ some items =
              run_slow-fast_items acc ctx vs v set 0 acc.rules aligned in
            let whole : (fs ++ items) ++ ss ≡ xs = cc in
            (
              fs ++ (ss ++ items),
              rw (f, run_slow-append m.slow (slow_rules crate debug_key acc acc.rules) ctx, s, same)
                  refl,
              subst (λ (l : List ScoreItem). Perm l (fs ++ (ss ++ items)))
                  (sym (append_assoc fs items ss) ∙ whole)
                  (Perm.append_left fs (∣ Permᴰ.append_comm items ss ∣₁)),
            )
