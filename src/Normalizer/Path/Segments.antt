-- ===== src/Normalizer/Path/Segments.antt =====
-- Splitting at `/` and joining again.
use rust_waf.Common.{
  ℕ, Bool, false, ◌||◌, List, [], ◌∷◌, ◌++◌, append-nil, ◌≡◌, refl, ap, ◌∙◌, inl, inr, arith, Bytes,
  bytes_eq, ◌==◌, Bool-cases, any, is_empty, split, cons_head,
}
use rust_waf.Normalizer.Path.{dot, dot_dot, pop, push_segment, push_segments, join_segments}

-- The segment holds no separator.
abbrev pub NoSlash : Bytes → Type 0
NoSlash s = any (λ c. c == b'/') s ≡ false

-- A segment that the resolution keeps as it stands.
pub record Plain (s : Bytes) : Type 0 where
  pub no_slash : NoSlash s
  pub not_empty : is_empty s ≡ false
  pub not_dot : bytes_eq s dot ≡ false
  pub not_dot_dot : bytes_eq s dot_dot ≡ false

abbrev pub AllOf {κ} : (Bytes → Type κ) → List Bytes → Type κ
AllOf P [] = Unit
AllOf P (x ∷ xs) = P x × AllOf P xs

cons_head-NoSlash :
    (c : ℕ) (ps : List Bytes)
    → (c == b'/') ≡ false
    → AllOf NoSlash ps
    → AllOf NoSlash (cons_head c ps)
cons_head-NoSlash c [] h all_of = (ground arith, tt)
cons_head-NoSlash c (p ∷ ps) h (first, rest) = (rw h first, rest)

pub split-NoSlash : (s : Bytes) → AllOf NoSlash (split b'/' s)
unfolding split
split-NoSlash [] = (refl, tt)
split-NoSlash (c ∷ s) = elim (Bool-cases (c == b'/')) [
  | inl hit ↦ rw hit (refl, split-NoSlash s)
  | inr miss ↦ rw miss (cons_head-NoSlash c (split b'/' s) miss (split-NoSlash s))
]

push_segment-Plain :
    (stack : List Bytes) (seg : Bytes)
    → AllOf Plain stack
    → NoSlash seg
    → AllOf Plain (push_segment stack seg)
unfolding push_segment
push_segment-Plain stack seg plain clean = elim (Bool-cases (is_empty seg || bytes_eq seg dot)) [
  | inl skip ↦ rw skip plain
  | inr other ↦ elim (Bool-cases (bytes_eq seg dot_dot)) [
    | inl up ↦ rw (other, up) (popped stack plain)
    | inr named ↦
        rw (other, named)
          (
            record {
              no_slash = clean;
              not_empty = (parts (is_empty seg) (bytes_eq seg dot) other).0;
              not_dot = (parts (is_empty seg) (bytes_eq seg dot) other).1;
              not_dot_dot = named;
            },
            plain,
          )
  ]
]
  where
    popped : (ss : List Bytes) → AllOf Plain ss → AllOf Plain (pop ss)
    popped [] h = tt
    popped (s ∷ ss) h = h.1

    parts : (x y : Bool) → (x || y) ≡ false → (x ≡ false) × (y ≡ false)
    parts x y h = ground arith

pub push_segments-Plain :
    (stack segs : List Bytes)
    → AllOf Plain stack
    → AllOf NoSlash segs
    → AllOf Plain (push_segments stack segs)
unfolding push_segments
push_segments-Plain stack [] plain clean = plain
push_segments-Plain stack (seg ∷ segs) plain (first, rest) =
    push_segments-Plain (push_segment stack seg) segs (push_segment-Plain stack seg plain first)
      rest

-- Splitting undoes joining.
split-NoSlash_append :
    (s rest : Bytes) → NoSlash s → split b'/' (s ++ (b'/' ∷ rest)) ≡ s ∷ split b'/' rest
unfolding split
split-NoSlash_append [] rest h = refl
split-NoSlash_append (c ∷ s) rest h = ground (arith, split-NoSlash_append s rest)

split-NoSlash_end : (s : Bytes) → NoSlash s → split b'/' s ≡ s ∷ []
unfolding split
split-NoSlash_end [] h = refl
split-NoSlash_end (c ∷ s) h = ground (arith, split-NoSlash_end s)

split-join_from :
    (s : Bytes) (segs : List Bytes)
    → NoSlash s
    → AllOf NoSlash segs
    → split b'/' (s ++ join_segments segs) ≡ s ∷ segs
unfolding join_segments
split-join_from s [] h all_of = rw append-nil (split-NoSlash_end s h)
split-join_from s (seg ∷ segs) h (first, rest) =
    split-NoSlash_append s (seg ++ join_segments segs) h
    ∙ ap (λ (ps : List Bytes). s ∷ ps) (split-join_from seg segs first rest)

pub split-join_segments :
    (segs : List Bytes) → AllOf NoSlash segs → split b'/' (join_segments segs) ≡ [] ∷ segs
split-join_segments segs h = split-join_from [] segs refl h
