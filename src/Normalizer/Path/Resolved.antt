-- ===== src/Normalizer/Path/Resolved.antt =====
-- crates/waf-normalizer/src/url.rs: the shape of what `resolve_path` returns.
use mathlib.Core.List.{reverse, reverse-cons, reverse-reverse}
use rust_waf.Common.{
  List, [], ◌∷◌, ◌++◌, append_assoc, append-nil, ◌≡◌, refl, sym, ap, ◌∙◌, Bytes, split,
}
use rust_waf.Normalizer.Path.{push_segment, push_segments, join_segments, or_root, resolve_path}
use rust_waf.Normalizer.Path.Segments.{
  NoSlash, Plain, AllOf, split-NoSlash, push_segments-Plain, split-join_segments,
}

AllOf-append : (xs ys : List Bytes) → AllOf Plain xs → AllOf Plain ys → AllOf Plain (xs ++ ys)
AllOf-append [] ys h k = k
AllOf-append (x ∷ xs) ys (h, hs) k = (h, AllOf-append xs ys hs k)

AllOf-reverse : (xs : List Bytes) → AllOf Plain xs → AllOf Plain (reverse xs)
AllOf-reverse [] h = tt
AllOf-reverse (x ∷ xs) (h, hs) =
    rw (reverse-cons x xs) (AllOf-append (reverse xs) (x ∷ []) (AllOf-reverse xs hs) (h, tt))

Plain-NoSlash : (segs : List Bytes) → AllOf Plain segs → AllOf NoSlash segs
Plain-NoSlash [] h = tt
Plain-NoSlash (s ∷ ss) (h, hs) = (h.no_slash, Plain-NoSlash ss hs)

-- The segments that the resolution keeps, first to last.
abbrev kept : Bytes → List Bytes
kept path = reverse (push_segments [] (split b'/' path))

kept-Plain : (path : Bytes) → AllOf Plain (kept path)
kept-Plain path =
    AllOf-reverse (push_segments [] (split b'/' path))
      (push_segments-Plain [] (split b'/' path) tt (split-NoSlash path))

push_segment-Plain_eq :
    (stack : List Bytes) (seg : Bytes) → Plain seg → push_segment stack seg ≡ seg ∷ stack
unfolding push_segment
push_segment-Plain_eq stack seg p = rw (p.not_empty, p.not_dot, p.not_dot_dot) refl

push_segments-reverse :
    (segs stack : List Bytes) → AllOf Plain segs → push_segments stack segs ≡ reverse segs ++ stack
unfolding push_segments
push_segments-reverse [] stack h = refl
push_segments-reverse (s ∷ ss) stack (h, hs) =
    ap (λ (st : List Bytes). push_segments st ss) (push_segment-Plain_eq stack s h)
    ∙ push_segments-reverse ss (s ∷ stack) hs
    ∙ rw reverse-cons (sym (append_assoc (reverse ss) (s ∷ []) stack))

kept-join : (segs : List Bytes) → AllOf Plain segs → kept (or_root (join_segments segs)) ≡ segs
unfolding join_segments push_segments push_segment split
kept-join [] h = refl
kept-join (s ∷ ss) h =
    ap (λ (ps : List Bytes). reverse (push_segments [] ps))
      (split-join_segments (s ∷ ss) (Plain-NoSlash (s ∷ ss) h))
    ∙ ap reverse (push_segments-reverse (s ∷ ss) [] h ∙ append-nil (reverse (s ∷ ss)))
    ∙ reverse-reverse (s ∷ ss)

-- A resolved path is the root, or each of its segments behind a slash, where no segment is empty,
-- `.` or `..`, or holds a slash: whatever the input, the result cannot climb out of the root.
pub resolve_path-Plain :
    (path : Bytes)
    → (segs : List Bytes) × AllOf Plain segs × (resolve_path path ≡ or_root (join_segments segs))
unfolding resolve_path
resolve_path-Plain path = (kept path, kept-Plain path, refl)

-- Resolving a resolved path changes nothing.
pub resolve_path-idempotent : (path : Bytes) → resolve_path (resolve_path path) ≡ resolve_path path
unfolding resolve_path
resolve_path-idempotent path =
    ap (λ (segs : List Bytes). or_root (join_segments segs))
      (kept-join (kept path) (kept-Plain path))
