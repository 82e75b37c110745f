-- ===== src/Normalizer/Body/Multipart/Total.antt =====
-- crates/waf-normalizer/src/body.rs: the end of the walk over the parts, and what it keeps.
use rust_waf.Common.{
  ℕ, zero, suc, ◌+◌, ◌≤◌, ◌<◌, Bool, true, not, ◌&&◌, List, [], ◌∷◌, ◌++◌, Option, none, some, ◌≡◌,
  refl, ap, subst, inl, inr, arith, Bytes, codes, ◌==◌, Bool-cases, Option-cases, length, all,
  is_empty, length-append, strip_prefix, strip_prefix_iff,
}
use rust_waf.Core.Context.{MultipartField, ParsedBody}
use mathlib.Core.Option
use rust_waf.Normalizer.Body.Multipart.{
  find_from, find_bytes, to_first, crlf_lines, header_of, headers_from, parse_part_headers, Next,
  field_of, part_at, next_part, parts_from, parse_multipart, take_headers, no_part,
}

-- What is found is a piece of the text.
abbrev Found : Bytes → Bytes → Option (Bytes × Bytes) → Type 0
Found needle s none = 0 ≤ 0
Found needle s (some (before, after)) = length before + length needle + length after ≡ length s

Found-later :
    (needle s : Bytes) (c : ℕ) (r : Option (Bytes × Bytes))
    → Found needle s r
    → Found needle (c ∷ s) (Option.map (λ (r : Bytes × Bytes). (c ∷ r.0, r.1)) r)
Found-later needle s c none h = h
Found-later needle s c (some (before, after)) h = omega (arith, h)

find_from-Found : (needle s : Bytes) → Found needle s (find_from needle s)
unfolding find_from
find_from-Found needle [] = omega arith
find_from-Found needle (c ∷ s) = elim (Option-cases (strip_prefix needle (c ∷ s))) [
  | inl miss ↦
      rw (miss, Found) (Found-later needle s c (find_from needle s) (find_from-Found needle s))
  | inr (after, hit) ↦
      rw (hit, Found)
        (omega (
          arith,
          ap length ((strip_prefix_iff needle (c ∷ s) after).0 hit),
          length-append needle after,
        ))
]

find_bytes-Found : (needle s : Bytes) → Found needle s (find_bytes needle s)
unfolding find_bytes
find_bytes-Found needle s = elim (Bool-cases (is_empty needle)) [
  | inl blank ↦ rw blank (omega arith)
  | inr text ↦ rw text (find_from-Found needle s)
]

-- The rest behind each line is no longer than a bound.
abbrev Behind : ℕ → List (Bytes × Bytes) → Type 0
Behind n [] = 0 ≤ 0
Behind n ((line, rest) ∷ lines) = (length rest ≤ n) × Behind n lines

Behind-mono : (m n : ℕ) (lines : List (Bytes × Bytes)) → m ≤ n → Behind m lines → Behind n lines
Behind-mono m n [] l h = omega arith
Behind-mono m n ((line, rest) ∷ lines) l (h, hs) = (omega arith, Behind-mono m n lines l hs)

Behind-to_first :
    (n a : ℕ) (lines : List (Bytes × Bytes)) → Behind n lines → Behind n (to_first a lines)
Behind-to_first n a [] h = h
Behind-to_first n a ((line, rest) ∷ lines) h = h

crlf_lines-Behind : (s : Bytes) → Behind (length s) (crlf_lines s)
unfolding crlf_lines
crlf_lines-Behind [] = omega arith
crlf_lines-Behind (a ∷ []) = omega arith
crlf_lines-Behind (a ∷ b ∷ s) = elim (Bool-cases (a == b'\r' && b == b'\n')) [
  | inl hit ↦
      rw hit
        (omega arith, Behind-mono (length s) _ (crlf_lines s) (omega arith) (crlf_lines-Behind s))
  | inr miss ↦ rw miss (
      Behind-to_first _ a (crlf_lines (b ∷ s))
        (Behind-mono _ _ (crlf_lines (b ∷ s)) (omega arith) (crlf_lines-Behind (b ∷ s))))
]

abbrev HeadersBehind : ℕ → Option (List (Bytes × Bytes) × Bytes) → Type 0
HeadersBehind n none = 0 ≤ 0
HeadersBehind n (some (headers, rest)) = length rest ≤ n

headers_from-Behind :
    (n : ℕ) (headers lines : List (Bytes × Bytes))
    → Behind n lines
    → HeadersBehind n (headers_from headers lines)
unfolding headers_from
headers_from-Behind n headers [] h = omega arith
headers_from-Behind n headers (([], rest) ∷ lines) (h, hs) = h
headers_from-Behind n headers ((c ∷ line, rest) ∷ lines) (h, hs) =
    elim (Option-cases (header_of (c ∷ line))) [
      | inl bad ↦ rw (bad, HeadersBehind) (omega arith)
      | inr (more, good) ↦
          rw (good, HeadersBehind) (headers_from-Behind n (headers ++ more) lines hs)
    ]

-- The payload of every field, together.
abbrev pub payloads : List MultipartField → ℕ
payloads [] = 0
payloads (f ∷ fs) = length f.payload + payloads fs

payloads-append : (fs gs : List MultipartField) → payloads (fs ++ gs) ≡ payloads fs + payloads gs
payloads-append [] gs = omega arith
payloads-append (f ∷ fs) gs = omega (arith, payloads-append fs gs)

abbrev pub is_named : MultipartField → Bool
is_named f = not (is_empty f.name)

all-both :
    (p : MultipartField → Bool) (fs gs : List MultipartField)
    → all p fs ≡ true
    → all p gs ≡ true
    → all p (fs ++ gs) ≡ true
all-both p [] gs h k = k
all-both p (f ∷ fs) gs h k = ground (arith, all-both p fs gs)

-- The step reads on, and what it keeps stood in what it read.
abbrev ReadsOn : ℕ → Next → Type 0
ReadsOn n Next.stop = 0 ≤ 0
ReadsOn n (Next.part fields rest) =
    (payloads fields + length rest < n) × (all is_named fields ≡ true)

module _ (to_lowercase : Bytes → Bytes) where
  field_of-named :
      (headers : List (Bytes × Bytes)) (payload : Bytes)
      → (payloads (field_of to_lowercase headers payload) ≤ length payload)
        × (all is_named (field_of to_lowercase headers payload) ≡ true)
  unfolding field_of
  field_of-named headers payload =
      elim (Bool-cases (is_empty (take_headers to_lowercase no_part headers).name)) [
        | inl blank ↦ rw blank (omega arith, refl)
        | inr named ↦ rw named (omega arith, rw named refl)
      ]

  part_at-ReadsOn :
      (needle : Bytes) (s : Bytes)
      → 0 < length needle
      → ReadsOn (suc (length s)) (part_at to_lowercase needle s)
  unfolding part_at parse_part_headers
  part_at-ReadsOn needle s long = elim (Option-cases (headers_from [] (crlf_lines s))) [
    | inl bad ↦ rw (bad, ReadsOn) (omega arith)
    | inr ((headers, start), good) ↦ elim (Option-cases (find_bytes needle start)) [
      | inl missing ↦ rw (good, missing, ReadsOn) (omega arith)
      | inr ((payload, rest), hit) ↦
          rw (good, hit, ReadsOn)
            (reads headers start payload rest
              (subst (HeadersBehind (length s)) good
                (headers_from-Behind (length s) [] (crlf_lines s) (crlf_lines-Behind s)))
              (subst (Found needle start) hit (find_bytes-Found needle start)))
    ]
  ]
    where
      reads :
          (headers : List (Bytes × Bytes)) (start payload rest : Bytes)
          → length start ≤ length s
          → length payload + length needle + length rest ≡ length start
          → ReadsOn (suc (length s)) (Next.part (field_of to_lowercase headers payload) rest)
      reads headers start payload rest behind found =
          let (kept, named) = field_of-named headers payload in (omega arith, named)

  next_part-ReadsOn :
      (needle s : Bytes) → 0 < length needle → ReadsOn (length s) (next_part to_lowercase needle s)
  unfolding next_part
  next_part-ReadsOn needle [] long = omega arith
  next_part-ReadsOn needle (a ∷ []) long = omega arith
  next_part-ReadsOn needle (a ∷ b ∷ s) long = elim (Bool-cases (a == b'-' && b == b'-')) [
    | inl end ↦ rw end (omega arith)
    | inr more ↦ elim (Bool-cases (a == b'\r' && b == b'\n')) [
      | inl crlf ↦
          rw (more, crlf) (further (part_at to_lowercase needle s) (part_at-ReadsOn needle s long))
      | inr other ↦ rw (more, other) (omega arith)
    ]
  ]
    where
      further : (n : Next) → ReadsOn (suc (length s)) n → ReadsOn (suc (suc (length s))) n
      further Next.stop h = h
      further (Next.part fields rest) (l, named) = (omega arith, named)

  parts_from-total :
      (fuel : ℕ) (needle : Bytes) (fields : List MultipartField) (s : Bytes)
      → 0 < length needle
      → length s < fuel
      → all is_named fields ≡ true
      → (out : List MultipartField) × (parts_from to_lowercase fuel needle fields s ≡ some out)
        × (all is_named out ≡ true)
        × (payloads out ≤ payloads fields + length s)
  unfolding parts_from
  parts_from-total zero needle fields s long enough named = elim enough [ ]
  parts_from-total (suc fuel) needle fields s long enough named =
      by_next (next_part to_lowercase needle s) refl (next_part-ReadsOn needle s long)
        (λ more rest l. parts_from-total fuel needle (fields ++ more) rest long (omega arith))
    where
      by_next :
          (n : Next)
          → next_part to_lowercase needle s ≡ n
          → ReadsOn (length s) n
          → ((more : List MultipartField) (rest : Bytes)
              → length rest < length s
              → all is_named (fields ++ more) ≡ true
              → (out : List MultipartField) × (parts_from to_lowercase fuel needle
                    (fields ++ more)
                    rest
                  ≡ some out)
                × (all is_named out ≡ true)
                × (payloads out ≤ payloads (fields ++ more) + length rest))
          → (out : List MultipartField) × (parts_from to_lowercase (suc fuel) needle fields s
              ≡ some out)
            × (all is_named out ≡ true)
            × (payloads out ≤ payloads fields + length s)
      by_next Next.stop e h later = (fields, rw (e, parts_from) refl, named, omega arith)
      by_next (Next.part more rest) e (l, more_named) later =
          let (out, eq, out_named, bound) =
            later more rest (omega arith) (all-both is_named fields more named more_named) in
          (out, rw (e, parts_from) eq, out_named, omega (arith, payloads-append fields more))

  -- `parse_multipart` ends on every body and boundary; every field it gives has a name that is not
  -- empty, and the payloads together are no longer than the body.
  pub parse_multipart-fields :
      (body boundary : Bytes)
      → (fields : List MultipartField) × (parse_multipart to_lowercase body boundary
          ≡ some (ParsedBody.multipart fields))
        × (all is_named fields ≡ true)
        × (payloads fields ≤ length body)
  unfolding parse_multipart
  parse_multipart-fields body boundary =
      elim (Option-cases (find_bytes (codes "--" ++ boundary) body)) [
        | inl missing ↦ ([], rw (missing, parse_multipart) refl, refl, omega arith)
        | inr ((before, rest), hit) ↦
            let found =
              subst (Found (codes "--" ++ boundary) body) hit
                (find_bytes-Found (codes "--" ++ boundary) body) in
            let (out, e, named, bound) =
              parts_from-total (suc (length body)) (codes "\r\n--" ++ boundary) [] rest
                (omega arith) (omega (arith, found)) refl in
            (
              out,
              rw (hit, parse_multipart) (ap (Option.map ParsedBody.multipart) e),
              named,
              omega (arith, bound, found),
            )
      ]
