-- ===== src/Normalizer/Headers/Credentials.antt =====
-- crates/waf-normalizer/src/lib.rs: the two lists of headers against each other.
use rust_waf.Common.{
  Bool, ◌||◌, ends_with, codes, true, false, List, [], ◌∷◌, ◌≡◌, refl, inl, inr, arith, Bytes,
  bytes_eq, bytes_eq_iff, Bool-cases, all,
}
use rust_waf.Normalizer.Headers.{
  is_one_of, excluded_names, header_base64_excluded, deny_exact, is_denied,
  header_content_inspectable,
}

is_one_of-sublist :
    (names : List Bytes) (name : Bytes)
    → is_one_of names name ≡ true
    → (others : List Bytes) → all (is_one_of others) names ≡ true
    → is_one_of others name ≡ true
is_one_of-sublist [] name h others sub = ground arith
is_one_of-sublist (n ∷ names) name h others sub = elim (Bool-cases (bytes_eq name n)) [
  | inl hit ↦ rw ((bytes_eq_iff name n).0 hit) (ground (arith, sub))
  | inr miss ↦ is_one_of-sublist names name (ground (arith, h)) others (ground (arith, sub))
]

or_widen : (a b d r : Bool) → (a || b) ≡ true → (a ≡ true → d ≡ true) → (d || (b || r)) ≡ true
or_widen true b d r h widen = rw (widen refl) refl
or_widen false true true r h widen = refl
or_widen false true false r h widen = refl
or_widen false false d r h widen = ground (arith, h)

excluded-is_denied : (name : Bytes) → header_base64_excluded name ≡ true → is_denied name ≡ true
unfolding header_base64_excluded is_denied
excluded-is_denied name h =
    or_widen (is_one_of excluded_names name) (ends_with (codes "-token") name)
      (is_one_of deny_exact name) _ h
      (λ named. is_one_of-sublist excluded_names name named deny_exact refl)

-- A header whose value the content modules read is none that the base64 channel leaves out: no
-- credential, cookie or validator, and no name that ends in `-token`.
pub header_content_inspectable-base64 :
    (name : Bytes) → header_content_inspectable name ≡ true → header_base64_excluded name ≡ false
unfolding header_content_inspectable
header_content_inspectable-base64 name h = elim (Bool-cases (header_base64_excluded name)) [
  | inl excluded ↦ cc (rw (excluded-is_denied name excluded) at h)
  | inr kept ↦ kept
]
