-- ===== src/Tests/Derived.antt =====
-- crates/waf-normalizer/src/url.rs: variants of a few values.
use rust_waf.Common.{
  false, [], ◌∷◌, ◌++◌, none, some, ◌≡◌, refl, inl, arith, Bytes, codes, ◌≤◌, ◌<◌, length,
  is_ascii_alphanumeric, Bool, split_once, strip_prefix,
}
use rust_waf.Common.Utf8.{from_utf8_lossy}
use rust_waf.Normalizer.Percent.{is_space, is_escape, is_overlong}
use rust_waf.Normalizer.Derive.{base64_derived}
use rust_waf.Normalizer.Derive.Base64.{base64_decode}
use rust_waf.Normalizer.Derive.Base64.RoundTrip.{encode, IsBytes, base64_decode-encode}
use rust_waf.Normalizer.Derive.Entities.{html_entity_decode_evasion}
use rust_waf.Normalizer.Derive.Entities.Structural.{count, html_entity_decode_evasion-count}
use rust_waf.Normalizer.Derive.Strips.{
  strip_midtoken_tags, strip_midtoken_controls, strip_vbscript_concat,
}
use rust_waf.Normalizer.Derive.Strips.Shorter.{strip-lt}

-- NFKC of ASCII, and the last byte by the ASCII table.
abbrev same : Bytes → Bytes
same s = s

abbrev ends_ascii : Bytes → Bool
ends_ascii [] = false
ends_ascii (c ∷ []) = is_ascii_alphanumeric c
ends_ascii (c ∷ d ∷ s) = ends_ascii (d ∷ s)

quit_is_encoded : encode (codes "\r\nQUIT\r\n") ≡ codes "DQpRVUlUDQo"
quit_is_encoded = refl

quit_IsBytes : IsBytes (codes "\r\nQUIT\r\n")
quit_IsBytes = (
  omega arith,
  (
    omega arith,
    (
      omega arith,
      (omega arith, (omega arith, (omega arith, (omega arith, (omega arith, omega arith))))),
    ),
  ),
)

base64_decode-encode_example :
    base64_decode (encode (codes "\r\nQUIT\r\n") ++ codes "=") ≡ some (codes "\r\nQUIT\r\n")
base64_decode-encode_example =
    base64_decode-encode (codes "\r\nQUIT\r\n") (codes "=") quit_IsBytes refl

abbrev call : Bytes
call = codes "confirm&lpar;1&rpar;&lt;"

-- Parentheses are decoded, and `<` is not.
decodes_call : html_entity_decode_evasion call ≡ some (codes "confirm(1)&lt;")
unfolding html_entity_decode_evasion split_once strip_prefix
decodes_call = refl

html_entity_decode_evasion-count_example : count b'<' (codes "confirm(1)&lt;") ≤ count b'<' call
html_entity_decode_evasion-count_example =
    html_entity_decode_evasion-count b'<' call (codes "confirm(1)&lt;") refl decodes_call

joins_focus : strip_midtoken_tags ends_ascii (codes "o<x>nfocus") ≡ some (codes "onfocus")
unfolding strip_midtoken_tags split_once
joins_focus = refl

joins_script : strip_midtoken_controls ends_ascii (codes "scr\0ipt") ≡ some (codes "script")
unfolding strip_midtoken_controls
joins_script = refl

joins_execute : strip_vbscript_concat (codes "\"Ex\"&\"e\" & \"cute") ≡ some (codes "\"Execute")
unfolding strip_vbscript_concat
joins_execute = refl

keeps_wrapping_tag : strip_midtoken_tags ends_ascii (codes "<b>on</b>") ≡ none
unfolding strip_midtoken_tags split_once
keeps_wrapping_tag = refl

strip-lt_example : length (codes "onfocus") < length (codes "o<x>nfocus")
strip-lt_example = strip-lt ends_ascii (codes "o<x>nfocus") (codes "onfocus") (inl joins_focus)

-- A value in base64 twice has two variants, the inner one first.
unwraps_twice :
    base64_derived same (codes "YUdWc2JHOGdkMjl5YkdRaA==")
    ≡ codes "hello world!" ∷ codes "aGVsbG8gd29ybGQh" ∷ []
unfolding base64_derived is_space is_escape is_overlong from_utf8_lossy
unwraps_twice = refl
