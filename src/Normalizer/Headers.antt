-- ===== src/Normalizer/Headers.antt =====
-- crates/waf-normalizer/src/lib.rs: which headers the base64 channel and the content modules read.
pub mod Credentials
use rust_waf.Common.{
  ℕ, zero, suc, ◌+◌, ◌-◌, ◌*◌, ◌/◌, ◌%◌, ◌^◌, ◌≤◌, ◌<◌, min, max, Bool, true, false, not, ◌&&◌,
  ◌||◌, List, [], ◌∷◌, ◌++◌, map, append_assoc, append-nil, Option, none, some, ◌≡◌, refl, sym, ap,
  ◌∙◌, subst, ◌≢◌, ◌↔◌, ◌⊎◌, inl, inr, arith, Bytes, codes, bytes_eq, bytes_eq_iff, is_ascii_digit,
  is_ascii_alphabetic, is_ascii_alphanumeric, to_ascii_lowercase, eq_ignore_ascii_case, starts_with,
  ltb, leb, ◌==◌, within, if◌then◌else◌, ltb→lt, lt→ltb, ==_iff, Bool-cases, Option-cases, length,
  get_elem?, take, drop, any, all, keep, find, is_empty, length-append, take-append-drop,
  length-take, length-drop, length-keep-le, decimal, parse_uint, white_len, trim_start, trim_end,
  trim, split, split_once, strip_prefix, ends_with, cons_head,
}

abbrev pub is_one_of : List Bytes → Bytes → Bool
is_one_of names name = any (bytes_eq name) names

abbrev pub excluded_names : List Bytes
excluded_names =
    codes "authorization"
    ∷ codes "proxy-authorization"
    ∷ codes "cookie"
    ∷ codes "set-cookie"
    ∷ codes "etag"
    ∷ codes "if-none-match"
    ∷ codes "if-match"
    ∷ []

unfoldable pub header_base64_excluded : Bytes → Bool
header_base64_excluded name = is_one_of excluded_names name || ends_with (codes "-token") name

-- The names that the content modules never read.
abbrev pub deny_exact : List Bytes
deny_exact =
    codes "authorization"
    ∷ codes "proxy-authorization"
    ∷ codes "cookie"
    ∷ codes "set-cookie"
    ∷ codes "user-agent"
    ∷ codes "host"
    ∷ codes "etag"
    ∷ codes "if-none-match"
    ∷ codes "if-match"
    ∷ codes "connection"
    ∷ codes "keep-alive"
    ∷ codes "transfer-encoding"
    ∷ codes "te"
    ∷ codes "trailer"
    ∷ codes "upgrade"
    ∷ []

unfoldable pub is_denied : Bytes → Bool
is_denied name =
    is_one_of deny_exact name
    || (ends_with (codes "-token") name
        || (starts_with (codes "accept") name
            || (starts_with (codes "content-") name || starts_with (codes "proxy-") name)))

abbrev pub forwarding_names : List Bytes
forwarding_names =
    codes "referer"
    ∷ codes "x-forwarded-for"
    ∷ codes "x-forwarded-host"
    ∷ codes "x-forwarded-proto"
    ∷ []

unfoldable pub header_content_inspectable : Bytes → Bool
unfolding is_denied
header_content_inspectable name =
    if is_denied name
    then false
    else is_one_of forwarding_names name || starts_with (codes "x-") name
