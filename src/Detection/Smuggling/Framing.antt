-- ===== src/Detection/Smuggling/Framing.antt =====
-- crates/waf-detection/src/request_smuggling.rs: the framing that is let through.
use rust_waf.Common.{
  true, List, [], ◌∷◌, ◌≡◌, refl, ◌≢◌, ◌↔◌, arith, Bytes, codes, is_ascii_digit,
  eq_ignore_ascii_case, all,
}
use rust_waf.Core.Decision.{Decision}
use rust_waf.Core.Context.{RequestContext}
use rust_waf.Detection.Smuggling.{
  reject, is_valid_content_length, values_of, check_te, check_cl, judge, inspect,
}

-- The body's end is declared in no way, or by one Content-Length that is a number, or by one
-- Transfer-Encoding that is `chunked` in any case of its letters.
pub data Unambiguous : List Bytes → List Bytes → Type 0 where
  no_body : Unambiguous [] []
  by_length : (v : Bytes) → v ≢ [] → all is_ascii_digit v ≡ true → Unambiguous (v ∷ []) []
  by_chunks :
      (v : Bytes) → eq_ignore_ascii_case v (codes "chunked") ≡ true → Unambiguous [] (v ∷ [])

judge-Unambiguous : (cl te : List Bytes) → judge cl te ≡ Decision.allow → Unambiguous cl te
unfolding judge check_cl check_te reject is_valid_content_length
judge-Unambiguous [] [] h = Unambiguous.no_body
judge-Unambiguous [] (v ∷ []) h = Unambiguous.by_chunks v (ground arith)
judge-Unambiguous [] (v ∷ w ∷ te) h = ground arith
judge-Unambiguous (v ∷ []) [] h = Unambiguous.by_length v (ground arith) (ground arith)
judge-Unambiguous (v ∷ w ∷ cl) [] h = ground arith
judge-Unambiguous (v ∷ cl) (w ∷ te) h = ground arith

Unambiguous-judge : (cl te : List Bytes) → Unambiguous cl te → judge cl te ≡ Decision.allow
unfolding judge check_cl check_te is_valid_content_length
Unambiguous-judge _ _ Unambiguous.no_body = refl
Unambiguous-judge _ _ (Unambiguous.by_length [] ne digits) = absurd (ne refl)
Unambiguous-judge _ _ (Unambiguous.by_length (c ∷ v) ne digits) = ground arith
Unambiguous-judge _ _ (Unambiguous.by_chunks v chunked) = ground arith

-- An enabled module lets a request through exactly when its framing is unambiguous: never with both
-- headers, a repeated one, a length that is not a number or a transfer coding other than `chunked`.
pub inspect-Unambiguous :
    (ctx : RequestContext)
    → (inspect true ctx ≡ Decision.allow)
      ↔ Unambiguous
          (values_of (codes "content-length") ctx.headers)
          (values_of (codes "transfer-encoding") ctx.headers)
unfolding inspect
inspect-Unambiguous ctx = (judge-Unambiguous _ _, Unambiguous-judge _ _)
