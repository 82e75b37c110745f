-- ===== src/Detection/Crs/Lexer/RoundTrip.antt =====
-- crates/waf-detection/src/crs/lexer.rs: quoted tokens are read back.
use rust_waf.Common.{
  ℕ, true, false, ◌||◌, List, [], ◌∷◌, ◌++◌, append_assoc, append-nil, some, ◌≡◌, refl, sym, ap,
  ◌∙◌, inl, inr, arith, Bytes, ◌==◌, if◌then◌else◌, Bool-cases,
}
use rust_waf.Detection.Crs.Lexer.{backslash, quote, Scan, scan, directive, tokenize_logical}

-- A token as a rule file may write it: between quotes, a backslash before each quote and backslash.
abbrev pub escape : Bytes → Bytes
escape [] = []
escape (c ∷ s) = (if c == quote || c == backslash then backslash ∷ c ∷ [] else c ∷ []) ++ escape s

-- The tokens, each quoted and followed by a blank.
abbrev pub print : List Bytes → Bytes
print [] = []
print (t ∷ ts) = quote ∷ (escape t ++ (quote ∷ b' ' ∷ print ts))

body : Bytes → Bytes → Bytes
body s rest = escape s ++ (quote ∷ b' ' ∷ rest)

body-cons : (s rest : Bytes) → (h : ℕ) × (t : Bytes) × (body s rest ≡ h ∷ t)
unfolding body
body-cons [] rest = (quote, b' ' ∷ rest, refl)
body-cons (c ∷ s) rest = elim (Bool-cases (c == quote || c == backslash)) [
  | inl special ↦ (backslash, c ∷ body s rest, rw special refl)
  | inr plain ↦ (c, body s rest, rw plain refl)
]

scan_end :
    (tok rest : Bytes) → scan (Scan.quoted tok) (quote ∷ b' ' ∷ rest) ≡ tok ∷ scan Scan.gap rest
unfolding scan
scan_end tok rest = refl

scan_escaped :
    (tok t : Bytes) (c : ℕ)
    → (c == quote || c == backslash) ≡ true
    → scan (Scan.quoted tok) (backslash ∷ c ∷ t) ≡ scan (Scan.quoted (tok ++ (c ∷ []))) t
unfolding scan
scan_escaped tok t c special = rw special refl

scan_plain :
    (tok t : Bytes) (c h : ℕ)
    → (c == quote || c == backslash) ≡ false
    → scan (Scan.quoted tok) (c ∷ h ∷ t) ≡ scan (Scan.quoted (tok ++ (c ∷ []))) (h ∷ t)
unfolding scan
scan_plain tok t c h plain = ground arith

scan-escape :
    (tok s rest : Bytes) → scan (Scan.quoted tok) (body s rest) ≡ (tok ++ s) ∷ scan Scan.gap rest
unfolding body
scan-escape tok [] rest = rw (append-nil tok) (scan_end tok rest)
scan-escape tok (c ∷ s) rest = elim (Bool-cases (c == quote || c == backslash)) [
  | inl special ↦ rw special (
      scan_escaped tok (body s rest) c special
      ∙ (scan-escape (tok ++ (c ∷ [])) s rest ∙ regroup tok))
  | inr plain ↦
      let (h, t, e) = body-cons s rest in
      rw plain (
        ap (λ (r : Bytes). scan (Scan.quoted tok) (c ∷ r)) e
        ∙ (scan_plain tok t c h plain
            ∙ (ap (λ (r : Bytes). scan (Scan.quoted (tok ++ (c ∷ []))) r) (sym e)
                ∙ (scan-escape (tok ++ (c ∷ [])) s rest ∙ regroup tok))))
]
  where
    regroup :
        (tok' : Bytes)
        → ((tok' ++ (c ∷ [])) ++ s) ∷ scan Scan.gap rest ≡ (tok' ++ (c ∷ s)) ∷ scan Scan.gap rest
    regroup tok' = ap (λ (t : Bytes). t ∷ scan Scan.gap rest) (append_assoc tok' (c ∷ []) s)

scan-print : (ts : List Bytes) → scan Scan.gap (print ts) ≡ ts
unfolding scan body
scan-print [] = refl
scan-print (t ∷ ts) = scan-escape [] t (print ts) ∙ ap (λ (r : List Bytes). t ∷ r) (scan-print ts)

-- A line of one quoted token or more, whatever bytes are in them, is read as these tokens.
pub tokenize_logical-print :
    (t : Bytes) (ts : List Bytes) (line_no : ℕ)
    → tokenize_logical (print (t ∷ ts)) line_no
      ≡ some (record { line_no = line_no; tokens = t ∷ ts })
unfolding tokenize_logical
tokenize_logical-print t ts line_no = ap (directive line_no) (scan-print (t ∷ ts))
