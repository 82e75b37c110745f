-- ===== src/Normalizer/Graphql/Scan.antt =====
-- crates/waf-normalizer/src/graphql.rs: the rounds of the loop and what is left to read.
use rust_waf.Common.{
  ℕ, zero, suc, ◌≤◌, ◌<◌, [], ◌∷◌, ◌≡◌, refl, inl, inr, arith, Bytes, Bool-cases, length, drop,
  length-drop,
}
use rust_waf.Normalizer.Graphql.{
  LexState, skip_comment, skip_block, skip_string, skip_name, Arm, arm, act, read_on, lex_from,
  scan, is_name_byte,
}

length-skip_comment : (s : Bytes) → length (skip_comment s) ≤ length s
unfolding skip_comment
length-skip_comment [] = omega arith
length-skip_comment (a ∷ s) = ground (arith, length-skip_comment s)

length-skip_block : (s : Bytes) → length (skip_block s) ≤ length s
unfolding skip_block
length-skip_block [] = omega arith
length-skip_block (a ∷ []) = omega arith
length-skip_block (a ∷ b ∷ []) = omega arith
length-skip_block (a ∷ b ∷ c ∷ s) =
    ground (arith, length-skip_block (c ∷ s), length-skip_block (b ∷ c ∷ s))

length-skip_string : (s : Bytes) → length (skip_string s) ≤ length s
unfolding skip_string
length-skip_string [] = omega arith
length-skip_string (a ∷ []) = omega arith
length-skip_string (a ∷ b ∷ s) = ground (arith, length-skip_string s, length-skip_string (b ∷ s))

length-skip_name : (s : Bytes) → length (skip_name s) ≤ length s
unfolding skip_name
length-skip_name [] = omega arith
length-skip_name (a ∷ s) = elim (Bool-cases (is_name_byte a)) [
  | inl more ↦ rw more (omega (arith, length-skip_name s))
  | inr stop ↦ rw stop (omega arith)
]

skip_comment-hash : (s : Bytes) → skip_comment (b'#' ∷ s) ≡ skip_comment s
unfolding skip_comment
skip_comment-hash s = refl

arm_comment : (st : LexState) (c : ℕ) (s : Bytes) → arm st c s ≡ Arm.comment → c ≡ b'#'
unfolding arm
arm_comment st c s h = ground arith

length-read_on-arm :
    (st : LexState) (c : ℕ) (s : Bytes) (a : Arm)
    → arm st c s ≡ a
    → length (read_on c s a) ≤ length s
unfolding read_on
length-read_on-arm st c s Arm.comment e =
    rw (arm_comment st c s e, skip_comment-hash s) (length-skip_comment s)
length-read_on-arm st c s Arm.block_string e =
    omega (arith, length-skip_block (drop 2 s), length-drop 2 s)
length-read_on-arm st c s Arm.string e = length-skip_string s
length-read_on-arm st c s Arm.name e = length-skip_name s
length-read_on-arm st c s _ e = omega arith

-- A round leaves no more than what stands behind its byte.
pub length-read_on :
    (st : LexState) (c : ℕ) (s : Bytes) → length (read_on c s (arm st c s)) ≤ length s
length-read_on st c s = length-read_on-arm st c s (arm st c s) refl

-- Any two amounts of fuel above the length of the text give the same result.
lex_from-fuel :
    (f g : ℕ) (st : LexState) (s : Bytes)
    → length s < f
    → length s < g
    → lex_from f st s ≡ lex_from g st s
unfolding lex_from
lex_from-fuel zero g st s h k = elim h [ ]
lex_from-fuel (suc f) zero st s h k = elim k [ ]
lex_from-fuel (suc f) (suc g) st [] h k = refl
lex_from-fuel (suc f) (suc g) st (c ∷ s) h k =
    lex_from-fuel f g (act st c s (arm st c s)) (read_on c s (arm st c s))
      (omega (arith, length-read_on st c s)) (omega (arith, length-read_on st c s))

pub lex_from-scan : (f : ℕ) (st : LexState) (s : Bytes) → length s < f → lex_from f st s ≡ scan st s
unfolding scan
lex_from-scan f st s h = lex_from-fuel f (suc (length s)) st s h (omega arith)

-- One round of a scan.
pub scan-cons :
    (st : LexState) (c : ℕ) (s : Bytes)
    → scan st (c ∷ s) ≡ scan (act st c s (arm st c s)) (read_on c s (arm st c s))
unfolding scan lex_from
scan-cons st c s =
    lex_from-scan (suc (length s)) (act st c s (arm st c s)) (read_on c s (arm st c s))
      (omega (arith, length-read_on st c s))
