-- ===== src/Tests/Crs.antt =====
-- crates/waf-detection/src/crs: rules read, values transformed, and a rule file run on a request.
use rust_waf.Common.{
  Bytes, any, if◌then◌else◌, true, [], ◌∷◌, ◌++◌, none, some, ◌≡◌, refl, codes, white_len,
  trim_start, trim_end, trim, split, split_once, strip_prefix,
}
use rust_waf.Detection.Crs.Ast.{Transform, Operator}
use rust_waf.Detection.Crs.Lexer.{tokenize_logical, lex}
use rust_waf.Detection.Crs.Lexer.RoundTrip.{print, tokenize_logical-print}
use rust_waf.Detection.Crs.Parse.Variables.{parse_operator}
use rust_waf.Detection.Crs.Parse.Actions.{parse_actions}
use rust_waf.Detection.Crs.Parse.{parse_secrule, assemble}
use rust_waf.Detection.Crs.Parse.Ruleset.{parse}
use rust_waf.Detection.Crs.Parse.Loaded.{AllLoaded}
use rust_waf.Detection.Crs.Parse.Chains.{panics, accounted}
use rust_waf.Detection.Crs.Parse.Accounted.{parse-accounted}
use rust_waf.Detection.Crs.Transform.{decode_u_escapes, apply}
use rust_waf.Detection.Crs.Transform.Panics.{cut_escape, apply-cut_escape}
use rust_waf.Normalizer.Percent.{percent_decode, is_space, is_escape, hex_pair}

tokenize_logical-print_example :
    tokenize_logical (print (codes "SecRule" ∷ codes "ARGS" ∷ codes "@rx \"\\d" ∷ [])) 7
    ≡ some
        (record { line_no = 7; tokens = codes "SecRule" ∷ codes "ARGS" ∷ codes "@rx \"\\d" ∷ [] })
tokenize_logical-print_example =
    tokenize_logical-print (codes "SecRule") (codes "ARGS" ∷ codes "@rx \"\\d" ∷ []) 7

-- A rule of two links, a rule that is removed, and a rule without an identifier.
abbrev rules : Bytes
rules =
    codes "SecRule ARGS \"@rx a\" \"id:1,chain\"\nSecRule ARGS \"@rx b\"\n"
    ++ codes "SecRule ARGS \"@rx c\" \"id:2\"\nSecRuleRemoveById 2\nSecRule ARGS \"@rx d\"\n"

parse-accounted_example :
    (parse rules ≡ (if any panics (lex rules) then none else some (accounted (lex rules))))
    × AllLoaded (accounted (lex rules)).rules
parse-accounted_example = parse-accounted rules

-- `%u123` and an `é`.
apply-cut_escape_example :
    apply
      (codes "x=" ++ cut_escape b'1' b'2' b'3' 0xC3 0xA9 (codes "!"))
      (Transform.url_decode_uni ∷ [])
    ≡ none
apply-cut_escape_example =
    apply-cut_escape (codes "x=") (codes "!") b'1' b'2' b'3' 0xC3 0xA9 [] refl refl

whole_escape : decode_u_escapes (codes "%u0041BC") ≡ some (codes "ABC")
unfolding decode_u_escapes
whole_escape = refl

decodes_and_lowers :
    apply
      (codes "%75NION&#x3c;a+b")
      (Transform.url_decode ∷ Transform.html_entity_decode ∷ Transform.lowercase ∷ [])
    ≡ some (codes "union<a b")
unfolding apply percent_decode is_space is_escape hex_pair
decodes_and_lowers = refl

-- A no-break space behind the operator's name.
operator_panics : parse_operator (codes "@rx" ++ (0xC2 ∷ 0xA0 ∷ codes "a")) ≡ none
unfolding parse_operator strip_prefix trim_start
operator_panics = refl

negated_operator :
    parse_operator (codes "!@streq  a b") ≡ some (true, Operator.str_eq (codes " a b"))
unfolding parse_operator strip_prefix trim_start
negated_operator = refl

skips_without_id :
    parse (codes "# rules\nSecRule ARGS \\\n  \"@rx c\" \"t:none\"\n")
    ≡ some (record {
      rules = [];
      skipped =
          record {
            id = none;
            line_no = 2;
            reason = codes "SecRule has no id (cannot form a stable rule_id)";
          }
          ∷ [];
    })
unfolding parse lex trim trim_start trim_end white_len split parse_secrule parse_operator
    strip_prefix parse_actions split_once assemble
skips_without_id = refl
