-- ===== src/Examples/Parse.antt =====
-- Tests and theorems at an input: the parser (src/python/ksc/parse_ks.py).
use knossos_ksc.Base.{◌≡◌, refl, false, true, [], some, none}
use knossos_ksc.Base.Text.{text, text_eq}
use knossos_ksc.Base.Int.{pos}
use knossos_ksc.Base.Result.{ok, err, type_error}
use knossos_ksc.Types.Defs.{lam_type, integer}
use knossos_ksc.Expr.{const, let_in, many, var, int_value}
use knossos_ksc.Parse.{SExp, SExps, symbol, atom, list, end, item, parse_type}
use knossos_ksc.Parse.Types.{type_sexp, parse_type-type_sexp}
use knossos_ksc.Parse.Terms.{parse_expr, untyped, keyword, parse_vars}
use knossos_ksc.Examples.{pair_type}

parse_type-type_sexp_example :
    parse_type (type_sexp (lam_type pair_type integer)) true
    ≡ ok (some (lam_type pair_type integer))
parse_type-type_sexp_example = parse_type-type_sexp (lam_type pair_type integer)

-- (let (<names> 3) a).
abbrev let_of : SExps → SExp
let_of names = list (
    item (symbol (text "let")) (
      item (list (item (list names) (item (atom (int_value (pos 3))) end)))
        (item (symbol (text "a")) end)))

-- One name in brackets is a tuple-let of one variable, and no name an error.
let_of_one :
    parse_expr (let_of (item (symbol (text "a")) end)) false
    ≡ ok (
        let_in
          (many (untyped (text "a")) [])
          (const (int_value (pos 3)))
          (var (untyped (text "a")))
          none)
unfolding parse_expr keyword text_eq parse_vars
let_of_one = refl

let_of_none : parse_expr (let_of end) false ≡ err type_error
unfolding parse_expr keyword text_eq parse_vars
let_of_none = refl
