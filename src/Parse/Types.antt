-- ===== src/Parse/Types.antt =====
-- src/python/ksc/parse_ks.py and type.py: a printed type is parsed to the type.
use knossos_ksc.Base.{◌≡◌, refl, ◌∙◌, ap, true, List, [], ◌∷◌, some, Option}
use knossos_ksc.Base.Text.{text, text_eq}
use knossos_ksc.Base.Int.{pos}
use knossos_ksc.Base.Result.{Result, ok}
use knossos_ksc.Types.Defs.{
  KsType, KsTypes, string, float, integer, bool, any_type, tensor, tuple, lam_type, lm_type, nil,
  cons, to_list, all_known,
}
use knossos_ksc.Expr.{int_value}
use knossos_ksc.Parse.{
  SExp, SExps, symbol, atom, list, end, item, parse_type, parse_type_maybe, parse_each_type,
  compound_type, symbol_type, sequence,
}

-- The s-expression that `Type.__str__` prints; the result of a function is in brackets of its own.
unfoldable mutual
  pub type_sexp : KsType → SExp
  type_sexp string = symbol (text "String")
  type_sexp float = symbol (text "Float")
  type_sexp integer = symbol (text "Integer")
  type_sexp bool = symbol (text "Bool")
  type_sexp any_type = symbol (text "Any")
  type_sexp (tensor n t) =
      list
        (item (symbol (text "Tensor")) (item (atom (int_value (pos n))) (item (type_sexp t) end)))
  type_sexp (tuple ts) = list (item (symbol (text "Tuple")) (type_sexps ts))
  type_sexp (lam_type a r) =
      list
        (item (symbol (text "Lam")) (item (type_sexp a) (item (list (item (type_sexp r) end)) end)))
  type_sexp (lm_type a r) =
      list
        (item (symbol (text "LM")) (item (type_sexp a) (item (list (item (type_sexp r) end)) end)))

  pub type_sexps : KsTypes → SExps
  type_sexps nil = end
  type_sexps (cons t ts) = item (type_sexp t) (type_sexps ts)

abbrev somes : List KsType → List (Option KsType)
somes [] = []
somes (t ∷ ts) = some t ∷ somes ts

abbrev oks : KsTypes → List (Result (Option KsType))
oks nil = []
oks (cons t ts) = ok (some t) ∷ oks ts

all_known-somes : (ts : KsTypes) → all_known (somes (to_list ts)) ≡ ok ts
unfolding all_known
all_known-somes nil = refl
all_known-somes (cons t ts) = rw (all_known-somes ts) refl

sequence-oks : (ts : KsTypes) → sequence (oks ts) ≡ ok (somes (to_list ts))
sequence-oks nil = refl
sequence-oks (cons t ts) = rw (sequence-oks ts) refl

-- A tuple of any length, from the types of its children.
compound_type-tuple :
    (es : SExps) (ts : KsTypes)
    → compound_type (symbol (text "Tuple")) es (oks ts) ≡ ok (some (some (tuple ts)))
unfolding compound_type text_eq all_known
compound_type-tuple end nil = refl
compound_type-tuple (item e es) nil = refl
compound_type-tuple end (cons t nil) = refl
compound_type-tuple (item e es) (cons t nil) = refl
compound_type-tuple end (cons t (cons u ts)) = rw (sequence-oks ts, all_known-somes ts) refl
compound_type-tuple (item e es) (cons t (cons u nil)) = refl
compound_type-tuple (item e es) (cons t (cons u (cons v ts))) =
    rw (sequence-oks ts, all_known-somes ts) refl

mutual
  unfolding type_sexp parse_type_maybe text_eq symbol_type compound_type

  parse-type_sexp : (t : KsType) → parse_type_maybe (type_sexp t) true ≡ ok (some (some t))
  parse-type_sexp string = refl
  parse-type_sexp float = refl
  parse-type_sexp integer = refl
  parse-type_sexp bool = refl
  parse-type_sexp any_type = refl
  parse-type_sexp (tensor n t) = rw (parse-type_sexp t) refl
  parse-type_sexp (tuple nil) = refl
  parse-type_sexp (tuple (cons t ts)) =
      ap (compound_type (symbol (text "Tuple")) (type_sexps (cons t ts)))
        (parse_each-type_sexps (cons t ts))
      ∙ compound_type-tuple (type_sexps (cons t ts)) (cons t ts)
  parse-type_sexp (lam_type a r) = rw (parse-type_sexp a, parse-type_sexp r) refl
  parse-type_sexp (lm_type a r) = rw (parse-type_sexp a, parse-type_sexp r) refl

  parse_each-type_sexps : (ts : KsTypes) → parse_each_type (type_sexps ts) true ≡ oks ts
  parse_each-type_sexps nil = refl
  parse_each-type_sexps (cons t ts) = rw (parse-type_sexp t, parse_each-type_sexps ts) refl

-- Where Any is allowed, the s-expression that a type is printed as is parsed to the type.
pub parse_type-type_sexp : (t : KsType) → parse_type (type_sexp t) true ≡ ok (some t)
unfolding parse_type
parse_type-type_sexp t = rw (parse-type_sexp t) refl
