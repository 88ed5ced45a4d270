-- ===== src/Pystr.antt =====
-- src/python/ksc/expr.py: pystr, the printer in a python-like syntax. The text of a constant and of
-- a list of variables are those of Python's `repr` and `str`, and parameters. A name whose type
-- holds Any has no mangled form, so that printing it raises.
pub mod Clean
use knossos_ksc.Base.{
  ℕ, zero, suc, ◌+◌, ◌≡◌, refl, Bool, true, false, Option, none, some, List, [], ◌∷◌, ◌++◌,
  if◌then◌else◌, ◌==◌, Bool-cases, inl, inr, any,
}
use knossos_ksc.Base.Text.{Text, text}
use knossos_ksc.Base.Decimal.{print}
use knossos_ksc.Base.Result.{Result, ok, err, ◌>>=◌, map_ok}
use knossos_ksc.Types.Defs.{
  KsType, KsTypes, string, float, integer, bool, any_type, tensor, tuple, lam_type, lm_type, nil,
  cons,
}
use knossos_ksc.Names.{StructuredName, mangled, name_str}
use knossos_ksc.Expr.{
  Constant, Var, Binder, one, many, Expr, Exprs, const, var, call, lam, let_in, if_else, assert,
  no_args, arg, Def, EDef, GDef, Rule,
}

unfoldable pub pyname : Text → Text
pyname [] = []
pyname (c ∷ s) = if c == b'$' then b'_' ∷ b's' ∷ pyname s else c ∷ pyname s

abbrev pub spaces : ℕ → Text
spaces zero = []
spaces (suc n) = text "  " ++ spaces n

abbrev pub nl : ℕ → Text
nl indent = text "\n" ++ spaces indent

-- `sep.join(texts)`.
abbrev pub join : Text → List Text → Text
join sep [] = []
join sep (s ∷ []) = s
join sep (s ∷ t ∷ ts) = s ++ (sep ++ join sep (t ∷ ts))

abbrev bracketed : Text → Text → Text
bracketed kind elems = kind ++ (text "[" ++ (elems ++ text "]"))

unfoldable mutual
  pub pystr_type : KsType → Text
  pystr_type string = text "String"
  pystr_type float = text "Float"
  pystr_type integer = text "Integer"
  pystr_type bool = text "Bool"
  pystr_type any_type = bracketed (text "Any") []
  pystr_type (tensor n t) =
      bracketed (text "Tensor") (join (text ",") (print n ∷ pystr_type t ∷ []))
  pystr_type (tuple ts) = bracketed (text "Tuple") (join (text ",") (pystr_types ts))
  pystr_type (lam_type a r) =
      bracketed (text "Lam") (join (text ",") (pystr_type a ∷ pystr_type r ∷ []))
  pystr_type (lm_type a r) =
      bracketed (text "LM") (join (text ",") (pystr_type a ∷ pystr_type r ∷ []))

  pub pystr_types : KsTypes → List Text
  pystr_types nil = []
  pystr_types (cons t ts) = pystr_type t ∷ pystr_types ts

abbrev pub pystr_type_maybe : Option KsType → Text
pystr_type_maybe none = text "None"
pystr_type_maybe (some t) = pystr_type t

unfoldable pub pystr_name : StructuredName → Result Text
unfolding pyname
pystr_name sname = map_ok pyname (mangled sname)

abbrev pub pynames : List Var → List Text
pynames [] = []
pynames (x ∷ xs) = pyname x.name ∷ pynames xs

abbrev pub pystr_vars : Binder → Text
pystr_vars (one x) = pyname x.name
pystr_vars (many x xs) = join (text ",") (pynames (x ∷ xs))

abbrev pub pystr_args : List Var → List Text
pystr_args [] = []
pystr_args (x ∷ xs) = (pyname x.name ++ (text ": " ++ pystr_type_maybe x.type_)) ∷ pystr_args xs

module _ (repr : Constant → Text) where
  -- `pystr` on expressions.
  unfoldable mutual
    pub pystr : Expr → ℕ → Result Text
    pystr (const c) indent = ok (repr c)
    pystr (var x) indent = ok (pyname x.name)
    pystr (call f args t) indent = pystr_name f >>= λ name. pystr_each args (indent + 1) >>= λ as'.
        ok (name ++ (text "(" ++ (join (text ", ") as' ++ text ")")))
    pystr (lam x body t) indent = pystr body (indent + 2) >>= λ b. ok (
        text "lambda "
        ++ (pyname x.name ++ (text ": " ++ (nl (indent + 2) ++ (text "(" ++ (b ++ text ")"))))))
    pystr (let_in vars rhs body t) indent = pystr rhs (indent + 1) >>= λ r.
        pystr body indent >>= λ b. ok (pystr_vars vars ++ (text " = " ++ (r ++ (nl indent ++ b))))
    pystr (if_else c t f ty) indent = pystr t (indent + 2) >>= λ t'. pystr c (indent + 1) >>= λ c'.
        pystr f (indent + 1) >>= λ f'. ok (
          text "("
          ++ (t'
              ++ (text " if "
                  ++ (c' ++ (nl (indent + 1) ++ (text " else " ++ (f' ++ text ")\n")))))))
    pystr (assert c b ty) indent = pystr c (indent + 1) >>= λ c'. pystr b (indent + 1) >>= λ b'.
        ok (text "assert(" ++ (c' ++ (text ")" ++ (nl (indent + 1) ++ b'))))

    pub pystr_each : Exprs → ℕ → Result (List Text)
    pystr_each no_args indent = ok []
    pystr_each (arg e es) indent =
        pystr e indent >>= λ s. pystr_each es indent >>= λ ss. ok (s ∷ ss)

  unfoldable pub pystr_def : Def → ℕ → Result Text
  unfolding pystr
  pystr_def d indent = pystr_name d.name >>= λ name. pystr d.body (indent + 2) >>= λ body. ok (
      text "def "
      ++ (name
          ++ (text "("
              ++ (join (text ", ") (pystr_args d.args)
                  ++ (text ") -> "
                      ++ (pystr_type_maybe d.return_type
                          ++ (text ":" ++ (nl (indent + 2) ++ body))))))))

  unfoldable pub pystr_rule : (List Var → Text) → Rule → ℕ → Result Text
  unfolding pystr
  pystr_rule show_vars d indent = pystr d.template (indent + 2) >>= λ t.
      pystr d.replacement (indent + 2) >>= λ r. ok (
        text "@rule\ndef "
        ++ (pyname d.name
            ++ (text " ("
                ++ (show_vars d.template_vars
                    ++ (text "):"
                        ++ (nl (indent + 1)
                            ++ (t
                                ++ (nl (indent + 1)
                                    ++ (text "<===> " ++ (nl (indent + 1) ++ r))))))))))

unfoldable pub pystr_edef : EDef → ℕ → Text
pystr_edef d indent =
    text "#edef "
    ++ (name_str d.name
        ++ (pystr_type d.arg_type
            ++ (text " -> " ++ (pystr_type d.return_type ++ nl (indent + 1)))))

unfoldable pub pystr_gdef : GDef → ℕ → Text
pystr_gdef d indent = text "#gdef " ++ (d.derivation ++ (text " " ++ name_str d.function_name))
