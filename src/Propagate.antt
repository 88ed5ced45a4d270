-- ===== src/Propagate.antt =====
-- src/python/ksc/type_propagate.py: types for the nodes of an expression from a symbol table. The
-- source sets fields of the nodes and entries of the table; here they are returned. Its one
-- dictionary is two, since a text is never equal to a structured name.
pub mod Calls
pub mod Again
pub mod Decls
pub mod Keeps
use knossos_ksc.Base.{
  ℕ, ◌+◌, Bool, true, false, Option, none, some, List, [], ◌∷◌, if◌then◌else◌, ◌==◌, length, any,
}
use knossos_ksc.Base.Text.{Text, text, text_eq}
use knossos_ksc.Base.Result.{
  Result, ok, err, assertion_error, attribute_error, ks_type_error, index_error, ◌>>=◌, ◌>>◌,
  require, map_ok,
}
use knossos_ksc.Base.Assoc.{Dict, text_key, lookup, insert}
use knossos_ksc.Types.Defs.{
  KsType, bool, lam_type, type_eq, tuple_elem, tuple_len, make_tuple_if_many, known, tangent_type,
}
use knossos_ksc.Names.{
  StructuredName, plain, typed, derived, is_derivation, get_type, add_type, mangled,
}
use knossos_ksc.Names.Laws.{sname_key}
use knossos_ksc.Expr.{
  Var, Binder, one, many, Expr, Exprs, const, var, call, lam, let_in, if_else, assert, no_args, arg,
  type_of, Def, EDef, GDef, Rule, Decl, def_decl, edef_decl, gdef_decl, rule_decl,
}
use knossos_ksc.Primitives.{prim_lookup}

pub record Symtab : Type 0 where
  pub var_types : Dict Text (Option KsType)
  pub fun_types : Dict StructuredName (Option KsType)

-- `==` on types that may be missing.
abbrev pub same_type : Option KsType → Option KsType → Bool
same_type none none = true
same_type (some a) (some b) = type_eq a b
same_type none (some b) = false
same_type (some a) none = false

unfoldable pub bind_var : Var → Option KsType → Symtab → Symtab
bind_var x t st = record st { var_types = insert x.name t st.var_types }

unfoldable pub bind_fun : StructuredName → Option KsType → Symtab → Symtab
bind_fun f t st = record st { fun_types = insert f t st.fun_types }

abbrev pub bind_args : List Var → Symtab → Symtab
bind_args [] st = st
bind_args (x ∷ xs) st = bind_args xs (bind_var x x.type_ st)

-- The first component of the argument; a missing type has no method.
abbrev pub first_elem : Option KsType → Result (Option KsType)
first_elem none = err attribute_error
first_elem (some t) = map_ok some (tuple_elem t 0)

abbrev pub is_paired : Text → Bool
is_paired d = any (text_eq d) (text "rev" ∷ text "fwd" ∷ [])

abbrev pub is_unpaired : Text → Bool
is_unpaired d = any (text_eq d) (text "D" ∷ text "shape" ∷ text "suffwdpass" ∷ [])

unfoldable pub infer_fn_type_from_derived_fn_args :
    StructuredName → Option KsType → Result (Option KsType)
infer_fn_type_from_derived_fn_args (derived d s) argtype =
    let base = if is_paired d then first_elem argtype else ok argtype in
    let deeper = base >>= λ t. infer_fn_type_from_derived_fn_args s t in
    if is_paired d then deeper else if is_unpaired d then deeper else ok (get_type (derived d s))
infer_fn_type_from_derived_fn_args (typed s ty) argtype = ok (some ty)
infer_fn_type_from_derived_fn_args (plain s) argtype = ok argtype

abbrev pub fn_type_of : StructuredName → Option KsType → Result (Option KsType)
fn_type_of sname argtype =
    if is_derivation sname then infer_fn_type_from_derived_fn_args sname argtype else ok argtype

-- The type that the name had must be the new one.
abbrev pub agreed : StructuredName → Option KsType → KsType → Result StructuredName
agreed sname none t = ok sname
agreed sname (some old) t = if type_eq old t then ok sname else err ks_type_error

abbrev pub set_type : StructuredName → Option KsType → Result StructuredName
set_type sname none = err ks_type_error
set_type sname (some t) = let (sname', old) = add_type sname t in agreed sname' old t

unfoldable pub add_type_to_sname : StructuredName → Option KsType → Result StructuredName
unfolding infer_fn_type_from_derived_fn_args
add_type_to_sname sname argtype = fn_type_of sname argtype >>= λ t. set_type sname t

-- What happens on the way to the error for an unknown function: its name is printed, and the
-- tangent type of its arguments.
unfoldable pub not_found : StructuredName → List (Option KsType) → Option KsType → Result Expr
not_found f [] argtype = mangled f >>= λ s. err index_error
not_found f (t ∷ ts) none = mangled f >>= λ s. err attribute_error
not_found f (t ∷ ts) (some a) = mangled f >>= λ s. tangent_type a >>= λ d. err ks_type_error

abbrev pub types_of : Exprs → List (Option KsType)
types_of no_args = []
types_of (arg e es) = type_of e ∷ types_of es

-- The lookup of a function that is no primitive.
unfoldable pub call_in_symtab : StructuredName → Exprs → Option KsType → Symtab → Result Expr
unfolding add_type_to_sname not_found
call_in_symtab f es argtype st = add_type_to_sname f argtype >>= λ f'.
    elim (lookup f' st.fun_types) [
      | none ↦ not_found f' (types_of es) argtype
      | some t ↦ ok (call f' es t)
    ]

abbrev pub prim_or : Option KsType → StructuredName → Exprs → Result Expr → Result Expr
prim_or none f es other = other
prim_or (some t) f es other = ok (call f es (some t))

-- A call whose arguments have their types: primitives first.
unfoldable pub typed_call : StructuredName → Exprs → Symtab → Result Expr
unfolding call_in_symtab
typed_call f es st = make_tuple_if_many (types_of es) >>= λ argtype. elim argtype [
  | none ↦ err attribute_error
  | some a ↦ prim_lookup f a >>= λ prim. prim_or prim f es (call_in_symtab f es (some a) st)
]

-- Variable `i` of a tuple-let and those after it get the components of the type.
unfoldable pub bind_components : List Var → ℕ → Option KsType → Symtab → Result (List Var × Symtab)
bind_components [] i t st = ok ([], st)
bind_components (x ∷ xs) i none st =
    bind_components xs (i + 1) none (bind_var x none st) >>= λ (ys, st').
    ok (record x { type_ = none } ∷ ys, st')
bind_components (x ∷ xs) i (some t) st = tuple_elem t i >>= λ c.
    bind_components xs (i + 1) (some t) (bind_var x (some c) st) >>= λ (ys, st').
    ok (record x { type_ = some c } ∷ ys, st')

-- The variables of a let with their types, and the table for its body.
unfoldable pub bind_let : Binder → Option KsType → Symtab → Result (Binder × Symtab)
unfolding bind_components
bind_let (one x) t st = ok (one (record x { type_ = t }), bind_var x t st)
bind_let (many x xs) none st = bind_components xs 1 none (bind_var x none st) >>= λ (ys, st').
    ok (many (record x { type_ = none }) ys, st')
bind_let (many x xs) (some t) st = tuple_len t >>= λ k.
    require (length (x ∷ xs) == k) assertion_error
    >> (tuple_elem t 0 >>= λ c.
        bind_components xs 1 (some t) (bind_var x (some c) st) >>= λ (ys, st').
        ok (many (record x { type_ = some c }) ys, st'))

-- With `respect_existing`, a node that has a type stays as it is.
abbrev pub unless_typed : Bool → Expr → Result Expr → Result Expr
unless_typed false e work = work
unless_typed true e work = elim (type_of e) [ none ↦ work | some t ↦ ok e ]

abbrev pub is_bool : Option KsType → Result (Unit {0})
is_bool t = require (same_type t (some bool)) assertion_error

-- `type_propagate` on an expression.
unfoldable mutual
  pub type_propagate : Expr → Symtab → Bool → Result Expr
  type_propagate (const c) st keep = ok (const c)
  type_propagate (var x) st keep = unless_typed keep (var x) (elim (lookup x.name st.var_types) [
    | none ↦ err ks_type_error
    | some t ↦ ok (var (record x { type_ = t }))
  ])
  type_propagate (call f args t) st keep =
      unless_typed keep (call f args t)
        (type_propagate_args args st keep >>= λ es. typed_call f es st)
  type_propagate (lam x body t) st keep = unless_typed keep (lam x body t) (
      type_propagate body (bind_var x x.type_ st) keep >>= λ b.
      known x.type_ >>= λ s. known (type_of b) >>= λ r. ok (lam x b (some (lam_type s r))))
  type_propagate (let_in b rhs body t) st keep = unless_typed keep (let_in b rhs body t) (
      type_propagate rhs st keep >>= λ r. bind_let b (type_of r) st >>= λ (b', st').
      type_propagate body st' keep >>= λ e. ok (let_in b' r e (type_of e)))
  type_propagate (if_else c t f ty) st keep = unless_typed keep (if_else c t f ty) (
      type_propagate c st keep >>= λ c'.
      is_bool (type_of c')
      >> (type_propagate t st keep >>= λ t'. type_propagate f st keep >>= λ f'.
          require (same_type (type_of t') (type_of f')) assertion_error
          >> ok (if_else c' t' f' (type_of t'))))
  type_propagate (assert c b ty) st keep = unless_typed keep (assert c b ty) (
      type_propagate c st keep >>= λ c'.
      is_bool (type_of c') >> (type_propagate b st keep >>= λ b'. ok (assert c' b' (type_of b'))))

  pub type_propagate_args : Exprs → Symtab → Bool → Result Exprs
  type_propagate_args no_args st keep = ok no_args
  type_propagate_args (arg e es) st keep =
      type_propagate e st keep >>= λ e'. type_propagate_args es st keep >>= λ es'. ok (arg e' es')
