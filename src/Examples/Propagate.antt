-- ===== src/Examples/Propagate.antt =====
-- Tests and theorems at an input: type propagation (src/python/ksc/type_propagate.py).
use knossos_ksc.Primitives.{prim_lookup}
use knossos_ksc.Base.Assoc.{lookup, insert}
use knossos_ksc.Base.{◌≡◌, refl, false, [], ◌∷◌, some, none}
use knossos_ksc.Base.Text.{text, text_eq}
use knossos_ksc.Base.Int.{pos}
use knossos_ksc.Base.Result.{ok, err, index_error}
use knossos_ksc.Types.Defs.{
  KsType, integer, tuple, nil, cons, make_tuple_if_many, type_eq, shortstr,
}
use knossos_ksc.Names.{
  plain, typed, mangle_without_type, is_derivation, add_type, sname_same, mangled,
}
use knossos_ksc.Expr.{Expr, const, var, call, let_in, one, int_value, no_args, arg, type_of}
use knossos_ksc.Propagate.{Symtab, type_propagate, bind_let, bind_var, typed_call}
use knossos_ksc.Propagate.Again.{type_propagate_idem}
use knossos_ksc.Examples.{x, y, let_y}

abbrev two_integers : KsType
two_integers = tuple (cons integer (cons integer nil))

-- x : Integer, and [add (Tuple Integer Integer)] : Integer.
abbrev table : Symtab
table = record {
  var_types = (text "x", some integer) ∷ [];
  fun_types = (typed (text "add") two_integers, some integer) ∷ [];
}

-- (let (y 3) (add x y)) with its types.
abbrev typed_let : Expr
typed_let =
    let_in (one y) (const (int_value (pos 3)))
      (call (typed (text "add") two_integers) (arg (var x) (arg (var y) no_args)) (some integer))
      (some integer)

propagated : type_propagate let_y table false ≡ ok typed_let
unfolding type_propagate bind_let lookup bind_var insert text_eq typed_call make_tuple_if_many
    type_of prim_lookup mangle_without_type is_derivation add_type sname_same type_eq
propagated = refl

type_propagate_idem_example : type_propagate typed_let table false ≡ ok typed_let
unfolding type_propagate
type_propagate_idem_example = type_propagate_idem let_y typed_let table propagated

-- A call of an unknown function with no arguments.
unknown_call : type_propagate (call (plain (text "f")) no_args none) table false ≡ err index_error
unfolding type_propagate typed_call make_tuple_if_many prim_lookup text_eq mangle_without_type
    is_derivation add_type lookup sname_same mangled shortstr
unknown_call = refl
