-- ===== src/Examples/Names.antt =====
-- Tests and theorems at an input: structured names (src/python/ksc/expr.py) and paths
-- (src/python/ksc/path.py).
use knossos_ksc.Base.Decimal.{value}
use knossos_ksc.Base.{◌≡◌, refl, ◌↔◌, [], ◌∷◌, some}
use knossos_ksc.Base.Result.{ok, err, attribute_error}
use knossos_ksc.Base.Text.{text, text_eq}
use knossos_ksc.Types.Defs.{integer, float, shortstr}
use knossos_ksc.Names.{
  typed, plain, derived, add_type, get_type, mangled, mangle_without_type, sname_eq,
}
use knossos_ksc.Names.Laws.{add_type_lem}
use knossos_ksc.Expr.{var}
use knossos_ksc.Paths.{let_body, call_arg, get, all_subexprs, Listed, get_iff}
use knossos_ksc.Paths.Serial.{
  serialize_path, deserialize_path, deserialize_elem, deserialize-serialize, strip_prefix,
  span_digits,
}
use knossos_ksc.Examples.{vec, rev_foo, x, let_y}

mangled_rev : mangled rev_foo ≡ ok (text "rev$foo@f")
unfolding mangled shortstr
mangled_rev = refl

-- Comparing [foo Float] with [foo bar] raises.
compare_raises :
    sname_eq (typed (text "foo") float) (derived (text "foo") (plain (text "bar")))
    ≡ err attribute_error
unfolding sname_eq text_eq
compare_raises = refl

-- What follows the bracket is not read.
deserialize_junk : deserialize_elem (text "call_args[12]junk") ≡ ok (call_arg 12)
unfolding deserialize_elem text_eq strip_prefix span_digits value
deserialize_junk = refl

add_type_lem_example :
    (get_type (add_type rev_foo vec).0 ≡ some vec)
    × ((add_type rev_foo vec).1 ≡ get_type rev_foo)
    × (mangle_without_type (add_type rev_foo vec).0 ≡ mangle_without_type rev_foo)
    × ((add_type (add_type rev_foo vec).0 integer).0 ≡ (add_type rev_foo integer).0)
add_type_lem_example = add_type_lem rev_foo vec integer

get_iff_example : (get let_body let_y ≡ ok (var x)) ↔ Listed let_body (var x) (all_subexprs let_y)
get_iff_example = get_iff let_y let_body (var x)

deserialize-serialize_example :
    deserialize_path (serialize_path (let_body ∷ call_arg 10 ∷ []))
    ≡ ok (let_body ∷ call_arg 10 ∷ [])
deserialize-serialize_example = deserialize-serialize (let_body ∷ call_arg 10 ∷ [])
