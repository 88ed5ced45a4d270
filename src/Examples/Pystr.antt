-- ===== src/Examples/Pystr.antt =====
-- Tests and theorems at an input: pystr (src/python/ksc/expr.py).
use knossos_ksc.Base.{◌≡◌, refl, true, none, ◌++◌}
use knossos_ksc.Base.Text.{Text, text}
use knossos_ksc.Base.Decimal.{print}
use knossos_ksc.Base.Int.{pos}
use knossos_ksc.Base.Result.{ok}
use knossos_ksc.Names.{plain, mangled}
use knossos_ksc.Expr.{Constant, int_value, string_value, Expr, const, var, call, no_args, arg}
use knossos_ksc.Pystr.{pystr, pystr_name}
use knossos_ksc.Pystr.Clean.{has_dollar, dollar_in_constants, has_dollar-pystr}
use knossos_ksc.Examples.{x}

-- Natural numbers in decimal, texts in quotes.
abbrev repr : Constant → Text
repr (int_value (pos n)) = print n
repr (string_value s) = text "'" ++ (s ++ text "'")
repr _ = text "..."

-- (get$1$2 x 7) and (get$1$2 x "a$b").
abbrev get_with : Constant → Expr
get_with c = call (plain (text "get$1$2")) (arg (var x) (arg (const c) no_args)) none

plain_text : pystr repr (get_with (int_value (pos 7))) 0 ≡ ok (text "get_s1_s2(x, 7)")
unfolding pystr pystr_name mangled print
plain_text = refl

with_dollar : pystr repr (get_with (string_value (text "a$b"))) 0 ≡ ok (text "get_s1_s2(x, 'a$b')")
unfolding pystr pystr_name mangled
with_dollar = refl

kept : dollar_in_constants repr (get_with (string_value (text "a$b"))) ≡ true
unfolding dollar_in_constants
kept = refl

has_dollar-pystr_example :
    has_dollar (text "get_s1_s2(x, 'a$b')")
    ≡ dollar_in_constants repr (get_with (string_value (text "a$b")))
has_dollar-pystr_example =
    has_dollar-pystr repr (get_with (string_value (text "a$b"))) 0 (text "get_s1_s2(x, 'a$b')")
      with_dollar
