-- ===== src/Examples.antt =====
-- Concrete types, names and expressions, tests by evaluation, and each theorem at an input.
mod Types
mod Names
pub mod Exprs
pub mod Alpha
mod Passes
mod Propagate
mod Parse
mod Pystr
mod CumSequence
mod Rewrites
mod Templates
use knossos_ksc.Base.{List, [], ◌∷◌, none, some}
use knossos_ksc.Base.Text.{text}
use knossos_ksc.Base.Int.{pos}
use knossos_ksc.Types.Defs.{KsType, integer, float, tensor, tuple, lam_type, nil, cons}
use knossos_ksc.Names.{StructuredName, plain, typed, derived}
use knossos_ksc.Expr.{Expr, Var, const, var, call, lam, let_in, one, int_value, no_args, arg}

abbrev pub vec : KsType
vec = tensor 1 float

abbrev pub pair_type : KsType
pair_type = tuple (cons integer (cons vec nil))

-- [rev [foo Float]].
abbrev pub rev_foo : StructuredName
rev_foo = derived (text "rev") (typed (text "foo") float)

abbrev pub x : Var
x = record { name = text "x"; type_ = some integer }

abbrev pub y : Var
y = record { name = text "y"; type_ = some integer }

abbrev pub add : Expr → Expr → Expr
add a b = call (plain (text "add")) (arg a (arg b no_args)) none

-- (let (y 3) (add x y)), in which x is free.
abbrev pub let_y : Expr
let_y = let_in (one y) (const (int_value (pos 3))) (add (var x) (var y)) none

-- (lam (x : Integer) (add x y)), in which y is free.
abbrev pub lam_x : Expr
lam_x = lam x (add (var x) (var y)) none
