-- ===== src/Primitives.antt =====
-- src/python/ksc/prim.py: the types of the primitive functions. The regular expression of the
-- tuple accessors, `get\$(\d+)\$(\d+)` on the whole name, is `get_groups` on ASCII names.
pub mod Get
use knossos_ksc.Base.{
  ℕ, zero, suc, ◌-◌, Bool, true, false, ◌&&◌, Option, none, some, List, [], ◌∷◌, if◌then◌else◌,
  ◌==◌, length, all, any,
}
use knossos_ksc.Base.Text.{Text, text, text_eq}
use knossos_ksc.Base.Decimal.{is_digit, value}
use knossos_ksc.Base.Result.{
  Result, ok, err, assertion_error, index_error, ◌>>=◌, ◌>>◌, require, map_ok,
}
use knossos_ksc.Types.Defs.{
  KsType, float, integer, bool, tensor, tuple, to_list, of_list, type_eq, is_tensor, is_tensor_of,
  is_lam_or_lm, is_tuple, tensor_rank, tensor_elem_type, lam_arg_type, lam_return_type, tuple_len,
  tuple_elem, from_rank, get_rank, shape_type, all_known,
}
use knossos_ksc.Names.{StructuredName, mangle_without_type}
use knossos_ksc.Expr.{Expr, Exprs, call, args_list, type_of}

-- `s.startswith(p)`, and what follows.
unfoldable pub strip_prefix : Text → Text → Option Text
strip_prefix [] s = some s
strip_prefix (c ∷ p) [] = none
strip_prefix (c ∷ p) (d ∷ s) = let rest = strip_prefix p s in if c == d then rest else none

-- The digits at the front, and what follows.
unfoldable pub span_digits : Text → Text × Text
span_digits [] = ([], [])
span_digits (c ∷ s) =
    let (ds, rest) = span_digits s in if is_digit c then (c ∷ ds, rest) else ([], c ∷ s)

-- A group of one digit or more.
abbrev group : Text → Option ℕ
group [] = none
group (c ∷ s) = some (value (c ∷ s))

abbrev both : Option ℕ → Option ℕ → Option (ℕ × ℕ)
both (some a) (some b) = some (a, b)
both _ _ = none

-- The rest of the name after the first group.
abbrev second : Text → Text → Option (ℕ × ℕ)
second ds [] = none
second ds (c ∷ s) =
    let (es, rest) = span_digits s in
    if c == b'$' && length rest == 0 then both (group ds) (group es) else none

unfoldable pub get_groups : Text → Option (ℕ × ℕ)
unfolding strip_prefix span_digits
get_groups name = elim (strip_prefix (text "get$") name) [
  | none ↦ none
  | some s ↦ let (ds, rest) = span_digits s in second ds rest
]

-- `children[n - 1]`, where Python counts -1 from the end: for n = 0 it is the last child.
unfoldable pub child_before : ℕ → KsType → Result KsType
child_before zero ty =
    tuple_len ty >>= λ k. if k == 0 then err index_error else tuple_elem ty (k - 1)
child_before (suc n) ty = tuple_elem ty n

-- The types of the arguments.
abbrev pub operands : KsType → List KsType
operands (tuple ts) = to_list ts
operands ty = ty ∷ []

-- The rank of a size type, which is asserted to exist.
abbrev rank_of : KsType → Result ℕ
rank_of ty = elim (get_rank ty) [ none ↦ err assertion_error | some n ↦ ok n ]

abbrev checked : Bool → KsType → Result (Option KsType)
checked b ty = require b assertion_error >> ok (some ty)

abbrev found : Result KsType → Result (Option KsType)
found r = map_ok some r

-- The primitives of one argument.
unfoldable pub prim_lookup_1 : Text → KsType → Result (Option KsType)
prim_lookup_1 name a =
    if text_eq name (text "size")
    then found (map_ok from_rank (tensor_rank a))
    else if text_eq name (text "shape")
    then found (shape_type a)
    else if text_eq name (text "sum") && is_tensor a
    then found (tensor_elem_type a)
    else ok none

-- The primitives of two arguments.
abbrev is_comparison : Text → Bool
is_comparison name =
    any (text_eq name)
      (text "eq" ∷ text "ne" ∷ text "lt" ∷ text "gt" ∷ text "lte" ∷ text "gte" ∷ [])

unfoldable pub prim_lookup_2 : Text → KsType → KsType → Result (Option KsType)
prim_lookup_2 name a b =
    if text_eq name (text "index")
    then (tensor_rank b >>= λ n.
        require (type_eq a (from_rank n)) assertion_error >> found (tensor_elem_type b))
    else if text_eq name (text "build")
    then (lam_arg_type b >>= λ s.
        require (type_eq s a) assertion_error
        >> (rank_of a >>= λ n. found (map_ok (tensor n) (lam_return_type b))))
    else if text_eq name (text "sumbuild")
    then (lam_arg_type b >>= λ s.
        require (type_eq s a) assertion_error >> found (lam_return_type b))
    else if text_eq name (text "constVec")
    then (rank_of a >>= λ n. ok (some (tensor n b)))
    else if text_eq name (text "map")
    then (require (is_lam_or_lm a) assertion_error
        >> (lam_arg_type a >>= λ s. lam_return_type a >>= λ t.
            require (is_tensor_of b s) assertion_error
            >> found (map_ok (λ n. tensor n t) (tensor_rank b))))
    else if is_comparison name
    then checked (type_eq a b) bool
    else if text_eq name (text "ts_add")
    then ok (some a)
    else if text_eq name (text "ts_dot")
    then checked (type_eq a b) float
    else if text_eq name (text "ts_scale")
    then checked (type_eq a float) b
    else ok none

-- The primitives of three arguments.
unfoldable pub prim_lookup_3 : Text → KsType → KsType → KsType → Result (Option KsType)
prim_lookup_3 name a b c =
    if text_eq name (text "deltaVec")
    then (require (type_eq a b) assertion_error >> (rank_of a >>= λ n. ok (some (tensor n c))))
    else if text_eq name (text "fold")
    then (require (is_lam_or_lm a) assertion_error
        >> (lam_arg_type a >>= λ s. tuple_len s >>= λ k.
            require (k == 2) assertion_error
            >> (tuple_elem s 0 >>= λ state. tuple_elem s 1 >>= λ elem_ty. lam_return_type a >>= λ r.
                checked (type_eq r state && (type_eq b state && is_tensor_of c elem_ty)) state)))
    else ok none

abbrev print_prim : Text → Result (Option KsType)
print_prim name = if text_eq name (text "print") then ok (some integer) else ok none

-- What the last test, for `print`, makes of a name that no other test took.
abbrev or_print : Text → Result (Option KsType) → Result (Option KsType)
or_print name (ok none) = print_prim name
or_print name r = r

-- The tests on the number of the arguments.
unfoldable pub prim_lookup_n : Text → List KsType → Result (Option KsType)
unfolding prim_lookup_1 prim_lookup_2 prim_lookup_3
prim_lookup_n name (a ∷ []) = or_print name (prim_lookup_1 name a)
prim_lookup_n name (a ∷ b ∷ []) = or_print name (prim_lookup_2 name a b)
prim_lookup_n name (a ∷ b ∷ c ∷ []) = or_print name (prim_lookup_3 name a b c)
prim_lookup_n name tys = print_prim name

-- `Vec_init`, where no element is taken for a float.
unfoldable pub vec_init : List KsType → Result (Option KsType)
vec_init [] = ok (some (tensor 1 float))
vec_init (t ∷ ts) = checked (all (λ u. type_eq u t) (t ∷ ts)) (tensor 1 t)

-- `get$n$m`, or any other name that begins so.
unfoldable pub get_prim : Text → KsType → Result (Option KsType)
unfolding get_groups child_before
get_prim name argtype = require (is_tuple argtype) assertion_error >> elim (get_groups name) [
  | none ↦ ok none
  | some (n, size) ↦ tuple_len argtype >>= λ k.
      require (k == size) assertion_error >> found (child_before n argtype)
]

abbrev is_get : Text → Bool
is_get name = elim (strip_prefix (text "get$") name) [ none ↦ false | some s ↦ true ]

unfoldable pub prim_lookup : StructuredName → KsType → Result (Option KsType)
unfolding get_prim vec_init prim_lookup_n
prim_lookup sname argtype =
    let name = mangle_without_type sname in
    let tys = operands argtype in
    if text_eq name (text "tuple")
    then ok (some (tuple (of_list tys)))
    else if is_get name
    then get_prim name argtype
    else if text_eq name (text "Vec_init")
    then vec_init tys
    else prim_lookup_n name tys

abbrev types_of : List Expr → List (Option KsType)
types_of [] = []
types_of (e ∷ es) = type_of e ∷ types_of es

unfoldable pub make_prim_call : StructuredName → Exprs → Result Expr
unfolding prim_lookup
make_prim_call sname elems = all_known (types_of (args_list elems)) >>= λ ts.
    prim_lookup sname (tuple ts) >>= λ r. elim r [
      | none ↦ err assertion_error
      | some t ↦ ok (call sname elems (some t))
    ]
