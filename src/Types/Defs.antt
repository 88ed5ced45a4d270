-- ===== src/Types/Defs.antt =====
-- src/python/ksc/type.py: the class `Type`, its predicates, accessors and the functions on types.
-- A type's children are the fields of its constructor: a rank and a type under a tensor, `KsTypes`
-- under a tuple. Ranks are natural numbers.
use knossos_ksc.Base.{
  ℕ, ◌+◌, ◌*◌, ◌^◌, Bool, true, false, ◌&&◌, ◌||◌, List, [], ◌∷◌, ◌++◌, Option, none, some, ◌==◌,
  if◌then◌else◌, replicate, length, get_elem?, all,
}
use knossos_ksc.Base.Result.{
  Result, ok, err, index_error, assertion_error, not_implemented, type_error, value_error, ◌>>=◌,
  map_ok,
}
use knossos_ksc.Base.Text.{Text, text}
use knossos_ksc.Base.Decimal

mutual
  pub data KsType : Type 0 where
    string float integer bool any_type : KsType
    tensor : ℕ → KsType → KsType
    tuple : KsTypes → KsType
    lam_type lm_type : KsType → KsType → KsType

  pub data KsTypes : Type 0 where
    nil : KsTypes
    cons : KsType → KsTypes → KsTypes

abbrev pub to_list : KsTypes → List KsType
to_list nil = []
to_list (cons t ts) = t ∷ to_list ts

abbrev pub of_list : List KsType → KsTypes
of_list [] = nil
of_list (t ∷ ts) = cons t (of_list ts)

-- `__eq__`.
unfoldable mutual
  pub type_eq : KsType → KsType → Bool
  type_eq string string = true
  type_eq float float = true
  type_eq integer integer = true
  type_eq bool bool = true
  type_eq any_type any_type = true
  type_eq (tensor m s) (tensor n t) = (m == n) && type_eq s t
  type_eq (tuple ss) (tuple ts) = types_eq ss ts
  type_eq (lam_type a r) (lam_type b s) = type_eq a b && type_eq r s
  type_eq (lm_type a r) (lm_type b s) = type_eq a b && type_eq r s
  type_eq _ _ = false

  pub types_eq : KsTypes → KsTypes → Bool
  types_eq nil nil = true
  types_eq (cons s ss) (cons t ts) = type_eq s t && types_eq ss ts
  types_eq _ _ = false

abbrev pub is_scalar : KsType → Bool
is_scalar integer = true
is_scalar float = true
is_scalar bool = true
is_scalar string = true
is_scalar _ = false

abbrev pub is_lam_or_lm : KsType → Bool
is_lam_or_lm (lam_type a r) = true
is_lam_or_lm (lm_type a r) = true
is_lam_or_lm _ = false

abbrev pub is_tensor : KsType → Bool
is_tensor (tensor n t) = true
is_tensor _ = false

abbrev pub is_tuple : KsType → Bool
is_tuple (tuple ts) = true
is_tuple _ = false

unfoldable mutual
  pub can_accept_value_of_type : KsType → KsType → Bool
  can_accept_value_of_type any_type other = true
  can_accept_value_of_type string string = true
  can_accept_value_of_type float float = true
  can_accept_value_of_type integer integer = true
  can_accept_value_of_type bool bool = true
  can_accept_value_of_type (tensor m s) (tensor n t) = (m == n) && can_accept_value_of_type s t
  can_accept_value_of_type (tuple ss) (tuple ts) = can_accept_all ss ts
  can_accept_value_of_type (lam_type a r) (lam_type b s) =
      can_accept_value_of_type a b && can_accept_value_of_type r s
  can_accept_value_of_type (lm_type a r) (lm_type b s) =
      can_accept_value_of_type a b && can_accept_value_of_type r s
  can_accept_value_of_type _ _ = false

  pub can_accept_all : KsTypes → KsTypes → Bool
  can_accept_all nil nil = true
  can_accept_all (cons s ss) (cons t ts) = can_accept_value_of_type s t && can_accept_all ss ts
  can_accept_all _ _ = false

unfoldable mutual
  pub contains_any : KsType → Bool
  contains_any any_type = true
  contains_any (tensor n t) = contains_any t
  contains_any (tuple ts) = any_contains_any ts
  contains_any (lam_type a r) = contains_any a || contains_any r
  contains_any (lm_type a r) = contains_any a || contains_any r
  contains_any _ = false

  pub any_contains_any : KsTypes → Bool
  any_contains_any nil = false
  any_contains_any (cons t ts) = contains_any t || any_contains_any ts

-- The accessors assert the kind that they need.
abbrev pub tensor_rank : KsType → Result ℕ
tensor_rank (tensor n t) = ok n
tensor_rank _ = err assertion_error

abbrev pub tensor_elem_type : KsType → Result KsType
tensor_elem_type (tensor n t) = ok t
tensor_elem_type _ = err assertion_error

abbrev pub is_tensor_of : KsType → KsType → Bool
is_tensor_of (tensor n t) ty = type_eq t ty
is_tensor_of _ ty = false

abbrev pub tuple_elems : KsType → Result (List KsType)
tuple_elems (tuple ts) = ok (to_list ts)
tuple_elems _ = err assertion_error

abbrev pub tuple_len : KsType → Result ℕ
tuple_len (tuple ts) = ok (length (to_list ts))
tuple_len _ = err assertion_error

abbrev nth : Option KsType → Result KsType
nth (some t) = ok t
nth none = err index_error

abbrev pub tuple_elem : KsType → ℕ → Result KsType
tuple_elem (tuple ts) i = nth (get_elem? (to_list ts) i)
tuple_elem _ i = err assertion_error

abbrev pub lam_return_type : KsType → Result KsType
lam_return_type (lam_type a r) = ok r
lam_return_type (lm_type a r) = ok r
lam_return_type _ = err assertion_error

abbrev pub lam_arg_type : KsType → Result KsType
lam_arg_type (lam_type a r) = ok a
lam_arg_type (lm_type a r) = ok a
lam_arg_type _ = err assertion_error

-- The method returns Python's None for Any: no arithmetic accepts that.
abbrev number : Option ℕ → Result ℕ
number (some n) = ok n
number none = err type_error

unfoldable mutual
  pub num_elements : ℕ → KsType → Result (Option ℕ)
  num_elements size (tuple ts) = map_ok some (num_elements_sum size ts)
  num_elements size (tensor n t) =
      num_elements size t >>= λ e. number e >>= λ k. ok (some (size ^ n * k))
  num_elements size any_type = ok none
  num_elements size _ = ok (some 1)

  pub num_elements_sum : ℕ → KsTypes → Result ℕ
  num_elements_sum size nil = ok 0
  num_elements_sum size (cons t ts) =
      num_elements size t >>= λ e. number e >>= λ k. map_ok (λ r. k + r) (num_elements_sum size ts)

-- The set of the types of the leaves, as a list.
unfoldable mutual
  pub all_element_types : KsType → List KsType
  all_element_types (tuple ts) = all_element_types_of ts
  all_element_types (tensor n t) = all_element_types t
  all_element_types t = t ∷ []

  pub all_element_types_of : KsTypes → List KsType
  all_element_types_of nil = []
  all_element_types_of (cons t ts) = all_element_types t ++ all_element_types_of ts

abbrev one_more : Option ℕ → ℕ
one_more (some n) = n + 1
one_more none = 1

unfoldable pub ndim_recursive : KsType → Option ℕ
ndim_recursive (tensor n t) = some (one_more (ndim_recursive t))
ndim_recursive integer = some 0
ndim_recursive float = some 0
ndim_recursive bool = some 0
ndim_recursive string = some 0
ndim_recursive _ = none

-- Children are printed with the default brackets, whatever the brackets of the outermost tuple.
unfoldable mutual
  pub shortstr : Text → Text → KsType → Result Text
  shortstr tb te integer = ok (text "i")
  shortstr tb te bool = ok (text "b")
  shortstr tb te string = ok (text "s")
  shortstr tb te float = ok (text "f")
  shortstr tb te (lam_type a r) = ok (text "l")
  shortstr tb te (lm_type a r) = ok (text "l")
  shortstr tb te (tuple ts) = map_ok (λ s. tb ++ s ++ te) (shortstrs ts)
  shortstr tb te (tensor n t) =
      map_ok (λ s. text "T" ++ Decimal.print n ++ s) (shortstr (text "<") (text ">") t)
  shortstr tb te any_type = err value_error

  pub shortstrs : KsTypes → Result Text
  shortstrs nil = ok []
  shortstrs (cons t ts) =
      shortstr (text "<") (text ">") t >>= λ s. map_ok (λ r. s ++ r) (shortstrs ts)

-- `__str__`.
unfoldable mutual
  pub type_str : KsType → Text
  type_str string = text "String"
  type_str float = text "Float"
  type_str integer = text "Integer"
  type_str bool = text "Bool"
  type_str any_type = text "Any"
  type_str (tensor n t) =
      text "(Tensor " ++ (Decimal.print n ++ (text " " ++ (type_str t ++ text ")")))
  type_str (tuple ts) = text "(Tuple" ++ (type_strs ts ++ text ")")
  type_str (lam_type a r) = text "(Lam " ++ (type_str a ++ (text "(" ++ (type_str r ++ text "))")))
  type_str (lm_type a r) = text "(LM " ++ (type_str a ++ (text "(" ++ (type_str r ++ text "))")))

  pub type_strs : KsTypes → Text
  type_strs nil = []
  type_strs (cons t ts) = text " " ++ (type_str t ++ type_strs ts)

-- A missing type is Python's None, which `Type.Tuple` refuses.
abbrev pub known : Option KsType → Result KsType
known (some t) = ok t
known none = err assertion_error

unfoldable pub all_known : List (Option KsType) → Result KsTypes
all_known [] = ok nil
all_known (t ∷ ts) = known t >>= λ u. map_ok (cons u) (all_known ts)

unfoldable pub make_tuple_if_many : List (Option KsType) → Result (Option KsType)
unfolding all_known
make_tuple_if_many (t ∷ []) = ok t
make_tuple_if_many ts = map_ok (λ us. some (tuple us)) (all_known ts)

unfoldable pub from_rank : ℕ → KsType
from_rank n = if n == 1 then integer else tuple (of_list (replicate n integer))

unfoldable pub get_rank : KsType → Option ℕ
get_rank integer = some 1
get_rank (tuple ts) =
    if all (λ t. type_eq t integer) (to_list ts) then some (length (to_list ts)) else none
get_rank _ = none

unfoldable mutual
  pub tangent_type : KsType → Result KsType
  tangent_type string = ok (tuple nil)
  tangent_type integer = ok (tuple nil)
  tangent_type bool = ok (tuple nil)
  tangent_type float = ok float
  tangent_type (tuple ts) = map_ok tuple (tangent_types ts)
  tangent_type (tensor n t) = map_ok (tensor n) (tangent_type t)
  tangent_type _ = err not_implemented

  pub tangent_types : KsTypes → Result KsTypes
  tangent_types nil = ok nil
  tangent_types (cons t ts) = tangent_type t >>= λ s. map_ok (cons s) (tangent_types ts)

abbrev pub tuple_shape : KsTypes → KsType
tuple_shape ss = if all is_scalar (to_list ss) then tuple nil else tuple ss

unfoldable mutual
  pub shape_type : KsType → Result KsType
  shape_type integer = ok (tuple nil)
  shape_type float = ok (tuple nil)
  shape_type bool = ok (tuple nil)
  shape_type string = ok (tuple nil)
  shape_type (tuple ts) = map_ok tuple_shape (shape_types ts)
  shape_type (tensor n t) =
      let inner = map_ok (tensor n) (shape_type t) in
      if is_scalar t then ok (from_rank n) else inner
  shape_type _ = err not_implemented

  pub shape_types : KsTypes → Result KsTypes
  shape_types nil = ok nil
  shape_types (cons t ts) = shape_type t >>= λ s. map_ok (cons s) (shape_types ts)
