-- ===== src/Names.antt =====
-- src/python/ksc/expr.py, class StructuredName: plain names, names with an argument type, and
-- derivations of other names.
pub mod Laws
use knossos_ksc.Base.{
  ◌≡◌, refl, Bool, true, false, ◌&&◌, Option, none, some, List, [], ◌∷◌, ◌++◌, if◌then◌else◌, any,
  ◌==◌, not,
}
use knossos_ksc.Base.Text.{Text, text, text_eq}
use knossos_ksc.Base.Result.{
  Result, ok, err, attribute_error, assertion_error, map_ok, ◌>>◌, ◌>>=◌, require,
}
use knossos_ksc.Types.Defs.{KsType, type_eq, shortstr, type_str}

-- The field `se` is a string, a string with a type, or a string with a structured name.
pub data StructuredName : Type 0 where
  plain : Text → StructuredName
  typed : Text → KsType → StructuredName
  derived : Text → StructuredName → StructuredName

-- `$`.
abbrev pub dollar : Text
dollar = text "$"

unfoldable pub is_derivation : StructuredName → Bool
is_derivation (derived d s) = true
is_derivation _ = false

unfoldable pub is_derived : StructuredName → Text → Bool
is_derived (derived d s) derivation = text_eq d derivation
is_derived _ derivation = false

unfoldable pub mangled : StructuredName → Result Text
mangled (plain s) = ok s
mangled (typed s ty) = map_ok (λ t. s ++ text "@" ++ t) (shortstr [] [] ty)
mangled (derived d s) = map_ok (λ t. d ++ dollar ++ t) (mangled s)

unfoldable pub has_type : StructuredName → Bool
has_type (plain s) = false
has_type (typed s ty) = true
has_type (derived d s) = has_type s

unfoldable pub get_type : StructuredName → Option KsType
get_type (plain s) = none
get_type (typed s ty) = some ty
get_type (derived d s) = get_type s

-- The new name, and the type that it replaced.
unfoldable pub add_type : StructuredName → KsType → StructuredName × Option KsType
add_type (plain s) ty = (typed s ty, none)
add_type (typed s old) ty = (typed s ty, some old)
add_type (derived d s) ty = let (new, old) = add_type s ty in (derived d new, old)

unfoldable pub mangle_without_type : StructuredName → Text
mangle_without_type (plain s) = s
mangle_without_type (typed s ty) = s
mangle_without_type (derived d s) = d ++ dollar ++ mangle_without_type s

-- `__str__`.
unfoldable pub name_str : StructuredName → Text
name_str (plain s) = s
name_str (typed s ty) = text "[" ++ (s ++ (text " " ++ (type_str ty ++ text "]")))
name_str (derived d s) = text "[" ++ (d ++ (text " " ++ (name_str s ++ text "]")))

unfoldable pub from_str : Text → Result StructuredName
from_str s = require (not (any (λ c. c == b'$') s)) assertion_error >> ok (plain s)

-- `==`. Where a type is compared with a structured name, `Type.__eq__` reads a field `kind` that
-- a structured name has not.
unfoldable pub sname_eq : StructuredName → StructuredName → Result Bool
sname_eq (plain s) (plain t) = ok (text_eq s t)
sname_eq (typed s a) (typed t b) = ok (text_eq s t && type_eq a b)
sname_eq (derived d s) (derived e t) =
    let rest = sname_eq s t in if text_eq d e then rest else ok false
sname_eq (typed s a) (derived e t) = if text_eq s e then err attribute_error else ok false
sname_eq (derived d s) (typed t b) = if text_eq d t then err attribute_error else ok false
sname_eq _ _ = ok false

-- Equality of dictionary keys.
unfoldable pub sname_same : StructuredName → StructuredName → Bool
sname_same (plain s) (plain t) = text_eq s t
sname_same (typed s a) (typed t b) = text_eq s t && type_eq a b
sname_same (derived d s) (derived e t) = text_eq d e && sname_same s t
sname_same _ _ = false
