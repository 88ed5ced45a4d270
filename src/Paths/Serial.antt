-- ===== src/Paths/Serial.antt =====
-- src/python/ksc/path.py: `serialize_path` and `deserialize_path`.
use knossos_ksc.Base.{
  ℕ, ◌≡◌, ◌≢◌, refl, ap, Bool, true, false, Option, none, some, List, [], ◌∷◌, ◌++◌, map,
  if◌then◌else◌, all, &&-left, &&-right, ◌==◌,
}
use knossos_ksc.Base.Text.{Text, text, text_eq}
use knossos_ksc.Base.Decimal.{print, value, is_digit, value-print, all-print}
use knossos_ksc.Base.Result.{Result, ok, err, value_error, ◌>>=◌, map_ok}
use knossos_ksc.Paths.{
  PathElement, ExprPath, let_rhs, let_body, if_cond, if_t_body, if_f_body, assert_cond, assert_body,
  lam_body, call_arg,
}

-- `__str__` of an element.
unfoldable pub element_str : PathElement → Text
element_str let_rhs = text "let_rhs"
element_str let_body = text "let_body"
element_str if_cond = text "if_cond"
element_str if_t_body = text "if_t_body"
element_str if_f_body = text "if_f_body"
element_str assert_cond = text "assert_cond"
element_str assert_body = text "assert_body"
element_str lam_body = text "lam_body"
element_str (call_arg n) = text "call_args[" ++ (print n ++ text "]")

unfoldable pub serialize_path : ExprPath → List Text
unfolding element_str
serialize_path path = map element_str path

-- `_known_field_elements.get`.
abbrev field_elements : List (Text × PathElement)
field_elements =
    (text "let_rhs", let_rhs)
    ∷ (text "let_body", let_body)
    ∷ (text "if_cond", if_cond)
    ∷ (text "if_t_body", if_t_body)
    ∷ (text "if_f_body", if_f_body)
    ∷ (text "assert_cond", assert_cond)
    ∷ (text "assert_body", assert_body)
    ∷ (text "lam_body", lam_body)
    ∷ []

known_field : Text → List (Text × PathElement) → Option PathElement
known_field s [] = none
known_field s ((k, pe) ∷ l) = if text_eq k s then some pe else known_field s l

abbrev prepend : ℕ → Text × Text → Text × Text
prepend c (a, b) = (c ∷ a, b)

-- The longest prefix of digits, and what follows it.
unfoldable pub span_digits : Text → Text × Text
span_digits [] = ([], [])
span_digits (c ∷ s) =
    let more = prepend c (span_digits s) in if is_digit c then more else ([], c ∷ s)

unfoldable pub strip_prefix : Text → Text → Option Text
strip_prefix [] s = some s
strip_prefix (c ∷ p) [] = none
strip_prefix (c ∷ p) (d ∷ s) = let rest = strip_prefix p s in if c == d then rest else none

abbrev closes : Text → Bool
closes [] = false
closes (c ∷ s) = c == b']'

-- At least one digit and then a bracket; the match need not reach the end of the text.
abbrev read_index : Text × Text → Result PathElement
read_index ([], rest) = err value_error
read_index (d ∷ ds, rest) = if closes rest then ok (call_arg (value (d ∷ ds))) else err value_error

abbrev read_call_arg : Option Text → Result PathElement
read_call_arg none = err value_error
read_call_arg (some s) = read_index (span_digits s)

abbrev or_call_arg : Option PathElement → Text → Result PathElement
or_call_arg (some pe) s = ok pe
or_call_arg none s = read_call_arg (strip_prefix (text "call_args[") s)

unfoldable pub deserialize_elem : Text → Result PathElement
unfolding known_field
deserialize_elem s = or_call_arg (known_field s field_elements) s

unfoldable pub deserialize_path : List Text → Result ExprPath
unfolding deserialize_elem
deserialize_path [] = ok []
deserialize_path (s ∷ l) = deserialize_elem s >>= λ pe. map_ok (λ p. pe ∷ p) (deserialize_path l)

span_digits-append :
    (ds rest : Text) → all is_digit ds ≡ true → span_digits (ds ++ b']' ∷ rest) ≡ (ds, b']' ∷ rest)
unfolding span_digits
span_digits-append [] rest h = refl
span_digits-append (d ∷ ds) rest h =
    rw (&&-left (is_digit d) _ h, span_digits-append ds rest (&&-right (is_digit d) _ h))

print-ne-nil : (n : ℕ) → print n ≢ []
unfolding print value
print-ne-nil n h = let zero_only : n ≡ 0 = sym_value n h in cc (rw zero_only at h)
  where
    sym_value : (n : ℕ) → print n ≡ [] → n ≡ 0
    sym_value n h = cc (value-print n)

read_index-digits :
    (ds : Text) (n : ℕ) → ds ≢ [] → value ds ≡ n → read_index (ds, text "]") ≡ ok (call_arg n)
read_index-digits [] n ne v = absurd (ne refl)
read_index-digits (d ∷ ds) n ne v = ap (λ k. ok (call_arg k)) v

deserialize_elem-element_str : (pe : PathElement) → deserialize_elem (element_str pe) ≡ ok pe
unfolding deserialize_elem element_str text_eq strip_prefix
deserialize_elem-element_str let_rhs = refl
deserialize_elem-element_str (call_arg n) =
    rw (span_digits-append (print n) [] (all-print n))
      (read_index-digits (print n) n (print-ne-nil n) (value-print n))
deserialize_elem-element_str _ = refl

-- Reading a serialized path gives the path.
pub deserialize-serialize : (path : ExprPath) → deserialize_path (serialize_path path) ≡ ok path
unfolding deserialize_path serialize_path
deserialize-serialize [] = refl
deserialize-serialize (pe ∷ path) = rw (deserialize_elem-element_str pe, deserialize-serialize path)
