-- ===== src/Types/Size.antt =====
-- src/python/ksc/type.py: `SizeType`, the index types of tensors, and `shape_type`.
use knossos_ksc.Base.{
  ℕ, zero, suc, ◌≡◌, refl, ap, sym, ◌⊎◌, inl, inr, true, List, [], ◌∷◌, some, arith, ◌==◌, ==_iff,
  replicate, length, map, length-replicate, all, Bool-cases, &&-left, &&-right, ◌∙◌, ap₂,
}
use knossos_ksc.Base.Result.{ok, map_ok}
use knossos_ksc.Types.Defs.{
  KsType, KsTypes, string, float, integer, bool, tensor, tuple, nil, cons, type_eq, to_list,
  of_list, from_rank, get_rank, shape_type, shape_types, tuple_shape, is_scalar,
}
use knossos_ksc.Types.Equality.{type_eq→eq}

to_list-of_list : (ts : List KsType) → to_list (of_list ts) ≡ ts
to_list-of_list [] = refl
to_list-of_list (t ∷ ts) = ap (λ r. t ∷ r) (to_list-of_list ts)

of_list-to_list : (ts : KsTypes) → of_list (to_list ts) ≡ ts
of_list-to_list nil = refl
of_list-to_list (cons t ts) = ap (cons t) (of_list-to_list ts)

all_integer-replicate : (n : ℕ) → all (λ t. type_eq t integer) (replicate n integer) ≡ true
unfolding type_eq
all_integer-replicate zero = refl
all_integer-replicate (suc n) = all_integer-replicate n

get_rank-tuple :
    (ts : List KsType)
    → all (λ t. type_eq t integer) ts ≡ true
    → get_rank (tuple (of_list ts)) ≡ some (length ts)
unfolding get_rank
get_rank-tuple ts h = rw (to_list-of_list ts, h)

-- The rank of the index type of a tensor of rank `n` is `n`.
pub get_rank-from_rank : (n : ℕ) → get_rank (from_rank n) ≡ some n
unfolding from_rank get_rank
get_rank-from_rank n = elim (Bool-cases (n == 1)) [
  | inl one ↦ rw one (ap some (sym_eq n one))
  | inr other ↦ rw (
    other,
    to_list-of_list (replicate n integer),
    all_integer-replicate n,
    length-replicate n integer,
  )
]
  where
    sym_eq : (n : ℕ) → (n == 1) ≡ true → 1 ≡ n
    sym_eq n h = ground arith

all_integer→replicate :
    (ts : List KsType) → all (λ t. type_eq t integer) ts ≡ true → ts ≡ replicate (length ts) integer
all_integer→replicate [] h = refl
all_integer→replicate (t ∷ ts) h =
    ap₂ ◌∷◌ (type_eq→eq t integer (&&-left _ _ h))
      (all_integer→replicate ts (&&-right (type_eq t integer) _ h))

tuple_of_rank :
    (ts : KsTypes) (m n : ℕ)
    → ts ≡ of_list (replicate m integer)
    → m ≡ n
    → (tuple ts ≡ from_rank n) ⊎ ((tuple ts ≡ tuple (cons integer nil)) × (n ≡ 1))
unfolding from_rank
tuple_of_rank ts m n e q = elim (Bool-cases (n == 1)) [
  | inl one ↦
      let m_one : m ≡ 1 = q ∙ (==_iff n 1).0 one in
      inr (ap tuple (rw m_one at e), (==_iff n 1).0 one)
  | inr other ↦ inl (rw (other, ← q) (ap tuple e))
]

-- A type of rank `n` is the index type of rank `n`, or else it is the one-element tuple of an
-- integer, which has rank 1 while the index type of rank 1 is the integer itself.
pub get_rank-inverse :
    (t : KsType) (n : ℕ)
    → get_rank t ≡ some n
    → (t ≡ from_rank n) ⊎ ((t ≡ tuple (cons integer nil)) × (n ≡ 1))
unfolding get_rank from_rank
get_rank-inverse integer n h = inl (ground arith)
get_rank-inverse (tuple ts) n h = elim (Bool-cases (all (λ u. type_eq u integer) (to_list ts))) [
  | inl e ↦
      let flat : ts ≡ of_list (replicate (length (to_list ts)) integer) =
        sym (of_list-to_list ts) ∙ ap of_list (all_integer→replicate (to_list ts) e) in
      let count : length (to_list ts) ≡ n = cc (rw e at h) in
      tuple_of_rank ts (length (to_list ts)) n flat count
  | inr e ↦ absurd (cc (rw e at h))
]
get_rank-inverse _ n h = cc

shape_types-vectors :
    (ts : List KsType)
    → all is_scalar ts ≡ true
    → shape_types (of_list (map (tensor 1) ts)) ≡ ok (of_list (replicate (length ts) integer))
unfolding shape_type from_rank
shape_types-vectors [] h = refl
shape_types-vectors (t ∷ ts) h =
    rw (&&-left (is_scalar t) _ h, shape_types-vectors ts (&&-right (is_scalar t) _ h))

shape_types-scalars :
    (ts : List KsType)
    → all is_scalar ts ≡ true
    → shape_types (of_list ts) ≡ ok (of_list (replicate (length ts) (tuple nil)))
unfolding shape_type
shape_types-scalars [] h = refl
shape_types-scalars (integer ∷ ts) h = rw (shape_types-scalars ts h)
shape_types-scalars (float ∷ ts) h = rw (shape_types-scalars ts h)
shape_types-scalars (bool ∷ ts) h = rw (shape_types-scalars ts h)
shape_types-scalars (string ∷ ts) h = rw (shape_types-scalars ts h)
shape_types-scalars (_ ∷ ts) h = cc

all_scalar-replicate : (n : ℕ) → all is_scalar (replicate n integer) ≡ true
all_scalar-replicate zero = refl
all_scalar-replicate (suc n) = all_scalar-replicate n

tuple_shape-integers : (n : ℕ) → tuple_shape (of_list (replicate n integer)) ≡ tuple nil
tuple_shape-integers n = rw (to_list-of_list (replicate n integer), all_scalar-replicate n)

-- The shape of a tuple of vectors of scalars, which is the tuple of their lengths, gets the type
-- of the empty tuple; while a tuple with a scalar first, and only scalars after it, whose shape
-- says nothing, gets a tuple of as many empty tuples.
pub shape_type-tuple :
    (t : KsType) (ts : List KsType)
    → all is_scalar (t ∷ ts) ≡ true
    → (shape_type (tuple (of_list (map (tensor 1) (t ∷ ts)))) ≡ ok (tuple nil))
      × (shape_type (tuple (of_list (t ∷ ts)))
          ≡ ok (tuple (of_list (replicate (suc (length ts)) (tuple nil)))))
unfolding shape_type
shape_type-tuple t ts h = (
  ap (map_ok tuple_shape) (shape_types-vectors (t ∷ ts) h)
      ∙ ap ok (tuple_shape-integers (length (t ∷ ts))),
  rw (shape_types-scalars (t ∷ ts) h),
)
