-- ===== src/Propagate/Calls.antt =====
-- src/python/ksc/type_propagate.py: the names of calls that have their types, and the calls.
use knossos_ksc.Base.{
  ◌≡◌, refl, ◌∙◌, sym, ap, Option, none, some, List, [], ◌∷◌, Option-cases, Bool-cases, inl, inr,
}
use knossos_ksc.Base.Result.{ok, err, attribute_error, ◌>>=◌, >>=-eq-ok}
use knossos_ksc.Base.Assoc.{lookup, text_key}
use knossos_ksc.Types.Defs.{KsType, type_eq, make_tuple_if_many, tangent_type}
use knossos_ksc.Types.Equality.{type_eq_refl}
use knossos_ksc.Names.{
  StructuredName, plain, typed, derived, add_type, mangle_without_type, is_derivation, mangled,
}
use knossos_ksc.Names.Laws.{add_type_lem, sname_key}
use knossos_ksc.Expr.{Expr, Exprs, call}
use knossos_ksc.Primitives.{prim_lookup}
use knossos_ksc.Propagate.{
  Symtab, infer_fn_type_from_derived_fn_args, fn_type_of, set_type, agreed, add_type_to_sname,
  typed_call, call_in_symtab, types_of, not_found, prim_or, first_elem, is_paired, is_unpaired,
}

pub ok-injective : {A : Type 0} {a b : A} → ok a ≡ ok b → a ≡ b
ok-injective h = cc h

-- The search for an unknown function ends in an error.
not_found_fails :
    (f : StructuredName) (ts : List (Option KsType)) (a : Option KsType) (e : Expr)
    → not_found f ts a ≡ ok e
    → ⊥
unfolding not_found
not_found_fails f [] a e h = let (s, _, k) = >>=-eq-ok (mangled f) _ h in cc k
not_found_fails f (t ∷ ts) none e h = let (s, _, k) = >>=-eq-ok (mangled f) _ h in cc k
not_found_fails f (t ∷ ts) (some a) e h =
    let (s, _, k) = >>=-eq-ok (mangled f) _ h in
    let (d, _, l) = >>=-eq-ok (tangent_type a) _ k in cc l

infer_again :
    (s : StructuredName) (a : Option KsType) (t : KsType)
    → infer_fn_type_from_derived_fn_args s a ≡ ok (some t)
    → infer_fn_type_from_derived_fn_args (add_type s t).0 a ≡ ok (some t)
unfolding infer_fn_type_from_derived_fn_args add_type
infer_again (plain s) a t h = refl
infer_again (typed s ty) a t h = refl
infer_again (derived d s) a t h = elim (Bool-cases (is_paired d)) [
  | inl paired ↦
      let (b, first, deeper) = >>=-eq-ok (first_elem a) _ (rw paired at h) in
      rw (paired, first) (infer_again s b t deeper)
  | inr other ↦ elim (Bool-cases (is_unpaired d)) [
    | inl unpaired ↦ rw (other, unpaired) (infer_again s a t (rw (other, unpaired) at h))
    | inr neither ↦ rw (other, neither) (ap ok (add_type_lem (derived d s) t t).0)
  ]
]

set_type_again :
    (s : StructuredName) (t : Option KsType) (s' : StructuredName)
    → set_type s t ≡ ok s'
    → (u : KsType) × (t ≡ some u) × (s' ≡ (add_type s u).0)
set_type_again s none s' h = cc
set_type_again s (some u) s' h = (u, refl, agreed_same (add_type s u).0 (add_type s u).1 u s' h)
  where
    agreed_same :
        (f : StructuredName) (old : Option KsType) (u : KsType) (f' : StructuredName)
        → agreed f old u ≡ ok f'
        → f' ≡ f
    agreed_same f none u f' h = cc h
    agreed_same f (some old) u f' h = elim (Bool-cases (type_eq old u)) [
      | inl e ↦ cc (rw e at h)
      | inr e ↦ cc (rw e at h)
    ]

is_derivation-add_type :
    (s : StructuredName) (t : KsType) → is_derivation (add_type s t).0 ≡ is_derivation s
unfolding is_derivation add_type
is_derivation-add_type (plain s) t = refl
is_derivation-add_type (typed s u) t = refl
is_derivation-add_type (derived d s) t = refl

fn_type_again :
    (s : StructuredName) (a : Option KsType) (t : KsType)
    → fn_type_of s a ≡ ok (some t)
    → fn_type_of (add_type s t).0 a ≡ ok (some t)
fn_type_again s a t h = elim (Bool-cases (is_derivation s)) [
  | inl e ↦ rw (is_derivation-add_type s t, e) (infer_again s a t (rw e at h))
  | inr e ↦ rw (is_derivation-add_type s t, e) (rw e at h)
]

-- A name that has got its type gets it again, and is the same name but for its type.
add_type_to_sname_again :
    (s s' : StructuredName) (a : Option KsType)
    → add_type_to_sname s a ≡ ok s'
    → (add_type_to_sname s' a ≡ ok s') × (mangle_without_type s' ≡ mangle_without_type s)
unfolding add_type_to_sname
add_type_to_sname_again s s' a h =
    let (o, found, set) = >>=-eq-ok (fn_type_of s a) (set_type s) h in
    let (t, is_t, is_new) = set_type_again s o s' set in
    let (has, was, same, over) = add_type_lem s t t in
    let (has', was', same', over') = add_type_lem (add_type s t).0 t t in
    let again : fn_type_of (add_type s t).0 a ≡ ok (some t) =
      fn_type_again s a t (found ∙ ap ok is_t) in
    rw is_new (rw (again, was', has, type_eq_refl t) (ap ok over), same)

prim_lookup_same :
    (f g : StructuredName) (a : KsType)
    → mangle_without_type f ≡ mangle_without_type g
    → prim_lookup f a ≡ prim_lookup g a
unfolding prim_lookup
prim_lookup_same f g a h = rw h refl

or_call :
    (f : StructuredName) (es : Exprs) (a : Option KsType) (st : Symtab) (t : Option KsType)
    (e : Expr)
    → lookup f st.fun_types ≡ some t
    → call f es t ≡ e
    → elim (lookup f st.fun_types) [
      | none ↦ not_found f (types_of es) a
      | some u ↦ ok (call f es u)
    ]
      ≡ ok e
or_call f es a st t e found h = rw found (ap ok h)

call_in_symtab_again :
    (f : StructuredName) (es : Exprs) (a : KsType) (st : Symtab) (e : Expr)
    → call_in_symtab f es (some a) st ≡ ok e
    → (f' : StructuredName) × (t : Option KsType) × (e ≡ call f' es t)
      × (mangle_without_type f' ≡ mangle_without_type f)
      × (call_in_symtab f' es (some a) st ≡ ok e)
unfolding call_in_symtab
call_in_symtab_again f es a st e h =
    let (f', named, rest) = >>=-eq-ok (add_type_to_sname f (some a)) _ h in
    let (again, same) = add_type_to_sname_again f f' (some a) named in
    elim (Option-cases (lookup f' st.fun_types)) [
      | inl missing ↦ absurd (not_found_fails f' (types_of es) (some a) e (rw missing at rest))
      | inr (t, found) ↦
          let is_e : call f' es t ≡ e = ok-injective (rw found at rest) in
          (f', t, sym is_e, same, rw again (or_call f' es (some a) st t e found is_e))
    ]

-- A typed call is typed again to itself.
pub typed_call_again :
    (f : StructuredName) (es : Exprs) (st : Symtab) (e : Expr)
    → typed_call f es st ≡ ok e
    → (f' : StructuredName) × (t : Option KsType) × (e ≡ call f' es t)
      × (typed_call f' es st ≡ ok e)
unfolding typed_call
typed_call_again f es st e h =
    let (a, tuple_type, rest) = >>=-eq-ok (make_tuple_if_many (types_of es)) _ h in
    at_type a tuple_type rest
  where
    at_prim :
        (a : KsType) (p : Option KsType)
        → make_tuple_if_many (types_of es) ≡ ok (some a)
        → prim_lookup f a ≡ ok p
        → prim_or p f es (call_in_symtab f es (some a) st) ≡ ok e
        → (f' : StructuredName) × (t : Option KsType) × (e ≡ call f' es t)
          × (typed_call f' es st ≡ ok e)
    at_prim a (some t) tuple_type found k =
        (f, some t, sym (ok-injective k), rw (tuple_type, found) k)
    at_prim a none tuple_type found k =
        let (f', t, is_e, same, again) = call_in_symtab_again f es a st e k in
        (f', t, is_e, rw (tuple_type, prim_lookup_same f' f a same, found) again)

    at_type :
        (o : Option KsType)
        → make_tuple_if_many (types_of es) ≡ ok o
        → elim o [
          | none ↦ err attribute_error
          | some a ↦ prim_lookup f a >>= λ prim. prim_or prim f es (call_in_symtab f es (some a) st)
        ]
          ≡ ok e
        → (f' : StructuredName) × (t : Option KsType) × (e ≡ call f' es t)
          × (typed_call f' es st ≡ ok e)
    at_type none tuple_type k = cc k
    at_type (some a) tuple_type k =
        let (p, found, rest) = >>=-eq-ok (prim_lookup f a) _ k in at_prim a p tuple_type found rest
