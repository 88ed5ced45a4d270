-- ===== src/Alpha/Hash/Agree.antt =====
-- src/python/ksc/alpha_equiv.py: where no binder shadows another, equivalent expressions are given
-- one hash.
use knossos_ksc.Base.{
  ℕ, suc, ◌≡◌, refl, sym, ap, ap₂, ◌∙◌, Bool, true, false, ◌&&◌, not, ◌⊎◌, Option-cases, none, some,
  List, [], ◌∷◌, arith, if◌then◌else◌, ◌==◌, length, Bool-cases, inl, inr, &&-left, &&-right,
  ||-left_false, ||-right_false,
}
use knossos_ksc.Base.Text.{Text, text, text_eq, text_eq→eq, text_eq_comm, elem}
use knossos_ksc.Base.Result.{ok, ◌>>=◌, map_ok}
use knossos_ksc.Base.Assoc.{text_key, lookup, insert, lookup-insert}
use knossos_ksc.Names.{name_str, sname_eq}
use knossos_ksc.Expr.{
  Constant, string_value, one, many, Expr, Exprs, const, var, call, lam, let_in, if_else, assert,
  no_args, arg, args_list,
}
use knossos_ksc.Alpha.{
  BoundVarBijection, vars_equal, add_var, get_filter_term, filter_eq, alpha_helper, all_alpha,
  are_alpha_equivalent, no_vars,
}
use knossos_ksc.Alpha.Same.{never, Python, is_regular, sharing_irrelevant}
use knossos_ksc.Alpha.Sound.{
  and_then-true, vars_equal-add_var, same_head-true, if-true, sname_eq→eq, length_tail,
}
use knossos_ksc.Alpha.Hash.{
  Hashes, Positions, add_position, constant_hash, position_hash, alpha_hash, alpha_hash_args,
  hash_with_alpha, no_shadow, no_shadow_args,
}

-- The positions on the two sides: of one length, and the same for names that the bijection joins;
-- joined names with no position are one name.
record Tracks (vm : BoundVarBijection) (vars vars' : Positions) : Type 0 where
  lengths : length vars ≡ length vars'
  joined : (x y : Text) → vars_equal vm x y ≡ true → lookup x vars ≡ lookup y vars'
  free : (x y : Text) → vars_equal vm x y ≡ true → lookup x vars ≡ none → x ≡ y

-- Every name with a position stands in the list.
abbrev Covered : List Text → Positions → Type 0
Covered bound vars = (x : Text) → elem x bound ≡ false → lookup x vars ≡ none

pub length-insert :
    (x : Text) (n : ℕ) (vars : Positions)
    → lookup x vars ≡ none
    → length (insert x n vars) ≡ suc (length vars)
unfolding lookup insert
length-insert x n [] h = refl
length-insert x n ((y, k) ∷ vars) h = elim (Bool-cases (text_eq y x)) [
  | inl e ↦ absurd (some_ne k (rw e at h))
  | inr e ↦ rw e (ap suc (length-insert x n vars (rw e at h)))
]
  where
    some_ne : (k : ℕ) → some k ≡ none → ⊥
    some_ne k e = cc

Covered-add :
    (bound : List Text) (x : Text) (vars : Positions)
    → Covered bound vars
    → Covered (x ∷ bound) (add_position vars x)
unfolding add_position
Covered-add bound x vars c y h =
    rw (lookup-insert x y (length vars) vars, text_eq_comm x y, ||-left_false (text_eq y x) _ h)
      (c y (||-right_false (text_eq y x) _ h))

split_update :
    (b c r : Bool)
    → (if b then c else if c then false else r) ≡ true
    → ((b ≡ true) × (c ≡ true)) ⊎ ((b ≡ false) × (c ≡ false) × (r ≡ true))
split_update b c r h = ground arith

Tracks-add :
    (vm : BoundVarBijection) (a b : Text) (vars vars' : Positions) (bound bound' : List Text)
    → Tracks vm vars vars'
    → lookup a vars ≡ none
    → lookup b vars' ≡ none
    → Tracks (add_var vm a b) (add_position vars a) (add_position vars' b)
unfolding add_position
Tracks-add vm a b vars vars' bound bound' t ha hb = record {
  lengths =
      length-insert a (length vars) vars ha
      ∙ ap suc t.lengths
      ∙ sym (length-insert b (length vars') vars' hb);
  joined = λ x y h.
      elim (split_update (text_eq a x) (text_eq b y) (vars_equal vm x y)
        (sym (vars_equal-add_var vm a b x y) ∙ h)) [
          | inl (p, q) ↦
              rw
                (lookup-insert a x (length vars) vars, lookup-insert b y (length vars') vars', p, q)
                (ap some t.lengths)
          | inr (p, q, r) ↦
              rw
                (lookup-insert a x (length vars) vars, lookup-insert b y (length vars') vars', p, q)
                (t.joined x y r)
        ];
  free = λ x y h k.
      elim (split_update (text_eq a x) (text_eq b y) (vars_equal vm x y)
        (sym (vars_equal-add_var vm a b x y) ∙ h)) [
          | inl (p, q) ↦
              absurd (some_ne (length vars) (rw (lookup-insert a x (length vars) vars, p) at k))
          | inr (p, q, r) ↦ t.free x y r (rw (lookup-insert a x (length vars) vars, p) at k)
        ];
}
  where
    some_ne : (k : ℕ) → some k ≡ none → ⊥
    some_ne k e = cc

-- What Python promises of `hash`: constants that it finds equal have one hash, and a string is
-- equal to itself alone.
pub record HashLaws (equal : Constant → Constant → Bool) (h : Hashes) : Type 0 where
  pub value_eq : (c d : Constant) → equal c d ≡ true → h.of_value c ≡ h.of_value d
  pub string_left : (s : Text) (d : Constant) → equal (string_value s) d ≡ true → d ≡ string_value s
  pub string_right :
      (c : Constant) (s : Text) → equal c (string_value s) ≡ true → c ≡ string_value s

constant_hash_eq :
    (equal : Constant → Constant → Bool) (h : Hashes) (laws : HashLaws equal h) (c d : Constant)
    → equal c d ≡ true
    → constant_hash h c ≡ constant_hash h d
constant_hash_eq equal h laws (string_value s) d e =
    ap (constant_hash h) (sym (laws.string_left s d e))
constant_hash_eq equal h laws c (string_value s) e = ap (constant_hash h) (laws.string_right c s e)
constant_hash_eq equal h laws c d e = laws.value_eq c d e

not-true : (b : Bool) → not b ≡ true → b ≡ false
not-true b h = ground arith

module _ (py_eq : Constant → Constant → Bool) (h : Hashes) (laws : HashLaws py_eq h) where
  position_hash_eq :
      (vm : BoundVarBijection) (vars vars' : Positions) (x y : Text)
      → Tracks vm vars vars'
      → vars_equal vm x y ≡ true
      → position_hash h (lookup x vars) vars x ≡ position_hash h (lookup y vars') vars' y
  position_hash_eq vm vars vars' x y t e =
      rw (← t.joined x y e) (elim (Option-cases (lookup x vars)) [
        | inl p ↦ rw p (ap h.of_text (t.free x y e p))
        | inr (n, p) ↦ rw (p, t.lengths)
      ])

  abbrev SameHash : Expr → Expr → Type 0
  SameHash l r =
      (vm : BoundVarBijection) (vars vars' : Positions) (bound bound' : List Text)
      → Tracks vm vars vars'
      → Covered bound vars
      → Covered bound' vars'
      → no_shadow bound l ≡ true
      → no_shadow bound' r ≡ true
      → alpha_helper never py_eq l r vm ≡ ok true
      → alpha_hash h l vars ≡ alpha_hash h r vars'

  under_binder :
      (x y : Text) (b b' : Expr)
      → SameHash b b'
      → (vm : BoundVarBijection) (vars vars' : Positions) (bound bound' : List Text)
      → Tracks vm vars vars'
      → Covered bound vars
      → Covered bound' vars'
      → (not (elem x bound) && no_shadow (x ∷ bound) b) ≡ true
      → (not (elem y bound') && no_shadow (y ∷ bound') b') ≡ true
      → alpha_helper never py_eq b b' (add_var vm x y) ≡ ok true
      → alpha_hash h b (add_position vars x) ≡ alpha_hash h b' (add_position vars' y)
  under_binder x y b b' ih vm vars vars' bound bound' t c c' n n' e =
      ih (add_var vm x y) (add_position vars x) (add_position vars' y) (x ∷ bound) (y ∷ bound')
        (Tracks-add vm x y vars vars' bound bound' t (c x (not-true _ (&&-left _ _ n)))
          (c' y (not-true _ (&&-left _ _ n'))))
        (Covered-add bound x vars c) (Covered-add bound' y vars' c')
        (&&-right (not (elem x bound)) _ n) (&&-right (not (elem y bound')) _ n') e

  mutual
    unfolding alpha_helper alpha_hash filter_eq get_filter_term no_shadow

    alpha_hash_eq : (l r : Expr) → SameHash l r
    alpha_hash_eq (var x) (var y) vm vars vars' bound bound' t c c' n n' e =
        ap ok (position_hash_eq vm vars vars' x.name y.name t (cc))
    alpha_hash_eq (const k) (const d) vm vars vars' bound bound' t c c' n n' e =
        ap ok
          (constant_hash_eq py_eq h laws k d (cc ((same_head-true (ok (py_eq k d)) (ok true) e).0)))
    alpha_hash_eq (call f es ty) (call g es' ty') vm vars vars' bound bound' t c c' n n' e =
        let (heads, rest) = same_head-true (sname_eq f g) _ e in
        let (sizes, args) = if-true _ _ rest in
        ap₂ (λ k r. map_ok (λ hs. h.of_tuple (h.of_text (name_str k) ∷ hs)) r)
          (sname_eq→eq f g heads)
          (alpha_hash_args_eq es es' vm vars vars' bound bound' t c c' n n' sizes args)
    alpha_hash_eq (lam x b ty) (lam y b' ty') vm vars vars' bound bound' t c c' n n' e =
        ap (map_ok (λ k. h.of_tuple (h.of_text (text "Lam") ∷ k ∷ []))) (
          under_binder x.name y.name b b' (alpha_hash_eq b b') vm vars vars' bound bound' t c c' n
            n' e)
    alpha_hash_eq (let_in (one x) r b ty) (let_in (one y) r' b' ty') vm vars vars' bound bound' t c
          c' n n' e =
        let (er, eb) = and_then-true _ _ e in
        ap₂ (λ p q. p >>= λ k. map_ok (λ j. h.of_tuple (h.of_text (text "Let") ∷ k ∷ j ∷ [])) q)
          (alpha_hash_eq r r' vm vars vars' bound bound' t c c' (&&-left _ _ n) (&&-left _ _ n') er)
          (under_binder x.name y.name b b' (alpha_hash_eq b b') vm vars vars' bound bound' t c c'
            (&&-right (no_shadow bound r) _ n) (&&-right (no_shadow bound' r') _ n') eb)
    alpha_hash_eq (let_in (many x xs) r b ty) (let_in b'' r' b' ty') vm vars vars' bound bound' t c
          c' n n' e =
        cc
    alpha_hash_eq (if_else x y z ty) (if_else x' y' z' ty') vm vars vars' bound bound' t c c' n n'
          e =
        let (ex, others) = and_then-true _ _ e in
        let (ey, ez) = and_then-true _ _ others in
        let m = &&-right (no_shadow bound x) _ n in
        let m' = &&-right (no_shadow bound' x') _ n' in
        rw
          (
            alpha_hash_eq x x' vm vars vars' bound bound' t c c' (&&-left _ _ n) (&&-left _ _ n')
                ex,
            alpha_hash_eq y y' vm vars vars' bound bound' t c c' (&&-left _ _ m) (&&-left _ _ m')
                ey,
            alpha_hash_eq z z' vm vars vars' bound bound' t c c' (&&-right (no_shadow bound y) _ m)
                (&&-right (no_shadow bound' y') _ m') ez,
          )
          refl
    alpha_hash_eq (assert x y ty) (assert x' y' ty') vm vars vars' bound bound' t c c' n n' e =
        let (ex, ey) = and_then-true _ _ e in
        rw
          (
            alpha_hash_eq x x' vm vars vars' bound bound' t c c' (&&-left _ _ n) (&&-left _ _ n')
                ex,
            alpha_hash_eq y y' vm vars vars' bound bound' t c c' (&&-right (no_shadow bound x) _ n)
                (&&-right (no_shadow bound' x') _ n') ey,
          )
          refl
    alpha_hash_eq _ _ vm vars vars' bound bound' t c c' n n' e = cc

    alpha_hash_args_eq :
        (es es' : Exprs) (vm : BoundVarBijection) (vars vars' : Positions)
        (bound bound' : List Text)
        → Tracks vm vars vars'
        → Covered bound vars
        → Covered bound' vars'
        → no_shadow_args bound es ≡ true
        → no_shadow_args bound' es' ≡ true
        → (length (args_list es) == length (args_list es')) ≡ true
        → all_alpha never py_eq es es' vm ≡ ok true
        → alpha_hash_args h es vars ≡ alpha_hash_args h es' vars'
    alpha_hash_args_eq no_args no_args vm vars vars' bound bound' t c c' n n' s e = refl
    alpha_hash_args_eq no_args (arg x xs) vm vars vars' bound bound' t c c' n n' s e = ground arith
    alpha_hash_args_eq (arg x xs) no_args vm vars vars' bound bound' t c c' n n' s e = ground arith
    alpha_hash_args_eq (arg x xs) (arg y ys) vm vars vars' bound bound' t c c' n n' s e =
        let (ex, exs) = and_then-true _ _ e in
        ap₂ (λ p q. p >>= λ k. map_ok (λ ks. k ∷ ks) q)
          (alpha_hash_eq x y vm vars vars' bound bound' t c c' (&&-left _ _ n) (&&-left _ _ n') ex)
          (alpha_hash_args_eq xs ys vm vars vars' bound bound' t c c'
            (&&-right (no_shadow bound x) _ n) (&&-right (no_shadow bound' y) _ n')
            (length_tail x y xs ys s) exs)

-- Expressions that are found equivalent have one hash, where neither binds a name again inside
-- its own scope, the left one's lets bind single variables, and its constants are `==` to
-- themselves. Python's hashes are assumed to respect its equality of constants, and its strings to
-- be equal to themselves alone.
pub hash_with_alpha_eq :
    (py : Python) (h : Hashes) (l r : Expr)
    → HashLaws py.equal h
    → is_regular py.equal l ≡ true
    → no_shadow [] l ≡ true
    → no_shadow [] r ≡ true
    → are_alpha_equivalent py.same py.equal l r ≡ ok true
    → hash_with_alpha h l ≡ hash_with_alpha h r
unfolding hash_with_alpha are_alpha_equivalent vars_equal lookup
hash_with_alpha_eq py h l r laws u n n' e =
    alpha_hash_eq py.equal h laws l r no_vars [] [] [] []
      (record {
        lengths = refl;
        joined = λ x y p. refl;
        free = λ x y p q. text_eq→eq x y (&&-left _ _ p);
      })
      (λ x p. refl) (λ x p. refl) n n' (sym (sharing_irrelevant py l r no_vars u) ∙ e)
