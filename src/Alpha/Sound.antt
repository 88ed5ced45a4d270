-- ===== src/Alpha/Sound.antt =====
-- src/python/ksc/alpha_equiv.py: expressions that are found equivalent mean the same.
use knossos_ksc.Base.{
  ◌≡◌, refl, ap, ap₂, ◌∙◌, fun_ext, Bool, true, false, ◌&&◌, Option, arith, if◌then◌else◌, ◌==◌,
  length, Bool-cases, inl, inr, &&-left, ◌∷◌, all, ◌⊎◌,
}
use knossos_ksc.Base.Text.{Text, text_eq, text_eq→eq, all_at}
use knossos_ksc.Base.Result.{Result, ok, err, ◌>>=◌, and_then}
use knossos_ksc.Base.Assoc.{text_key, lookup, lookup-insert}
use knossos_ksc.Names.{StructuredName, sname_eq}
use knossos_ksc.Names.Laws.{sname_eq-ok, sname_same_iff}
use knossos_ksc.Types.Defs.{KsType}
use knossos_ksc.Expr.{
  Constant, one, many, Expr, Exprs, const, var, call, lam, let_in, if_else, assert, no_args, arg,
  args_list, free_vars,
}
use knossos_ksc.Expr.Meaning.{Meaning, Env, update, bind, eval, eval_args, eval-Agree}
use knossos_ksc.Alpha.{
  BoundVarBijection, vars_equal, add_var, get_filter_term, filter_eq, fast_path, alpha_helper,
  all_alpha, are_equiv, are_alpha_equivalent, no_vars,
}
use knossos_ksc.Alpha.Same.{Python, self_equal}

pub and_then-true : (r s : Result Bool) → and_then r s ≡ ok true → (r ≡ ok true) × (s ≡ ok true)
and_then-true (ok true) s h = (refl, h)
and_then-true (ok false) s h = cc
and_then-true (err e) s h = cc

and_false : (b : Bool) → (b && false) ≡ false
and_false b = ground arith

false_ne : false ≡ true → ⊥
false_ne e = cc

-- Names that the bijection joins have one value.
abbrev pub Related : {V : Type 0} → BoundVarBijection → Env V → Env V → Type 0
Related vm env env' = (x y : Text) → vars_equal vm x y ≡ true → env x ≡ env' y

pub vars_equal-add_var :
    (vm : BoundVarBijection) (a b x y : Text)
    → vars_equal (add_var vm a b) x y
      ≡ (if text_eq a x then text_eq b y else if text_eq b y then false else vars_equal vm x y)
unfolding vars_equal add_var
vars_equal-add_var vm a b x y =
    rw (lookup-insert a x b vm.left_to_right, lookup-insert b y a vm.right_to_left)
      (elim (Bool-cases (text_eq a x)) [
        | inl e ↦ elim (Bool-cases (text_eq b y)) [
          | inl f ↦ rw (e, f, e) refl
          | inr f ↦ rw (e, f) refl
        ]
        | inr e ↦ elim (Bool-cases (text_eq b y)) [
          | inl f ↦ rw (e, f, e) (and_false _)
          | inr f ↦ rw (e, f) refl
        ]
      ])

pub same_head-true :
    (m c : Result Bool)
    → (m >>= λ same. if same then c else ok false) ≡ ok true
    → (m ≡ ok true) × (c ≡ ok true)
same_head-true (ok true) c h = (refl, h)
same_head-true (ok false) c h = cc
same_head-true (err e) c h = cc

pub if-true :
    (b : Bool) (c : Result Bool)
    → (if b then c else ok false) ≡ ok true
    → (b ≡ true) × (c ≡ ok true)
if-true true c h = (refl, h)
if-true false c h = cc

pub sname_eq→eq : (f g : StructuredName) → sname_eq f g ≡ ok true → f ≡ g
sname_eq→eq f g h = (sname_same_iff f g).0 (sname_eq-ok f g true h)

pub length_tail :
    (e e' : Expr) (es es' : Exprs)
    → (length (args_list (arg e es)) == length (args_list (arg e' es'))) ≡ true
    → (length (args_list es) == length (args_list es')) ≡ true
length_tail e e' es es' h = ground arith

module _ {V : Type 0} (m : Meaning V) where
  Related-update :
      (vm : BoundVarBijection) (a b : Text) (v : V) (env env' : Env V)
      → Related vm env env'
      → Related (add_var vm a b) (update env a v) (update env' b v)
  Related-update vm a b v env env' h x y p = split (rw (vars_equal-add_var vm a b x y) at p)
    where
      split :
          (if text_eq a x then text_eq b y else if text_eq b y then false else vars_equal vm x y)
            ≡ true
          → update env a v x ≡ update env' b v y
      split q = elim (Bool-cases (text_eq a x)) [
        | inl e ↦ rw (e, rw e at q)
        | inr e ↦ elim (Bool-cases (text_eq b y)) [
          | inl f ↦ absurd (false_ne (rw (e, f) at q))
          | inr f ↦ rw (e, f) (h x y (rw (e, f) at q))
        ]
      ]

fast_path-true :
    (py : Python) (l r : Expr) (vm : BoundVarBijection) (slow : Result Bool)
    → fast_path py.same py.equal l r vm slow ≡ ok true
    → ((l ≡ r) × (all (self_equal vm) (free_vars l) ≡ true)) ⊎ (slow ≡ ok true)
fast_path-true py l r vm slow h = elim (Bool-cases (py.same l r)) [
  | inl e ↦ inl (py.same_sound l r e, cc (rw e at h))
  | inr e ↦ inr (rw e at h)
]

module _ (py : Python) {V : Type 0} (m : Meaning V)
    (const_eq : (c d : Constant) → py.equal c d ≡ true → m.const_of c ≡ m.const_of d)
    (lam_untyped : (t u : Option KsType) (f : V → V) → m.lam_of t f ≡ m.lam_of u f) where
  -- One object in both places means the same there, since its free names are joined to themselves.
  eval-fast_path :
      (l r : Expr) (vm : BoundVarBijection) (env env' : Env V) {slow : Result Bool}
      → Related vm env env'
      → (slow ≡ ok true → eval m l env ≡ eval m r env')
      → fast_path py.same py.equal l r vm slow ≡ ok true
      → eval m l env ≡ eval m r env'
  eval-fast_path l r vm env env' {slow} rel means h = elim (fast_path-true py l r vm slow h) [
    | inl (same, joined) ↦
        eval-Agree m l env env' (λ y at. rel y y (all_at (self_equal vm) (free_vars l) y joined at))
        ∙ ap (λ e. eval m e env') same
    | inr run ↦ means run
  ]

  mutual
    unfolding alpha_helper eval bind filter_eq get_filter_term

    eval-alpha_helper :
        (l r : Expr) (vm : BoundVarBijection) (env env' : Env V)
        → Related vm env env'
        → alpha_helper py.same py.equal l r vm ≡ ok true
        → eval m l env ≡ eval m r env'
    eval-alpha_helper (var x) (var y) vm env env' rel h = rel x.name y.name (cc)
    eval-alpha_helper (let_in (one x) e b t) (let_in (one y) e' b' t') vm env env' rel h =
        let (he, hb) = and_then-true _ _ h in
        let same =
          eval-fast_path e e' vm env env' rel (eval-alpha_helper e e' vm env env' rel) he in
        let v = eval m e env in
        let rel' = Related-update m vm x.name y.name v env env' rel in
        let vm' = add_var vm x.name y.name in
        eval-fast_path b b' vm' (update env x.name v) (update env' y.name v) rel'
          (eval-alpha_helper b b' vm' (update env x.name v) (update env' y.name v) rel') hb
        ∙ ap (λ v. eval m b' (update env' y.name v)) same
    eval-alpha_helper (lam x b t) (lam y b' t') vm env env' rel h =
        ap (m.lam_of x.type_) (
          fun_ext (λ v.
            let rel' = Related-update m vm x.name y.name v env env' rel in
            let vm' = add_var vm x.name y.name in
            eval-fast_path b b' vm' (update env x.name v) (update env' y.name v) rel'
              (eval-alpha_helper b b' vm' (update env x.name v) (update env' y.name v) rel') h))
        ∙ lam_untyped x.type_ y.type_ (λ v. eval m b' (update env' y.name v))
    eval-alpha_helper (const c) (const d) vm env env' rel h =
        const_eq c d (cc ((same_head-true (ok (py.equal c d)) (ok true) h).0))
    eval-alpha_helper (call f es t) (call g es' t') vm env env' rel h =
        let (heads, rest) = same_head-true (sname_eq f g) _ h in
        let (sizes, args) = if-true _ _ rest in
        ap₂ m.call_of (sname_eq→eq f g heads) (eval-all_alpha es es' vm env env' rel sizes args)
    eval-alpha_helper (if_else c t f ty) (if_else c' t' f' ty') vm env env' rel h =
        let (hc, others) = and_then-true _ _ h in
        let (ht, hf) = and_then-true _ _ others in
        ap₂ (λ p q. m.if_of p q (eval m f env))
          (eval-fast_path c c' vm env env' rel (eval-alpha_helper c c' vm env env' rel) hc)
          (eval-fast_path t t' vm env env' rel (eval-alpha_helper t t' vm env env' rel) ht)
        ∙ ap (m.if_of (eval m c' env') (eval m t' env'))
            (eval-fast_path f f' vm env env' rel (eval-alpha_helper f f' vm env env' rel) hf)
    eval-alpha_helper (assert c b ty) (assert c' b' ty') vm env env' rel h =
        let (hc, hb) = and_then-true _ _ h in
        ap₂ m.assert_of
          (eval-fast_path c c' vm env env' rel (eval-alpha_helper c c' vm env env' rel) hc)
          (eval-fast_path b b' vm env env' rel (eval-alpha_helper b b' vm env env' rel) hb)
    eval-alpha_helper (let_in (many x xs) e b t) (let_in b' e' c' t') vm env env' rel h = cc
    eval-alpha_helper _ _ vm env env' rel h = cc

    eval-all_alpha :
        (es es' : Exprs) (vm : BoundVarBijection) (env env' : Env V)
        → Related vm env env'
        → (length (args_list es) == length (args_list es')) ≡ true
        → all_alpha py.same py.equal es es' vm ≡ ok true
        → eval_args m es env ≡ eval_args m es' env'
    eval-all_alpha no_args no_args vm env env' rel n h = refl
    eval-all_alpha no_args (arg e es) vm env env' rel n h = ground arith
    eval-all_alpha (arg e es) no_args vm env env' rel n h = ground arith
    eval-all_alpha (arg e es) (arg e' es') vm env env' rel n h =
        let (he, hes) = and_then-true _ _ h in
        ap₂ ◌∷◌ (eval-fast_path e e' vm env env' rel (eval-alpha_helper e e' vm env env' rel) he)
          (eval-all_alpha es es' vm env env' rel (length_tail e e' es es' n) hes)

pub Related-no_vars : {V : Type 0} (env : Env V) → Related no_vars env env
unfolding vars_equal lookup
Related-no_vars env x y h = ap env (text_eq→eq x y (&&-left _ _ h))

-- Two expressions that are found equivalent mean the same in every environment, under every
-- interpretation that gives constants which Python finds equal (1, 1.0 and True among them) one
-- meaning, and functions a meaning that does not depend on the annotation of their argument: the
-- comparison reads no types. Objects may be shared, lets may bind tuples, and constants may differ
-- from themselves.
pub eval-are_alpha_equivalent :
    (py : Python) {V : Type 0} (m : Meaning V) (l r : Expr) (env : Env V)
    → ((c d : Constant) → py.equal c d ≡ true → m.const_of c ≡ m.const_of d)
    → ((t u : Option KsType) (f : V → V) → m.lam_of t f ≡ m.lam_of u f)
    → are_alpha_equivalent py.same py.equal l r ≡ ok true
    → eval m l env ≡ eval m r env
unfolding are_alpha_equivalent are_equiv
eval-are_alpha_equivalent py m l r env const_eq lam_untyped e =
    eval-fast_path py m const_eq lam_untyped l r no_vars env env (Related-no_vars env)
      (eval-alpha_helper py m const_eq lam_untyped l r no_vars env env (Related-no_vars env)) e
