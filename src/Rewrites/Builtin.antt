-- ===== src/Rewrites/Builtin.antt =====
-- src/python/ksc/rewrites.py: the rule delete_let keeps the meaning.
use knossos_ksc.Rewrites.Rules.{
  drop_let, delete_let, delete_let_matches, delete_let_name, zero_const,
}
use knossos_ksc.Base.{
  ◌≡◌, refl, sym, subst, Bool, true, false, Option, List, [], ◌∷◌, Memᴰ, inl, inr, Bool-cases,
  if◌then◌else◌, ◌⊎◌, &&-right,
}
use mathlib.Core.List.Memᴰ
use knossos_ksc.Base.Text.{text_eq, text_eq→eq, elem}
use knossos_ksc.Base.Result.{ok}
use knossos_ksc.Types.Defs.{KsType}
use knossos_ksc.Expr.{Constant, Var, one, many, Expr, let_in, free_vars, is_untupled}
use knossos_ksc.Expr.Meaning.{Meaning, Env, update, bind, eval, eval-Agree}
use knossos_ksc.Paths.{ExprPath, get_path}
use knossos_ksc.Alpha.{get_filter_term}
use knossos_ksc.Subst.{replace_subtree}
use knossos_ksc.Rewrites.{Environment, Match, rule_matches_here, is_possible, term_same}
use knossos_ksc.Rewrites.Traverse.{Runs}
use knossos_ksc.Rewrites.PutPath.{get_path-is_untupled}
use knossos_ksc.Rewrites.Splice.{at, eval-replace_subtree}
use knossos_ksc.Rewrites.Sound.{Keeps, KeepsAll}

pub zero_closed : free_vars zero_const ≡ []
unfolding free_vars
zero_closed = refl

-- A variable that is not free makes no difference.
pub eval-unused :
    {V : Type 0} (m : Meaning V) (x : Var) (body : Expr) (v : V) (env : Env V)
    → elem x.name (free_vars body) ≡ false
    → eval m body env ≡ eval m body (update env x.name v)
eval-unused m x body v env h = eval-Agree m body env (update env x.name v) (λ y used.
    elim (Bool-cases (text_eq x.name y)) [
      | inl e ↦ cc (text_eq→eq x.name y e, used, h)
      | inr e ↦ rw e refl
    ])

delete_let-Keeps :
    {V : Type 0} (m : Meaning V) (root rhs body : Expr) (x : Var) (t : Option KsType)
    (path : ExprPath)
    → is_untupled root ≡ true
    → get_path path root ≡ ok (let_in (one x) rhs body t)
    → elem x.name (free_vars body) ≡ false
    → (e' : Expr) × (replace_subtree root (at path zero_const drop_let) ≡ ok e')
      × (is_untupled e' ≡ true)
      × ((env : Env V) → eval m e' env ≡ eval m root env)
unfolding drop_let is_untupled eval bind
delete_let-Keeps m root rhs body x t path u g free =
    let sub = get_path-is_untupled path root (let_in (one x) rhs body t) g u in
    eval-replace_subtree m zero_const drop_let root path (let_in (one x) rhs body t) body
      zero_closed u g (rw free refl) (&&-right (is_untupled rhs) _ sub)
      (λ env. eval-unused m x body (eval m rhs env) env free)

-- In a root whose lets bind single variables, at one of them, delete_let has no match if the variable is free in the body; and
-- else one, of which the rewrite succeeds, binds single variables and means what the root means.
pub delete_let_lem :
    {V : Type 0} (meaning : Meaning V) (root rhs body : Expr) (x : Var) (t : Option KsType)
    (path : ExprPath) (env : Environment)
    → is_untupled root ≡ true
    → get_path path root ≡ ok (let_in (one x) rhs body t)
    → let found =
        delete_let_matches
          (record { root = root; path = path; expr = let_in (one x) rhs body t })
          env in
      ((elem x.name (free_vars body) ≡ true) × (found ≡ ok []))
      ⊎ ((elem x.name (free_vars body) ≡ false)
          × ((m : Match) × (found ≡ ok (m ∷ [])) × Keeps meaning root m))
unfolding delete_let_matches
delete_let_lem meaning root rhs body x t path env u g =
    elim (Bool-cases (elem x.name (free_vars body))) [
      | inl used ↦ inl (used, rw used refl)
      | inr free ↦ inr (
        free,
        (
          record {
            rule = delete_let_name;
            apply_rewrite = replace_subtree root (at path zero_const drop_let);
            ewp = record { root = root; path = path; expr = let_in (one x) rhs body t };
          },
          rw free refl,
          delete_let-Keeps meaning root rhs body x t path u g free,
        ),
      )
    ]

pub delete_let-KeepsAll : {V : Type 0} (meaning : Meaning V) → KeepsAll meaning delete_let
unfolding delete_let delete_let_matches
delete_let-KeepsAll meaning root (let_in (one x) rhs body t) path env ms m u g run at =
    elim (delete_let_lem meaning root rhs body x t path env u g.0) [
      | inl (used, found) ↦ absurd (Memᴰ.not-nil (only found))
      | inr (free, (n, found, keeps)) ↦
          subst (Keeps meaning root) (sym (Memᴰ.eq_of_singleton (only found))) keeps
    ]
  where
    only :
        {l : List Match}
        → delete_let_matches
            (record { root = root; path = path; expr = let_in (one x) rhs body t })
            env
          ≡ ok l
        → Memᴰ m l
    only {l} found = let same : ms ≡ l = cc (run, found) in subst (Memᴰ m) same at
delete_let-KeepsAll meaning root _ path env ms m u g run at = cc run

either : (b : Bool) (k l : List Match) → (ms : List Match) × ((if b then ok k else ok l) ≡ ok ms)
either true k l = (k, refl)
either false k l = (l, refl)

module _ (py_eq : Constant → Constant → Bool) where
  -- Behind its filter, delete_let succeeds at every place.
  pub delete_let-Runs : (root : Expr) → Runs (rule_matches_here py_eq delete_let) root
  unfolding delete_let delete_let_matches rule_matches_here is_possible term_same get_filter_term
      is_untupled
  delete_let-Runs root (let_in (one x) rhs body t) path env u =
      either (elem x.name (free_vars body)) [] _
  delete_let-Runs root (let_in (many x xs) rhs body t) path env u = cc u
  delete_let-Runs root _ path env u = ([], refl)
