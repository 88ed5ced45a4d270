-- ===== src/Alpha/Hash.antt =====
-- src/python/ksc/alpha_equiv.py: `hash_with_alpha`. Python's hashes are parameters.
pub mod Shadow
pub mod Agree
use knossos_ksc.Base.{
  ℕ, ◌+◌, ◌-◌, ◌≡◌, Bool, true, false, ◌&&◌, not, Option, none, some, List, [], ◌∷◌, length,
}
use knossos_ksc.Base.Text.{Text, text, elem}
use knossos_ksc.Base.Result.{Result, ok, err, attribute_error, ◌>>=◌, map_ok}
use knossos_ksc.Base.Assoc.{Dict, text_key, lookup, insert}
use knossos_ksc.Base.Int.{ℤ, pos}
use knossos_ksc.Names.{name_str}
use knossos_ksc.Expr.{
  Constant, int_value, float_value, bool_value, string_value, Var, Binder, one, many, Expr, Exprs,
  const, var, call, lam, let_in, if_else, assert, no_args, arg,
}

-- `_hash_str`, `hash` on the other constants, and `hash` on tuples of hashes.
pub record Hashes : Type 0 where
  pub of_text : Text → ℤ
  pub of_value : Constant → ℤ
  pub of_tuple : List ℤ → ℤ

-- The position of each bound variable, counted from the outermost.
abbrev pub Positions : Type 0
Positions = Dict Text ℕ

-- `_add_var`.
unfoldable pub add_position : Positions → Text → Positions
add_position vars x = insert x (length vars) vars

module _ (h : Hashes) where
  -- `_hash_with_alpha_const`.
  abbrev pub constant_hash : Constant → ℤ
  constant_hash (string_value s) = h.of_text s
  constant_hash c = h.of_value c

  abbrev pub position_hash : Option ℕ → Positions → Text → ℤ
  position_hash (some n) vars x = pos (length vars - n)
  position_hash none vars x = h.of_text x

  -- `_alpha_hash_helper`.
  unfoldable mutual
    pub alpha_hash : Expr → Positions → Result ℤ
    alpha_hash (const c) vars = ok (constant_hash c)
    alpha_hash (var x) vars = ok (position_hash (lookup x.name vars) vars x.name)
    alpha_hash (call f args t) vars =
        map_ok (λ hs. h.of_tuple (h.of_text (name_str f) ∷ hs)) (alpha_hash_args args vars)
    alpha_hash (lam x body t) vars =
        map_ok (λ b. h.of_tuple (h.of_text (text "Lam") ∷ b ∷ []))
          (alpha_hash body (add_position vars x.name))
    alpha_hash (let_in (one x) rhs body t) vars = alpha_hash rhs vars >>= λ r.
        map_ok (λ b. h.of_tuple (h.of_text (text "Let") ∷ r ∷ b ∷ []))
          (alpha_hash body (add_position vars x.name))
    alpha_hash (let_in (many x xs) rhs body t) vars =
        alpha_hash rhs vars >>= λ r. err attribute_error
    alpha_hash (if_else c t f ty) vars = alpha_hash c vars >>= λ c'. alpha_hash t vars >>= λ t'.
        map_ok (λ f'. h.of_tuple (h.of_text (text "If") ∷ c' ∷ t' ∷ f' ∷ [])) (alpha_hash f vars)
    alpha_hash (assert c b ty) vars = alpha_hash c vars >>= λ c'.
        map_ok (λ b'. h.of_tuple (h.of_text (text "Assert") ∷ c' ∷ b' ∷ [])) (alpha_hash b vars)

    pub alpha_hash_args : Exprs → Positions → Result (List ℤ)
    alpha_hash_args no_args vars = ok []
    alpha_hash_args (arg e es) vars =
        alpha_hash e vars >>= λ e'. map_ok (λ es'. e' ∷ es') (alpha_hash_args es vars)

  unfoldable pub hash_with_alpha : Expr → Result ℤ
  hash_with_alpha e = alpha_hash e []

-- No binder binds a name that is in the list, or is bound around it.
unfoldable mutual
  pub no_shadow : List Text → Expr → Bool
  no_shadow bound (const c) = true
  no_shadow bound (var x) = true
  no_shadow bound (call f args t) = no_shadow_args bound args
  no_shadow bound (lam x body t) = not (elem x.name bound) && no_shadow (x.name ∷ bound) body
  no_shadow bound (let_in (one x) rhs body t) =
      no_shadow bound rhs && (not (elem x.name bound) && no_shadow (x.name ∷ bound) body)
  no_shadow bound (let_in (many x xs) rhs body t) = false
  no_shadow bound (if_else c t f ty) = no_shadow bound c && (no_shadow bound t && no_shadow bound f)
  no_shadow bound (assert c b ty) = no_shadow bound c && no_shadow bound b

  pub no_shadow_args : List Text → Exprs → Bool
  no_shadow_args bound no_args = true
  no_shadow_args bound (arg e es) = no_shadow bound e && no_shadow_args bound es
