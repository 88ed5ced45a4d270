-- ===== src/Alpha/Hash/Shadow.antt =====
-- src/python/ksc/alpha_equiv.py: the hashes of a lambda whose binder shadows another, and of one
-- that is equivalent to it.
use knossos_ksc.Base.{◌≡◌, ◌≢◌, none, List, [], ◌∷◌}
use knossos_ksc.Base.Text.{Text}
use knossos_ksc.Base.Result.{ok}
use knossos_ksc.Base.Assoc.{text_key}
use knossos_ksc.Base.Int.{ℤ}
use knossos_ksc.Expr.{Var, Expr, var, lam}
use knossos_ksc.Alpha.Hash.{Hashes, Positions, alpha_hash}

abbrev named : Text → Var
named x = record { name = x; type_ = none }

-- (lam x (lam y y)).
abbrev pub second_of : Text → Text → Expr
second_of x y = lam (named x) (lam (named y) (var (named y)) none) none

-- (lam z1 (lam z2 … e)).
abbrev pub under : List Text → Expr → Expr
under [] e = e
under (z ∷ zs) e = lam (named z) (under zs e) none

-- The hash of a pair determines its second component, the first being given.
abbrev pub TellsApart : Hashes → Type 0
TellsApart h = (a k l : ℤ) → h.of_tuple (a ∷ k ∷ []) ≡ h.of_tuple (a ∷ l ∷ []) → k ≡ l

module _ (h : Hashes) where
  Apart : Expr → Expr → Positions → Type 0
  Apart l r vars =
      (a : ℤ) × (b : ℤ) × (alpha_hash h l vars ≡ ok a) × (alpha_hash h r vars ≡ ok b) × (a ≢ b)
