-- ===== src/Examples/Rewrites.antt =====
-- Tests and theorems at an input: rewriting (src/python/ksc/rewrites.py).
use knossos_ksc.Rewrites.Rules.{
  inline_at, inline_var_matches, apply_inline_var, delete_let, inline_var, delete_let_matches,
  zero_const, drop_let,
}
use knossos_ksc.Base.Decimal.{print}
use knossos_ksc.Fresh.{make_nonfree_var}
use knossos_ksc.Rewrites.Reach.{Reach, child}
use knossos_ksc.Rewrites.Inline.{inline_var_sound}
use knossos_ksc.Paths.{ExprPath, call_arg}
use knossos_ksc.Base.{ℕ}
use knossos_ksc.Expr.{Var}
use knossos_ksc.Types.Defs.{integer}
use knossos_ksc.Expr.Meaning.{Env, eval}
use knossos_ksc.Base.{
  ◌≡◌, refl, subst, Bool, true, false, none, some, List, [], ◌∷◌, Memᴰ, ◌↔◌, ◌⊎◌, if◌then◌else◌,
}
use knossos_ksc.Base.Text.{Text, text, text_eq, elem, remove}
use knossos_ksc.Base.Int.{pos}
use knossos_ksc.Base.Result.{ok}
use knossos_ksc.Base.Assoc.{lookup, insert, keep}
use knossos_ksc.Expr.{int_value, Expr, one, const, var, let_in, free_vars, is_untupled}
use knossos_ksc.Paths.Serial.{deserialize_path, deserialize_elem}
use knossos_ksc.Paths.{path_eq, starts_with, element_eq, let_body, get_path, get}
use knossos_ksc.Alpha.{get_filter_term}
use knossos_ksc.Subst.{
  replace_subtree, replace_subtrees, visit, dispatch, inside, rename_binder, rename_if_needed,
  relevant, rename,
}
use knossos_ksc.Rewrites.{
  ExprWithPath, Environment, Match, RuleMatcher, find_all_matches, rule_matches_here, initial_env,
  bind_location, rule_set, set_matches_here, is_possible, term_same, matches_with_env,
}
use knossos_ksc.Rewrites.PutPath.{put_path}
use knossos_ksc.Rewrites.Reach.{stop, body, IsSituated, Reach-root}
use knossos_ksc.Rewrites.Traverse.{Found}
use knossos_ksc.Rewrites.Matches.{find_all_matches_lem}
use knossos_ksc.Rewrites.Table.{Equality}
use knossos_ksc.Rewrites.Sets.{SomeRule, set_matches_here_lem}
use knossos_ksc.Rewrites.Splice.{at, replace_subtree_lem}
use knossos_ksc.Rewrites.Sound.{Keeps}
use knossos_ksc.Rewrites.Sequence.{
  Registry, apply_single, rule, IsTrusted, Outcome, AllSame, apply_rule, rewrite_seq_to_exprs,
  apply_rule_lem, rewrite_seq_to_exprs_sound,
}
use knossos_ksc.Rewrites.Builtin.{delete_let_lem, delete_let-KeepsAll, delete_let-Runs}
use knossos_ksc.Examples.{x, y, add}
use knossos_ksc.Examples.Exprs.{sums}
use knossos_ksc.Examples.Alpha.{equal_constants, equal_constants_refl, equal_constants_sound}

-- (let (y 3) (add x x)), and the same under a let of x.
abbrev unused_y : Expr
unused_y = let_in (one y) (const (int_value (pos 3))) (add (var x) (var x)) none

abbrev nested : Expr
nested = let_in (one x) (const (int_value (pos 5))) unused_y none

untupled : is_untupled nested ≡ true
unfolding is_untupled
untupled = refl

at_body : get_path (let_body ∷ []) nested ≡ ok unused_y
unfolding get_path get
at_body = refl

replace_subtree_lem_example :
    replace_subtree nested (at (let_body ∷ []) zero_const drop_let)
    ≡ ok (put_path (let_body ∷ []) (add (var x) (var x)) nested)
replace_subtree_lem_example =
    replace_subtree_lem zero_const drop_let (unfold free_vars in refl) nested (let_body ∷ [])
      unused_y (add (var x) (var x)) untupled at_body (unfold drop_let free_vars text_eq in refl)

Reach-root_example :
    IsSituated nested unused_y (let_body ∷ []) (bind_location x.name [] (initial_env []))
Reach-root_example =
    Reach-root nested unused_y (let_body ∷ []) (bind_location x.name [] (initial_env [])) []
      (body stop)

find_all_matches_lem_example :
    (ms : List Match) × (find_all_matches (rule_matches_here equal_constants delete_let) nested []
      ≡ ok ms)
    × ((m : Match)
        → Memᴰ m ms
          ↔ Found
              (rule_matches_here equal_constants delete_let)
              nested
              m
              nested
              []
              (initial_env []))
find_all_matches_lem_example =
    find_all_matches_lem (rule_matches_here equal_constants delete_let) nested []
      (delete_let-Runs equal_constants nested) untupled

abbrev place : ExprWithPath
place = record { root = nested; path = let_body ∷ []; expr = unused_y }

abbrev place_env : Environment
place_env = bind_location x.name [] (initial_env [])

delete_let_lem_example :
    ((elem y.name (free_vars (add (var x) (var x))) ≡ true)
      × (delete_let_matches place place_env ≡ ok []))
    ⊎ ((elem y.name (free_vars (add (var x) (var x))) ≡ false)
        × ((m : Match) × (delete_let_matches place place_env ≡ ok (m ∷ [])) × Keeps sums nested m))
delete_let_lem_example =
    delete_let_lem sums nested (const (int_value (pos 3))) (add (var x) (var x)) y none
      (let_body ∷ []) place_env untupled at_body

equality : Equality equal_constants
equality = record {
  symm = λ c d h.
      subst (λ k. equal_constants k c ≡ true) (equal_constants_sound c d h)
        (equal_constants_refl c);
  trans = λ b c d h k. subst (λ e. equal_constants b e ≡ true) (equal_constants_sound c d k) h;
}

abbrev two_rules : List RuleMatcher
two_rules = delete_let ∷ inline_var ∷ []

inline_var-run : rule_matches_here equal_constants inline_var place place_env ≡ ok []
unfolding rule_matches_here is_possible term_same get_filter_term inline_var
inline_var-run = refl

two_rules-run :
    (r : RuleMatcher)
    → Memᴰ r two_rules
    → (ns : List Match) × (rule_matches_here equal_constants r place place_env ≡ ok ns)
two_rules-run r (Memᴰ.head e) = rw e (
    delete_let-Runs equal_constants nested unused_y (let_body ∷ []) place_env
      (unfold is_untupled in refl))
two_rules-run r (Memᴰ.tail (Memᴰ.head e)) = rw e ([], inline_var-run)
two_rules-run r (Memᴰ.tail (Memᴰ.tail at)) = elim at [ ]

set_matches_here_lem_example :
    (ms : List Match) × (set_matches_here equal_constants
        (rule_set equal_constants two_rules)
        place
        place_env
      ≡ ok ms)
    × ((m : Match) → Memᴰ m ms ↔ SomeRule equal_constants equality m two_rules place place_env)
set_matches_here_lem_example =
    set_matches_here_lem equal_constants equality two_rules place place_env two_rules-run

abbrev registry : Registry
registry = (text "delete_let", delete_let) ∷ []

registry-IsTrusted : IsTrusted equal_constants registry [] sums
unfolding lookup
registry-IsTrusted name r found =
    rw (← only (text_eq (text "delete_let") name) found)
      (delete_let-Runs equal_constants, delete_let-KeepsAll sums)
  where
    only : (b : Bool) → (if b then some delete_let else none) ≡ some r → delete_let ≡ r
    only true h = cc h
    only false h = cc h

apply_rule_lem_example :
    Outcome equal_constants registry [] sums
      (text "delete_let")
      (let_body ∷ [])
      nested
      (apply_rule equal_constants registry [] (text "delete_let") (let_body ∷ []) nested)
apply_rule_lem_example =
    apply_rule_lem equal_constants registry [] sums (text "delete_let") (let_body ∷ []) nested
      registry-IsTrusted untupled

abbrev steps : List (Text × List Text)
steps = (text "delete_let", text "let_body" ∷ []) ∷ []

-- (let (x 5) (add x x)).
abbrev deleted : Expr
deleted = let_in (one x) (const (int_value (pos 5))) (add (var x) (var x)) none

rewritten : rewrite_seq_to_exprs equal_constants registry [] nested steps ≡ ok (deleted ∷ [])
unfolding rewrite_seq_to_exprs deserialize_path deserialize_elem text_eq lookup find_all_matches
    rule_matches_here delete_let get_filter_term delete_let_matches free_vars remove path_eq
    replace_subtree visit dispatch inside starts_with rename_binder insert keep element_eq
    apply_rule apply_single rule drop_let is_possible matches_with_env term_same relevant
    rename_if_needed replace_subtrees rename
rewritten = refl

rewrite_seq_to_exprs_sound_example : AllSame equal_constants registry [] sums nested (deleted ∷ [])
rewrite_seq_to_exprs_sound_example =
    rewrite_seq_to_exprs_sound equal_constants registry [] sums steps nested (deleted ∷ [])
      registry-IsTrusted untupled rewritten

-- (let (x y) (let (y 3) (add x y))), where the outer y is free, and inlining x must not capture it.
abbrev shadowing : Expr
shadowing =
    let_in (one x) (var y) (let_in (one y) (const (int_value (pos 3))) (add (var x) (var y)) none)
      none

abbrev occurrence : ExprPath
occurrence = let_body ∷ let_body ∷ call_arg 0 ∷ []

abbrev occurrence_env : Environment
occurrence_env = bind_location y.name (let_body ∷ []) (bind_location x.name [] (initial_env []))

reached : Reach (var x) occurrence occurrence_env shadowing [] (initial_env [])
unfolding get
reached = body (body (child (call_arg 0) refl refl stop))

inline_var_sound_example :
    (found : Match) × (inline_var_matches
        (record { root = shadowing; path = occurrence; expr = var x })
        occurrence_env
      ≡ ok (found ∷ []))
    × (e' : Expr) × (found.apply_rewrite ≡ ok e')
    × ((env : Env ℕ) → eval sums e' env ≡ eval sums shadowing env)
inline_var_sound_example =
    inline_var_sound sums shadowing x occurrence [] occurrence_env (unfold is_untupled in refl)
      (Reach-root shadowing (var x) occurrence occurrence_env [] reached)
      (unfold lookup insert text_eq in refl)

abbrev y_0 : Var
y_0 = record { name = text "y_0"; type_ = some integer }

-- The inner y is renamed.
inlined :
    apply_inline_var (record { root = shadowing; path = occurrence; expr = var x }) []
    ≡ ok (
        let_in
          (one x)
          (var y)
          (let_in (one y_0) (const (int_value (pos 3))) (add (var y) (var y_0)) none)
          none)
unfolding apply_inline_var starts_with replace_subtree visit dispatch inside path_eq rename relevant
    keep rename_binder rename_if_needed free_vars text_eq insert make_nonfree_var lookup remove
    print element_eq inline_at replace_subtrees
inlined = refl
