-- ===== src/Examples/Types.antt =====
-- Tests and theorems at an input: src/python/ksc/type.py.
use knossos_ksc.Base.Decimal.{print}
use knossos_ksc.Base.{ℕ, ◌≡◌, refl, ◌↔◌, ◌⊎◌, true, false, [], ◌∷◌, some, map, replicate}
use knossos_ksc.Base.Result.{ok, err, not_implemented}
use knossos_ksc.Base.Text.{text}
use knossos_ksc.Types.Defs.{
  integer, float, tensor, tuple, nil, cons, type_eq, can_accept_value_of_type, contains_any,
  get_rank, from_rank, tangent_type, shape_type, of_list, shortstr, num_elements,
}
use knossos_ksc.Types.Equality.{type_eq_iff}
use knossos_ksc.Types.Accept.{can_accept_iff, can_accept_refl}
use knossos_ksc.Types.Size.{get_rank-from_rank, get_rank-inverse, shape_type-tuple}
use knossos_ksc.Types.Tangent.{is_first_order, HasTangent, tangent_type_lem}
use knossos_ksc.Examples.{vec, pair_type}

short_pair : shortstr (text "<") (text ">") pair_type ≡ ok (text "<iT1f>")
unfolding shortstr print
short_pair = refl

elements_of_pair : num_elements 100 pair_type ≡ ok (some 101)
unfolding num_elements
elements_of_pair = refl

tangent_of_pair : tangent_type pair_type ≡ ok (tuple (cons (tuple nil) (cons vec nil)))
unfolding tangent_type
tangent_of_pair = refl

type_eq_iff_example : (type_eq pair_type vec ≡ true) ↔ (pair_type ≡ vec)
type_eq_iff_example = type_eq_iff pair_type vec

can_accept_iff_example : (can_accept_value_of_type pair_type vec ≡ true) ↔ (pair_type ≡ vec)
can_accept_iff_example = can_accept_iff pair_type vec (unfold contains_any in refl)

can_accept_refl_example : can_accept_value_of_type pair_type pair_type ≡ true
can_accept_refl_example = can_accept_refl pair_type

get_rank-from_rank_example : get_rank (from_rank 3) ≡ some 3
get_rank-from_rank_example = get_rank-from_rank 3

get_rank-inverse_example :
    (tuple (cons integer nil) ≡ from_rank 1)
    ⊎ ((tuple (cons integer nil) ≡ tuple (cons integer nil)) × (◌≡◌ {A = ℕ} 1 1))
get_rank-inverse_example =
    get_rank-inverse (tuple (cons integer nil)) 1 (unfold get_rank type_eq in refl)

tangent_type_lem_example :
    ((is_first_order pair_type ≡ true) × HasTangent pair_type)
    ⊎ ((is_first_order pair_type ≡ false) × (tangent_type pair_type ≡ err not_implemented))
tangent_type_lem_example = tangent_type_lem pair_type

shape_type-tuple_example :
    (shape_type (tuple (of_list (map (tensor 1) (float ∷ integer ∷ [])))) ≡ ok (tuple nil))
    × (shape_type (tuple (of_list (float ∷ integer ∷ [])))
        ≡ ok (tuple (of_list (replicate 2 (tuple nil)))))
shape_type-tuple_example = shape_type-tuple float (integer ∷ []) refl
