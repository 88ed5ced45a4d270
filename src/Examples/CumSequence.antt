-- ===== src/Examples/CumSequence.antt =====
-- Tests and theorems at an input: cumulative maxima (rlo/src/rlo/cum_sequence.py).
use knossos_ksc.Base.{ℕ, ◌≡◌, refl, arith, Bool, true, false, List, [], ◌∷◌, leb}
use knossos_ksc.Base.Int.{pos}
use knossos_ksc.Base.Result.{ok}
use knossos_ksc.CumSequence.{
  Order, SortedDict, put_item, delete_item, find_item, count_at_most, update, update_from_seq,
  get_item,
}
use knossos_ksc.CumSequence.Reference.{value_at}
use knossos_ksc.CumSequence.Update.{
  Updated, Holds, best_stored, read, update_lem, get_item_lem, get_item_mono, update_from_seq_lem,
}

leb_trans : (a b c : ℕ) → leb b a ≡ true → leb c b ≡ true → leb c a ≡ true
leb_trans a b c h k = ground arith

leb_total : (a b : ℕ) → leb b a ≡ false → leb a b ≡ true
leb_total a b h = ground arith

leb_antisym : (a b : ℕ) → leb b a ≡ true → leb a b ≡ true → a ≡ b
leb_antisym a b h k = ground arith

-- `CumMaxSequence` on natural numbers.
abbrev maxima : Order ℕ
maxima = record {
  skip_update = λ a b. leb b a;
  skip_trans = leb_trans;
  skip_total = leb_total;
  skip_antisym = leb_antisym;
}

abbrev plain_dict : SortedDict ℕ
plain_dict = record {
  State = List (ℕ × ℕ);
  items = λ d. d;
  empty = [];
  put = put_item;
  delete = delete_item;
  bisect = count_at_most;
  items-empty = refl;
  items-put = λ k v d. refl;
  items-delete = λ k d. refl;
  bisect_count = λ k d. refl;
}

-- 2 from 0, 4 from 2, 10 from 3.
abbrev stored : List (ℕ × ℕ)
stored = (0, 2) ∷ (2, 4) ∷ (3, 10) ∷ []

stored-Holds : Holds maxima stored
stored-Holds = (omega arith, tt, (omega arith, refl, (omega arith, refl, tt)))

-- Storing 7 at 1 takes the place of the 4 at 2.
stored_7 : update maxima plain_dict (pos 1) 7 stored ≡ ok (true, (0, 2) ∷ (1, 7) ∷ (3, 10) ∷ [])
unfolding update find_item count_at_most put_item delete_item
stored_7 = refl

update_lem_example :
    (r : Bool × List (ℕ × ℕ)) × (update maxima plain_dict (pos 1) 7 stored ≡ ok r)
    × Updated maxima plain_dict 1 7 stored r
update_lem_example = update_lem maxima plain_dict 1 7 stored stored-Holds

get_item_lem_example : get_item maxima plain_dict (pos 9) stored ≡ read (value_at 9 stored)
get_item_lem_example = get_item_lem maxima plain_dict 9 stored stored-Holds

got_4 : get_item maxima plain_dict (pos 2) stored ≡ ok 4
unfolding get_item find_item
got_4 = refl

get_item_mono_example :
    (w : ℕ) × (get_item maxima plain_dict (pos 9) stored ≡ ok w) × (leb 4 w ≡ true)
get_item_mono_example =
    get_item_mono maxima plain_dict 2 9 stored 4 stored-Holds (omega arith) got_4

update_from_seq_lem_example :
    (r : Bool × List (ℕ × ℕ)) × (update_from_seq maxima plain_dict stored stored ≡ ok r)
    × Holds maxima r.1
    × ((i : ℕ) → value_at i r.1 ≡ best_stored maxima plain_dict i (value_at i stored) stored)
update_from_seq_lem_example = update_from_seq_lem maxima plain_dict stored stored stored-Holds
