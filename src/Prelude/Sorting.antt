-- ===== src/Prelude/Sorting.antt =====
-- `sort.Strings`: the result is the one ascending arrangement of its input, so any sorting
-- algorithm is a model.
use Prim.Native.String.{String}
use mathlib.Core.Path.{◌≡◌, refl, ◌∙◌}
use mathlib.Core.Logic.{∥∥₁_elim}
use mathlib.Core.List.{List, [], ◌∷◌, Perm, Permᴰ}
use native.Mathlib.Omega.{arith}
use envoy_control_plane.Prelude.Tests.{if◌then◌else◌}
use text.Mathlib.TextEquality.{IsScalar-prop}
use envoy_control_plane.Prelude.Texts.{str_leb, str_leb_total, str_leb_antisymm, str_leb_trans}

insert_sorted : String → List String → List String
insert_sorted s [] = s ∷ []
insert_sorted s (t ∷ ts) = if str_leb s t then s ∷ t ∷ ts else t ∷ insert_sorted s ts

unfoldable pub sort : List String → List String
unfolding insert_sorted
sort [] = []
sort (s ∷ ss) = insert_sorted s (sort ss)

insert_sorted_comm :
    (a b : String) (l : List String)
    → insert_sorted a (insert_sorted b l) ≡ insert_sorted b (insert_sorted a l)
unfolding insert_sorted
insert_sorted_comm a b [] =
    ground (arith, str_leb_total a b, str_leb_total b a, str_leb_antisymm a b)
insert_sorted_comm a b (t ∷ l) = ground (
  arith,
  insert_sorted_comm a b l,
  str_leb_total a b,
  str_leb_total b a,
  str_leb_total a t,
  str_leb_total b t,
  str_leb_antisymm a b,
  str_leb_trans a b t,
  str_leb_trans b a t,
)

sort-permᴰ : {l r : List String} → Permᴰ l r → sort l ≡ sort r
unfolding sort
sort-permᴰ Permᴰ.nil = refl
sort-permᴰ (Permᴰ.cons {l₁ = l} e p) = rw (e, sort-permᴰ p)
sort-permᴰ (Permᴰ.swap {a} {b} {l} e f) = rw (e, f, insert_sorted_comm _ _ (sort l))
sort-permᴰ (Permᴰ.trans p q) = sort-permᴰ p ∙ sort-permᴰ q

texts_set : IsSet (List String)
texts_set = hlevel IsScalar-prop

pub sort-eq_of_perm : {l r : List String} → Perm l r → sort l ≡ sort r
sort-eq_of_perm p = ∥∥₁_elim p (texts_set _ _) sort-permᴰ
