-- ===== src/Base/Map.antt =====
-- `std::unordered_map` and `std::map`: an association list, with the laws that the clients use.
use mathlib.Core.Path.{◌≡◌, refl}
use mathlib.Core.Option.{Option, none, some}
use mathlib.Core.List.{List, [], ◌∷◌}
use native.Mathlib.Omega.{arith}
use avant.Base.Tests.{if◌then◌else◌}
use avant.Base.Key.{Eq}

abbrev pub Map : Type 0 → Type 0 → Type 0
Map K V = List (K × V)

module _ {K V : Type 0} ⦃e : Eq K⦄ where
  -- m.find(k)
  unfoldable pub find : K → Map K V → Option V
  find k [] = none
  find k ((j, v) ∷ m) = if e.beq j k then some v else find k m

  -- m.erase(k)
  unfoldable pub erase : K → Map K V → Map K V
  erase k [] = []
  erase k ((j, v) ∷ m) = if e.beq j k then erase k m else (j, v) ∷ erase k m

  -- m[k] = v
  unfoldable pub assign : K → V → Map K V → Map K V
  unfolding erase
  assign k v m = (k, v) ∷ erase k m

  pub find-erase :
      (k j : K) (m : Map K V) → find j (erase k m) ≡ (if e.beq k j then none else find j m)
  unfolding find erase
  find-erase k j [] = ground arith
  find-erase k j ((i, v) ∷ m) =
      ground (arith, find-erase k j m, e.beq_iff i k, e.beq_iff i j, e.beq_iff k j)

  pub find-assign :
      (k j : K) (v : V) (m : Map K V)
      → find j (assign k v m) ≡ (if e.beq k j then some v else find j m)
  unfolding find assign
  find-assign k j v m = ground (arith, find-erase k j m)

  pub find-nil : (k : K) → find k [] ≡ none
  unfolding find
  find-nil k = refl
