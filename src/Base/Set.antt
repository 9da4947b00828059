-- ===== src/Base/Set.antt =====
-- `std::unordered_set` and `std::set`: a list without repetition.
use Prim.Native.Nat.{◌+◌}
use mathlib.Core.Path.{◌≡◌, refl}
use mathlib.Core.Bool.{Bool, true, false}
use mathlib.Core.List.{List, [], ◌∷◌}
use native.Mathlib.Omega.{arith}
use avant.Base.Tests.{if◌then◌else◌}
use avant.Base.Lists.{length}
use avant.Base.Key.{Eq}

module _ {A : Type 0} ⦃e : Eq A⦄ where
  -- s.find(a) != s.end()
  unfoldable pub contains : A → List A → Bool
  contains a [] = false
  contains a (x ∷ xs) = if e.beq x a then true else contains a xs

  -- s.insert(a): no change where `a` is there
  unfoldable pub insert : A → List A → List A
  unfolding contains
  insert a xs = if contains a xs then xs else a ∷ xs

  -- s.erase(a)
  unfoldable pub erase : A → List A → List A
  erase a [] = []
  erase a (x ∷ xs) = if e.beq x a then erase a xs else x ∷ erase a xs

  -- No element stands twice.
  abbrev pub IsSetList : List A → Type 0
  IsSetList [] = Unit
  IsSetList (x ∷ xs) = (contains x xs ≡ false) × IsSetList xs

  pub contains-insert :
      (a b : A) (xs : List A)
      → contains b (insert a xs) ≡ (if e.beq a b then true else contains b xs)
  unfolding contains insert
  contains-insert a b xs = ground (arith, e.beq_iff a b)

  pub contains-erase :
      (a b : A) (xs : List A)
      → contains b (erase a xs) ≡ (if e.beq a b then false else contains b xs)
  unfolding contains erase
  contains-erase a b [] = ground arith
  contains-erase a b (x ∷ xs) =
      ground (arith, contains-erase a b xs, e.beq_iff x a, e.beq_iff x b, e.beq_iff a b)

  pub insert-IsSetList : (a : A) (xs : List A) → IsSetList xs → IsSetList (insert a xs)
  unfolding insert
  insert-IsSetList a xs h = ground arith

  pub erase-IsSetList : (a : A) (xs : List A) → IsSetList xs → IsSetList (erase a xs)
  unfolding erase contains
  erase-IsSetList a [] h = h
  erase-IsSetList a (x ∷ xs) h =
      ground (arith, erase-IsSetList a xs h.1, contains-erase a x xs, e.beq_iff a x, e.beq_iff x a)

  pub erase_absent : (a : A) (xs : List A) → contains a xs ≡ false → erase a xs ≡ xs
  unfolding erase contains
  erase_absent a [] h = refl
  erase_absent a (x ∷ xs) h = ground (arith, erase_absent a xs)

  pub length-erase :
      (a : A) (xs : List A)
      → IsSetList xs
      → contains a xs ≡ true
      → length (erase a xs) + 1 ≡ length xs
  unfolding erase contains
  length-erase a [] h c = ground arith
  length-erase a (x ∷ xs) h c =
      ground (arith, length-erase a xs h.1, erase_absent a xs, e.beq_iff x a)

  pub length-insert :
      (a : A) (xs : List A)
      → length (insert a xs) ≡ (if contains a xs then length xs else length xs + 1)
  unfolding insert
  length-insert a xs = ground arith
