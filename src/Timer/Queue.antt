-- ===== src/Timer/Queue.antt =====
-- The queue of timers: its order, and the nodes that iterators name.
use avant.Base.{
  ℕ, ◌≤◌, ◌<◌, ◌≡◌, ◌≢◌, refl, ap, sym, ◌∙◌, ◌==◌, ltb, Option, none, some, List, [], ◌∷◌, ◌++◌,
  if◌then◌else◌, All, arith, inl, inr, Bool-cases, append-nil,
}
use avant.Timer.{Node, Timer, emplace, erase_it, emplace_walk}

module _ {C : Type 0} where
  abbrev pub IsSorted : List (Node C) → Type 0
  IsSorted [] = Unit
  IsSorted (x ∷ xs) = All (λ (y : Node C). x.key ≤ y.key) xs × IsSorted xs

  -- No two nodes have one iterator.
  abbrev pub IsUnique : List (Node C) → Type 0
  IsUnique [] = Unit
  IsUnique (x ∷ xs) = All (λ (y : Node C). x.it ≢ y.it) xs × IsUnique xs

  -- *it
  abbrev pub find_it : ℕ → List (Node C) → Option (Timer C)
  find_it i [] = none
  find_it i (x ∷ xs) = if x.it == i then some x.timer else find_it i xs

  pub All-map :
      (P Q : Node C → Type 0) (q : List (Node C)) → ((y : Node C) → P y → Q y) → All P q → All Q q
  All-map P Q [] f h = tt
  All-map P Q (x ∷ xs) f h = (f x h.0, All-map P Q xs f h.1)

  pub All-emplace :
      (P : Node C → Type 0) (n : Node C) (q : List (Node C)) → P n → All P q → All P (emplace n q)
  unfolding emplace
  All-emplace P n [] p h = (p, tt)
  All-emplace P n (x ∷ xs) p h = elim (Bool-cases (ltb n.key x.key)) [
    | inl e ↦ rw e (p, h)
    | inr e ↦ rw e (h.0, All-emplace P n xs p h.1)
  ]

  pub All-erase_it :
      (P : Node C → Type 0) (i : ℕ) (q : List (Node C)) → All P q → All P (erase_it i q)
  unfolding erase_it
  All-erase_it P i [] h = tt
  All-erase_it P i (x ∷ xs) h = elim (Bool-cases (x.it == i)) [
    | inl e ↦ rw e (All-erase_it P i xs h.1)
    | inr e ↦ rw e (h.0, All-erase_it P i xs h.1)
  ]

  -- What is true of the nodes that are left may use that they are left.
  pub All-erase_it_ne :
      (P Q : Node C → Type 0) (i : ℕ) (q : List (Node C))
      → ((y : Node C) → P y → y.it ≢ i → Q y)
      → All P q
      → All Q (erase_it i q)
  unfolding erase_it
  All-erase_it_ne P Q i [] f h = tt
  All-erase_it_ne P Q i (x ∷ xs) f h = elim (Bool-cases (x.it == i)) [
    | inl e ↦ rw e (All-erase_it_ne P Q i xs f h.1)
    | inr e ↦ rw e (f x h.0 (ground (arith, e)), All-erase_it_ne P Q i xs f h.1)
  ]

  -- A node that is found has what all nodes have.
  pub All-find_it :
      (P : Node C → Type 0) (i : ℕ) (q : List (Node C)) (t : Timer C)
      → find_it i q ≡ some t
      → All P q
      → (n : Node C) × (n.it ≡ i) × (n.timer ≡ t) × P n
  All-find_it P i [] t e h = ground (arith, e)
  All-find_it P i (x ∷ xs) t e h = elim (Bool-cases (x.it == i)) [
    | inl b ↦ (x, ground (arith, b), ground (arith, b, e), h.0)
    | inr b ↦ All-find_it P i xs t (ground (arith, b, e)) h.1
  ]

  pub emplace-IsSorted : (n : Node C) (q : List (Node C)) → IsSorted q → IsSorted (emplace n q)
  unfolding emplace
  emplace-IsSorted n [] h = (tt, tt)
  emplace-IsSorted n (x ∷ xs) h = elim (Bool-cases (ltb n.key x.key)) [
    | inl e ↦
        let lt : n.key < x.key = ground (arith, e) in
        rw e (
          (
            omega (arith, lt),
            All-map (λ (y : Node C). x.key ≤ y.key) (λ (y : Node C). n.key ≤ y.key) xs
                (λ y k. omega (arith, lt, k)) h.0,
          ),
          h,
        )
    | inr e ↦ rw e (
      All-emplace (λ (y : Node C). x.key ≤ y.key) n xs (ground (arith, e)) h.0,
      emplace-IsSorted n xs h.1,
    )
  ]

  pub erase_it-IsSorted : (i : ℕ) (q : List (Node C)) → IsSorted q → IsSorted (erase_it i q)
  unfolding erase_it
  erase_it-IsSorted i [] h = tt
  erase_it-IsSorted i (x ∷ xs) h = elim (Bool-cases (x.it == i)) [
    | inl e ↦ rw e (erase_it-IsSorted i xs h.1)
    | inr e ↦
        rw e (All-erase_it (λ (y : Node C). x.key ≤ y.key) i xs h.0, erase_it-IsSorted i xs h.1)
  ]

  pub emplace-IsUnique :
      (n : Node C) (q : List (Node C))
      → All (λ (y : Node C). y.it < n.it) q
      → IsUnique q
      → IsUnique (emplace n q)
  unfolding emplace
  emplace-IsUnique n [] below h = (tt, tt)
  emplace-IsUnique n (x ∷ xs) below h = elim (Bool-cases (ltb n.key x.key)) [
    | inl e ↦ rw e (
      All-map (λ (y : Node C). y.it < n.it) (λ (y : Node C). n.it ≢ y.it) (x ∷ xs)
          (λ y k p. omega (arith, k, p)) below,
      h,
    )
    | inr e ↦ rw e (
      All-emplace (λ (y : Node C). x.it ≢ y.it) n xs (λ p. omega (arith, below.0, p)) h.0,
      emplace-IsUnique n xs below.1 h.1,
    )
  ]

  pub erase_it-IsUnique : (i : ℕ) (q : List (Node C)) → IsUnique q → IsUnique (erase_it i q)
  unfolding erase_it
  erase_it-IsUnique i [] h = tt
  erase_it-IsUnique i (x ∷ xs) h = elim (Bool-cases (x.it == i)) [
    | inl e ↦ rw e (erase_it-IsUnique i xs h.1)
    | inr e ↦ rw e (All-erase_it (λ (y : Node C). x.it ≢ y.it) i xs h.0, erase_it-IsUnique i xs h.1)
  ]

  pub find_it-emplace :
      (n : Node C) (q : List (Node C)) (j : ℕ)
      → All (λ (y : Node C). y.it < n.it) q
      → find_it j (emplace n q) ≡ (if n.it == j then some n.timer else find_it j q)
  unfolding emplace
  find_it-emplace n [] j below = refl
  find_it-emplace n (x ∷ xs) j below = ground (arith, find_it-emplace n xs j below.1, below.0)

  pub find_it-erase_it :
      (i j : ℕ) (q : List (Node C))
      → find_it j (erase_it i q) ≡ (if i == j then none else find_it j q)
  unfolding erase_it
  find_it-erase_it i j [] = ground arith
  find_it-erase_it i j (x ∷ xs) = ground (arith, find_it-erase_it i j xs)

  erase_absent : (i : ℕ) (q : List (Node C)) → All (λ (y : Node C). i ≢ y.it) q → erase_it i q ≡ q
  unfolding erase_it
  erase_absent i [] h = refl
  erase_absent i (x ∷ xs) h = ground (arith, erase_absent i xs h.1, h.0)

  -- the node at `queue_it` is erased
  pub erase_between :
      (before rest : List (Node C)) (n : Node C)
      → IsUnique (before ++ (n ∷ rest))
      → erase_it n.it (before ++ (n ∷ rest)) ≡ before ++ rest
  unfolding erase_it
  erase_between [] rest n h = ground (arith, erase_absent n.it rest h.0)
  erase_between (x ∷ before) rest n h =
      ground (arith, erase_between before rest n h.1, apart before h.0)
    where
      apart :
          (b : List (Node C)) → All (λ (y : Node C). x.it ≢ y.it) (b ++ (n ∷ rest)) → x.it ≢ n.it
      apart [] k = k.0
      apart (y ∷ b) k = apart b k.1

  emplace_front :
      (n x : Node C) (xs before : List (Node C))
      → n.key < x.key
      → IsSorted (before ++ (x ∷ xs))
      → emplace n (before ++ (x ∷ xs)) ≡ emplace n before ++ (x ∷ xs)
  unfolding emplace
  emplace_front n x xs [] lt h = ground arith
  emplace_front n x xs (b ∷ before) lt h = ground (arith, emplace_front n x xs before lt h.1)

  emplace_back :
      (n x : Node C) (xs before : List (Node C))
      → x.key ≤ n.key
      → IsSorted (before ++ (x ∷ xs))
      → emplace n (before ++ (x ∷ xs)) ≡ before ++ (x ∷ emplace n xs)
  unfolding emplace
  emplace_back n x xs [] le h = ground (arith, le)
  emplace_back n x xs (b ∷ before) le h =
      ground (arith, emplace_back n x xs before le h.1, first before h.0)
    where
      first :
          (c : List (Node C)) → All (λ (y : Node C). b.key ≤ y.key) (c ++ (x ∷ xs)) → b.key ≤ x.key
      first [] k = k.0
      first (y ∷ c) k = first c k.1

  -- Emplacing beside `queue_it` is emplacing in the whole queue.
  pub emplace_walk-emplace :
      (n : Node C) (before ahead : List (Node C))
      → IsSorted (before ++ ahead)
      → (emplace_walk n before ahead).0 ++ (emplace_walk n before ahead).1
        ≡ emplace n (before ++ ahead)
  unfolding emplace_walk
  emplace_walk-emplace n before [] h =
      append-nil (emplace n before) ∙ ap (emplace n) (sym (append-nil before))
  emplace_walk-emplace n before (x ∷ xs) h = elim (Bool-cases (ltb n.key x.key)) [
    | inl e ↦ rw e (sym (emplace_front n x xs before (ground (arith, e)) h))
    | inr e ↦ rw e (sym (emplace_back n x xs before (ground (arith, e)) h))
  ]
