-- ===== src/Timer/Due.antt =====
-- The nodes that are due, and the work that the queue has left: `backlog`.
use avant.Base.{
  ℕ, zero, suc, ◌+◌, ◌-◌, ◌≤◌, ◌<◌, ◌≡◌, refl, ltb, some, List, [], ◌∷◌, if◌then◌else◌, ◌||◌,
  nat_eq, All, arith, inl, inr, ◌⊎◌, Bool-cases, true, false, ℤ, pos, negsuc, eq_ℤ,
}
use avant.Timer.{
  Node, Timer, emplace, rearm, emplace_walk, backlog, uint64_max, one_less, at_least_once,
  repeat_infinite,
}
use avant.Timer.Queue.{IsSorted}
use avant.Timer.Indexed.{IsArmed}

pub interval_positive :
    (r : ℤ) (k : ℕ)
    → IsArmed r k
    → eq_ℤ (if at_least_once r then one_less r else r) (pos 0) ≡ false
    → 0 < k
interval_positive (pos zero) k a e = elim a [ ]
interval_positive (pos (suc zero)) k a e = ground (arith, e)
interval_positive (pos (suc (suc n))) k a e = a
interval_positive (negsuc zero) k a e = a
interval_positive (negsuc (suc n)) k a e = elim a [ ]

pub IsArmed_calls :
    (r : ℤ) (k : ℕ) → IsArmed r k → (eq_ℤ r repeat_infinite || at_least_once r) ≡ true
IsArmed_calls (pos zero) k a = elim a [ ]
IsArmed_calls (pos (suc n)) k a = refl
IsArmed_calls (negsuc zero) k a = ground arith
IsArmed_calls (negsuc (suc n)) k a = elim a [ ]

module _ {C : Type 0} where
  -- A node of this id, with this callback, is due.
  abbrev pub IsDue : C → ℕ → ℕ → List (Node C) → Type 0
  IsDue c id now [] = ⊥
  IsDue c id now (x ∷ xs) =
      ((x.timer.m_callback ≡ some c) × (x.timer.m_id ≡ id) × (x.timer.m_expired_time ≤ now))
      ⊎ IsDue c id now xs

  pub backlog-emplace :
      (n : Node C) (q : List (Node C)) (now : ℕ)
      → backlog now (emplace n q) ≡ (now + 1 - n.timer.m_expired_time) + backlog now q
  unfolding emplace
  backlog-emplace n [] now = refl
  backlog-emplace n (x ∷ xs) now = ground (arith, backlog-emplace n xs now)

  pub backlog-emplace_walk :
      (n : Node C) (before ahead : List (Node C)) (now : ℕ)
      → backlog now (emplace_walk n before ahead).1
        ≤ (now + 1 - n.timer.m_expired_time) + backlog now ahead
  unfolding emplace_walk
  backlog-emplace_walk n before [] now = ground arith
  backlog-emplace_walk n before (x ∷ xs) now = ground (arith, backlog-emplace n (x ∷ xs) now)

  pub IsDue-emplace :
      (c : C) (id now : ℕ) (n : Node C) (q : List (Node C))
      → IsDue c id now q
      → IsDue c id now (emplace n q)
  unfolding emplace
  IsDue-emplace c id now n [] h = elim h [ ]
  IsDue-emplace c id now n (x ∷ xs) h = elim (Bool-cases (ltb n.key x.key)) [
    | inl e ↦ rw e (inr h)
    | inr e ↦ rw e (elim h [ inl d ↦ inl d | inr d ↦ inr (IsDue-emplace c id now n xs d) ])
  ]

  pub IsDue-emplace_walk :
      (c : C) (id now : ℕ) (n : Node C) (before ahead : List (Node C))
      → IsDue c id now ahead
      → IsDue c id now (emplace_walk n before ahead).1
  unfolding emplace_walk
  IsDue-emplace_walk c id now n before [] h = h
  IsDue-emplace_walk c id now n before (x ∷ xs) h = elim (Bool-cases (ltb n.key x.key)) [
    | inl e ↦ rw e h
    | inr e ↦ rw e (elim h [ inl d ↦ inl d | inr d ↦ inr (IsDue-emplace c id now n xs d) ])
  ]

  -- Where one node is due, the first is.
  pub first_due :
      (c : C) (id now : ℕ) (x : Node C) (xs : List (Node C))
      → IsSorted (x ∷ xs)
      → All (λ (n : Node C). n.key ≡ n.timer.m_expired_time) (x ∷ xs)
      → IsDue c id now (x ∷ xs)
      → x.timer.m_expired_time ≤ now
  first_due c id now x xs s k (inl d) = d.2
  first_due c id now x xs s k (inr d) = ground (arith, below xs s.0 k.1 d, k.0)
    where
      below :
          (ys : List (Node C))
          → All (λ (y : Node C). x.key ≤ y.key) ys
          → All (λ (n : Node C). n.key ≡ n.timer.m_expired_time) ys
          → IsDue c id now ys
          → x.key ≤ now
      below [] a b f = elim f [ ]
      below (y ∷ ys) a b (inl f) = omega (arith, a.0, b.0, f.2)
      below (y ∷ ys) a b (inr f) = below ys a.1 b.1 f

  -- No backlog: nothing is due.
  pub idle :
      (now : ℕ) (q : List (Node C))
      → backlog now q ≤ 0
      → All (λ (n : Node C). now < n.timer.m_expired_time) q
  idle now [] h = tt
  idle now (x ∷ xs) h = (omega (arith, h), idle now xs (omega (arith, h)))

  -- Where the first node is not due, no node is.
  pub late :
      (now : ℕ) (x : Node C) (xs : List (Node C))
      → IsSorted (x ∷ xs)
      → All (λ (n : Node C). n.key ≡ n.timer.m_expired_time) (x ∷ xs)
      → now < x.timer.m_expired_time
      → All (λ (n : Node C). now < n.timer.m_expired_time) (x ∷ xs)
  late now x xs s k h = (h, go xs s.0 k.1)
    where
      go :
          (ys : List (Node C))
          → All (λ (y : Node C). x.key ≤ y.key) ys
          → All (λ (n : Node C). n.key ≡ n.timer.m_expired_time) ys
          → All (λ (n : Node C). now < n.timer.m_expired_time) ys
      go [] a b = tt
      go (y ∷ ys) a b = (omega (arith, a.0, b.0, k.0, h), go ys a.1 b.1)

  -- A timer that fires again is later than it was.
  pub rearm_later :
      (t : Timer C)
      → IsArmed t.m_repeated_times t.m_interval
      → t.m_expired_time < uint64_max
      → eq_ℤ (rearm t).m_repeated_times (pos 0) ≡ false
      → t.m_expired_time < (rearm t).m_expired_time
  unfolding rearm
  rearm_later t a lt e =
      ground (arith, e, lt, interval_positive t.m_repeated_times t.m_interval a e)
