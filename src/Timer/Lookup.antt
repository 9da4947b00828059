-- ===== src/Timer/Lookup.antt =====
-- `add` and `mark_delete` as operations on a map from ids to timers.
use avant.Base.Map
use avant.Base.{
  ℕ, ◌≡◌, ◌<◌, ◌==◌, none, some, if◌then◌else◌, nat_eq, arith, inl, inr, Bool-cases, Option-cases,
}
use avant.Timer.{TimerManager, Node, Timer, index_emplace, put, mark_delete, add, is_valid}
use avant.Timer.Queue.{find_it-emplace, find_it-erase_it, All-find_it}
use avant.Timer.Indexed.{
  IsIndexed, timer_of, mark_delete-IsIndexed, put-IsIndexed, is_valid-IsArmed,
}

module _ {C : Type 0} where
  find-mark_delete :
      (id j : ℕ) (m : TimerManager C)
      → Map.find j (mark_delete id m).m_timer_index
        ≡ (if id == j then none else Map.find j m.m_timer_index)
  unfolding mark_delete
  find-mark_delete id j m = elim (Option-cases (Map.find id m.m_timer_index)) [
    | inl e ↦ ground (arith, e)
    | inr (i, e) ↦ ground (arith, e, Map.find-erase id j m.m_timer_index)
  ]

  -- Two ids of one node are one id.
  named_once :
      (id j i : ℕ) (m : TimerManager C)
      → IsIndexed m
      → Map.find id m.m_timer_index ≡ some i
      → Map.find j m.m_timer_index ≡ some i
      → id ≡ j
  named_once id j i m h e f =
      let a = h.named id i e in let b = h.named j i f in ground (arith, a.1, a.2, b.1, b.2)

  pub timer_of-mark_delete :
      (id j : ℕ) (m : TimerManager C)
      → IsIndexed m
      → timer_of j (mark_delete id m) ≡ (if id == j then none else timer_of j m)
  unfolding mark_delete
  timer_of-mark_delete id j m h = elim (Option-cases (Map.find id m.m_timer_index)) [
    | inl e ↦ ground (arith, e)
    | inr (i, e) ↦ elim (Option-cases (Map.find j m.m_timer_index)) [
      | inl f ↦ ground (arith, e, f, Map.find-erase id j m.m_timer_index)
      | inr (k, f) ↦ ground (
        arith,
        e,
        f,
        Map.find-erase id j m.m_timer_index,
        find_it-erase_it i k m.m_queue,
        same i k e f,
      )
    ]
  ]
    where
      same :
          (i k : ℕ)
          → Map.find id m.m_timer_index ≡ some i
          → Map.find j m.m_timer_index ≡ some k
          → i ≡ k
          → id ≡ j
      same i k e f x = named_once id j i m h e (ground (arith, x, f))

  pub timer_of-put :
      (t : Timer C) (j : ℕ) (m : TimerManager C)
      → IsIndexed m
      → Map.find t.m_id m.m_timer_index ≡ none
      → timer_of j (put t m) ≡ (if t.m_id == j then some t else timer_of j m)
  unfolding put index_emplace
  timer_of-put t j m h e = elim (Option-cases (Map.find j m.m_timer_index)) [
    | inl f ↦ ground (
      arith,
      e,
      f,
      Map.find-assign t.m_id j m.next_it m.m_timer_index,
      find_it-emplace n m.m_queue m.next_it h.fresh,
    )
    | inr (k, f) ↦
        let old = h.named j k f in
        let node = All-find_it (λ (y : Node C). y.it < m.next_it) k m.m_queue old.0 old.1 h.fresh in
        ground (
          arith,
          e,
          f,
          Map.find-assign t.m_id j m.next_it m.m_timer_index,
          find_it-emplace n m.m_queue m.next_it h.fresh,
          find_it-emplace n m.m_queue k h.fresh,
          node.1,
          node.3,
        )
  ]
    where
      n : Node C
      n = record { it = m.next_it; key = t.m_expired_time; timer = t }

  pub add-IsIndexed :
      (t : Timer C) (m : TimerManager C) → IsIndexed m → IsIndexed (add (some t) m).1
  unfolding add
  add-IsIndexed t m h = elim (Bool-cases (is_valid t)) [
    | inl e ↦ rw e (
        put-IsIndexed t (mark_delete t.m_id m) (ground (arith, find-mark_delete t.m_id t.m_id m))
          (is_valid-IsArmed t e) (mark_delete-IsIndexed t.m_id m h))
    | inr e ↦ rw e h
  ]

  -- Where the index and the queue are in step, adding a timer that is valid makes its id name it, and
  -- every other id names what it named; adding one that is not changes no name. A timer of the same
  -- id that was there is replaced.
  pub timer_of-add :
      (t : Timer C) (j : ℕ) (m : TimerManager C)
      → IsIndexed m
      → timer_of j (add (some t) m).1
        ≡ (if is_valid t then if t.m_id == j then some t else timer_of j m else timer_of j m)
  unfolding add
  timer_of-add t j m h = elim (Bool-cases (is_valid t)) [
    | inl e ↦ ground (
      arith,
      e,
      timer_of-put t j (mark_delete t.m_id m) (mark_delete-IsIndexed t.m_id m h)
          (ground (arith, find-mark_delete t.m_id t.m_id m)),
      timer_of-mark_delete t.m_id j m h,
    )
    | inr e ↦ ground (arith, e)
  ]
