-- ===== src/Timer/Progress.antt =====
-- The work that a check of the timers does in a round, and its end.
use avant.Base.{
  ℕ, zero, suc, ◌≤◌, ◌<◌, ◌≡◌, refl, sym, Option, none, some, List, [], ◌∷◌, ◌++◌, if◌then◌else◌,
  ◌||◌, nat_eq, subst, All, arith, inl, inr, Bool, Bool-cases, true, false, pos, eq_ℤ,
}
use avant.Timer.{
  TimerManager, Node, Timer, Walk, rearm, run, handle_node, check_loop, emplace_walk, backlog,
  uint64_max, at_least_once, is_expired, repeat_infinite,
}
use avant.Timer.Queue.{IsSorted}
use avant.Timer.Indexed.{IsIndexed, IsArmed}
use avant.Timer.Round.{All-middle, All-ahead, IsSorted-ahead, manager_of, round-IsIndexed}
use avant.Timer.Due.{
  IsDue, IsDue-emplace_walk, backlog-emplace_walk, late, idle, rearm_later, IsArmed_calls,
}

module _ {C W : Type 0} (call : C → Timer C → W → W) where
  pub state-handle_node :
      (n : Node C) (rest : List (Node C)) (s : Walk C W)
      → (handle_node call n rest s).state ≡ (run call n.timer s.state).1
  unfolding handle_node
  state-handle_node n rest s = ground arith

  pub run_calls :
      (t : Timer C) (c : C) (w : W)
      → IsArmed t.m_repeated_times t.m_interval
      → t.m_callback ≡ some c
      → (run call t w).1 ≡ call c t w
  unfolding run
  run_calls t c w a e = ground (arith, IsArmed_calls t.m_repeated_times t.m_interval a, e)

  pub run_keeps :
      (Q : W → Type 0)
      → ((c : C) (t : Timer C) (w : W) → Q w → Q (call c t w))
      → (t : Timer C) (w : W) → Q w
      → Q (run call t w).1
  unfolding run
  run_keeps Q keep t w q =
      go (eq_ℤ t.m_repeated_times repeat_infinite || at_least_once t.m_repeated_times) t.m_callback
    where
      go :
          (b : Bool) (o : Option C)
          → Q (if b then (elim o [ none ↦ w | some c ↦ call c t w ]) else w)
      go true none = q
      go true (some c) = keep c t w q
      go false none = q
      go false (some c) = q

  new_node : Node C → Walk C W → Node C
  new_node n s = record { it = s.next; key = (rearm n.timer).m_expired_time; timer = rearm n.timer }

  ahead-handle_node :
      (n : Node C) (rest : List (Node C)) (s : Walk C W)
      → (handle_node call n rest s).ahead ≡ (
          if eq_ℤ (rearm n.timer).m_repeated_times (pos 0)
          then rest
          else (emplace_walk (new_node n s) s.before rest).1)
  unfolding handle_node run new_node
  ahead-handle_node n rest s = ground arith

  pub IsDue-handle_node :
      (c : C) (id now : ℕ) (n : Node C) (rest : List (Node C)) (s : Walk C W)
      → IsDue c id now rest
      → IsDue c id now (handle_node call n rest s).ahead
  IsDue-handle_node c id now n rest s d =
      subst (IsDue c id now) (sym (ahead-handle_node n rest s))
        (go (eq_ℤ (rearm n.timer).m_repeated_times (pos 0)))
    where
      go :
          (b : Bool)
          → IsDue c id now (if b then rest else (emplace_walk (new_node n s) s.before rest).1)
      go true = d
      go false = IsDue-emplace_walk c id now (new_node n s) s.before rest d

  -- A round makes the backlog less.
  pub backlog-handle_node :
      (now : ℕ) (n : Node C) (rest : List (Node C)) (s : Walk C W)
      → IsArmed n.timer.m_repeated_times n.timer.m_interval
      → n.timer.m_expired_time ≤ now
      → now < uint64_max
      → backlog now (handle_node call n rest s).ahead < backlog now (n ∷ rest)
  unfolding new_node
  backlog-handle_node now n rest s a le lt =
      elim (Bool-cases (eq_ℤ (rearm n.timer).m_repeated_times (pos 0))) [
        | inl e ↦ ground (arith, ahead-handle_node n rest s, e, le)
        | inr e ↦ ground (
          arith,
          ahead-handle_node n rest s,
          e,
          le,
          lt,
          rearm_later n.timer a (omega (arith, le, lt)) e,
          backlog-emplace_walk (new_node n s) s.before rest now,
        )
      ]

  pub first_armed :
      (n : Node C) (rest : List (Node C)) (s : Walk C W)
      → s.ahead ≡ n ∷ rest
      → IsIndexed (manager_of s)
      → IsArmed n.timer.m_repeated_times n.timer.m_interval
  first_armed n rest s e h =
      All-middle (λ (y : Node C). IsArmed y.timer.m_repeated_times y.timer.m_interval) n rest
        s.before
        (subst
          (λ q.
            All (λ (y : Node C). IsArmed y.timer.m_repeated_times y.timer.m_interval)
              (s.before ++ q))
          e h.armed)

  -- At the end of the loop nothing from the iterator on is due.
  pub check_loop_stops :
      (fuel now : ℕ) (s : Walk C W)
      → now < uint64_max
      → backlog now s.ahead ≤ fuel
      → IsIndexed (manager_of s)
      → All (λ (n : Node C). now < n.timer.m_expired_time) (check_loop call fuel now s).ahead
  unfolding check_loop
  check_loop_stops zero now s lt le h = idle now s.ahead le
  check_loop_stops (suc fuel) now s lt le h = go (λ r. check_loop_stops fuel now r lt) s.ahead refl
    where
      less :
          (n : Node C) (rest : List (Node C))
          → s.ahead ≡ n ∷ rest
          → n.timer.m_expired_time ≤ now
          → backlog now (handle_node call n rest s).ahead ≤ fuel
      less n rest e x = omega (
        arith,
        backlog-handle_node now n rest s (first_armed n rest s e h) x lt,
        le,
        subst (λ q. backlog now q ≤ suc fuel) e le,
      )

      go :
          ((r : Walk C W)
            → backlog now r.ahead ≤ fuel
            → IsIndexed (manager_of r)
            → All (λ (n : Node C). now < n.timer.m_expired_time) (check_loop call fuel now r).ahead)
          → (ahead : List (Node C)) → s.ahead ≡ ahead
          → All
              (λ (n : Node C). now < n.timer.m_expired_time)
              (Walk.ahead (elim ahead [
                | [] ↦ s
                | n ∷ rest ↦
                    if is_expired now n.timer
                    then check_loop call fuel now (handle_node call n rest s)
                    else s
              ]))
      go again [] e = subst (All (λ (n : Node C). now < n.timer.m_expired_time)) (sym e) tt
      go again (n ∷ rest) e =
          let sorted = subst IsSorted e (IsSorted-ahead s.ahead s.before h.sorted) in
          let keyed =
            subst (All (λ (n : Node C). n.key ≡ n.timer.m_expired_time)) e (
              All-ahead (λ (n : Node C). n.key ≡ n.timer.m_expired_time) s.ahead s.before
                h.keyed) in
          elim (Bool-cases (is_expired now n.timer)) [
            | inl x ↦ rw x (
                again (handle_node call n rest s) (less n rest e (ground (arith, x)))
                  (round-IsIndexed call n rest s e h))
            | inr x ↦ rw x (
                subst (All (λ (n : Node C). now < n.timer.m_expired_time)) (sym e)
                  (late now n rest sorted keyed (ground (arith, x))))
          ]

  -- Where the index and the queue are in step and the time is less than UINT64_MAX, the loop as
  -- check_and_handle starts it comes to its end: no timer from its iterator on is due.
  pub check_loop-IsDone :
      (now : ℕ) (m : TimerManager C) (w : W)
      → now < uint64_max
      → IsIndexed m
      → All
          (λ (n : Node C). now < n.timer.m_expired_time)
          (check_loop call (backlog now m.m_queue) now (record {
            before = [];
            ahead = m.m_queue;
            index = m.m_timer_index;
            next = m.next_it;
            state = w;
          })).ahead
  check_loop-IsDone now m w lt h =
      check_loop_stops (backlog now m.m_queue) now
        (record {
          before = [];
          ahead = m.m_queue;
          index = m.m_timer_index;
          next = m.next_it;
          state = w;
        })
        lt (omega arith) h
