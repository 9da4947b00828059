-- ===== src/Timer/Fire.antt =====
-- Which timers a check of the timers runs.
use avant.Base.Map
use avant.Base.{
  ℕ, zero, suc, ◌≤◌, ◌<◌, ◌≡◌, refl, sym, ◌∙◌, Option, none, some, List, [], ◌∷◌, if◌then◌else◌,
  subst, All, arith, inl, inr, Bool-cases, true, ◌==◌, nat_eq,
}
use avant.Timer.{
  TimerManager, Node, Timer, Walk, handle_node, check_loop, check_and_handle, backlog, uint64_max,
  is_expired,
}
use avant.Timer.Queue.{IsSorted, find_it}
use avant.Timer.Indexed.{IsIndexed, timer_of}
use avant.Timer.Round.{All-ahead, IsSorted-ahead, manager_of, check_loop_keeps, round-IsIndexed}
use avant.Timer.Due.{IsDue, first_due}
use avant.Timer.Progress.{
  state-handle_node, run_calls, run_keeps, IsDue-handle_node, backlog-handle_node, first_armed,
}

find_it-IsDue :
    {C : Type 0}
    → (c : C) (id now i : ℕ) (q : List (Node C)) (t : Timer C) → find_it i q ≡ some t
    → t.m_callback ≡ some c
    → t.m_id ≡ id
    → t.m_expired_time ≤ now
    → IsDue c id now q
find_it-IsDue c id now i [] t e f g le = ground (arith, e)
find_it-IsDue c id now i (x ∷ xs) t e f g le = elim (Bool-cases (x.it == i)) [
  | inl b ↦ inl (ground (arith, b, e, f), ground (arith, b, e, g), ground (arith, b, e, le))
  | inr b ↦ inr (find_it-IsDue c id now i xs t (ground (arith, b, e)) f g le)
]

due_backlog :
    {C : Type 0} → (c : C) (id now : ℕ) (q : List (Node C)) → IsDue c id now q → 0 < backlog now q
due_backlog c id now [] d = elim d [ ]
due_backlog c id now (x ∷ xs) (inl d) = omega (arith, d.2)
due_backlog c id now (x ∷ xs) (inr d) = omega (arith, due_backlog c id now xs d)

-- P is what all callbacks keep. Q is what the callback `c` of the timer `id` brings about then, and no
-- callback undoes.
module _ {C W : Type 0} (call : C → Timer C → W → W) (P Q : W → Type 0) (c : C) (id : ℕ)
    (brings : (t : Timer C) (w : W) → t.m_id ≡ id → P w → Q (call c t w))
    (keeps : (d : C) (t : Timer C) (w : W) → P w → P (call d t w))
    (keeps_on : (d : C) (t : Timer C) (w : W) → Q w → Q (call d t w)) where
  state_keeps :
      (R : W → Type 0)
      → ((d : C) (t : Timer C) (w : W) → R w → R (call d t w))
      → (n : Node C) (rest : List (Node C)) (s : Walk C W) → R s.state
      → R (handle_node call n rest s).state
  state_keeps R keep n rest s q =
      subst R (sym (state-handle_node call n rest s)) (run_keeps call R keep n.timer s.state q)

  check_loop_fires :
      (fuel now : ℕ) (s : Walk C W)
      → now < uint64_max
      → backlog now s.ahead ≤ fuel
      → IsIndexed (manager_of s)
      → IsDue c id now s.ahead
      → P s.state
      → Q (check_loop call fuel now s).state
  unfolding check_loop
  check_loop_fires zero now s lt le h d p =
      absurd (omega (arith, le, due_backlog c id now s.ahead d))
  check_loop_fires (suc fuel) now s lt le h d p =
      go (λ r. check_loop_fires fuel now r lt) s.ahead refl
    where
      go :
          ((r : Walk C W)
            → backlog now r.ahead ≤ fuel
            → IsIndexed (manager_of r)
            → IsDue c id now r.ahead
            → P r.state
            → Q (check_loop call fuel now r).state)
          → (ahead : List (Node C)) → s.ahead ≡ ahead
          → Q (
              Walk.state (elim ahead [
                | [] ↦ s
                | n ∷ rest ↦
                    if is_expired now n.timer
                    then check_loop call fuel now (handle_node call n rest s)
                    else s
              ]))
      go again [] e = elim (subst (IsDue c id now) e d) [ ]
      go again (n ∷ rest) e =
          let due = subst (IsDue c id now) e d in
          let sorted = subst IsSorted e (IsSorted-ahead s.ahead s.before h.sorted) in
          let keyed =
            subst (All (λ (n : Node C). n.key ≡ n.timer.m_expired_time)) e (
              All-ahead (λ (n : Node C). n.key ≡ n.timer.m_expired_time) s.ahead s.before
                h.keyed) in
          let expired = first_due c id now n rest sorted keyed due in
          let armed = first_armed call n rest s e h in
          let run_here : is_expired now n.timer ≡ true = ground (arith, expired) in
          rw run_here (elim due [
            | inl f ↦
                check_loop_keeps call (λ r. Q r.state)
                  (λ y ys r k q. state_keeps Q keeps_on y ys r q) fuel now
                  (handle_node call n rest s)
                  (subst Q
                    (sym (
                      state-handle_node call n rest s ∙ run_calls call n.timer c s.state armed f.0))
                    (brings n.timer s.state f.1 p))
            | inr f ↦
                again (handle_node call n rest s)
                  (omega (
                    arith,
                    backlog-handle_node call now n rest s armed expired lt,
                    le,
                    subst (λ q. backlog now q ≤ suc fuel) e le,
                  ))
                  (round-IsIndexed call n rest s e h) (IsDue-handle_node call c id now n rest s f)
                  (state_keeps P keeps n rest s p)
          ])

  -- Where the index and the queue are in step and the time is less than UINT64_MAX, a timer that is due
  -- is run: what its callback brings about where P holds, and no callback undoes, is so after the
  -- check, if P held before and all callbacks keep it.
  pub check_and_handle_fires :
      (now : ℕ) (m : TimerManager C) (t : Timer C) (w : W)
      → now < uint64_max
      → IsIndexed m
      → P w
      → timer_of id m ≡ some t
      → t.m_callback ≡ some c
      → t.m_expired_time ≤ now
      → Q (check_and_handle call now m w).1
  unfolding check_and_handle
  check_and_handle_fires now m t w lt h p e f le =
      check_loop_fires (backlog now m.m_queue) now
        (record {
          before = [];
          ahead = m.m_queue;
          index = m.m_timer_index;
          next = m.next_it;
          state = w;
        })
        lt (omega arith) h (found (Map.find id m.m_timer_index) refl e) p
    where
      found :
          (o : Option ℕ)
          → Map.find id m.m_timer_index ≡ o
          → (elim o [ none ↦ none | some i ↦ find_it i m.m_queue ]) ≡ some t
          → IsDue c id now m.m_queue
      found none k x = ground (arith, x)
      found (some i) k x =
          let there = h.named id i k in
          find_it-IsDue c id now i m.m_queue t x f (ground (arith, there.1, there.2, x)) le
