-- ===== src/Timer/Round.antt =====
-- A round of check_and_handle as operations on the whole queue.
use avant.Base.Map
use avant.Base.{
  ℕ, zero, suc, ◌+◌, ◌≡◌, refl, sym, some, List, [], ◌∷◌, ◌++◌, if◌then◌else◌, nat_eq, subst, All,
  arith, inl, inr, Bool, Bool-cases, true, false, ℤ, pos, negsuc, eq_ℤ,
}
use avant.Timer.{
  TimerManager, Node, Timer, Walk, index_emplace, put, rearm, run, handle_node, check_loop,
  check_and_handle, emplace_walk, backlog, one_less, at_least_once, is_expired,
}
use avant.Timer.Queue.{IsSorted, erase_between, emplace_walk-emplace}
use avant.Timer.Indexed.{IsIndexed, IsArmed, erase-IsIndexed, put-IsIndexed}

pub IsArmed_left :
    (r : ℤ) (k : ℕ)
    → IsArmed r k
    → eq_ℤ (if at_least_once r then one_less r else r) (pos 0) ≡ false
    → IsArmed (if at_least_once r then one_less r else r) k
IsArmed_left (pos zero) k h e = h
IsArmed_left (pos (suc zero)) k h e = ground (arith, e)
IsArmed_left (pos (suc (suc zero))) k h e = tt
IsArmed_left (pos (suc (suc (suc n)))) k h e = h
IsArmed_left (negsuc zero) k h e = h
IsArmed_left (negsuc (suc n)) k h e = h

module _ {C : Type 0} where
  IsArmed-rearm :
      (t : Timer C)
      → IsArmed t.m_repeated_times t.m_interval
      → eq_ℤ (rearm t).m_repeated_times (pos 0) ≡ false
      → IsArmed (rearm t).m_repeated_times (rearm t).m_interval
  unfolding rearm
  IsArmed-rearm t h e = IsArmed_left t.m_repeated_times t.m_interval h e

  m_id-rearm : (t : Timer C) → (rearm t).m_id ≡ t.m_id
  unfolding rearm
  m_id-rearm t = refl

  pub All-middle :
      (P : Node C → Type 0) (n : Node C) (rest before : List (Node C))
      → All P (before ++ (n ∷ rest))
      → P n
  All-middle P n rest [] h = h.0
  All-middle P n rest (x ∷ before) h = All-middle P n rest before h.1

  pub All-ahead :
      (P : Node C → Type 0) (ahead before : List (Node C)) → All P (before ++ ahead) → All P ahead
  All-ahead P ahead [] h = h
  All-ahead P ahead (x ∷ before) h = All-ahead P ahead before h.1

  pub IsSorted-ahead : (ahead before : List (Node C)) → IsSorted (before ++ ahead) → IsSorted ahead
  IsSorted-ahead ahead [] h = h
  IsSorted-ahead ahead (x ∷ before) h = IsSorted-ahead ahead before h.1

  -- the manager in the middle of a walk
  abbrev pub manager_at : List (Node C) → Map.Map ℕ ℕ → ℕ → TimerManager C
  manager_at queue index next = record { m_queue = queue; m_timer_index = index; next_it = next }

  abbrev pub manager_of : {W : Type 0} → Walk C W → TimerManager C
  manager_of s = manager_at (s.before ++ s.ahead) s.index s.next

module _ {C W : Type 0} (call : C → Timer C → W → W) where
  pub handle_node-IsIndexed :
      (n : Node C) (rest : List (Node C)) (s : Walk C W)
      → IsIndexed (manager_at (s.before ++ (n ∷ rest)) s.index s.next)
      → IsIndexed (manager_of (handle_node call n rest s))
  unfolding handle_node run put rearm
  handle_node-IsIndexed n rest s h = go (eq_ℤ (rearm n.timer).m_repeated_times (pos 0)) refl
    where
      new : Node C
      new = record { it = s.next; key = (rearm n.timer).m_expired_time; timer = rearm n.timer }

      here : Map.find n.timer.m_id s.index ≡ some n.it
      here =
          All-middle (λ (y : Node C). Map.find y.timer.m_id s.index ≡ some y.it) n rest s.before
            h.listed

      erased : IsIndexed (manager_at (s.before ++ rest) (Map.erase n.timer.m_id s.index) s.next)
      erased =
          subst (λ q. IsIndexed (manager_at q (Map.erase n.timer.m_id s.index) s.next))
            (erase_between s.before rest n h.unique)
            (erase-IsIndexed n.timer.m_id n.it (manager_at (s.before ++ (n ∷ rest)) s.index s.next)
              here h)

      left :
          eq_ℤ (rearm n.timer).m_repeated_times (pos 0) ≡ false
          → IsArmed (rearm n.timer).m_repeated_times (rearm n.timer).m_interval
      left e =
          IsArmed-rearm n.timer
            (All-middle (λ (y : Node C). IsArmed y.timer.m_repeated_times y.timer.m_interval) n rest
              s.before h.armed)
            e

      armed :
          eq_ℤ (rearm n.timer).m_repeated_times (pos 0) ≡ false
          → IsIndexed (
              put
                (rearm n.timer)
                (manager_at (s.before ++ rest) (Map.erase n.timer.m_id s.index) s.next))
      armed e =
          put-IsIndexed (rearm n.timer)
            (manager_at (s.before ++ rest) (Map.erase n.timer.m_id s.index) s.next)
            (ground
              (arith, m_id-rearm n.timer, Map.find-erase n.timer.m_id (rearm n.timer).m_id s.index))
            (left e) erased

      go :
          (b : Bool)
          → eq_ℤ (rearm n.timer).m_repeated_times (pos 0) ≡ b
          → IsIndexed (
              manager_of (
                if b
                then record s {
                  ahead = rest;
                  index = Map.erase n.timer.m_id s.index;
                  state = (run call n.timer s.state).1;
                }
                else record {
                  before = (emplace_walk new s.before rest).0;
                  ahead = (emplace_walk new s.before rest).1;
                  index = index_emplace n.timer.m_id s.next (Map.erase n.timer.m_id s.index);
                  next = s.next + 1;
                  state = (run call n.timer s.state).1;
                }))
      go true e = erased
      go false e =
          subst
            (λ q. IsIndexed (
              manager_at q (index_emplace n.timer.m_id s.next (Map.erase n.timer.m_id s.index))
                (s.next + 1)))
            (sym (emplace_walk-emplace new s.before rest erased.sorted)) (armed e)

  -- What every round keeps, the loop keeps.
  pub check_loop_keeps :
      (P : Walk C W → Type 0)
      → ((n : Node C) (rest : List (Node C)) (s : Walk C W)
          → s.ahead ≡ n ∷ rest
          → P s
          → P (handle_node call n rest s))
      → (fuel now : ℕ) (s : Walk C W) → P s
      → P (check_loop call fuel now s)
  unfolding check_loop
  check_loop_keeps P keep zero now s h = h
  check_loop_keeps P keep (suc fuel) now s h =
      go (λ r. check_loop_keeps P keep fuel now r) s.ahead refl
    where
      go :
          ((r : Walk C W) → P r → P (check_loop call fuel now r))
          → (ahead : List (Node C)) → s.ahead ≡ ahead
          → P (elim ahead [
            | [] ↦ s
            | n ∷ rest ↦
                if is_expired now n.timer
                then check_loop call fuel now (handle_node call n rest s)
                else s
          ])
      go again [] e = h
      go again (n ∷ rest) e = elim (Bool-cases (is_expired now n.timer)) [
        | inl x ↦ rw x (again (handle_node call n rest s) (keep n rest s e h))
        | inr x ↦ rw x h
      ]

  pub round-IsIndexed :
      (n : Node C) (rest : List (Node C)) (s : Walk C W)
      → s.ahead ≡ n ∷ rest
      → IsIndexed (manager_of s)
      → IsIndexed (manager_of (handle_node call n rest s))
  round-IsIndexed n rest s e h =
      handle_node-IsIndexed n rest s
        (subst (λ q. IsIndexed (manager_at (s.before ++ q) s.index s.next)) e h)

  -- Where the index and the queue are in step, they are so after a check of the timers.
  pub check_and_handle-IsIndexed :
      (now : ℕ) (m : TimerManager C) (w : W)
      → IsIndexed m
      → IsIndexed (check_and_handle call now m w).0
  unfolding check_and_handle
  check_and_handle-IsIndexed now m w h =
      check_loop_keeps (λ s. IsIndexed (manager_of s)) round-IsIndexed (backlog now m.m_queue) now
        (record {
          before = [];
          ahead = m.m_queue;
          index = m.m_timer_index;
          next = m.next_it;
          state = w;
        })
        h
