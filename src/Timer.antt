-- ===== src/Timer.antt =====
-- external/avant-timer: timer.cpp and timer_manager.cpp, the timers of a worker.
-- `m_queue`, a multimap, is a list of nodes in the order of the map; an iterator is the number of its
-- node, which no other node has. Callbacks work on a state W of their own and do not touch the
-- manager, as timer.h asks.
pub mod Queue
pub mod Indexed
pub mod Lookup
pub mod Round
pub mod Due
pub mod Progress
pub mod Fire
mod Tests
use avant.Base.Map
use avant.Base.{
  ℕ, zero, suc, ◌+◌, ◌-◌, ℤ, pos, negsuc, eq_ℤ, leb_ℤ, Bool, true, false, not, ◌&&◌, ◌||◌, ◌==◌,
  ltb, leb, Option, none, some, List, [], ◌∷◌, ◌++◌, if◌then◌else◌, is_some, nat_eq, u64_mod,
  length,
}

pub record Timer (C : Type 0) : Type 0 where
  pub m_id : ℕ
  pub m_expired_time : ℕ
  pub m_repeated_times : ℤ
  pub m_interval : ℕ
  pub m_callback : Option C

-- REPEAT_INFINITE
abbrev pub repeat_infinite : ℤ
repeat_infinite = negsuc 0

-- UINT64_MAX
abbrev pub uint64_max : ℕ
uint64_max = 18446744073709551615

-- now + interval, or UINT64_MAX
abbrev pub later : ℕ → ℕ → ℕ
later time interval = if ltb (uint64_max - time) interval then uint64_max else time + interval

abbrev pub at_least_once : ℤ → Bool
at_least_once (pos zero) = false
at_least_once (pos (suc n)) = true
at_least_once (negsuc n) = false

-- --m_repeated_times, where it is at least 1
abbrev pub one_less : ℤ → ℤ
one_less (pos zero) = pos zero
one_less (pos (suc n)) = pos n
one_less (negsuc n) = negsuc n

-- a node of the multimap
pub record Node (C : Type 0) : Type 0 where
  pub it : ℕ
  pub key : ℕ
  pub timer : Timer C

pub record TimerManager (C : Type 0) : Type 0 where
  pub m_queue : List (Node C)
  pub m_timer_index : Map.Map ℕ ℕ
  -- the number of the next node
  pub next_it : ℕ

-- The state of the loop: the nodes before `queue_it`, those from it on, and the rest.
pub record Walk (C W : Type 0) : Type 0 where
  pub before : List (Node C)
  pub ahead : List (Node C)
  pub index : Map.Map ℕ ℕ
  pub next : ℕ
  pub state : W

-- unordered_map::emplace: no change where the key is there
unfoldable pub index_emplace : ℕ → ℕ → Map.Map ℕ ℕ → Map.Map ℕ ℕ
index_emplace id i index = if is_some (Map.find id index) then index else Map.assign id i index

module _ {C : Type 0} where
  unfoldable pub new_timer : ℕ → ℕ → ℤ → ℕ → Option C → Timer C
  new_timer timer_id now_time_stamp repeated_times interval callback = record {
    m_id = timer_id;
    m_expired_time = later now_time_stamp interval;
    m_repeated_times = repeated_times;
    m_interval = interval;
    m_callback = callback;
  }

  abbrev pub is_expired : ℕ → Timer C → Bool
  is_expired now t = leb t.m_expired_time now

  -- the fields after run
  unfoldable pub rearm : Timer C → Timer C
  rearm t =
      let left =
        if at_least_once t.m_repeated_times
        then one_less t.m_repeated_times
        else t.m_repeated_times in
      record t {
        m_repeated_times = left;
        m_expired_time =
            if eq_ℤ left (pos 0) then t.m_expired_time else later t.m_expired_time t.m_interval;
      }

  -- multimap::emplace: behind the nodes of the same key
  unfoldable pub emplace : Node C → List (Node C) → List (Node C)
  emplace n [] = n ∷ []
  emplace n (x ∷ xs) = if ltb n.key x.key then n ∷ x ∷ xs else x ∷ emplace n xs

  -- m_queue.emplace while `queue_it` stands between the two lists
  unfoldable pub emplace_walk :
      Node C → List (Node C) → List (Node C) → List (Node C) × List (Node C)
  unfolding emplace
  emplace_walk n before [] = (emplace n before, [])
  emplace_walk n before (x ∷ xs) =
      if ltb n.key x.key then (emplace n before, x ∷ xs) else (before, emplace n (x ∷ xs))

  -- multimap::erase at an iterator
  unfoldable pub erase_it : ℕ → List (Node C) → List (Node C)
  erase_it i [] = []
  erase_it i (x ∷ xs) = if x.it == i then erase_it i xs else x ∷ erase_it i xs

  -- emplace in the queue, and the iterator in the index
  unfoldable pub put : Timer C → TimerManager C → TimerManager C
  unfolding emplace index_emplace
  put t m = record {
    m_queue = emplace (record { it = m.next_it; key = t.m_expired_time; timer = t }) m.m_queue;
    m_timer_index = index_emplace t.m_id m.next_it m.m_timer_index;
    next_it = m.next_it + 1;
  }

  unfoldable pub mark_delete : ℕ → TimerManager C → TimerManager C
  unfolding erase_it
  mark_delete timer_id m = elim (Map.find timer_id m.m_timer_index) [
    | none ↦ m
    | some i ↦ record m {
      m_queue = erase_it i m.m_queue;
      m_timer_index = Map.erase timer_id m.m_timer_index;
    }
  ]

  -- may this timer be added?
  unfoldable pub is_valid : Timer C → Bool
  is_valid t =
      if leb_ℤ t.m_repeated_times (pos 0) && not (eq_ℤ t.m_repeated_times repeat_infinite)
      then false
      else not (t.m_interval == 0 && not (eq_ℤ t.m_repeated_times (pos 1)))

  -- a null pointer, as an argument and as the result, is `none`
  unfoldable pub add : Option (Timer C) → TimerManager C → Option (Timer C) × TimerManager C
  unfolding put mark_delete is_valid
  add none m = (none, m)
  add (some t) m = if is_valid t then (some t, put t (mark_delete t.m_id m)) else (none, m)

  -- Fuel for the loop: a node that is due has a round for each unit of time that it is behind.
  abbrev pub backlog : ℕ → List (Node C) → ℕ
  backlog now [] = 0
  backlog now (n ∷ rest) = (now + 1 - n.timer.m_expired_time) + backlog now rest

  unfoldable pub exist : ℕ → TimerManager C → Bool
  exist timer_id m = is_some (Map.find timer_id m.m_timer_index)

  unfoldable pub size : TimerManager C → ℕ
  size m = length m.m_queue

module _ {C W : Type 0} (call : C → Timer C → W → W) where
  -- run, which only a timer with repetitions left does
  unfoldable pub run : Timer C → W → Timer C × W
  unfolding rearm
  run t w =
      let called : W = elim t.m_callback [ none ↦ w | some c ↦ call c t w ] in
      (
        rearm t,
        if eq_ℤ t.m_repeated_times repeat_infinite || at_least_once t.m_repeated_times
            then called
            else w,
      )

  -- one round on the node `n` that `queue_it` names
  unfoldable pub handle_node : Node C → List (Node C) → Walk C W → Walk C W
  unfolding run emplace_walk index_emplace
  handle_node n rest s =
      let index = Map.erase n.timer.m_id s.index in
      let ran = run n.timer s.state in
      if eq_ℤ (ran.0).m_repeated_times (pos 0)
      then record s { ahead = rest; index = index; state = ran.1 }
      else (let lists =
            emplace_walk (record { it = s.next; key = (ran.0).m_expired_time; timer = ran.0 })
              s.before rest in
          record {
            before = lists.0;
            ahead = lists.1;
            index = index_emplace n.timer.m_id s.next index;
            next = s.next + 1;
            state = ran.1;
          })

  unfoldable pub check_loop : ℕ → ℕ → Walk C W → Walk C W
  unfolding handle_node
  check_loop zero now s = s
  check_loop (suc fuel) now s = elim s.ahead [
    | [] ↦ s
    | n ∷ rest ↦
        let next = check_loop fuel now (handle_node n rest s) in
        if is_expired now n.timer then next else s
  ]

  unfoldable pub check_and_handle : ℕ → TimerManager C → W → TimerManager C × W
  unfolding check_loop
  check_and_handle now m w =
      let s = check_loop (backlog now m.m_queue) now (record {
        before = [];
        ahead = m.m_queue;
        index = m.m_timer_index;
        next = m.next_it;
        state = w;
      }) in
      (record { m_queue = s.before ++ s.ahead; m_timer_index = s.index; next_it = s.next }, s.state)
