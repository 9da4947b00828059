-- ===== src/Timer/Indexed.antt =====
-- The index of the timers and their queue, and the timer that an id names.
use avant.Base.Map
use avant.Base.{
  ℕ, zero, suc, ◌+◌, ◌<◌, ◌≡◌, ◌≢◌, refl, ◌==◌, Option, none, some, [], if◌then◌else◌, nat_eq, All,
  arith, inl, inr, Bool-cases, true, false, ℤ, pos, negsuc, leb_ℤ, eq_ℤ, not, ◌&&◌,
}
use avant.Timer.{
  TimerManager, Node, Timer, erase_it, index_emplace, put, mark_delete, is_valid, repeat_infinite,
}
use avant.Timer.Queue.{
  IsSorted, IsUnique, find_it, All-map, All-emplace, All-erase_it, All-erase_it_ne, All-find_it,
  emplace-IsSorted, erase_it-IsSorted, emplace-IsUnique, erase_it-IsUnique, find_it-emplace,
  find_it-erase_it,
}

-- A timer that is queued has repetitions left, and an interval unless it fires once.
abbrev pub IsArmed : ℤ → ℕ → Type 0
IsArmed (pos zero) interval = ⊥
IsArmed (pos (suc zero)) interval = Unit
IsArmed (pos (suc (suc n))) interval = 0 < interval
IsArmed (negsuc zero) interval = 0 < interval
IsArmed (negsuc (suc n)) interval = ⊥

module _ {C : Type 0} where
  pub record IsIndexed (m : TimerManager C) : Type 0 where
    pub sorted : IsSorted m.m_queue
    pub keyed : All (λ (n : Node C). n.key ≡ n.timer.m_expired_time) m.m_queue
    pub unique : IsUnique m.m_queue
    pub fresh : All (λ (n : Node C). n.it < m.next_it) m.m_queue
    pub armed : All (λ (n : Node C). IsArmed n.timer.m_repeated_times n.timer.m_interval) m.m_queue
    pub listed : All (λ (n : Node C). Map.find n.timer.m_id m.m_timer_index ≡ some n.it) m.m_queue
    pub named :
        (id i : ℕ)
        → Map.find id m.m_timer_index ≡ some i
        → (t : Timer C) × (find_it i m.m_queue ≡ some t) × (t.m_id ≡ id)

  -- the timer of this id, whatever its place in the queue
  abbrev pub timer_of : ℕ → TimerManager C → Option (Timer C)
  timer_of id m = elim (Map.find id m.m_timer_index) [ none ↦ none | some i ↦ find_it i m.m_queue ]

  -- a manager without timers
  unfoldable pub no_timers : TimerManager C
  no_timers = record { m_queue = []; m_timer_index = []; next_it = 0 }

  pub no_timers-IsIndexed : IsIndexed no_timers
  unfolding no_timers
  no_timers-IsIndexed = record {
    sorted = tt;
    keyed = tt;
    unique = tt;
    fresh = tt;
    armed = tt;
    listed = tt;
    named = λ id i e. absurd (ground (arith, e, Map.find-nil {V = ℕ} id));
  }

  pub is_valid-IsArmed : (t : Timer C) → is_valid t ≡ true → IsArmed t.m_repeated_times t.m_interval
  unfolding is_valid
  is_valid-IsArmed t e = go t.m_repeated_times t.m_interval e
    where
      go :
          (r : ℤ) (k : ℕ)
          → (if leb_ℤ r (pos 0) && not (eq_ℤ r repeat_infinite)
              then false
              else not (k == 0 && not (eq_ℤ r (pos 1))))
            ≡ true
          → IsArmed r k
      go (pos zero) k f = ground (arith, f)
      go (pos (suc zero)) k f = tt
      go (pos (suc (suc n))) k f = ground (arith, f)
      go (negsuc zero) k f = ground (arith, f)
      go (negsuc (suc n)) k f = ground (arith, f)

  pub erase-IsIndexed :
      (id i : ℕ) (m : TimerManager C)
      → Map.find id m.m_timer_index ≡ some i
      → IsIndexed m
      → IsIndexed (record m {
        m_queue = erase_it i m.m_queue;
        m_timer_index = Map.erase id m.m_timer_index;
      })
  erase-IsIndexed id i m e h = record {
    sorted = erase_it-IsSorted i m.m_queue h.sorted;
    keyed = All-erase_it (λ (n : Node C). n.key ≡ n.timer.m_expired_time) i m.m_queue h.keyed;
    unique = erase_it-IsUnique i m.m_queue h.unique;
    fresh = All-erase_it (λ (n : Node C). n.it < m.next_it) i m.m_queue h.fresh;
    armed =
        All-erase_it (λ (n : Node C). IsArmed n.timer.m_repeated_times n.timer.m_interval) i
          m.m_queue h.armed;
    listed =
        All-erase_it_ne (λ (n : Node C). Map.find n.timer.m_id m.m_timer_index ≡ some n.it)
          (λ (n : Node C). Map.find n.timer.m_id (Map.erase id m.m_timer_index) ≡ some n.it) i
          m.m_queue
          (λ y k ne. ground (arith, Map.find-erase id y.timer.m_id m.m_timer_index, k, ne, e))
          h.listed;
    named = λ j k f.
        let there : Map.find j m.m_timer_index ≡ some k =
          ground (arith, Map.find-erase id j m.m_timer_index, f) in
        let apart : id ≢ j = ground (arith, Map.find-erase id j m.m_timer_index, f) in
        let old = h.named id i e in
        let t = h.named j k there in
        (t.0, ground (arith, t.1, t.2, old.1, old.2, find_it-erase_it i k m.m_queue, apart), t.2);
  }

  pub mark_delete-IsIndexed :
      (id : ℕ) (m : TimerManager C) → IsIndexed m → IsIndexed (mark_delete id m)
  unfolding mark_delete
  mark_delete-IsIndexed id m h = go (Map.find id m.m_timer_index) refl
    where
      go :
          (o : Option ℕ)
          → Map.find id m.m_timer_index ≡ o
          → IsIndexed (elim o [
            | none ↦ m
            | some i ↦ record m {
              m_queue = erase_it i m.m_queue;
              m_timer_index = Map.erase id m.m_timer_index;
            }
          ])
      go none e = h
      go (some i) e = erase-IsIndexed id i m e h

  pub put-IsIndexed :
      (t : Timer C) (m : TimerManager C)
      → Map.find t.m_id m.m_timer_index ≡ none
      → IsArmed t.m_repeated_times t.m_interval
      → IsIndexed m
      → IsIndexed (put t m)
  unfolding put index_emplace
  put-IsIndexed t m e a h =
      let n : Node C = record { it = m.next_it; key = t.m_expired_time; timer = t } in
      rw e record {
        sorted = emplace-IsSorted n m.m_queue h.sorted;
        keyed =
            All-emplace (λ (n : Node C). n.key ≡ n.timer.m_expired_time) n m.m_queue refl h.keyed;
        unique = emplace-IsUnique n m.m_queue h.fresh h.unique;
        fresh =
            All-emplace (λ (n : Node C). n.it < m.next_it + 1) n m.m_queue (omega arith)
              (All-map (λ (n : Node C). n.it < m.next_it) (λ (n : Node C). n.it < m.next_it + 1)
                m.m_queue (λ y k. omega (arith, k)) h.fresh);
        armed =
            All-emplace (λ (n : Node C). IsArmed n.timer.m_repeated_times n.timer.m_interval) n
              m.m_queue a h.armed;
        listed =
            All-emplace
              (λ (n : Node C).
                Map.find n.timer.m_id (Map.assign t.m_id m.next_it m.m_timer_index) ≡ some n.it)
              n m.m_queue (ground (arith, Map.find-assign t.m_id t.m_id m.next_it m.m_timer_index))
              (All-map (λ (n : Node C). Map.find n.timer.m_id m.m_timer_index ≡ some n.it)
                (λ (n : Node C).
                  Map.find n.timer.m_id (Map.assign t.m_id m.next_it m.m_timer_index) ≡ some n.it)
                m.m_queue
                (λ y k.
                  ground
                    (arith, Map.find-assign t.m_id y.timer.m_id m.next_it m.m_timer_index, k, e))
                h.listed);
        named = λ j k f. elim (Bool-cases (t.m_id == j)) [
          | inl b ↦ (
            t,
            ground (
              arith,
              find_it-emplace n m.m_queue k h.fresh,
              b,
              f,
              Map.find-assign t.m_id j m.next_it m.m_timer_index,
            ),
            ground (arith, b),
          )
          | inr b ↦
              let there : Map.find j m.m_timer_index ≡ some k =
                ground (arith, b, f, Map.find-assign t.m_id j m.next_it m.m_timer_index) in
              let old = h.named j k there in
              let node =
                All-find_it (λ (y : Node C). y.it < m.next_it) k m.m_queue old.0 old.1 h.fresh in
              (
                old.0,
                ground (arith, find_it-emplace n m.m_queue k h.fresh, old.1, node.1, node.3),
                old.2,
              )
        ];
      }
