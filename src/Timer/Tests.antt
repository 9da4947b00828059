-- ===== src/Timer/Tests.antt =====
-- Tests of the timers.
use avant.Base.{
  ℕ, ◌≡◌, refl, ◌==◌, some, List, [], ◌∷◌, arith, pos, Bool, true, false, nat_eq, All, ◌<◌, ◌||◌,
}
use avant.Base.Map
use avant.Timer.{
  TimerManager, Timer, Node, new_timer, add, check_and_handle, check_loop, backlog, is_valid, put,
  mark_delete, emplace, erase_it, index_emplace, run, rearm, handle_node, emplace_walk,
  repeat_infinite,
}
use avant.Timer.Indexed.{IsIndexed, timer_of, no_timers, no_timers-IsIndexed}
use avant.Timer.Lookup.{add-IsIndexed, timer_of-add}
use avant.Timer.Round.{check_and_handle-IsIndexed}
use avant.Timer.Progress.{check_loop-IsDone}
use avant.Timer.Fire.{check_and_handle_fires}

-- once, at 105
abbrev once : Timer ℕ
unfolding new_timer
once = new_timer 7 100 (pos 1) 5 (some 70)

-- every 2, from 102 on
abbrev always : Timer ℕ
unfolding new_timer
always = new_timer 8 100 repeat_infinite 2 (some 80)

abbrev two_timers : TimerManager ℕ
unfolding add
two_timers = (add (some always) (add (some once) no_timers).1).1

abbrev write_log : ℕ → Timer ℕ → List ℕ → List ℕ
write_log c t w = c ∷ w

abbrev logged : ℕ → List ℕ → Bool
logged c [] = false
logged c (x ∷ w) = x == c || logged c w

two_timers-IsIndexed : IsIndexed two_timers
unfolding add
two_timers-IsIndexed =
    add-IsIndexed always (add (some once) no_timers).1
      (add-IsIndexed once no_timers no_timers-IsIndexed)

check_two : (check_and_handle write_log 105 two_timers []).1 ≡ 70 ∷ 80 ∷ []
unfolding check_and_handle check_loop handle_node run rearm emplace_walk emplace index_emplace add
    put mark_delete is_valid erase_it new_timer Map.find Map.assign Map.erase no_timers
check_two = refl

-- Alone, the repeating timer is run once, though three of its times are past.
check_alone : (check_and_handle write_log 107 (add (some always) no_timers).1 []).1 ≡ 80 ∷ []
unfolding check_and_handle check_loop handle_node run rearm emplace_walk emplace index_emplace add
    put mark_delete is_valid erase_it new_timer Map.find Map.assign Map.erase no_timers
check_alone = refl

once_there : timer_of 7 two_timers ≡ some once
unfolding add put mark_delete is_valid new_timer emplace erase_it index_emplace Map.find Map.assign
    Map.erase no_timers
once_there = refl

timer_of-add_example : timer_of 8 two_timers ≡ some always
unfolding add is_valid new_timer
timer_of-add_example =
    timer_of-add always 8 (add (some once) no_timers).1
      (add-IsIndexed once no_timers no_timers-IsIndexed)

check_and_handle-IsIndexed_example : IsIndexed (check_and_handle write_log 105 two_timers []).0
check_and_handle-IsIndexed_example =
    check_and_handle-IsIndexed write_log 105 two_timers [] two_timers-IsIndexed

check_loop-IsDone_example :
    All
      (λ (n : Node ℕ). 105 < n.timer.m_expired_time)
      (check_loop write_log (backlog 105 two_timers.m_queue) 105 (record {
        before = [];
        ahead = two_timers.m_queue;
        index = two_timers.m_timer_index;
        next = two_timers.next_it;
        state = [];
      })).ahead
check_loop-IsDone_example =
    check_loop-IsDone write_log 105 two_timers [] (ground arith) two_timers-IsIndexed

check_and_handle_fires_example : logged 70 (check_and_handle write_log 105 two_timers []).1 ≡ true
unfolding new_timer add
check_and_handle_fires_example =
    check_and_handle_fires write_log (λ w. Unit) (λ w. logged 70 w ≡ true) 70 7
      (λ t w e p. ground arith) (λ d t w p. p) (λ d t w q. ground (arith, q)) 105 two_timers once []
      (ground arith) two_timers-IsIndexed tt once_there refl (ground arith)
