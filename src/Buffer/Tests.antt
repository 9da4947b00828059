-- ===== src/Buffer/Tests.antt =====
-- Runs of the byte queue, and its laws at concrete queues.
use avant.Base.{◌≡◌, refl, none, [], ◌∷◌}
use avant.Buffer.{VecStrBuffer, move_read_ptr_n, append}

abbrev three : VecStrBuffer
three = record { m_data = 1 ∷ 2 ∷ 3 ∷ [] }

null_changes_nothing : append none three ≡ three
unfolding append
null_changes_nothing = refl

move_past_end : move_read_ptr_n 9 three ≡ record { m_data = [] }
unfolding move_read_ptr_n
move_past_end = refl
