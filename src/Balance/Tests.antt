-- ===== src/Balance/Tests.antt =====
-- Three workers with 4, 2 and 2 connections: the last least one is taken.
use avant.Base.{◌≡◌, refl, ℤ, pos, negsuc, [], ◌∷◌, arith}
use avant.Balance.{NewClient, ListenState, choose, listen_client}
use avant.Balance.Least.{IsPlaced, listen_client-IsPlaced}

abbrev loaded : ListenState
loaded = record {
  worker_connection_nums = pos 4 ∷ pos 2 ∷ pos 2 ∷ [];
  m_curr_connection_num = pos 9;
  forwarded = [];
  closed = [];
}

last_least : choose 0 loaded.worker_connection_nums 0 (pos 0) ≡ 2
unfolding choose
last_least = refl

-- the tunnel refuses every client
abbrev refuse : NewClient → ℤ
refuse c = negsuc 2

listen_client-IsPlaced_example :
    IsPlaced refuse (pos 12) 512 loaded (listen_client refuse (pos 12) 512 loaded)
listen_client-IsPlaced_example =
    listen_client-IsPlaced refuse (pos 12) 512 loaded (omega arith) (omega arith)
