-- ===== src/Balance.antt =====
-- server::on_listen_event in src/server/server.cpp: to which worker the main thread gives a client.
-- The counters are atomics of the workers; here nothing else moves them during the call. What
-- tunnel_forward answers for each worker is a parameter.
pub mod Least
mod Tests
use avant.Base.{
  ℕ, zero, suc, ◌+◌, ℤ, pos, negsuc, eq_ℤ, leb_ℤ, ◌==◌, Bool, true, false, not, List, [], ◌∷◌, ◌++◌,
  get_elem?, set, if◌then◌else◌, bit_and, bit_or,
}

-- value of an atomic<int> after fetch_add(1) and fetch_sub(1), in the range of `int`
abbrev pub add_one : ℤ → ℤ
add_one (pos n) = pos (suc n)
add_one (negsuc zero) = pos 0
add_one (negsuc (suc n)) = negsuc n

abbrev pub sub_one : ℤ → ℤ
sub_one (pos zero) = negsuc 0
sub_one (pos (suc n)) = pos n
sub_one (negsuc n) = negsuc (suc n)

-- The loop over the workers, from `worker_idx` on, with the counters that are left.
unfoldable pub choose : ℕ → List ℤ → ℕ → ℤ → ℕ
choose worker_idx [] target_worker_idx worker_connection_num = target_worker_idx
choose worker_idx (temp_val ∷ rest) target_worker_idx worker_connection_num =
    if target_worker_idx == worker_idx
    then choose (suc worker_idx) rest target_worker_idx temp_val
    else if leb_ℤ temp_val worker_connection_num
    then choose (suc worker_idx) rest worker_idx temp_val
    else choose (suc worker_idx) rest target_worker_idx worker_connection_num

-- ProtoTunnelMain2WorkerNewClient, with the tunnel id that it is forwarded to
pub record NewClient : Type 0 where
  pub target_worker_tunnel_id : ℤ
  pub fd : ℤ
  pub gid : ℕ

pub record ListenState : Type 0 where
  -- worker_connection_num of each worker
  pub worker_connection_nums : List ℤ
  pub m_curr_connection_num : ℤ
  pub forwarded : List NewClient
  pub closed : List ℤ

-- f(worker_connection_nums[i])
abbrev pub count_at : (ℤ → ℤ) → ℕ → List ℤ → List ℤ
count_at f i [] = []
count_at f zero (x ∷ xs) = f x ∷ xs
count_at f (suc i) (x ∷ xs) = x ∷ count_at f i xs

module _ (tunnel_forward : NewClient → ℤ) where
  -- forward_ret != 0: close the socket; the worker's counter stays as it is
  unfoldable pub forward_client : NewClient → ListenState → ListenState
  forward_client c s =
      if eq_ℤ (pos 0) (tunnel_forward c)
      then record s { forwarded = s.forwarded ++ (c ∷ []) }
      else record s {
        closed = s.closed ++ (c.fd ∷ []);
        m_curr_connection_num = sub_one s.m_curr_connection_num;
      }

  -- one run of the body of the outer loop
  unfoldable pub listen_client : ℤ → ℕ → ListenState → ListenState
  unfolding choose forward_client
  listen_client new_client_fd gid s =
      let target_worker_idx = bit_and (choose 0 s.worker_connection_nums 0 (pos 0)) 0x1FF in
      forward_client
        (record {
          target_worker_tunnel_id = pos target_worker_idx;
          fd = new_client_fd;
          gid = bit_or gid target_worker_idx;
        })
        (record s {
          worker_connection_nums = count_at add_one target_worker_idx s.worker_connection_nums;
        })

  -- the vectors of descriptors and of gids have one length
  unfoldable pub on_listen_event : List (ℤ × ℕ) → ListenState → ListenState
  on_listen_event [] s = s
  on_listen_event ((fd, gid) ∷ rest) s = on_listen_event rest (listen_client fd gid s)
