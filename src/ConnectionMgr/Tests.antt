-- ===== src/ConnectionMgr/Tests.antt =====
-- A pool of three connections: two are taken and one is given back.
use avant.Base.{
  ℕ, ◌≡◌, ◌⊎◌, refl, pos, negsuc, true, false, Option, none, some, List, [], ◌∷◌, arith, nat_eq,
  int_eq,
}
use avant.Base.Map
use avant.Base.Set
use avant.Connection.{Connection}
use avant.ConnectionMgr.{ConnectionMgr, init, alloc_connection, bind_index, release_connection}
use avant.ConnectionMgr.Inv.{IsWf, IsBegin}
use avant.ConnectionMgr.Init.{init-IsWf, constructed}
use avant.ConnectionMgr.Alloc.{IsOpened, alloc_connection-IsWf, alloc_connection-IsOpened}
use avant.ConnectionMgr.Release.{IsReleased, release_connection-IsWf, release_connection-IsReleased}

abbrev head : List ℕ → Option ℕ
head [] = none
head (x ∷ xs) = some x

head-in_set : (s : List ℕ) (i : ℕ) → head s ≡ some i → Set.contains i s ≡ true
unfolding Set.contains
head-in_set [] i e = ground (arith, e)
head-in_set (x ∷ xs) i e = ground (arith, e)

head-at_end : (s : List ℕ) → head s ≡ none → s ≡ []
head-at_end [] e = refl
head-at_end (x ∷ xs) e = absurd (ground (arith, e))

head-IsBegin : IsBegin head
head-IsBegin = record { in_set = head-in_set; at_end = head-at_end }

abbrev fresh : Connection
fresh = record {
  fd = negsuc 0;
  gid = 0;
  recv_buffer = record { m_data = [] };
  send_buffer = record { m_data = [] };
  has_ctx = false;
  closed_flag = true;
  is_close = false;
  is_ready = false;
  app_layer_notified = false;
  socket_fd = negsuc 0;
  has_ssl = false;
  calls = [];
}

abbrev pool_of_three : ConnectionMgr
pool_of_three = (init true fresh 2 constructed).1

pool_of_three-IsWf : IsWf pool_of_three
pool_of_three-IsWf = (init-IsWf fresh 2).0

abbrev one_live : ConnectionMgr
one_live = (alloc_connection head (pos 7) 512 pool_of_three).1

alloc_connection-IsWf_example : IsWf one_live
alloc_connection-IsWf_example =
    alloc_connection-IsWf head head-IsBegin (pos 7) 512 pool_of_three pool_of_three-IsWf

one_live-IsWf : IsWf one_live
one_live-IsWf = alloc_connection-IsWf head head-IsBegin (pos 7) 512 pool_of_three pool_of_three-IsWf

alloc_connection-IsOpened_example :
    IsOpened (pos 9) 1024 one_live (alloc_connection head (pos 9) 1024 one_live).1
unfolding alloc_connection bind_index init Map.find Map.assign Map.erase Set.insert Set.erase
alloc_connection-IsOpened_example =
    alloc_connection-IsOpened head head-IsBegin (pos 9) 1024 one_live one_live-IsWf refl

release_connection-IsWf_example : IsWf (release_connection (pos 7) one_live).1
release_connection-IsWf_example = release_connection-IsWf (pos 7) one_live one_live-IsWf

release_connection-IsReleased_example :
    (Map.find (pos 7) one_live.fd2gid ≡ none
      × release_connection (pos 7) one_live ≡ (negsuc 0, one_live))
    ⊎ ((gid : ℕ) × Map.find (pos 7) one_live.fd2gid ≡ some gid
        × (release_connection (pos 7) one_live).0 ≡ pos 0
        × IsReleased (pos 7) gid one_live (release_connection (pos 7) one_live).1)
release_connection-IsReleased_example = release_connection-IsReleased (pos 7) one_live one_live-IsWf
