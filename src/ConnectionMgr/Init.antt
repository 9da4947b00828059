-- ===== src/ConnectionMgr/Init.antt =====
-- The pool that init makes.
use avant.Base.Map
use avant.Base.Set
use avant.Base.{
  ℕ, zero, suc, ◌+◌, ◌<◌, ◌≡◌, refl, ap, true, false, none, [], length, arith, nat_eq, int_eq,
}
use avant.Connection.{Connection}
use avant.ConnectionMgr.{ConnectionMgr, init, insert_below, new_array, pool_capacity, live_count}
use avant.ConnectionMgr.Inv.{IsWf}

contains-insert_below : (n i : ℕ) → Set.contains i (insert_below n []) ≡ true → i < n
unfolding Set.contains
contains-insert_below zero i h = ground (arith, h)
contains-insert_below (suc n) i h =
    ground (arith, contains-insert_below n i, Set.contains-insert n i (insert_below n []))

not_yet : (n : ℕ) → Set.contains n (insert_below n []) ≡ false
not_yet n = ground (arith, contains-insert_below n n)

length-insert_below : (n : ℕ) → length (insert_below n []) ≡ n
length-insert_below zero = refl
length-insert_below (suc n) =
    ground (arith, length-insert_below n, not_yet n, Set.length-insert n (insert_below n []))

insert_below-IsSetList : (n : ℕ) → Set.IsSetList (insert_below n [])
insert_below-IsSetList zero = tt
insert_below-IsSetList (suc n) =
    Set.insert-IsSetList n (insert_below n []) (insert_below-IsSetList n)

length-new_array : (n : ℕ) (c : Connection) → length (new_array n c) ≡ n
length-new_array zero c = refl
length-new_array (suc n) c = ap suc (length-new_array n c)

-- a manager before init
abbrev pub constructed : ConnectionMgr
constructed = record {
  connection_pool = none;
  fd2gid = [];
  gid2fd = [];
  gid2index = [];
  using_set = [];
  unused_set = [];
}

-- After init on a new manager the pool is well formed, has one connection more than was asked for,
-- and none is live.
pub init-IsWf :
    (fresh : Connection) (n : ℕ)
    → IsWf (init true fresh n constructed).1
      × (pool_capacity (init true fresh n constructed).1 ≡ n + 1)
      × (live_count (init true fresh n constructed).1 ≡ 0)
unfolding init pool_capacity live_count Map.find Set.contains
init-IsWf fresh n = (
  record {
    fd_gid = λ fd g e. absurd (ground (arith, e));
    gid_fd = λ fd g e. absurd (ground (arith, e));
    same_gids = λ g. refl;
    one_gid = λ g h i e k. absurd (ground (arith, e));
    used = λ g i e. absurd (ground (arith, e));
    apart = λ i e. absurd (ground (arith, e));
    in_pool = λ i pool e c.
        ground (arith, e, c, contains-insert_below (n + 1) i, length-new_array (n + 1) fresh);
    using_once = tt;
    unused_once = insert_below-IsSetList (n + 1);
  },
  ground (arith, length-insert_below (n + 1)),
  refl,
)
