-- ===== src/ConnectionMgr.antt =====
-- src/connection/connection_mgr.cpp: the pool of connections of a thread and its three indices.
-- A pointer to a connection is its index in the pool; `none` is a null pointer. Which element
-- `begin` of an unordered_set names is open: it is a parameter.
pub mod Inv
pub mod Init
pub mod Alloc
pub mod Release
pub mod At
mod Tests
use avant.Base.Map
use avant.Base.Set
use avant.Base.{
  ℕ, zero, suc, ◌+◌, ℤ, pos, negsuc, Bool, true, false, Option, none, some, List, [], ◌∷◌, ◌++◌,
  length, get_elem?, set, leb, if◌then◌else◌, is_some, nat_eq, int_eq,
}
use avant.Connection.{Connection, on_alloc, on_release}

pub record ConnectionMgr : Type 0 where
  pub connection_pool : Option (List Connection)
  pub fd2gid : Map.Map ℤ ℕ
  pub gid2fd : Map.Map ℕ ℤ
  pub gid2index : Map.Map ℕ ℕ
  pub using_set : List ℕ
  pub unused_set : List ℕ

-- for (i = 0; i < n; i++) unused_set.insert(i)
abbrev pub insert_below : ℕ → List ℕ → List ℕ
insert_below zero s = s
insert_below (suc n) s = Set.insert n (insert_below n s)

abbrev pub new_array : ℕ → Connection → List Connection
new_array zero c = []
new_array (suc n) c = c ∷ new_array n c

-- `allocated` is whether `new (std::nothrow)` gave an array; `fresh` is a constructed connection.
unfoldable pub init : Bool → Connection → ℕ → ConnectionMgr → ℤ × ConnectionMgr
init allocated fresh pool_capacity m =
    if allocated
    then (
      pos 0,
      record m {
        connection_pool = some (new_array (pool_capacity + 1) fresh);
        unused_set = insert_below (pool_capacity + 1) m.unused_set;
      },
    )
    else (negsuc 0, m)

-- connection_pool[i].f()
abbrev pub at_index : (Connection → Connection) → ℕ → List Connection → List Connection
at_index f i [] = []
at_index f zero (c ∷ cs) = f c ∷ cs
at_index f (suc i) (c ∷ cs) = c ∷ at_index f i cs

-- the assignments of alloc_connection once an index is chosen
unfoldable pub bind_index : ℤ → ℕ → ℕ → List Connection → ConnectionMgr → ConnectionMgr
bind_index fd gid new_index pool m = record m {
  unused_set = Set.erase new_index m.unused_set;
  using_set = Set.insert new_index m.using_set;
  fd2gid = Map.assign fd gid m.fd2gid;
  gid2fd = Map.assign gid fd m.gid2fd;
  gid2index = Map.assign gid new_index m.gid2index;
  connection_pool = some (at_index (on_alloc fd gid) new_index pool);
}

unfoldable pub alloc_connection : (List ℕ → Option ℕ) → ℤ → ℕ → ConnectionMgr → ℤ × ConnectionMgr
alloc_connection begin fd gid m = elim m.connection_pool [
  | none ↦ (negsuc 0, m)
  | some pool ↦
      if is_some (Map.find fd m.fd2gid)
      then (negsuc 1, m)
      else if is_some (Map.find gid m.gid2fd)
      then (negsuc 2, m)
      else if is_some (Map.find gid m.gid2index)
      then (negsuc 3, m)
      else if leb (length m.unused_set) 0
      then (negsuc 4, m)
      else elim (begin m.unused_set) [
        | none ↦ (negsuc 5, m)
        | some new_index ↦ (pos 0, bind_index fd gid new_index pool m)
      ]
]

-- the assignments of release_connection once the index is found
unfoldable pub unbind_index : ℤ → ℕ → ℕ → ConnectionMgr → ConnectionMgr
unbind_index fd gid index m = record m {
  fd2gid = Map.erase fd m.fd2gid;
  gid2fd = Map.erase gid m.gid2fd;
  gid2index = Map.erase gid m.gid2index;
  using_set = Set.erase index m.using_set;
  unused_set = Set.insert index m.unused_set;
  connection_pool = elim m.connection_pool [
    | none ↦ none
    | some pool ↦ some (at_index on_release index pool)
  ];
}

unfoldable pub release_connection : ℤ → ConnectionMgr → ℤ × ConnectionMgr
release_connection fd m = elim (Map.find fd m.fd2gid) [
  | none ↦ (negsuc 0, m)
  | some gid ↦ elim (Map.find gid m.gid2fd) [
    | none ↦ (negsuc 1, m)
    | some _ ↦ elim (Map.find gid m.gid2index) [
      | none ↦ (negsuc 2, m)
      | some index ↦ (pos 0, unbind_index fd gid index m)
    ]
  ]
]

unfoldable pub get_conn_by_gid : ℕ → ConnectionMgr → Option ℕ
get_conn_by_gid gid m = Map.find gid m.gid2index

unfoldable pub get_conn : ℤ → ConnectionMgr → Option ℕ
get_conn fd m = elim (Map.find fd m.fd2gid) [ none ↦ none | some gid ↦ Map.find gid m.gid2index ]

unfoldable pub live_count : ConnectionMgr → ℕ
live_count m = length m.using_set

unfoldable pub pool_capacity : ConnectionMgr → ℕ
pool_capacity m = length m.unused_set + length m.using_set

unfoldable pub get_conn_by_idx : ℕ → ConnectionMgr → Option ℕ
unfolding pool_capacity
get_conn_by_idx idx m =
    if leb (pool_capacity m) idx then none else if is_some m.connection_pool then some idx else none

-- *p, for a pointer into the pool
unfoldable pub deref : ConnectionMgr → Option ℕ → Option Connection
deref m none = none
deref m (some i) = elim m.connection_pool [ none ↦ none | some pool ↦ get_elem? pool i ]
