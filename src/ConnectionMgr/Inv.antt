-- ===== src/ConnectionMgr/Inv.antt =====
-- Well formed pools: how the indices agree with one another.
use avant.Base.Map
use avant.Base.Set
use avant.Base.{
  ℕ, zero, suc, ◌<◌, ◌≡◌, refl, ap, ℤ, true, false, Option, none, some, List, [], ◌∷◌, length,
  is_some, arith, nat_eq, int_eq, ◌||◌,
}
use avant.Connection.{Connection, on_alloc, on_release}
use avant.ConnectionMgr.{ConnectionMgr, bind_index, unbind_index, at_index}

-- Each bound gid has one descriptor and one index, no two gids share an index, an index in use is
-- not free, indices lie in the pool, and the two sets hold none twice.
pub record IsWf (m : ConnectionMgr) : Type 0 where
  pub fd_gid : (fd : ℤ) (g : ℕ) → Map.find fd m.fd2gid ≡ some g → Map.find g m.gid2fd ≡ some fd
  pub gid_fd : (fd : ℤ) (g : ℕ) → Map.find g m.gid2fd ≡ some fd → Map.find fd m.fd2gid ≡ some g
  pub same_gids : (g : ℕ) → is_some (Map.find g m.gid2index) ≡ is_some (Map.find g m.gid2fd)
  pub one_gid :
      (g h i : ℕ) → Map.find g m.gid2index ≡ some i → Map.find h m.gid2index ≡ some i → g ≡ h
  pub used : (g i : ℕ) → Map.find g m.gid2index ≡ some i → Set.contains i m.using_set ≡ true
  pub apart : (i : ℕ) → Set.contains i m.using_set ≡ true → Set.contains i m.unused_set ≡ false
  pub in_pool :
      (i : ℕ) (pool : List Connection)
      → m.connection_pool ≡ some pool
      → Set.contains i m.using_set || Set.contains i m.unused_set ≡ true
      → i < length pool
  pub using_once : Set.IsSetList m.using_set
  pub unused_once : Set.IsSetList m.unused_set

-- std::unordered_set::begin names an element, unless the set is empty.
pub record IsBegin (begin : List ℕ → Option ℕ) : Type 0 where
  pub in_set : (s : List ℕ) (i : ℕ) → begin s ≡ some i → Set.contains i s ≡ true
  pub at_end : (s : List ℕ) → begin s ≡ none → s ≡ []

pub length-at_index :
    (f : Connection → Connection) (i : ℕ) (cs : List Connection)
    → length (at_index f i cs) ≡ length cs
length-at_index f i [] = refl
length-at_index f zero (c ∷ cs) = refl
length-at_index f (suc i) (c ∷ cs) = ap suc (length-at_index f i cs)

module _ (fd : ℤ) (gid new_index : ℕ) (pool : List Connection) (m : ConnectionMgr) where
  pub bind_index-IsWf :
      IsWf m
      → Map.find fd m.fd2gid ≡ none
      → Map.find gid m.gid2fd ≡ none
      → m.connection_pool ≡ some pool
      → Set.contains new_index m.unused_set ≡ true
      → IsWf (bind_index fd gid new_index pool m)
  unfolding bind_index
  bind_index-IsWf h no_fd no_gid p free = record {
    fd_gid = λ f g. ground (
      arith,
      h.fd_gid f g,
      h.fd_gid f gid,
      Map.find-assign fd f gid m.fd2gid,
      Map.find-assign gid g fd m.gid2fd,
      int_eq.beq_iff fd f,
    );
    gid_fd = λ f g. ground (
      arith,
      h.gid_fd f g,
      h.gid_fd fd g,
      Map.find-assign fd f gid m.fd2gid,
      Map.find-assign gid g fd m.gid2fd,
      int_eq.beq_iff fd f,
    );
    same_gids = λ g. ground (
      arith,
      h.same_gids g,
      Map.find-assign gid g fd m.gid2fd,
      Map.find-assign gid g new_index m.gid2index,
    );
    one_gid = λ g k i. ground (
      arith,
      h.one_gid g k i,
      h.used g i,
      h.used k i,
      h.apart i,
      Map.find-assign gid g new_index m.gid2index,
      Map.find-assign gid k new_index m.gid2index,
    );
    used = λ g i. ground (
      arith,
      h.used g i,
      Map.find-assign gid g new_index m.gid2index,
      Set.contains-insert new_index i m.using_set,
    );
    apart = λ i. ground (
      arith,
      h.apart i,
      Set.contains-insert new_index i m.using_set,
      Set.contains-erase new_index i m.unused_set,
    );
    in_pool = λ i cs. ground (
      arith,
      h.in_pool i pool,
      h.in_pool new_index pool,
      length-at_index (on_alloc fd gid) new_index pool,
      Set.contains-insert new_index i m.using_set,
      Set.contains-erase new_index i m.unused_set,
    );
    using_once = Set.insert-IsSetList new_index m.using_set h.using_once;
    unused_once = Set.erase-IsSetList new_index m.unused_set h.unused_once;
  }

module _ (fd : ℤ) (gid index : ℕ) (m : ConnectionMgr) where
  pub unbind_index-IsWf :
      IsWf m
      → Map.find fd m.fd2gid ≡ some gid
      → Map.find gid m.gid2index ≡ some index
      → IsWf (unbind_index fd gid index m)
  unfolding unbind_index
  unbind_index-IsWf h bound at_index = record {
    fd_gid = λ f g. ground (
      arith,
      h.fd_gid f g,
      h.fd_gid fd gid,
      Map.find-erase fd f m.fd2gid,
      Map.find-erase gid g m.gid2fd,
      int_eq.beq_iff fd f,
    );
    gid_fd = λ f g. ground (
      arith,
      h.gid_fd f g,
      Map.find-erase fd f m.fd2gid,
      Map.find-erase gid g m.gid2fd,
      int_eq.beq_iff fd f,
    );
    same_gids = λ g.
        ground
          (arith, h.same_gids g, Map.find-erase gid g m.gid2fd, Map.find-erase gid g m.gid2index);
    one_gid = λ g k i. ground (
      arith,
      h.one_gid g k i,
      Map.find-erase gid g m.gid2index,
      Map.find-erase gid k m.gid2index,
    );
    used = λ g i. ground (
      arith,
      h.used g i,
      h.one_gid g gid i,
      Map.find-erase gid g m.gid2index,
      Set.contains-erase index i m.using_set,
    );
    apart = λ i. ground (
      arith,
      h.apart i,
      Set.contains-erase index i m.using_set,
      Set.contains-insert index i m.unused_set,
    );
    in_pool = λ i. shrunk i m.connection_pool refl;
    using_once = Set.erase-IsSetList index m.using_set h.using_once;
    unused_once = Set.insert-IsSetList index m.unused_set h.unused_once;
  }
    where
      shrunk :
          (i : ℕ) (o : Option (List Connection))
          → m.connection_pool ≡ o
          → (cs : List Connection) → (unbind_index fd gid index m).connection_pool ≡ some cs
          → Set.contains i (unbind_index fd gid index m).using_set
              || Set.contains i (unbind_index fd gid index m).unused_set
            ≡ true
          → i < length cs
      shrunk i none p cs q c = absurd (ground arith)
      shrunk i (some pool) p cs q c = ground (
        arith,
        h.in_pool i pool,
        h.in_pool index pool,
        h.used gid index,
        length-at_index on_release index pool,
        Set.contains-erase index i m.using_set,
        Set.contains-insert index i m.unused_set,
      )
