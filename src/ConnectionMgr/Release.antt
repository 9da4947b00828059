-- ===== src/ConnectionMgr/Release.antt =====
-- What release_connection leaves behind.
use avant.Base.Map
use avant.Base.Set
use avant.Base.{
  ℕ, ◌+◌, ◌≡◌, ◌≢◌, ◌⊎◌, refl, ap, ◌∙◌, ℤ, pos, negsuc, Option, none, some, List, arith, nat_eq,
  int_eq, inl, inr,
}
use avant.Connection.{Connection, on_release}
use avant.ConnectionMgr.{
  ConnectionMgr, release_connection, unbind_index, pool_capacity, get_conn, get_conn_by_gid, deref,
  live_count,
}
use avant.ConnectionMgr.Inv.{IsWf, unbind_index-IsWf}
use avant.ConnectionMgr.Alloc.{get_elem?-at_index_ne}

-- The connection of `fd` and `gid` is gone from `m'`, and the others are as they are in `m`.
pub record IsReleased (fd : ℤ) (gid : ℕ) (m m' : ConnectionMgr) : Type 0 where
  pub no_fd : get_conn fd m' ≡ none
  pub no_gid : get_conn_by_gid gid m' ≡ none
  pub freed : live_count m' + 1 ≡ live_count m
  pub kept : pool_capacity m' ≡ pool_capacity m
  pub others : (h : ℕ) → h ≢ gid → deref m' (get_conn_by_gid h m') ≡ deref m (get_conn_by_gid h m)

module _ (fd : ℤ) (gid index : ℕ) (m : ConnectionMgr) (h : IsWf m)
    (bound : Map.find fd m.fd2gid ≡ some gid) (found : Map.find gid m.gid2index ≡ some index) where
  unchanged :
      (k : ℕ)
      → k ≢ gid
      → deref (unbind_index fd gid index m) (get_conn_by_gid k (unbind_index fd gid index m))
        ≡ deref m (get_conn_by_gid k m)
  unfolding unbind_index get_conn_by_gid deref
  unchanged k ne = go (Map.find k m.gid2index) m.connection_pool refl refl
    where
      same : Map.find k (Map.erase gid m.gid2index) ≡ Map.find k m.gid2index
      same = ground (arith, Map.find-erase gid k m.gid2index, ne)

      go :
          (o : Option ℕ) (pool : Option (List Connection))
          → Map.find k m.gid2index ≡ o
          → m.connection_pool ≡ pool
          → deref (unbind_index fd gid index m) (get_conn_by_gid k (unbind_index fd gid index m))
            ≡ deref m (get_conn_by_gid k m)
      go none pool q p = rw (same, q) refl
      go (some j) none q p = rw (same, q, p) refl
      go (some j) (some pool) q p =
          rw (same, q, p)
            (get_elem?-at_index_ne on_release index j pool
              (λ e. ne (h.one_gid k gid j q (found ∙ ap some e))))

  pub unbind_index-IsReleased : IsReleased fd gid m (unbind_index fd gid index m)
  unfolding unbind_index get_conn get_conn_by_gid live_count pool_capacity
  unbind_index-IsReleased = record {
    no_fd = ground (arith, Map.find-erase fd fd m.fd2gid, int_eq.beq_iff fd fd);
    no_gid = ground (arith, Map.find-erase gid gid m.gid2index);
    freed = ground (arith, h.used gid index found, Set.length-erase index m.using_set h.using_once);
    kept = ground (
      arith,
      h.used gid index found,
      h.apart index,
      Set.length-erase index m.using_set h.using_once,
      Set.length-insert index m.unused_set,
    );
    others = unchanged;
  }

module _ (fd : ℤ) (m : ConnectionMgr) (h : IsWf m) where
  pub release_cases :
      (P : ℤ × ConnectionMgr → Type 0)
      → (Map.find fd m.fd2gid ≡ none → P (negsuc 0, m))
      → ((gid index : ℕ)
          → Map.find fd m.fd2gid ≡ some gid
          → Map.find gid m.gid2index ≡ some index
          → P (pos 0, unbind_index fd gid index m))
      → P (release_connection fd m)
  unfolding release_connection
  release_cases P unbound bound = go (Map.find fd m.fd2gid) refl
    where
      inner :
          (gid : ℕ) (g : Option ℤ) (x : Option ℕ)
          → Map.find fd m.fd2gid ≡ some gid
          → Map.find gid m.gid2fd ≡ g
          → Map.find gid m.gid2index ≡ x
          → P (release_connection fd m)
      inner gid none x p q r = absurd (ground (arith, h.fd_gid fd gid p))
      inner gid (some _) none p q r = absurd (ground (arith, h.same_gids gid))
      inner gid (some _) (some i) p q r = rw (p, q, r, release_connection) (bound gid i p r)

      go : (o : Option ℕ) → Map.find fd m.fd2gid ≡ o → P (release_connection fd m)
      go none p = rw (p, release_connection) (unbound p)
      go (some gid) p = inner gid (Map.find gid m.gid2fd) (Map.find gid m.gid2index) p refl refl

  -- release_connection keeps the pool well formed.
  pub release_connection-IsWf : IsWf (release_connection fd m).1
  release_connection-IsWf =
      release_cases (λ r. IsWf r.1) (λ _. h) (λ gid i p q. unbind_index-IsWf fd gid i m h p q)

  -- In a well formed pool the call answers -1 for a descriptor that is not bound, and changes
  -- nothing; else it answers 0, neither the descriptor nor its gid names a connection any more, one
  -- connection less is live, the pool has as many as before, and every other gid names what it
  -- named, unchanged. The codes -2 and -3 cannot come up.
  pub release_connection-IsReleased :
      (Map.find fd m.fd2gid ≡ none × release_connection fd m ≡ (negsuc 0, m))
      ⊎ ((gid : ℕ) × Map.find fd m.fd2gid ≡ some gid
          × (release_connection fd m).0 ≡ pos 0
          × IsReleased fd gid m (release_connection fd m).1)
  release_connection-IsReleased =
      release_cases
        (λ r.
          (Map.find fd m.fd2gid ≡ none × r ≡ (negsuc 0, m))
          ⊎ ((gid : ℕ) × Map.find fd m.fd2gid ≡ some gid × r.0 ≡ pos 0 × IsReleased fd gid m r.1))
        (λ e. inl (e, refl))
        (λ gid i p q. inr (gid, p, refl, unbind_index-IsReleased fd gid i m h p q))
