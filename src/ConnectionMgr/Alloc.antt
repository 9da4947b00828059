-- ===== src/ConnectionMgr/Alloc.antt =====
-- What alloc_connection promises to the threads that use it.
use avant.Base.Map
use avant.Base.Set
use avant.Base.{
  ℕ, zero, suc, ◌≡◌, ◌≢◌, ◌⊎◌, refl, ◌∙◌, ap, ℤ, pos, negsuc, Bool, true, false, Option, none, some,
  List, [], ◌∷◌, length, get_elem?, get_elem?_in, is_some, arith, nat_eq, int_eq, inl, inr, leb,
}
use avant.Connection.{Connection, on_alloc}
use avant.ConnectionMgr.{
  ConnectionMgr, alloc_connection, bind_index, pool_capacity, get_conn, get_conn_by_gid, deref,
  at_index,
}
use avant.ConnectionMgr.Inv.{IsWf, IsBegin, bind_index-IsWf}

pub get_elem?-at_index_self :
    (f : Connection → Connection) (i : ℕ) (cs : List Connection)
    → get_elem? (at_index f i cs) i ≡ elim (get_elem? cs i) [ none ↦ none | some c ↦ some (f c) ]
get_elem?-at_index_self f i [] = refl
get_elem?-at_index_self f zero (c ∷ cs) = refl
get_elem?-at_index_self f (suc i) (c ∷ cs) = get_elem?-at_index_self f i cs

pub get_elem?-at_index_ne :
    (f : Connection → Connection) (i j : ℕ) (cs : List Connection)
    → i ≢ j
    → get_elem? (at_index f i cs) j ≡ get_elem? cs j
get_elem?-at_index_ne f i j [] h = refl
get_elem?-at_index_ne f zero zero (c ∷ cs) h = absurd (h refl)
get_elem?-at_index_ne f zero (suc j) (c ∷ cs) h = refl
get_elem?-at_index_ne f (suc i) zero (c ∷ cs) h = refl
get_elem?-at_index_ne f (suc i) (suc j) (c ∷ cs) h =
    get_elem?-at_index_ne f i j cs (λ e. h (ap suc e))

-- The connection that `gid` names in `m'` is open for `fd`, and the others are as they are in `m`.
pub record IsOpened (fd : ℤ) (gid : ℕ) (m m' : ConnectionMgr) : Type 0 where
  pub conn : Connection
  pub by_gid : deref m' (get_conn_by_gid gid m') ≡ some conn
  pub by_fd : deref m' (get_conn fd m') ≡ some conn
  pub its_fd : conn.fd ≡ fd
  pub its_gid : conn.gid ≡ gid
  pub is_open : (conn.closed_flag ≡ false) × (conn.is_close ≡ false) × (conn.is_ready ≡ false)
  pub emptied : (conn.recv_buffer.m_data ≡ []) × (conn.send_buffer.m_data ≡ [])
  pub others : (h : ℕ) → h ≢ gid → deref m' (get_conn_by_gid h m') ≡ deref m (get_conn_by_gid h m)

module _ (fd : ℤ) (gid i : ℕ) (pool : List Connection) (m : ConnectionMgr) (h : IsWf m)
    (p : m.connection_pool ≡ some pool) (free : Set.contains i m.unused_set ≡ true) where
  pub opened : Connection
  opened = on_alloc fd gid (get_elem?_in pool i (h.in_pool i pool p (ground (arith, free)))).0

  pub gid-opened : opened.gid ≡ gid
  unfolding opened on_alloc
  gid-opened = refl

  pub opened-flags : (opened.closed_flag ≡ false) × (opened.is_close ≡ false)
  unfolding opened on_alloc
  opened-flags = (refl, refl)

  -- the SSL instance is the one that the connection had in the pool
  pub has_ssl-opened : (c : Connection) × (deref m (some i) ≡ some c) × (c.has_ssl ≡ opened.has_ssl)
  unfolding opened on_alloc deref
  has_ssl-opened =
      let c = get_elem?_in pool i (h.in_pool i pool p (ground (arith, free))) in
      (c.0, rw p c.1, refl)

  pub named : deref (bind_index fd gid i pool m) (some i) ≡ some opened
  unfolding bind_index deref opened
  named =
      get_elem?-at_index_self (on_alloc fd gid) i pool
      ∙ ap (λ (o : Option Connection). elim o [ none ↦ none | some c ↦ some (on_alloc fd gid c) ])
          (get_elem?_in pool i (h.in_pool i pool p (ground (arith, free)))).1

  pub gid_index : get_conn_by_gid gid (bind_index fd gid i pool m) ≡ some i
  unfolding bind_index get_conn_by_gid
  gid_index = ground (arith, Map.find-assign gid gid i m.gid2index)

  pub fd_index : get_conn fd (bind_index fd gid i pool m) ≡ some i
  unfolding bind_index get_conn
  fd_index = ground (
    arith,
    Map.find-assign gid gid i m.gid2index,
    Map.find-assign fd fd gid m.fd2gid,
    int_eq.beq_iff fd fd,
  )

  pub unchanged :
      (k : ℕ)
      → k ≢ gid
      → deref (bind_index fd gid i pool m) (get_conn_by_gid k (bind_index fd gid i pool m))
        ≡ deref m (get_conn_by_gid k m)
  unfolding bind_index get_conn_by_gid deref
  unchanged k ne = go (Map.find k m.gid2index) refl
    where
      same : Map.find k (Map.assign gid i m.gid2index) ≡ Map.find k m.gid2index
      same = ground (arith, Map.find-assign gid k i m.gid2index, ne)

      go :
          (o : Option ℕ)
          → Map.find k m.gid2index ≡ o
          → deref (bind_index fd gid i pool m) (get_conn_by_gid k (bind_index fd gid i pool m))
            ≡ deref m (get_conn_by_gid k m)
      go none q = rw (same, q) refl
      go (some j) q =
          rw (same, q, p)
            (get_elem?-at_index_ne (on_alloc fd gid) i j pool
              (ground (arith, h.used k j q, h.apart i)))

  bind_index-pool_capacity : pool_capacity (bind_index fd gid i pool m) ≡ pool_capacity m
  unfolding pool_capacity bind_index
  bind_index-pool_capacity = ground (
    arith,
    h.apart i,
    Set.length-erase i m.unused_set h.unused_once free,
    Set.length-insert i m.using_set,
  )

  pub bind_index-IsOpened : IsOpened fd gid m (bind_index fd gid i pool m)
  unfolding opened on_alloc
  bind_index-IsOpened = record {
    conn = opened;
    by_gid = ap (deref (bind_index fd gid i pool m)) gid_index ∙ named;
    by_fd = ap (deref (bind_index fd gid i pool m)) fd_index ∙ named;
    its_fd = refl;
    its_gid = refl;
    is_open = (refl, refl, refl);
    emptied = (refl, refl);
    others = unchanged;
  }

module _ (begin : List ℕ → Option ℕ) (first : IsBegin begin) (fd : ℤ) (gid : ℕ)
    (m : ConnectionMgr) where
  -- the branches of alloc_connection that can be reached
  pub alloc_cases :
      (P : ℤ × ConnectionMgr → Type 0)
      → IsWf m
      → (m.connection_pool ≡ none → P (negsuc 0, m))
      → (is_some (Map.find fd m.fd2gid) ≡ true → P (negsuc 1, m))
      → (is_some (Map.find gid m.gid2fd) ≡ true → P (negsuc 2, m))
      → (length m.unused_set ≡ 0 → P (negsuc 4, m))
      → ((i : ℕ) (pool : List Connection)
          → m.connection_pool ≡ some pool
          → Map.find fd m.fd2gid ≡ none
          → Map.find gid m.gid2fd ≡ none
          → Set.contains i m.unused_set ≡ true
          → P (pos 0, bind_index fd gid i pool m))
      → P (alloc_connection begin fd gid m)
  unfolding alloc_connection
  alloc_cases P h no_pool fd_bound gid_bound exhausted taken =
      go m.connection_pool (Map.find fd m.fd2gid) (Map.find gid m.gid2fd) (Map.find gid m.gid2index)
        (begin m.unused_set) refl refl refl refl refl
    where
      free :
          (pool : List Connection) (b : Option ℕ)
          → m.connection_pool ≡ some pool
          → Map.find fd m.fd2gid ≡ none
          → Map.find gid m.gid2fd ≡ none
          → Map.find gid m.gid2index ≡ none
          → begin m.unused_set ≡ b
          → (t : Bool) → leb (length m.unused_set) 0 ≡ t
          → P (alloc_connection begin fd gid m)
      free pool b p q r s t true k = rw (p, q, r, s, k, alloc_connection) (exhausted (ground arith))
      free pool none p q r s t false k =
          absurd (ground (arith, ap (λ l. length l) (first.at_end m.unused_set t)))
      free pool (some i) p q r s t false k =
          rw (p, q, r, s, t, k, alloc_connection)
            (taken i pool p q r (first.in_set m.unused_set i t))

      go :
          (pool : Option (List Connection)) (f : Option ℕ) (g : Option ℤ) (x b : Option ℕ)
          → m.connection_pool ≡ pool
          → Map.find fd m.fd2gid ≡ f
          → Map.find gid m.gid2fd ≡ g
          → Map.find gid m.gid2index ≡ x
          → begin m.unused_set ≡ b
          → P (alloc_connection begin fd gid m)
      go none f g x b p q r s t = rw (p, alloc_connection) (no_pool p)
      go (some pool) (some _) g x b p q r s t = rw (p, q, alloc_connection) (fd_bound (rw q refl))
      go (some pool) none (some _) x b p q r s t =
          rw (p, q, r, alloc_connection) (gid_bound (rw r refl))
      go (some pool) none none (some _) b p q r s t = absurd (ground (arith, h.same_gids gid))
      go (some pool) none none none b p q r s t =
          free pool b p q r s t (leb (length m.unused_set) 0) refl

  -- alloc_connection keeps the pool well formed, on every branch.
  pub alloc_connection-IsWf : IsWf m → IsWf (alloc_connection begin fd gid m).1
  alloc_connection-IsWf h =
      alloc_cases (λ r. IsWf r.1) h (λ _. h) (λ _. h) (λ _. h) (λ _. h)
        (λ i pool p q r free. bind_index-IsWf fd gid i pool m h q r p free)

  -- In a well formed pool, where the call answers 0, the descriptor and the gid name the same
  -- connection, which now stands open for them with empty buffers, and every other gid names
  -- what it named, unchanged.
  pub alloc_connection-IsOpened :
      IsWf m
      → (alloc_connection begin fd gid m).0 ≡ pos 0
      → IsOpened fd gid m (alloc_connection begin fd gid m).1
  alloc_connection-IsOpened h =
      alloc_cases (λ r. r.0 ≡ pos 0 → IsOpened fd gid m r.1) h
        (λ _. λ e. absurd (ground (arith, e))) (λ _. λ e. absurd (ground (arith, e)))
        (λ _. λ e. absurd (ground (arith, e))) (λ _. λ e. absurd (ground (arith, e)))
        (λ i pool p q r free. λ _. bind_index-IsOpened fd gid i pool m h p free)

  -- In a well formed pool a refusal changes nothing, and a call is refused only for the reason
  -- that its code names: no pool, a descriptor or a gid that is bound, or no free connection.
  -- The codes -4 and -6 cannot come up, and where the call answers 0, neither was bound.
  pub alloc_connection_refused :
      IsWf m
      → (alloc_connection begin fd gid m ≡ (negsuc 0, m) × m.connection_pool ≡ none)
        ⊎ (alloc_connection begin fd gid m ≡ (negsuc 1, m) × is_some (Map.find fd m.fd2gid) ≡ true)
        ⊎ (alloc_connection begin fd gid m ≡ (negsuc 2, m) × is_some (Map.find gid m.gid2fd) ≡ true)
        ⊎ (alloc_connection begin fd gid m ≡ (negsuc 4, m) × length m.unused_set ≡ 0)
        ⊎ ((alloc_connection begin fd gid m).0 ≡ pos 0
            × Map.find fd m.fd2gid ≡ none
            × Map.find gid m.gid2fd ≡ none)
  alloc_connection_refused h =
      alloc_cases
        (λ r.
          (r ≡ (negsuc 0, m) × m.connection_pool ≡ none)
          ⊎ (r ≡ (negsuc 1, m) × is_some (Map.find fd m.fd2gid) ≡ true)
          ⊎ (r ≡ (negsuc 2, m) × is_some (Map.find gid m.gid2fd) ≡ true)
          ⊎ (r ≡ (negsuc 4, m) × length m.unused_set ≡ 0)
          ⊎ (r.0 ≡ pos 0 × Map.find fd m.fd2gid ≡ none × Map.find gid m.gid2fd ≡ none))
        h (λ e. inl (refl, e)) (λ e. inr (inl (refl, e))) (λ e. inr (inr (inl (refl, e))))
        (λ e. inr (inr (inr (inl (refl, e)))))
        (λ i pool p q r free. inr (inr (inr (inr (refl, q, r)))))

  -- In a well formed pool the call neither loses nor adds a connection, on every branch.
  pub alloc_connection-pool_capacity :
      IsWf m → pool_capacity (alloc_connection begin fd gid m).1 ≡ pool_capacity m
  alloc_connection-pool_capacity h =
      alloc_cases (λ r. pool_capacity r.1 ≡ pool_capacity m) h (λ _. refl) (λ _. refl) (λ _. refl)
        (λ _. refl) (λ i pool p q r free. bind_index-pool_capacity fd gid i pool m h p free)
