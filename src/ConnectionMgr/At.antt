-- ===== src/ConnectionMgr/At.antt =====
-- An assignment to a connection of the pool.
use avant.Base.Map
use avant.Base.Set
use avant.Base.{
  ℕ, ◌≡◌, ◌≢◌, ◌<◌, ◌||◌, refl, ap, sym, ◌∙◌, true, Option, none, some, List, length, arith, nat_eq,
}
use avant.Connection.{Connection}
use avant.ConnectionMgr.{ConnectionMgr, get_conn_by_gid, deref, at_index}
use avant.ConnectionMgr.Inv.{IsWf, length-at_index}
use avant.ConnectionMgr.Alloc.{get_elem?-at_index_self, get_elem?-at_index_ne}

pub at_index-IsWf :
    (f : Connection → Connection) (i : ℕ) (m : ConnectionMgr)
    → IsWf m
    → IsWf (record m {
      connection_pool = elim m.connection_pool [
        | none ↦ none
        | some pool ↦ some (at_index f i pool)
      ];
    })
at_index-IsWf f i m h = record {
  fd_gid = h.fd_gid;
  gid_fd = h.gid_fd;
  same_gids = h.same_gids;
  one_gid = h.one_gid;
  used = h.used;
  apart = h.apart;
  in_pool = go m.connection_pool refl;
  using_once = h.using_once;
  unused_once = h.unused_once;
}
  where
    go :
        (o : Option (List Connection))
        → m.connection_pool ≡ o
        → (j : ℕ) (cs : List Connection)
        → (elim o [ none ↦ none | some pool ↦ some (at_index f i pool) ]) ≡ some cs
        → Set.contains j m.using_set || Set.contains j m.unused_set ≡ true
        → j < length cs
    go none e j cs q c = absurd (ground (arith, q))
    go (some pool) e j cs q c = ground (arith, h.in_pool j pool e c, length-at_index f i pool, q)

-- the pool with an assignment to the connection at an index
abbrev pub with_conn : (Connection → Connection) → ℕ → ConnectionMgr → ConnectionMgr
with_conn f i m = record m {
  connection_pool = elim m.connection_pool [ none ↦ none | some pool ↦ some (at_index f i pool) ];
}

pub deref-with_conn_self :
    (f : Connection → Connection) (i : ℕ) (m : ConnectionMgr) (conn : Connection)
    → deref m (some i) ≡ some conn
    → deref (with_conn f i m) (some i) ≡ some (f conn)
unfolding deref
deref-with_conn_self f i m conn = go m.connection_pool
  where
    go :
        (o : Option (List Connection))
        → deref (record m { connection_pool = o }) (some i) ≡ some conn
        → deref (with_conn f i (record m { connection_pool = o })) (some i) ≡ some (f conn)
    go none e = absurd (ground (arith, e))
    go (some pool) e = ground (arith, e, get_elem?-at_index_self f i pool)

pub deref-with_conn_ne :
    (f : Connection → Connection) (i j : ℕ) (m : ConnectionMgr)
    → i ≢ j
    → deref (with_conn f i m) (some j) ≡ deref m (some j)
unfolding deref
deref-with_conn_ne f i j m ne = go m.connection_pool
  where
    go :
        (o : Option (List Connection))
        → deref (with_conn f i (record m { connection_pool = o })) (some j)
          ≡ deref (record m { connection_pool = o }) (some j)
    go none = refl
    go (some pool) = get_elem?-at_index_ne f i j pool ne

-- Other gids do not see the assignment.
pub others-with_conn :
    (f : Connection → Connection) (i gid h : ℕ) (m : ConnectionMgr)
    → IsWf m
    → Map.find gid m.gid2index ≡ some i
    → h ≢ gid
    → deref (with_conn f i m) (get_conn_by_gid h (with_conn f i m)) ≡ deref m (get_conn_by_gid h m)
unfolding get_conn_by_gid deref
others-with_conn f i gid h m wf e ne = go (Map.find h m.gid2index) refl
  where
    go : (o : Option ℕ) → Map.find h m.gid2index ≡ o → deref (with_conn f i m) o ≡ deref m o
    go none q = refl
    go (some j) q =
        deref-with_conn_ne f i j m (λ x. ne (wf.one_gid h gid i (q ∙ ap some (sym x)) e))

pub deref-with_conn :
    (f : Connection → Connection) (i : ℕ) (m : ConnectionMgr)
    → deref (with_conn f i m) (some i)
      ≡ (elim (deref m (some i)) [ none ↦ none | some c ↦ some (f c) ])
unfolding deref
deref-with_conn f i m = go m.connection_pool
  where
    go :
        (o : Option (List Connection))
        → deref (with_conn f i (record m { connection_pool = o })) (some i)
          ≡ (elim (deref (record m { connection_pool = o }) (some i)) [
            | none ↦ none
            | some c ↦ some (f c)
          ])
    go none = refl
    go (some pool) = get_elem?-at_index_self f i pool
