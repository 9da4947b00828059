-- ===== src/Worker/Shut.antt =====
-- The connection of a client that a worker has closed among others.
use avant.Base.Map
use avant.Base.Set
use avant.Base.{
  ℕ, ◌≡◌, ◌≢◌, ◌⊎◌, refl, ap, sym, ◌∙◌, subst, ℤ, true, false, Option, none, some, List, [], ◌∷◌,
  ◌++◌, is_some, get_elem?_in, arith, nat_eq, int_eq, inl, inr, Bool-cases, Option-cases,
  if◌then◌else◌,
}
use avant.Connection.{Connection, ctx_on_close, socket_close, on_release}
use avant.ConnectionMgr.{ConnectionMgr, unbind_index, get_conn, deref}
use avant.ConnectionMgr.At.{deref-with_conn_self, deref-with_conn_ne}
use avant.ConnectionMgr.Inv.{IsWf, unbind_index-IsWf}
use avant.ConnectionMgr.Release.{release_cases}
use avant.Worker.{WorkerState, close_client_fd, close_conn}
use avant.Worker.Client.{close_all}
use avant.Worker.Close.{close_client_fd_found}

-- a pool that init has made, and that is well formed
pub record IsPool (m : ConnectionMgr) : Type 0 where
  pub wf : IsWf m
  pub made : is_some m.connection_pool ≡ true

-- In a pool, a descriptor that names a connection names one that is there.
conn_there :
    (fd : ℤ) (i : ℕ) (m : ConnectionMgr)
    → IsPool m
    → get_conn fd m ≡ some i
    → (conn : Connection) × (deref m (some i) ≡ some conn)
unfolding get_conn deref
conn_there fd i m h e = elim (Option-cases m.connection_pool) [
  | inl none_made ↦ absurd (ground (arith, none_made, h.made))
  | inr (pool, p) ↦
      let c =
        get_elem?_in pool i
          (h.wf.in_pool i pool p (ground (arith, used (Map.find fd m.fd2gid) e))) in
      (c.0, rw p c.1)
]
  where
    used :
        (o : Option ℕ)
        → (elim o as (λ o. Option ℕ) [ none ↦ none | some g ↦ Map.find g m.gid2index ]) ≡ some i
        → Set.contains i m.using_set ≡ true
    used none f = absurd (ground (arith, f))
    used (some g) f = h.wf.used g i f

-- The connection at index `i`, which was `conn`, is closed: its context was told and its socket closed,
-- its index is not in use, and `fd` names no connection and is taken from the poller.
pub record IsShut (fd : ℤ) (i : ℕ) (conn : Connection) (m : ConnectionMgr) (deleted : List ℤ)
    : Type 0 where
  pub gone : get_conn fd m ≡ none
  pub unused : Set.contains i m.using_set ≡ false
  pub released : Connection
  pub there : deref m (some i) ≡ some released
  pub closed :
      released.calls
      ≡ conn.calls
        ++ ((if conn.has_ctx then ctx_on_close conn.gid ∷ [] else [])
            ++ (socket_close conn.socket_fd ∷ []))
  pub marked : released.closed_flag ≡ true
  pub unregistered : Set.contains fd deleted ≡ true

abbrev pub IsOpenAt : ℤ → ℕ → Connection → ConnectionMgr → Type 0
IsOpenAt fd i conn m = (get_conn fd m ≡ some i) × (deref m (some i) ≡ some conn)

contains-append_self : (fd : ℤ) (xs : List ℤ) → Set.contains fd (xs ++ (fd ∷ [])) ≡ true
unfolding Set.contains
contains-append_self fd [] = ground (arith, int_eq.beq_iff fd fd)
contains-append_self fd (x ∷ xs) = ground (arith, contains-append_self fd xs)

contains-append :
    (fd x : ℤ) (xs : List ℤ) → Set.contains fd xs ≡ true → Set.contains fd (xs ++ (x ∷ [])) ≡ true
unfolding Set.contains
contains-append fd x [] h = absurd (ground (arith, h))
contains-append fd x (y ∷ xs) h = ground (arith, h, contains-append fd x xs)

-- what a descriptor that names a connection is bound to
bound_to :
    (fd : ℤ) (i : ℕ) (m : ConnectionMgr)
    → get_conn fd m ≡ some i
    → (g : ℕ) × (Map.find fd m.fd2gid ≡ some g) × (Map.find g m.gid2index ≡ some i)
unfolding get_conn
bound_to fd i m e = go (Map.find fd m.fd2gid) refl e
  where
    go :
        (o : Option ℕ)
        → Map.find fd m.fd2gid ≡ o
        → (elim o as (λ o. Option ℕ) [ none ↦ none | some g ↦ Map.find g m.gid2index ]) ≡ some i
        → (g : ℕ) × (Map.find fd m.fd2gid ≡ some g) × (Map.find g m.gid2index ≡ some i)
    go none p q = absurd (ground (arith, q))
    go (some g) p q = (g, p, q)

module _ (fd : ℤ) (i : ℕ) (conn : Connection) (m : ConnectionMgr) (h : IsWf m) (x : ℤ) (g j : ℕ)
    (p : Map.find x m.fd2gid ≡ some g) (q : Map.find g m.gid2index ≡ some j)
    (deleted : List ℤ) where
  unbind_index-IsShut :
      x ≡ fd → IsOpenAt fd i conn m → IsShut fd i conn (unbind_index x g j m) (deleted ++ (x ∷ []))
  unfolding unbind_index deref get_conn on_release
  unbind_index-IsShut e o =
      let b = bound_to fd i m o.0 in
      let same_gid : b.0 ≡ g = ground (arith, b.1, p, e) in
      let same : j ≡ i = ground (arith, q, b.2, same_gid) in
      record {
        gone = ground (arith, e, Map.find-erase fd fd m.fd2gid, int_eq.beq_iff fd fd);
        unused = ground (arith, same, Set.contains-erase j i m.using_set);
        released = on_release conn;
        there =
            subst (λ k. deref (unbind_index x g k m) (some i) ≡ some (on_release conn)) (sym same)
              (deref-with_conn_self on_release i m conn o.1);
        closed = refl;
        marked = refl;
        unregistered =
            subst (λ y. Set.contains fd (deleted ++ (y ∷ [])) ≡ true) (sym e)
              (contains-append_self fd deleted);
      }

  unbind_index_other : x ≢ fd → IsOpenAt fd i conn m → IsOpenAt fd i conn (unbind_index x g j m)
  unfolding unbind_index deref get_conn
  unbind_index_other ne o =
      let b = bound_to fd i m o.0 in
      let apart : g ≢ b.0 = λ e. ne (ground (arith, e, h.fd_gid x g p, h.fd_gid fd b.0 b.1)) in
      (
        ground (
          arith,
          b.1,
          b.2,
          ne,
          apart,
          int_eq.beq_iff x fd,
          Map.find-erase x fd m.fd2gid,
          Map.find-erase g b.0 m.gid2index,
        ),
        deref-with_conn_ne on_release j i m (λ e. apart (h.one_gid g b.0 i (q ∙ ap some e) b.2))
            ∙ o.1,
      )

  IsShut-unbind_index :
      IsShut fd i conn m deleted → IsShut fd i conn (unbind_index x g j m) (deleted ++ (x ∷ []))
  unfolding unbind_index deref get_conn
  IsShut-unbind_index s = record {
    gone = gone (Map.find fd m.fd2gid) refl s.gone;
    unused = ground (arith, s.unused, Set.contains-erase j i m.using_set);
    released = s.released;
    there = deref-with_conn_ne on_release j i m (ground (arith, h.used g j q, s.unused)) ∙ s.there;
    closed = s.closed;
    marked = s.marked;
    unregistered = contains-append fd x deleted s.unregistered;
  }
    where
      gone :
          (o : Option ℕ)
          → Map.find fd m.fd2gid ≡ o
          → (elim o as (λ o. Option ℕ) [ none ↦ none | some g ↦ Map.find g m.gid2index ]) ≡ none
          → (elim (Map.find fd (Map.erase x m.fd2gid)) as (λ o. Option ℕ) [
            | none ↦ none
            | some k ↦ Map.find k (Map.erase g m.gid2index)
          ])
            ≡ none
      gone none k f = ground (arith, k, Map.find-erase x fd m.fd2gid)
      gone (some k) l f =
          ground (arith, l, f, Map.find-erase x fd m.fd2gid, Map.find-erase g k m.gid2index)

-- What close_client_fd does to the pool and at the poller.
close_cases :
    (P : ConnectionMgr → List ℤ → Type 0) (x : ℤ) (w : WorkerState)
    → IsPool w.worker_connection_mgr
    → (get_conn x w.worker_connection_mgr ≡ none → P w.worker_connection_mgr w.deleted_events)
    → ((g j : ℕ)
        → Map.find x w.worker_connection_mgr.fd2gid ≡ some g
        → Map.find g w.worker_connection_mgr.gid2index ≡ some j
        → P (unbind_index x g j w.worker_connection_mgr) (w.deleted_events ++ (x ∷ [])))
    → P (close_client_fd x w).worker_connection_mgr (close_client_fd x w).deleted_events
unfolding close_client_fd close_conn deref get_conn
close_cases P x w h absent bound =
    let m = w.worker_connection_mgr in
    elim (Option-cases (get_conn x m)) [
      | inl e ↦ rw (e, close_conn) (absent e)
      | inr (i, e) ↦
          let conn = conn_there x i m h e in
          subst (λ (v : WorkerState). P v.worker_connection_mgr v.deleted_events)
            (sym (close_client_fd_found x conn.0 w (ap (deref m) e ∙ conn.1)))
            (release_cases x m h.wf
              (λ (r : ℤ × ConnectionMgr). P r.1 (w.deleted_events ++ (x ∷ [])))
              (λ unbound. absurd (ground (arith, e, unbound))) bound)
    ]

close_client_fd-IsPool :
    (x : ℤ) (w : WorkerState)
    → IsPool w.worker_connection_mgr
    → IsPool (close_client_fd x w).worker_connection_mgr
unfolding unbind_index
close_client_fd-IsPool x w h =
    close_cases (λ m deleted. IsPool m) x w h (λ _. h)
      (λ g j p q. record {
        wf = unbind_index-IsWf x g j w.worker_connection_mgr h.wf p q;
        made = ground (arith, h.made);
      })

-- Where one of the descriptors to be closed names the connection, or it is closed already, it is closed.
pub close_all-IsShut :
    (fd : ℤ) (i : ℕ) (conn : Connection) (fds : List ℤ) (w : WorkerState)
    → IsPool w.worker_connection_mgr
    → ((Set.contains fd fds ≡ true) × IsOpenAt fd i conn w.worker_connection_mgr)
      ⊎ IsShut fd i conn w.worker_connection_mgr w.deleted_events
    → IsShut fd i conn (close_all fds w).worker_connection_mgr (close_all fds w).deleted_events
unfolding Set.contains
close_all-IsShut fd i conn [] w h (inl e) = absurd (ground (arith, e.0))
close_all-IsShut fd i conn [] w h (inr s) = s
close_all-IsShut fd i conn (x ∷ fds) w h e =
    close_all-IsShut fd i conn fds (close_client_fd x w) (close_client_fd-IsPool x w h) (next e)
  where
    m : ConnectionMgr
    m = w.worker_connection_mgr

    Next : ConnectionMgr → List ℤ → Type 0
    Next m deleted =
        ((Set.contains fd fds ≡ true) × IsOpenAt fd i conn m) ⊎ IsShut fd i conn m deleted

    next :
        ((Set.contains fd (x ∷ fds) ≡ true) × IsOpenAt fd i conn m)
          ⊎ IsShut fd i conn m w.deleted_events
        → Next (close_client_fd x w).worker_connection_mgr (close_client_fd x w).deleted_events
    next (inr s) =
        close_cases Next x w h (λ _. inr s)
          (λ g j p q. inr (IsShut-unbind_index fd i conn m h.wf x g j p q w.deleted_events s))
    next (inl (c, o)) = elim (Bool-cases (int_eq.beq x fd)) [
      | inl b ↦
          let this : x ≡ fd = ground (arith, int_eq.beq_iff x fd, b) in
          close_cases Next x w h
            (λ none_there. absurd (ground (arith, none_there, ap (λ y. get_conn y m) this, o.0)))
            (λ g j p q.
              inr (unbind_index-IsShut fd i conn m h.wf x g j p q w.deleted_events this o))
      | inr b ↦
          let rest : Set.contains fd fds ≡ true = ground (arith, b, c) in
          close_cases Next x w h (λ _. inl (rest, o))
            (λ g j p q. inl (
              rest,
              unbind_index_other fd i conn m h.wf x g j p q w.deleted_events
                  (ground (arith, int_eq.beq_iff x fd, b)) o,
            ))
    ]
