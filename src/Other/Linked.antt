-- ===== src/Other/Linked.antt =====
-- The applications that are connected: the two maps, and the pool.
use avant.Base.Map
use avant.Base.Set
use avant.Base.Key.{Eq}
use avant.Base.{
  ℕ, ◌≡◌, refl, ap, sym, ◌∙◌, ℤ, true, false, Option, none, some, List, [], ◌∷◌, ◌++◌,
  if◌then◌else◌, is_some, ◌==◌, arith, nat_eq, int_eq, Bool-cases, inl, inr,
}
use avant.Connection.{Connection}
use avant.ConnectionMgr.{
  ConnectionMgr, release_connection, get_conn, get_conn_by_gid, deref, bind_index, unbind_index,
}
use avant.ConnectionMgr.Inv.{IsWf, bind_index-IsWf, unbind_index-IsWf}
use avant.ConnectionMgr.Alloc.{bind_index-IsOpened}
use avant.ConnectionMgr.At.{at_index-IsWf, with_conn, deref-with_conn, deref-with_conn_ne}
use avant.ConnectionMgr.Release.{release_cases, unbind_index-IsReleased}
use avant.Other.{OtherState, close_with, release_ipc, unlink, forget_gid}

-- A connection has the gid that names it.
pub record IsNamed (m : ConnectionMgr) : Type 0 where
  pub wf : IsWf m
  pub its_gid : (g : ℕ) (c : Connection) → deref m (get_conn_by_gid g m) ≡ some c → c.gid ≡ g

pub bind_index-IsNamed :
    (fd : ℤ) (gid i : ℕ) (pool : List Connection) (m : ConnectionMgr)
    → IsNamed m
    → Map.find fd m.fd2gid ≡ none
    → Map.find gid m.gid2fd ≡ none
    → m.connection_pool ≡ some pool
    → Set.contains i m.unused_set ≡ true
    → IsNamed (bind_index fd gid i pool m)
bind_index-IsNamed fd gid i pool m h no_fd no_gid p free = record {
  wf = bind_index-IsWf fd gid i pool m h.wf no_fd no_gid p free;
  its_gid = λ g c e. elim (Bool-cases (nat_eq.beq g gid)) [
    | inl b ↦
        let same : g ≡ gid = ground (arith, b) in
        let o = bind_index-IsOpened fd gid i pool m h.wf p free in
        ap (λ (x : Option Connection). elim x [ none ↦ 0 | some d ↦ d.gid ])
          (sym e
            ∙ ap
                (λ y.
                  deref (bind_index fd gid i pool m)
                    (get_conn_by_gid y (bind_index fd gid i pool m)))
                same
            ∙ o.by_gid)
        ∙ o.its_gid
        ∙ sym same
    | inr b ↦
        h.its_gid g c
          (sym ((bind_index-IsOpened fd gid i pool m h.wf p free).others g (ground (arith, b))) ∙ e)
  ];
}

pub release_connection-IsNamed :
    (fd : ℤ) (m : ConnectionMgr) → IsNamed m → IsNamed (release_connection fd m).1
unfolding deref
release_connection-IsNamed fd m h =
    release_cases fd m h.wf (λ r. IsNamed r.1) (λ _. h)
      (λ gid i p q. record {
        wf = unbind_index-IsWf fd gid i m h.wf p q;
        its_gid = λ g c e. elim (Bool-cases (nat_eq.beq g gid)) [
          | inl b ↦
              let same : g ≡ gid = ground (arith, b) in
              let m' = unbind_index fd gid i m in
              let nothing : deref m' none ≡ some c =
                sym (
                  ap (λ y. deref m' (get_conn_by_gid y m')) same
                  ∙ ap (deref m') ((unbind_index-IsReleased fd gid i m h.wf p q).no_gid))
                ∙ e in
              absurd (ground (arith, nothing))
          | inr b ↦
              h.its_gid g c (
                sym ((unbind_index-IsReleased fd gid i m h.wf p q).others g (ground (arith, b)))
                ∙ e)
        ];
      })

pub with_conn-IsNamed :
    (f : Connection → Connection) (i : ℕ) (m : ConnectionMgr)
    → ((c : Connection) → (f c).gid ≡ c.gid)
    → IsNamed m
    → IsNamed (with_conn f i m)
unfolding get_conn_by_gid deref
with_conn-IsNamed f i m keeps h = record {
  wf = at_index-IsWf f i m h.wf;
  its_gid = λ g c. go g c (Map.find g m.gid2index) refl;
}
  where
    at_i :
        (g : ℕ) (c : Connection) (o : Option Connection)
        → Map.find g m.gid2index ≡ some i
        → deref m (some i) ≡ o
        → (elim o as (λ o. Option Connection) [ none ↦ none | some d ↦ some (f d) ]) ≡ some c
        → c.gid ≡ g
    at_i g c none q x e = absurd (ground (arith, e))
    at_i g c (some d) q x e =
        let same : f d ≡ c = ground (arith, e) in
        sym (ap (λ (y : Connection). y.gid) same) ∙ keeps d ∙ h.its_gid g d (ap (deref m) q ∙ x)

    go :
        (g : ℕ) (c : Connection) (o : Option ℕ)
        → Map.find g m.gid2index ≡ o
        → deref (with_conn f i m) o ≡ some c
        → c.gid ≡ g
    go g c none q e = absurd (ground (arith, e))
    go g c (some j) q e = elim (Bool-cases (i == j)) [
      | inl b ↦
          let same : i ≡ j = ground (arith, b) in
          at_i g c (deref m (some i)) (q ∙ ap some (sym same)) refl
            (sym (deref-with_conn f i m) ∙ ap (λ y. deref (with_conn f i m) (some y)) same ∙ e)
      | inr b ↦
          h.its_gid g c (ap (deref m) q ∙ sym (deref-with_conn_ne f i j m (ground (arith, b))) ∙ e)
    ]

-- The two maps are inverse to each other, the applications in them and the clients of the listener are
-- connected, and none is both.
pub record IsLinked {A : Type 0} ⦃k : Eq A⦄ (o : OtherState A) : Type 0 where
  pub named : IsNamed o.ipc_connection_mgr
  pub app_gid :
      (a : A) (g : ℕ)
      → Map.find a o.m_this2remote_appid2gid ≡ some g
      → Map.find g o.m_this2remote_gid2appid ≡ some a
  pub gid_app :
      (a : A) (g : ℕ)
      → Map.find g o.m_this2remote_gid2appid ≡ some a
      → Map.find a o.m_this2remote_appid2gid ≡ some g
  pub opened_live :
      (g : ℕ)
      → is_some (Map.find g o.m_this2remote_gid2appid) ≡ true
      → is_some (Map.find g o.ipc_connection_mgr.gid2index) ≡ true
  pub taken_live :
      (g : ℕ)
      → Set.contains g o.m_remote2this_gid ≡ true
      → is_some (Map.find g o.ipc_connection_mgr.gid2index) ≡ true
  pub one_way :
      (g : ℕ)
      → is_some (Map.find g o.m_this2remote_gid2appid) ≡ true
      → Set.contains g o.m_remote2this_gid ≡ false

-- the gid of a client that is found by its descriptor
pub bound_gid :
    (fd : ℤ) (conn : Connection) (m : ConnectionMgr)
    → IsNamed m
    → deref m (get_conn fd m) ≡ some conn
    → Map.find fd m.fd2gid ≡ some conn.gid
unfolding get_conn get_conn_by_gid deref
bound_gid fd conn m h e = go (Map.find fd m.fd2gid) refl e
  where
    go :
        (o : Option ℕ)
        → Map.find fd m.fd2gid ≡ o
        → deref m (elim o [ none ↦ none | some g ↦ Map.find g m.gid2index ]) ≡ some conn
        → Map.find fd m.fd2gid ≡ some conn.gid
    go none q x = absurd (ground (arith, x))
    go (some g) q x = q ∙ ap some (sym (h.its_gid g conn x))

-- Releasing the client of `fd` takes its gid from the pool, and no other.
pub live-release_connection :
    (fd : ℤ) (gid g : ℕ) (m : ConnectionMgr)
    → IsWf m
    → Map.find fd m.fd2gid ≡ some gid
    → Map.find g (release_connection fd m).1.gid2index
      ≡ (if gid == g then none else Map.find g m.gid2index)
unfolding unbind_index
live-release_connection fd gid g m h e =
    release_cases fd m h
      (λ r. Map.find g (r.1).gid2index ≡ (if gid == g then none else Map.find g m.gid2index))
      (λ u. absurd (ground (arith, u, e)))
      (λ gid' i p q. ground (arith, e, p, Map.find-erase gid' g m.gid2index))

module _ {A : Type 0} ⦃k : Eq A⦄ where
  forget_gid-IsLinked : (gid : ℕ) (o : OtherState A) → IsLinked o → IsLinked (forget_gid gid o)
  unfolding forget_gid
  forget_gid-IsLinked gid o h = record {
    named = h.named;
    app_gid = h.app_gid;
    gid_app = h.gid_app;
    opened_live = h.opened_live;
    taken_live =
        λ g e. h.taken_live g (ground (arith, e, Set.contains-erase gid g o.m_remote2this_gid));
    one_way = λ g e. ground (arith, h.one_way g e, Set.contains-erase gid g o.m_remote2this_gid);
  }

  -- A client of the listener is released.
  release_taken :
      (fd : ℤ) (gid : ℕ) (o : OtherState A)
      → Map.find fd o.ipc_connection_mgr.fd2gid ≡ some gid
      → Map.find gid o.m_this2remote_gid2appid ≡ none
      → IsLinked o
      → IsLinked (forget_gid gid (release_ipc fd o))
  unfolding forget_gid release_ipc
  release_taken fd gid o e u h = record {
    named = release_connection-IsNamed fd o.ipc_connection_mgr h.named;
    app_gid = h.app_gid;
    gid_app = h.gid_app;
    opened_live = λ g x. ground (
      arith,
      h.opened_live g x,
      u,
      x,
      live-release_connection fd gid g o.ipc_connection_mgr h.named.wf e,
    );
    taken_live = λ g x. ground (
      arith,
      h.taken_live g,
      x,
      Set.contains-erase gid g o.m_remote2this_gid,
      live-release_connection fd gid g o.ipc_connection_mgr h.named.wf e,
    );
    one_way = λ g x. ground (arith, h.one_way g x, Set.contains-erase gid g o.m_remote2this_gid);
  }

  -- An application that this one had opened is released and taken off the maps.
  pub release_opened :
      (fd : ℤ) (gid : ℕ) (appid : A) (o : OtherState A)
      → Map.find fd o.ipc_connection_mgr.fd2gid ≡ some gid
      → Map.find gid o.m_this2remote_gid2appid ≡ some appid
      → IsLinked o
      → IsLinked (record (release_ipc fd o) {
        m_this2remote_appid2gid = Map.erase appid o.m_this2remote_appid2gid;
        m_this2remote_gid2appid = Map.erase gid o.m_this2remote_gid2appid;
      })
  unfolding release_ipc
  release_opened fd gid appid o e u h = record {
    named = release_connection-IsNamed fd o.ipc_connection_mgr h.named;
    app_gid = λ a g x. ground (
      arith,
      x,
      h.app_gid a g,
      h.gid_app appid gid u,
      h.gid_app a gid,
      k.beq_iff appid a,
      Map.find-erase appid a o.m_this2remote_appid2gid,
      Map.find-erase gid g o.m_this2remote_gid2appid,
      u,
    );
    gid_app = λ a g x. ground (
      arith,
      x,
      h.gid_app a g,
      h.app_gid appid g,
      u,
      k.beq_iff appid a,
      Map.find-erase appid a o.m_this2remote_appid2gid,
      Map.find-erase gid g o.m_this2remote_gid2appid,
      h.gid_app appid gid u,
    );
    opened_live = λ g x. ground (
      arith,
      x,
      h.opened_live g,
      Map.find-erase gid g o.m_this2remote_gid2appid,
      live-release_connection fd gid g o.ipc_connection_mgr h.named.wf e,
    );
    taken_live = λ g x. ground (
      arith,
      x,
      h.taken_live g x,
      h.one_way gid,
      u,
      live-release_connection fd gid g o.ipc_connection_mgr h.named.wf e,
    );
    one_way = λ g x. ground (arith, x, h.one_way g, Map.find-erase gid g o.m_this2remote_gid2appid);
  }

  -- Closing a client keeps the two maps and the pool in step, where reconnecting does.
  pub close_with-IsLinked :
      (reconnect : OtherState A → OtherState A)
      → ((o : OtherState A) → IsLinked o → IsLinked (reconnect o))
      → (fd : ℤ) (o : OtherState A) → IsLinked o
      → IsLinked (close_with reconnect fd o)
  unfolding close_with unlink release_ipc
  close_with-IsLinked reconnect keeps fd o h =
      go (deref o.ipc_connection_mgr (get_conn fd o.ipc_connection_mgr)) refl
    where
      unlinked :
          (gid : ℕ) (a : Option A)
          → Map.find fd o.ipc_connection_mgr.fd2gid ≡ some gid
          → Map.find gid o.m_this2remote_gid2appid ≡ a
          → IsLinked (
              forget_gid gid (elim a [
                | none ↦ release_ipc fd o
                | some appid ↦ reconnect (record (release_ipc fd o) {
                  m_this2remote_appid2gid = Map.erase appid o.m_this2remote_appid2gid;
                  m_this2remote_gid2appid = Map.erase gid o.m_this2remote_gid2appid;
                })
              ]))
      unlinked gid none e u = release_taken fd gid o e u h
      unlinked gid (some appid) e u =
          forget_gid-IsLinked gid
            (reconnect (record (release_ipc fd o) {
              m_this2remote_appid2gid = Map.erase appid o.m_this2remote_appid2gid;
              m_this2remote_gid2appid = Map.erase gid o.m_this2remote_gid2appid;
            }))
            (keeps
              (record (release_ipc fd o) {
                m_this2remote_appid2gid = Map.erase appid o.m_this2remote_appid2gid;
                m_this2remote_gid2appid = Map.erase gid o.m_this2remote_gid2appid;
              })
              (release_opened fd gid appid o e u h))

      go :
          (c : Option Connection)
          → deref o.ipc_connection_mgr (get_conn fd o.ipc_connection_mgr) ≡ c
          → IsLinked (elim c [
            | none ↦ record o { closed_sockets = o.closed_sockets ++ (fd ∷ []) }
            | some conn ↦ forget_gid conn.gid (unlink reconnect conn.gid (release_ipc fd o))
          ])
      go none e = record {
        named = h.named;
        app_gid = h.app_gid;
        gid_app = h.gid_app;
        opened_live = h.opened_live;
        taken_live = h.taken_live;
        one_way = h.one_way;
      }
      go (some conn) e =
          unlinked conn.gid (Map.find conn.gid o.m_this2remote_gid2appid)
            (bound_gid fd conn o.ipc_connection_mgr h.named e) refl
