-- ===== src/Other/Reconnect.antt =====
-- Connections that the other thread opens itself, and opens again.
use avant.Base.Map
use avant.Base.Set
use avant.Base.Key.{Eq}
use avant.Base.{
  ℕ, zero, suc, ◌≡◌, refl, ap, ◌∙◌, ℤ, pos, eq_ℤ, leb_ℤ, true, not, ◌||◌, Option, none, some, List,
  [], ◌∷◌, ◌++◌, if◌then◌else◌, is_some, arith, nat_eq, int_eq, Bool-cases, inl, inr,
}
use avant.Connection.{Connection}
use avant.ConnectionMgr.{ConnectionMgr, get_conn, deref, bind_index}
use avant.ConnectionMgr.Inv.{IsBegin}
use avant.ConnectionMgr.Alloc.{alloc_cases, fd_index, named, opened}
use avant.Gid.{other_gen_gid}
use avant.Other.{
  OtherState, Attempt, at_ipc_conn, set_up, connect_one, connect_all, close_ipc_client_fd,
  drop_socket,
}
use avant.Other.Linked.{IsLinked, close_with-IsLinked}
use avant.Other.Connect.{
  bound-IsLinked, bound-IsUnused, at_ipc_conn-IsLinked, set_up-IsLinked, link-IsLinked,
  drop_socket-IsLinked,
}

module _ {A : Type 0} ⦃k : Eq A⦄ (begin : List ℕ → Option ℕ) (begins : IsBegin begin) (own : A)
    (connect : A → ℕ → Attempt) where
  -- the state with the next gid taken
  pub counted : OtherState A → OtherState A
  counted o = record o { gids = (other_gen_gid o.gids).1 }

  pub counted-IsLinked : (o : OtherState A) → IsLinked o → IsLinked (counted o)
  unfolding counted
  counted-IsLinked o h = record {
    named = h.named;
    app_gid = h.app_gid;
    gid_app = h.gid_app;
    opened_live = h.opened_live;
    taken_live = h.taken_live;
    one_way = h.one_way;
  }

  pub connect_one-IsLinked :
      (close : ℤ → OtherState A → OtherState A)
      → ((fd : ℤ) (v : OtherState A) → IsLinked v → IsLinked (close fd v))
      → (app_id : A) (o : OtherState A) → IsLinked o
      → IsLinked (connect_one begin own connect close app_id o)
  unfolding connect_one counted at_ipc_conn
  connect_one-IsLinked close closes app_id o h =
      elim (Bool-cases (k.beq app_id own || is_some (Map.find app_id o.m_this2remote_appid2gid))) [
        | inl e ↦ rw e h
        | inr e ↦ elim (Bool-cases (leb_ℤ x.fd (pos 0))) [
          | inl f ↦ rw (e, f) (drop_socket-IsLinked x.fd o h)
          | inr f ↦
              rw (e, f)
                (alloc_cases begin begins x.fd gid m (λ r. IsLinked (after r)) h.named.wf
                  (λ p. dropped) (λ p. dropped) (λ p. dropped) (λ p. dropped)
                  (λ i pool p q r free.
                    rw
                      (
                        fd_index x.fd gid i pool m h.named.wf p free,
                        named x.fd gid i pool m h.named.wf p free,
                      )
                      (bound i pool (opened x.fd gid i pool m h.named.wf p free) q r p free
                        (ground (arith, e)))))
        ]
      ]
    where
      x : Attempt
      x = connect app_id o.gids.m_gid_seq

      gid : ℕ
      gid = (other_gen_gid o.gids).0

      m : ConnectionMgr
      m = o.ipc_connection_mgr

      create : OtherState A → OtherState A
      create v = record v {
        m_this2remote_appid2gid = Map.assign app_id gid v.m_this2remote_appid2gid;
        m_this2remote_gid2appid = Map.assign gid app_id v.m_this2remote_gid2appid;
        created = v.created ++ (gid ∷ []);
      }

      dropped : IsLinked (drop_socket x.fd (counted o))
      dropped = drop_socket-IsLinked x.fd (counted o) (counted-IsLinked o h)

      after : ℤ × ConnectionMgr → OtherState A
      after r =
          if not (eq_ℤ r.0 (pos 0))
          then drop_socket x.fd (record (counted o) { ipc_connection_mgr = r.1 })
          else elim (get_conn x.fd r.1) [
            | none ↦ drop_socket x.fd (record (counted o) { ipc_connection_mgr = r.1 })
            | some index ↦ elim (deref r.1 (some index)) [
              | none ↦ drop_socket x.fd (record (counted o) { ipc_connection_mgr = r.1 })
              | some conn ↦ set_up close create x index conn (
                  at_ipc_conn (λ c. record c { socket_fd = x.fd }) index
                    (record (counted o) { ipc_connection_mgr = r.1 }))
            ]
          ]

      bound :
          (i : ℕ) (pool : List Connection) (conn : Connection)
          → Map.find x.fd m.fd2gid ≡ none
          → Map.find gid m.gid2fd ≡ none
          → m.connection_pool ≡ some pool
          → Set.contains i m.unused_set ≡ true
          → Map.find app_id o.m_this2remote_appid2gid ≡ none
          → IsLinked (
              set_up close create x i conn (
                at_ipc_conn
                  (λ c. record c { socket_fd = x.fd })
                  i
                  (record (counted o) { ipc_connection_mgr = bind_index x.fd gid i pool m })))
      bound i pool conn q r p free absent =
          let u = bound-IsUnused x.fd gid i pool (counted o) (counted-IsLinked o h) r in
          set_up-IsLinked close create x i gid conn
            (at_ipc_conn (λ c. record c { socket_fd = x.fd }) i
              (record (counted o) { ipc_connection_mgr = bind_index x.fd gid i pool m }))
            closes (λ v l w s. link-IsLinked app_id gid v l w (ap (Map.find app_id) s ∙ absent))
            (at_ipc_conn-IsLinked (λ c. record c { socket_fd = x.fd }) i
              (record (counted o) { ipc_connection_mgr = bind_index x.fd gid i pool m }) (λ c. refl)
              (bound-IsLinked x.fd gid i pool (counted o) (counted-IsLinked o h) q r p free))
            (record { live = u.live; not_opened = u.not_opened; not_taken = u.not_taken })

  pub connect_all-IsLinked :
      (close : ℤ → OtherState A → OtherState A)
      → ((fd : ℤ) (v : OtherState A) → IsLinked v → IsLinked (close fd v))
      → (items : List A) (o : OtherState A) → IsLinked o
      → IsLinked (connect_all begin own connect close items o)
  connect_all-IsLinked close closes [] o h = h
  connect_all-IsLinked close closes (app_id ∷ rest) o h =
      connect_all-IsLinked close closes rest (connect_one begin own connect close app_id o)
        (connect_one-IsLinked close closes app_id o h)

  -- Where the two maps and the pool are in step, that is, the maps are inverse to each other, the
  -- applications in them and the clients of the listener are connected, and none is both, they are so after the
  -- closing of a client, whether it is one of an application, which is then connected again, or one of
  -- the listener, whatever the connects, the contexts and the poller answer.
  pub close_ipc_client_fd-IsLinked :
      (items : List A) (depth : ℕ) (fd : ℤ) (o : OtherState A)
      → IsLinked o
      → IsLinked (close_ipc_client_fd begin own connect items depth fd o)
  close_ipc_client_fd-IsLinked items zero fd o h = close_with-IsLinked (λ v. v) (λ v l. l) fd o h
  close_ipc_client_fd-IsLinked items (suc depth) fd o h =
      close_with-IsLinked
        (connect_all begin own connect (close_ipc_client_fd begin own connect items depth) items)
        (λ v l.
          connect_all-IsLinked (close_ipc_client_fd begin own connect items depth)
            (λ fd' v' l'. close_ipc_client_fd-IsLinked items depth fd' v' l') items v l)
        fd o h
