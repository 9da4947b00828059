-- ===== src/Other/Connect.antt =====
-- A new connection of the other thread, and the clients of its listener.
use avant.Base.Map
use avant.Base.Set
use avant.Base.Key.{Eq}
use avant.Base.{
  ℕ, ◌≡◌, refl, ℤ, pos, eq_ℤ, leb_ℤ, Bool, true, false, not, ◌||◌, Option, none, some, List, [],
  ◌∷◌, ◌++◌, if◌then◌else◌, is_some, arith, nat_eq, int_eq, Bool-cases, inl, inr,
}
use avant.Connection.{Connection}
use avant.ConnectionMgr.{ConnectionMgr, get_conn, deref, bind_index}
use avant.ConnectionMgr.Inv.{IsBegin}
use avant.ConnectionMgr.Alloc.{alloc_cases, fd_index, named, opened}
use avant.Other.{OtherState, Attempt, at_ipc_conn, set_up, on_new_ipc_client_fd, drop_socket}
use avant.Other.Linked.{IsLinked, bind_index-IsNamed, with_conn-IsNamed}

module _ {A : Type 0} ⦃k : Eq A⦄ where
  -- The maps say nothing of a gid that the pool does not have.
  pub record IsUnused (gid : ℕ) (o : OtherState A) : Type 0 where
    pub live : is_some (Map.find gid o.ipc_connection_mgr.gid2index) ≡ true
    pub not_opened : Map.find gid o.m_this2remote_gid2appid ≡ none
    pub not_taken : Set.contains gid o.m_remote2this_gid ≡ false

  -- the state with a connection bound, whatever else is changed
  pub bound-IsLinked :
      (fd : ℤ) (gid i : ℕ) (pool : List Connection) (o : OtherState A)
      → IsLinked o
      → Map.find fd o.ipc_connection_mgr.fd2gid ≡ none
      → Map.find gid o.ipc_connection_mgr.gid2fd ≡ none
      → o.ipc_connection_mgr.connection_pool ≡ some pool
      → Set.contains i o.ipc_connection_mgr.unused_set ≡ true
      → IsLinked (record o { ipc_connection_mgr = bind_index fd gid i pool o.ipc_connection_mgr })
  unfolding bind_index
  bound-IsLinked fd gid i pool o h no_fd no_gid p free = record {
    named = bind_index-IsNamed fd gid i pool o.ipc_connection_mgr h.named no_fd no_gid p free;
    app_gid = h.app_gid;
    gid_app = h.gid_app;
    opened_live = λ g x.
        ground (arith, h.opened_live g x, Map.find-assign gid g i o.ipc_connection_mgr.gid2index);
    taken_live = λ g x.
        ground (arith, h.taken_live g x, Map.find-assign gid g i o.ipc_connection_mgr.gid2index);
    one_way = h.one_way;
  }

  pub bound-IsUnused :
      (fd : ℤ) (gid i : ℕ) (pool : List Connection) (o : OtherState A)
      → IsLinked o
      → Map.find gid o.ipc_connection_mgr.gid2fd ≡ none
      → IsUnused gid
          (record o { ipc_connection_mgr = bind_index fd gid i pool o.ipc_connection_mgr })
  unfolding bind_index
  bound-IsUnused fd gid i pool o h no_gid = record {
    live = ground (arith, Map.find-assign gid gid i o.ipc_connection_mgr.gid2index);
    not_opened = ground (arith, h.opened_live gid, h.named.wf.same_gids gid, no_gid);
    not_taken = ground (arith, h.taken_live gid, h.named.wf.same_gids gid, no_gid);
  }

  pub at_ipc_conn-IsLinked :
      (f : Connection → Connection) (i : ℕ) (o : OtherState A)
      → ((c : Connection) → (f c).gid ≡ c.gid)
      → IsLinked o
      → IsLinked (at_ipc_conn f i o)
  unfolding at_ipc_conn
  at_ipc_conn-IsLinked f i o keeps h = record {
    named = with_conn-IsNamed f i o.ipc_connection_mgr keeps h.named;
    app_gid = h.app_gid;
    gid_app = h.gid_app;
    opened_live = h.opened_live;
    taken_live = h.taken_live;
    one_way = h.one_way;
  }

  -- A client on its way is closed, or what is left is to note it.
  pub set_up-IsLinked :
      (close : ℤ → OtherState A → OtherState A) (create : OtherState A → OtherState A) (x : Attempt)
      (index gid : ℕ) (conn : Connection) (o : OtherState A)
      → ((fd : ℤ) (v : OtherState A) → IsLinked v → IsLinked (close fd v))
      → ((v : OtherState A)
          → IsLinked v
          → IsUnused gid v
          → v.m_this2remote_appid2gid ≡ o.m_this2remote_appid2gid
          → IsLinked (create v))
      → IsLinked o
      → IsUnused gid o
      → IsLinked (set_up close create x index conn o)
  unfolding set_up at_ipc_conn
  set_up-IsLinked close create x index gid conn o closes creates h u =
      go (conn.has_ctx || x.ctx_made) x.poller_adds
    where
      set : OtherState A
      set = at_ipc_conn (λ c. record c { has_ctx = true; socket_fd = x.fd }) index o

      added : IsLinked (record set { added_events = set.added_events ++ (x.fd ∷ []) })
      added =
          let s =
            at_ipc_conn-IsLinked (λ c. record c { has_ctx = true; socket_fd = x.fd }) index o
              (λ c. refl) h in
          record {
            named = s.named;
            app_gid = s.app_gid;
            gid_app = s.gid_app;
            opened_live = s.opened_live;
            taken_live = s.taken_live;
            one_way = s.one_way;
          }

      go :
          (a b : Bool)
          → IsLinked (
              if not a
              then close x.fd o
              else (if not b
                  then close x.fd (record set { added_events = set.added_events ++ (x.fd ∷ []) })
                  else create (record set { added_events = set.added_events ++ (x.fd ∷ []) })))
      go false b = closes x.fd o h
      go true false =
          closes x.fd (record set { added_events = set.added_events ++ (x.fd ∷ []) }) added
      go true true =
          creates (record set { added_events = set.added_events ++ (x.fd ∷ []) }) added
            (record { live = u.live; not_opened = u.not_opened; not_taken = u.not_taken }) refl

  take-IsLinked :
      (gid : ℕ) (v : OtherState A)
      → IsLinked v
      → IsUnused gid v
      → IsLinked (record v {
        m_remote2this_gid = Set.insert gid v.m_remote2this_gid;
        created = v.created ++ (gid ∷ []);
      })
  take-IsLinked gid v h u = record {
    named = h.named;
    app_gid = h.app_gid;
    gid_app = h.gid_app;
    opened_live = h.opened_live;
    taken_live = λ g x.
        ground (arith, x, h.taken_live g, u.live, Set.contains-insert gid g v.m_remote2this_gid);
    one_way = λ g x.
        ground (arith, x, h.one_way g, u.not_opened, Set.contains-insert gid g v.m_remote2this_gid);
  }

  pub link-IsLinked :
      (app_id : A) (gid : ℕ) (v : OtherState A)
      → IsLinked v
      → IsUnused gid v
      → Map.find app_id v.m_this2remote_appid2gid ≡ none
      → IsLinked (record v {
        m_this2remote_appid2gid = Map.assign app_id gid v.m_this2remote_appid2gid;
        m_this2remote_gid2appid = Map.assign gid app_id v.m_this2remote_gid2appid;
        created = v.created ++ (gid ∷ []);
      })
  link-IsLinked app_id gid v h u absent = record {
    named = h.named;
    app_gid = λ a g x. ground (
      arith,
      x,
      h.app_gid a g,
      u.not_opened,
      k.beq_iff app_id a,
      Map.find-assign app_id a gid v.m_this2remote_appid2gid,
      Map.find-assign gid g app_id v.m_this2remote_gid2appid,
    );
    gid_app = λ a g x. ground (
      arith,
      x,
      h.gid_app a g,
      absent,
      k.beq_iff app_id a,
      Map.find-assign app_id a gid v.m_this2remote_appid2gid,
      Map.find-assign gid g app_id v.m_this2remote_gid2appid,
    );
    opened_live = λ g x.
        ground (
          arith,
          x,
          h.opened_live g,
          u.live,
          Map.find-assign gid g app_id v.m_this2remote_gid2appid,
        );
    taken_live = h.taken_live;
    one_way = λ g x. ground (
      arith,
      x,
      h.one_way g,
      u.not_taken,
      Map.find-assign gid g app_id v.m_this2remote_gid2appid,
    );
  }

  pub drop_socket-IsLinked : (fd : ℤ) (o : OtherState A) → IsLinked o → IsLinked (drop_socket fd o)
  unfolding drop_socket
  drop_socket-IsLinked fd o h = go (leb_ℤ (pos 0) fd)
    where
      go :
          (b : Bool)
          → IsLinked (if b then record o { closed_sockets = o.closed_sockets ++ (fd ∷ []) } else o)
      go true = record {
        named = h.named;
        app_gid = h.app_gid;
        gid_app = h.gid_app;
        opened_live = h.opened_live;
        taken_live = h.taken_live;
        one_way = h.one_way;
      }
      go false = h

module _ {A : Type 0} ⦃k : Eq A⦄ (begin : List ℕ → Option ℕ) (begins : IsBegin begin)
    (close : ℤ → OtherState A → OtherState A)
    (closes : (fd : ℤ) (v : OtherState A) → IsLinked v → IsLinked (close fd v)) where
  -- Where the two maps and the pool are in step, and closing keeps them so, they are so after a client of the
  -- listener has come, on every branch.
  pub on_new_ipc_client_fd-IsLinked :
      (x : Attempt) (gid : ℕ) (o : OtherState A)
      → IsLinked o
      → IsLinked (on_new_ipc_client_fd begin close x gid o)
  unfolding on_new_ipc_client_fd
  on_new_ipc_client_fd-IsLinked x gid o h = elim (Bool-cases (leb_ℤ (pos 0) x.fd)) [
    | inr e ↦ rw e h
    | inl e ↦ rw e (
        alloc_cases begin begins x.fd gid m (λ r. IsLinked (after r)) h.named.wf
          (λ p. closes x.fd o h) (λ p. closes x.fd o h) (λ p. closes x.fd o h)
          (λ p. closes x.fd o h)
          (λ i pool p q r free.
            rw
              (
                fd_index x.fd gid i pool m h.named.wf p free,
                named x.fd gid i pool m h.named.wf p free,
              )
              (set_up-IsLinked close create x i gid (opened x.fd gid i pool m h.named.wf p free)
                (record o { ipc_connection_mgr = bind_index x.fd gid i pool m }) closes
                (λ v l u s. take-IsLinked gid v l u) (bound-IsLinked x.fd gid i pool o h q r p free)
                (bound-IsUnused x.fd gid i pool o h r))))
  ]
    where
      m : ConnectionMgr
      m = o.ipc_connection_mgr

      create : OtherState A → OtherState A
      create v = record v {
        m_remote2this_gid = Set.insert gid v.m_remote2this_gid;
        created = v.created ++ (gid ∷ []);
      }

      after : ℤ × ConnectionMgr → OtherState A
      after r =
          if not (eq_ℤ r.0 (pos 0))
          then close x.fd (record o { ipc_connection_mgr = r.1 })
          else elim (get_conn x.fd r.1) [
            | none ↦ close x.fd (record o { ipc_connection_mgr = r.1 })
            | some index ↦ elim (deref r.1 (some index)) [
              | none ↦ close x.fd (record o { ipc_connection_mgr = r.1 })
              | some conn ↦ set_up close create x index conn (record o { ipc_connection_mgr = r.1 })
            ]
          ]
