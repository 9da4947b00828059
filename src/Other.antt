-- ===== src/Other.antt =====
-- src/workers/other.cpp: the connections of the IPC streams of the other thread, which come from its
-- listener or which it opens to the configured applications. The calls of on_create are
-- recorded; all contexts of this pool are IPC stream contexts, so the casts succeed.
pub mod Linked
pub mod Connect
pub mod Reconnect
pub mod Depth
mod Tests
use avant.Base.Map
use avant.Base.Set
use avant.Base.Key.{Eq}
use avant.Base.{
  ℕ, zero, suc, ◌+◌, ℤ, pos, negsuc, eq_ℤ, leb_ℤ, Bool, true, false, not, ◌||◌, Option, none, some,
  List, [], ◌∷◌, ◌++◌, if◌then◌else◌, is_some, nat_eq, int_eq,
}
use avant.Connection.{Connection}
use avant.ConnectionMgr.{
  ConnectionMgr, alloc_connection, release_connection, get_conn, deref, at_index,
}
use avant.Gid.{GidState, other_gen_gid}

pub record OtherState (A : Type 0) : Type 0 where
  pub ipc_connection_mgr : ConnectionMgr
  pub m_this2remote_appid2gid : Map.Map A ℕ
  pub m_this2remote_gid2appid : Map.Map ℕ A
  pub m_remote2this_gid : List ℕ
  pub gids : GidState
  -- on_create, epoller.add, epoller.del and ::close, as calls in order
  pub created : List ℕ
  pub added_events : List ℤ
  pub deleted_events : List ℤ
  pub closed_sockets : List ℤ

-- what the surroundings answer to one client: its descriptor, whether `new` gave a context, and whether
-- epoller.add returned 0
pub record Attempt : Type 0 where
  pub fd : ℤ
  pub ctx_made : Bool
  pub poller_adds : Bool

module _ {A : Type 0} ⦃k : Eq A⦄ where
  -- an assignment to the connection at an index of the pool
  unfoldable pub at_ipc_conn : (Connection → Connection) → ℕ → OtherState A → OtherState A
  at_ipc_conn f index o = record o {
    ipc_connection_mgr = record o.ipc_connection_mgr {
      connection_pool = elim o.ipc_connection_mgr.connection_pool [
        | none ↦ none
        | some pool ↦ some (at_index f index pool)
      ];
    };
  }

  -- a client_socket that is not handed on closes its descriptor
  unfoldable pub drop_socket : ℤ → OtherState A → OtherState A
  drop_socket fd o =
      if leb_ℤ (pos 0) fd then record o { closed_sockets = o.closed_sockets ++ (fd ∷ []) } else o

  -- epoller.del and release_connection
  unfoldable pub release_ipc : ℤ → OtherState A → OtherState A
  release_ipc fd o = record o {
    deleted_events = o.deleted_events ++ (fd ∷ []);
    ipc_connection_mgr = (release_connection fd o.ipc_connection_mgr).1;
  }

  -- an application that this one had opened is taken off the maps, and `reconnect` is called
  unfoldable pub unlink : (OtherState A → OtherState A) → ℕ → OtherState A → OtherState A
  unlink reconnect gid o = elim (Map.find gid o.m_this2remote_gid2appid) [
    | none ↦ o
    | some appid ↦ reconnect (record o {
      m_this2remote_appid2gid = Map.erase appid o.m_this2remote_appid2gid;
      m_this2remote_gid2appid = Map.erase gid o.m_this2remote_gid2appid;
    })
  ]

  unfoldable pub forget_gid : ℕ → OtherState A → OtherState A
  forget_gid gid o = record o { m_remote2this_gid = Set.erase gid o.m_remote2this_gid }

  -- close_ipc_client_fd; `reconnect` is ipc_client_to_connect.
  unfoldable pub close_with : (OtherState A → OtherState A) → ℤ → OtherState A → OtherState A
  unfolding release_ipc unlink forget_gid
  close_with reconnect fd o = elim (deref o.ipc_connection_mgr (get_conn fd o.ipc_connection_mgr)) [
    | none ↦ record o { closed_sockets = o.closed_sockets ++ (fd ∷ []) }
    | some conn ↦ forget_gid conn.gid (unlink reconnect conn.gid (release_ipc fd o))
  ]

  -- `create` is what follows where all has gone well; the context, the socket and the poller before.
  unfoldable pub set_up :
      (ℤ → OtherState A → OtherState A)
      → (OtherState A → OtherState A)
      → Attempt
      → ℕ
      → Connection
      → OtherState A
      → OtherState A
  unfolding at_ipc_conn
  set_up close create x index conn o =
      if not (conn.has_ctx || x.ctx_made)
      then close x.fd o
      else (let set = at_ipc_conn (λ c. record c { has_ctx = true; socket_fd = x.fd }) index o in
          let added = record set { added_events = set.added_events ++ (x.fd ∷ []) } in
          if not x.poller_adds then close x.fd added else create added)

  unfoldable pub on_new_ipc_client_fd :
      (List ℕ → Option ℕ)
      → (ℤ → OtherState A → OtherState A)
      → Attempt
      → ℕ
      → OtherState A
      → OtherState A
  unfolding set_up
  on_new_ipc_client_fd begin close x gid o =
      if not (leb_ℤ (pos 0) x.fd)
      then o
      else (let allocated = alloc_connection begin x.fd gid o.ipc_connection_mgr in
          let opened = record o { ipc_connection_mgr = allocated.1 } in
          if not (eq_ℤ allocated.0 (pos 0))
          then close x.fd opened
          else elim (get_conn x.fd allocated.1) [
            | none ↦ close x.fd opened
            | some index ↦ elim (deref allocated.1 (some index)) [
              | none ↦ close x.fd opened
              | some conn ↦
                  set_up close
                    (λ o. record o {
                      m_remote2this_gid = Set.insert gid o.m_remote2this_gid;
                      created = o.created ++ (gid ∷ []);
                    })
                    x index conn opened
            ]
          ])

  -- one item of the configuration
  unfoldable pub connect_one :
      (List ℕ → Option ℕ)
      → A
      → (A → ℕ → Attempt)
      → (ℤ → OtherState A → OtherState A)
      → A
      → OtherState A
      → OtherState A
  unfolding set_up at_ipc_conn drop_socket
  connect_one begin own connect close app_id o =
      if k.beq app_id own || is_some (Map.find app_id o.m_this2remote_appid2gid)
      then o
      else (let x = connect app_id o.gids.m_gid_seq in
          if leb_ℤ x.fd (pos 0)
          then drop_socket x.fd o
          else (let gid = (other_gen_gid o.gids).0 in
              let counted = record o { gids = (other_gen_gid o.gids).1 } in
              let allocated = alloc_connection begin x.fd gid o.ipc_connection_mgr in
              let opened = record counted { ipc_connection_mgr = allocated.1 } in
              if not (eq_ℤ allocated.0 (pos 0))
              then drop_socket x.fd opened
              else elim (get_conn x.fd allocated.1) [
                | none ↦ drop_socket x.fd opened
                | some index ↦ elim (deref allocated.1 (some index)) [
                  | none ↦ drop_socket x.fd opened
                  | some conn ↦
                      set_up close
                        (λ o. record o {
                          m_this2remote_appid2gid = Map.assign app_id gid o.m_this2remote_appid2gid;
                          m_this2remote_gid2appid = Map.assign gid app_id o.m_this2remote_gid2appid;
                          created = o.created ++ (gid ∷ []);
                        })
                        x index conn (at_ipc_conn (λ c. record c { socket_fd = x.fd }) index opened)
                ]
              ]))

  -- ipc_client_to_connect, over the items of ipc_json
  abbrev pub connect_all :
      (List ℕ → Option ℕ)
      → A
      → (A → ℕ → Attempt)
      → (ℤ → OtherState A → OtherState A)
      → List A
      → OtherState A
      → OtherState A
  connect_all begin own connect close [] o = o
  connect_all begin own connect close (app_id ∷ rest) o =
      connect_all begin own connect close rest (connect_one begin own connect close app_id o)

  -- Closing reconnects, and connecting closes what it cannot set up: `depth` bounds how often.
  abbrev pub close_ipc_client_fd :
      (List ℕ → Option ℕ) → A → (A → ℕ → Attempt) → List A → ℕ → ℤ → OtherState A → OtherState A
  close_ipc_client_fd begin own connect items zero = close_with (λ o. o)
  close_ipc_client_fd begin own connect items (suc depth) =
      close_with
        (connect_all begin own connect (close_ipc_client_fd begin own connect items depth) items)
