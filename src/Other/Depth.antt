-- ===== src/Other/Depth.antt =====
-- How deep closing and connecting call one another.
use avant.Base.Map
use avant.Base.Key.{Eq}
use avant.Base.{
  ℕ, zero, suc, ◌≡◌, refl, ap, sym, ◌∙◌, ℤ, pos, eq_ℤ, leb_ℤ, Bool, true, false, not, ◌||◌, Option,
  none, some, List, [], ◌∷◌, ◌++◌, if◌then◌else◌, is_some, arith, nat_eq, int_eq, Bool-cases, inl,
  inr,
}
use avant.Connection.{Connection}
use avant.ConnectionMgr.{ConnectionMgr, get_conn, deref, bind_index}
use avant.ConnectionMgr.Inv.{IsBegin}
use avant.ConnectionMgr.Alloc.{alloc_cases, fd_index, named, opened}
use avant.Gid.{other_gen_gid}
use avant.Other.{
  OtherState, Attempt, at_ipc_conn, close_with, release_ipc, unlink, forget_gid, set_up,
  connect_one, connect_all, close_ipc_client_fd, drop_socket,
}
use avant.Other.Linked.{
  IsLinked, IsNamed, bind_index-IsNamed, with_conn-IsNamed, bound_gid, release_opened,
}
use avant.Other.Connect.{bound-IsUnused}
use avant.Other.Reconnect.{connect_one-IsLinked, close_ipc_client_fd-IsLinked}

module _ {A : Type 0} ⦃k : Eq A⦄ where
  -- The client of `fd` is none that this one has opened.
  record IsUnlinked (fd : ℤ) (v : OtherState A) : Type 0 where
    its_name : IsNamed v.ipc_connection_mgr
    unlinked :
        (g : ℕ)
        → Map.find fd v.ipc_connection_mgr.fd2gid ≡ some g
        → Map.find g v.m_this2remote_gid2appid ≡ none

  -- Two ways to close do the same to clients that this one has not opened.
  IsAgreed : (c d : ℤ → OtherState A → OtherState A) → Type 0
  IsAgreed c d = (fd : ℤ) (v : OtherState A) → IsUnlinked fd v → c fd v ≡ d fd v

  unlink_absent :
      (r : OtherState A → OtherState A) (gid : ℕ) (v : OtherState A)
      → Map.find gid v.m_this2remote_gid2appid ≡ none
      → unlink r gid v ≡ v
  unfolding unlink
  unlink_absent r gid v = go (Map.find gid v.m_this2remote_gid2appid)
    where
      go :
          (a : Option A)
          → a ≡ none
          → (elim a [
            | none ↦ v
            | some appid ↦ r (record v {
              m_this2remote_appid2gid = Map.erase appid v.m_this2remote_appid2gid;
              m_this2remote_gid2appid = Map.erase gid v.m_this2remote_gid2appid;
            })
          ])
            ≡ v
      go none e = refl
      go (some appid) e = absurd (ground (arith, e))

  close_with-IsAgreed : (r s : OtherState A → OtherState A) → IsAgreed (close_with r) (close_with s)
  unfolding IsAgreed close_with release_ipc
  close_with-IsAgreed r s fd v u =
      go (deref v.ipc_connection_mgr (get_conn fd v.ipc_connection_mgr)) refl
    where
      closed : (OtherState A → OtherState A) → Option Connection → OtherState A
      closed q c = elim c [
        | none ↦ record v { closed_sockets = v.closed_sockets ++ (fd ∷ []) }
        | some conn ↦ forget_gid conn.gid (unlink q conn.gid (release_ipc fd v))
      ]

      go :
          (c : Option Connection)
          → deref v.ipc_connection_mgr (get_conn fd v.ipc_connection_mgr) ≡ c
          → closed r c ≡ closed s c
      go none e = refl
      go (some conn) e =
          let alone : Map.find conn.gid v.m_this2remote_gid2appid ≡ none =
            u.unlinked conn.gid (bound_gid fd conn v.ipc_connection_mgr u.its_name e) in
          ap (forget_gid conn.gid) (
            unlink_absent r conn.gid (release_ipc fd v) alone
            ∙ sym (unlink_absent s conn.gid (release_ipc fd v) alone))

  set_up-IsAgreed :
      (c d : ℤ → OtherState A → OtherState A) (create : OtherState A → OtherState A) (x : Attempt)
      (i : ℕ) (conn : Connection) (o : OtherState A)
      → IsAgreed c d
      → IsUnlinked x.fd o
      → set_up c create x i conn o ≡ set_up d create x i conn o
  unfolding IsAgreed set_up at_ipc_conn
  set_up-IsAgreed c d create x i conn o same u = go (conn.has_ctx || x.ctx_made) x.poller_adds
    where
      set : OtherState A
      set = at_ipc_conn (λ c. record c { has_ctx = true; socket_fd = x.fd }) i o

      added : OtherState A
      added = record set { added_events = set.added_events ++ (x.fd ∷ []) }

      go :
          (a b : Bool)
          → (if not a then c x.fd o else (if not b then c x.fd added else create added))
            ≡ (if not a then d x.fd o else (if not b then d x.fd added else create added))
      go false b = same x.fd o u
      go true false = same x.fd added (record {
        its_name =
            with_conn-IsNamed (λ c. record c { has_ctx = true; socket_fd = x.fd }) i
              o.ipc_connection_mgr (λ c. refl) u.its_name;
        unlinked = u.unlinked;
      })
      go true true = refl

module _ {A : Type 0} ⦃k : Eq A⦄ (begin : List ℕ → Option ℕ) (begins : IsBegin begin) (own : A)
    (connect : A → ℕ → Attempt) where
  connect_one-IsAgreed :
      (c d : ℤ → OtherState A → OtherState A) (app_id : A) (o : OtherState A)
      → IsAgreed c d
      → IsLinked o
      → connect_one begin own connect c app_id o ≡ connect_one begin own connect d app_id o
  unfolding connect_one at_ipc_conn bind_index
  connect_one-IsAgreed c d app_id o same h =
      elim (Bool-cases (k.beq app_id own || is_some (Map.find app_id o.m_this2remote_appid2gid))) [
        | inl e ↦ rw e refl
        | inr e ↦ elim (Bool-cases (leb_ℤ x.fd (pos 0))) [
          | inl f ↦ rw (e, f) refl
          | inr f ↦
              rw (e, f)
                (alloc_cases begin begins x.fd gid m (λ r. after c r ≡ after d r) h.named.wf
                  (λ p. refl) (λ p. refl) (λ p. refl) (λ p. refl)
                  (λ i pool p q r free.
                    rw
                      (
                        fd_index x.fd gid i pool m h.named.wf p free,
                        named x.fd gid i pool m h.named.wf p free,
                      )
                      (set_up-IsAgreed c d create x i (opened x.fd gid i pool m h.named.wf p free)
                        (at_ipc_conn (λ c. record c { socket_fd = x.fd }) i
                          (record counted { ipc_connection_mgr = bind_index x.fd gid i pool m }))
                        same
                        (record {
                          its_name =
                              with_conn-IsNamed (λ c. record c { socket_fd = x.fd }) i
                                (bind_index x.fd gid i pool m) (λ c. refl)
                                (bind_index-IsNamed x.fd gid i pool m h.named q r p free);
                          unlinked = λ g y. ground (
                            arith,
                            y,
                            Map.find-assign x.fd x.fd gid m.fd2gid,
                            int_eq.beq_iff x.fd x.fd,
                            (bound-IsUnused x.fd gid i pool o h r).not_opened,
                          );
                        }))))
        ]
      ]
    where
      x : Attempt
      x = connect app_id o.gids.m_gid_seq

      gid : ℕ
      gid = (other_gen_gid o.gids).0

      m : ConnectionMgr
      m = o.ipc_connection_mgr

      counted : OtherState A
      counted = record o { gids = (other_gen_gid o.gids).1 }

      create : OtherState A → OtherState A
      create v = record v {
        m_this2remote_appid2gid = Map.assign app_id gid v.m_this2remote_appid2gid;
        m_this2remote_gid2appid = Map.assign gid app_id v.m_this2remote_gid2appid;
        created = v.created ++ (gid ∷ []);
      }

      after : (ℤ → OtherState A → OtherState A) → ℤ × ConnectionMgr → OtherState A
      after close r =
          if not (eq_ℤ r.0 (pos 0))
          then drop_socket x.fd (record counted { ipc_connection_mgr = r.1 })
          else elim (get_conn x.fd r.1) [
            | none ↦ drop_socket x.fd (record counted { ipc_connection_mgr = r.1 })
            | some index ↦ elim (deref r.1 (some index)) [
              | none ↦ drop_socket x.fd (record counted { ipc_connection_mgr = r.1 })
              | some conn ↦ set_up close create x index conn (
                  at_ipc_conn (λ c. record c { socket_fd = x.fd }) index
                    (record counted { ipc_connection_mgr = r.1 }))
            ]
          ]

  connect_all-IsAgreed :
      (c d : ℤ → OtherState A → OtherState A) (items : List A) (o : OtherState A)
      → IsAgreed c d
      → ((fd : ℤ) (v : OtherState A) → IsLinked v → IsLinked (d fd v))
      → IsLinked o
      → connect_all begin own connect c items o ≡ connect_all begin own connect d items o
  connect_all-IsAgreed c d [] o same keeps h = refl
  connect_all-IsAgreed c d (app_id ∷ rest) o same keeps h =
      ap (connect_all begin own connect c rest) (connect_one-IsAgreed c d app_id o same h)
      ∙ connect_all-IsAgreed c d rest (connect_one begin own connect d app_id o) same keeps
          (connect_one-IsLinked begin begins own connect d keeps app_id o h)

  closes-IsAgreed :
      (items : List A) (d e : ℕ)
      → IsAgreed
          (close_ipc_client_fd begin own connect items d)
          (close_ipc_client_fd begin own connect items e)
  closes-IsAgreed items zero zero = close_with-IsAgreed (λ o. o) (λ o. o)
  closes-IsAgreed items zero (suc e) =
      close_with-IsAgreed (λ o. o)
        (connect_all begin own connect (close_ipc_client_fd begin own connect items e) items)
  closes-IsAgreed items (suc d) zero =
      close_with-IsAgreed
        (connect_all begin own connect (close_ipc_client_fd begin own connect items d) items)
        (λ o. o)
  closes-IsAgreed items (suc d) (suc e) =
      close_with-IsAgreed
        (connect_all begin own connect (close_ipc_client_fd begin own connect items d) items)
        (connect_all begin own connect (close_ipc_client_fd begin own connect items e) items)

  -- Where the two maps and the pool are in step, one more call of close_ipc_client_fd inside a
  -- reconnect is enough: what closing a client does is the same for every depth from 1 on.
  pub close_ipc_client_fd_depth :
      (items : List A) (d e : ℕ) (fd : ℤ) (o : OtherState A)
      → IsLinked o
      → close_ipc_client_fd begin own connect items (suc d) fd o
        ≡ close_ipc_client_fd begin own connect items (suc e) fd o
  unfolding close_with unlink release_ipc
  close_ipc_client_fd_depth items d e fd o h =
      go (deref o.ipc_connection_mgr (get_conn fd o.ipc_connection_mgr)) refl
    where
      again : ℕ → OtherState A → OtherState A
      again n = connect_all begin own connect (close_ipc_client_fd begin own connect items n) items

      same : (v : OtherState A) → IsLinked v → again d v ≡ again e v
      same v l =
          connect_all-IsAgreed (close_ipc_client_fd begin own connect items d)
            (close_ipc_client_fd begin own connect items e) items v (closes-IsAgreed items d e)
            (λ f w k. close_ipc_client_fd-IsLinked begin begins own connect items e f w k) l

      unlinked : (OtherState A → OtherState A) → ℕ → Option A → OtherState A
      unlinked r gid a = elim a [
        | none ↦ release_ipc fd o
        | some appid ↦ r (record (release_ipc fd o) {
          m_this2remote_appid2gid = Map.erase appid o.m_this2remote_appid2gid;
          m_this2remote_gid2appid = Map.erase gid o.m_this2remote_gid2appid;
        })
      ]

      reconnected :
          (gid : ℕ) (a : Option A)
          → Map.find fd o.ipc_connection_mgr.fd2gid ≡ some gid
          → Map.find gid o.m_this2remote_gid2appid ≡ a
          → unlinked (again d) gid a ≡ unlinked (again e) gid a
      reconnected gid none b u = refl
      reconnected gid (some appid) b u =
          same
            (record (release_ipc fd o) {
              m_this2remote_appid2gid = Map.erase appid o.m_this2remote_appid2gid;
              m_this2remote_gid2appid = Map.erase gid o.m_this2remote_gid2appid;
            })
            (release_opened fd gid appid o b u h)

      closed : (OtherState A → OtherState A) → Option Connection → OtherState A
      closed r c = elim c [
        | none ↦ record o { closed_sockets = o.closed_sockets ++ (fd ∷ []) }
        | some conn ↦
            forget_gid conn.gid (unlinked r conn.gid (Map.find conn.gid o.m_this2remote_gid2appid))
      ]

      go :
          (c : Option Connection)
          → deref o.ipc_connection_mgr (get_conn fd o.ipc_connection_mgr) ≡ c
          → closed (again d) c ≡ closed (again e) c
      go none x = refl
      go (some conn) x = ap (forget_gid conn.gid) (
          reconnected conn.gid (Map.find conn.gid o.m_this2remote_gid2appid)
            (bound_gid fd conn o.ipc_connection_mgr h.named x) refl)
