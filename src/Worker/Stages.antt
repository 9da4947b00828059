-- ===== src/Worker/Stages.antt =====
-- What each stage of on_new_client_fd does to a client on its way.
use avant.Base.{
  ℕ, ◌≡◌, ◌≢◌, ◌⊎◌, refl, ap, sym, ◌∙◌, subst, ℤ, pos, Bool, true, false, not, ◌&&◌, some, [], ◌∷◌,
  ◌++◌, arith, nat_eq, int_eq, inl, inr, Bool-cases,
}
use avant.Connection.{Connection}
use avant.Timer.{Timer, new_timer, add, is_valid}
use avant.Timer.Indexed.{timer_of}
use avant.Timer.Lookup.{add-IsIndexed, timer_of-add}
use avant.Worker.{WorkerState, TaskType, none_task, http_task, stream_task, websocket_task}
use avant.Worker.Client.{
  Surroundings, at_conn, make_context, create_context, reset_socket, start_ssl, start_timer,
}
use avant.Worker.Opening.{IsOpening, at_conn-IsOpening}

-- A stage on a client on its way ends with one. If it is to go on, the connection and the worker are as P
-- says, else Q is why.
abbrev pub IsStaged :
    (fd : ℤ) (gid index : ℕ) (w : WorkerState) (P : Connection → WorkerState → Type 0) (Q : Type 0)
    (r : Bool × WorkerState)
    → Type 0
IsStaged fd gid index w P Q r =
    ((r.0 ≡ false) × (c : Connection) × IsOpening fd gid index c w r.1 × Q)
    ⊎ ((r.0 ≡ true) × (c : Connection) × IsOpening fd gid index c w r.1 × P c r.1)

module _ (x : Surroundings) (fd : ℤ) (gid index : ℕ) (w : WorkerState) where
  -- what a connection and a worker are with a context
  abbrev pub WithContext : Connection → WorkerState → Connection → WorkerState → Type 0
  WithContext conn v c v' =
      (c.has_ctx ≡ true) × (c.has_ssl ≡ conn.has_ssl) × (v'.added_events ≡ v.added_events)

  -- with the descriptor in the socket and at the poller
  abbrev pub WithSocket : Connection → WorkerState → Connection → WorkerState → Type 0
  WithSocket conn v c v' =
      (c.has_ctx ≡ conn.has_ctx)
      × (c.has_ssl ≡ conn.has_ssl)
      × (c.socket_fd ≡ fd)
      × (v'.added_events ≡ v.added_events ++ (fd ∷ []))
      × (x.poller_adds ≡ true)

  -- with the SSL instance, where one is asked for
  abbrev pub WithSsl : Connection → WorkerState → Connection → WorkerState → Type 0
  WithSsl conn v c v' =
      (c.has_ctx ≡ conn.has_ctx)
      × (c.socket_fd ≡ conn.socket_fd)
      × (x.use_ssl && not c.has_ssl ≡ false)
      × (v'.added_events ≡ v.added_events)
      × (x.use_ssl && not x.ssl_made ≡ false)

  make_context-IsStaged :
      (v : WorkerState) (conn : Connection)
      → IsOpening fd gid index conn w v
      → IsStaged fd gid index w
          (WithContext conn v)
          (x.ctx_made ≡ false)
          (make_context x conn index v)
  unfolding make_context at_conn
  make_context-IsStaged v conn h = elim (Bool-cases conn.has_ctx) [
    | inl e ↦ rw e (inr (refl, conn, h, (e, refl, refl)))
    | inr e ↦ elim (Bool-cases x.ctx_made) [
      | inl f ↦
          rw (e, f)
            (inr (
              refl,
              record conn { has_ctx = true },
              at_conn-IsOpening (λ c. record c { has_ctx = true }) fd gid index conn w v refl refl
                  refl h,
              (refl, refl, refl),
            ))
      | inr f ↦ rw (e, f) (inl (refl, conn, h, refl))
    ]
  ]

  typed :
      (type : TaskType)
      → type ≢ none_task
      → (v : WorkerState) (conn : Connection) → IsOpening fd gid index conn w v
      → IsStaged fd gid index w
          (WithContext conn v)
          (x.ctx_made ≡ false)
          (make_context x conn index v)
      → IsStaged fd gid index w
          (λ c v'. (type ≢ none_task) × WithContext conn v c v')
          ((type ≡ none_task) ⊎ (x.ctx_made ≡ false))
          (make_context x conn index v)
  typed type ne v conn h (inl (e, c, o, q)) = inl (e, c, o, inr q)
  typed type ne v conn h (inr (e, c, o, q)) = inr (e, c, o, (ne, q))

  pub create_context-IsStaged :
      (type : TaskType) (v : WorkerState) (conn : Connection)
      → IsOpening fd gid index conn w v
      → IsStaged fd gid index w
          (λ c v'. (type ≢ none_task) × WithContext conn v c v')
          ((type ≡ none_task) ⊎ (x.ctx_made ≡ false))
          (create_context x type conn index v)
  unfolding create_context
  create_context-IsStaged none_task v conn h = inl (refl, conn, h, inl refl)
  create_context-IsStaged http_task v conn h =
      typed http_task (λ e. absurd (ground (arith, e))) v conn h (make_context-IsStaged v conn h)
  create_context-IsStaged stream_task v conn h =
      typed stream_task (λ e. absurd (ground (arith, e))) v conn h (make_context-IsStaged v conn h)
  create_context-IsStaged websocket_task v conn h =
      typed websocket_task (λ e. absurd (ground (arith, e))) v conn h
        (make_context-IsStaged v conn h)

  pub reset_socket-IsStaged :
      (v : WorkerState) (conn : Connection)
      → IsOpening fd gid index conn w v
      → IsStaged fd gid index w
          (WithSocket conn v)
          (x.poller_adds ≡ false)
          (reset_socket x fd index v)
  unfolding reset_socket at_conn
  reset_socket-IsStaged v conn h = elim (Bool-cases x.poller_adds) [
    | inl e ↦ inr (e, record conn { socket_fd = fd }, set, (refl, refl, refl, refl, e))
    | inr e ↦ inl (e, record conn { socket_fd = fd }, set, e)
  ]
    where
      o :
          IsOpening fd gid index
            (record conn { socket_fd = fd })
            w
            (at_conn (λ c. record c { socket_fd = fd }) index v)
      o =
          at_conn-IsOpening (λ c. record c { socket_fd = fd }) fd gid index conn w v refl refl refl
            h

      set : IsOpening fd gid index (record conn { socket_fd = fd }) w (reset_socket x fd index v).1
      set = record {
        wf = o.wf;
        fd_gid = o.fd_gid;
        gid_index = o.gid_index;
        found = o.found;
        its_gid = o.its_gid;
        is_open = o.is_open;
        one_more = o.one_more;
        others = o.others;
        timers = o.timers;
        tick = o.tick;
        counted = o.counted;
        counted_in_all = o.counted_in_all;
      }

  pub start_ssl-IsStaged :
      (v : WorkerState) (first conn : Connection)
      → IsOpening fd gid index conn w v
      → IsStaged fd gid index w
          (WithSsl conn v)
          ((x.use_ssl ≡ true) × ((first.has_ssl ≡ true) ⊎ (x.ssl_made ≡ false)))
          (start_ssl x first index v)
  unfolding start_ssl at_conn
  start_ssl-IsStaged v first conn h = elim (Bool-cases x.use_ssl) [
    | inl e ↦ elim (Bool-cases first.has_ssl) [
      | inl f ↦ rw (e, f) (inl (refl, conn, h, (refl, inl refl)))
      | inr f ↦ elim (Bool-cases x.ssl_made) [
        | inl g ↦
            rw (e, f, g)
              (inr (
                refl,
                record conn { has_ssl = true },
                at_conn-IsOpening (λ c. record c { has_ssl = true }) fd gid index conn w v refl refl
                    refl h,
                (refl, refl, refl, refl, refl),
              ))
        | inr g ↦ rw (e, f, g) (inl (refl, conn, h, (refl, inr refl)))
      ]
    ]
    | inr e ↦ rw e (inr (refl, conn, h, (refl, refl, refl, refl, refl)))
  ]

  abbrev pub armed : WorkerState → Connection → Timer ℤ
  armed v conn = new_timer conn.gid v.m_latest_tick_time_monotonic (pos 1) 5 (some fd)

  -- The timer of 5 seconds is one that can be added.
  armed-is_valid : (v : WorkerState) (conn : Connection) → is_valid (armed v conn) ≡ true
  unfolding is_valid new_timer
  armed-is_valid v conn = ground arith

  pub start_timer_lem :
      (v : WorkerState) (conn : Connection)
      → start_timer fd conn v ≡ (
        true,
        record v {
          m_conn_timeout_timer_manager =
              (add (some (armed v conn)) v.m_conn_timeout_timer_manager).1;
        },
      )
  unfolding start_timer add new_timer
  start_timer_lem v conn = rw (armed-is_valid v conn) refl

  m_id-armed : (v : WorkerState) (conn : Connection) → (armed v conn).m_id ≡ conn.gid
  unfolding new_timer
  m_id-armed v conn = refl

  -- With the timer added, the client is still on its way, and the timer is there.
  pub start_timer-IsOpening :
      (v : WorkerState) (first conn : Connection)
      → first.gid ≡ gid
      → IsOpening fd gid index conn w v
      → IsOpening fd gid index conn w (start_timer fd first v).1
        × (timer_of gid (start_timer fd first v).1.m_conn_timeout_timer_manager
            ≡ some (new_timer gid w.m_latest_tick_time_monotonic (pos 1) 5 (some fd)))
        × ((start_timer fd first v).1.added_events ≡ v.added_events)
  start_timer-IsOpening v first conn e h =
      subst
        (λ (r : Bool × WorkerState).
          IsOpening fd gid index conn w r.1
          × (timer_of gid r.1.m_conn_timeout_timer_manager
              ≡ some (new_timer gid w.m_latest_tick_time_monotonic (pos 1) 5 (some fd)))
          × (r.1.added_events ≡ v.added_events))
        (sym (start_timer_lem v first)) (opening, timer, refl)
    where
      opening : IsOpening fd gid index conn w (record v {
        m_conn_timeout_timer_manager =
            (add (some (armed v first)) v.m_conn_timeout_timer_manager).1;
      })
      opening = record {
        wf = h.wf;
        fd_gid = h.fd_gid;
        gid_index = h.gid_index;
        found = h.found;
        its_gid = h.its_gid;
        is_open = h.is_open;
        one_more = h.one_more;
        others = h.others;
        timers = add-IsIndexed (armed v first) v.m_conn_timeout_timer_manager h.timers;
        tick = h.tick;
        counted = h.counted;
        counted_in_all = h.counted_in_all;
      }

      there :
          timer_of gid (add (some (armed v first)) v.m_conn_timeout_timer_manager).1
          ≡ some (armed v first)
      there =
          timer_of-add (armed v first) gid v.m_conn_timeout_timer_manager h.timers
          ∙ ground (arith, armed-is_valid v first, m_id-armed v first, e)

      timer :
          timer_of gid (add (some (armed v first)) v.m_conn_timeout_timer_manager).1
          ≡ some (new_timer gid w.m_latest_tick_time_monotonic (pos 1) 5 (some fd))
      timer =
          there
          ∙ ap (λ g. some (new_timer g v.m_latest_tick_time_monotonic (pos 1) 5 (some fd))) e
          ∙ ap (λ n. some (new_timer gid n (pos 1) 5 (some fd))) h.tick
