-- ===== src/MainTunnel/Append.antt =====
-- What the main thread does with a package that it forwards.
use avant.Base.Map
use avant.Base.{
  ℕ, ◌≡◌, ◌≢◌, ◌⊎◌, inl, inr, refl, ap, sym, ◌∙◌, subst, ℤ, pos, eq_ℤ, Bool, true, false, ◌||◌,
  none, some, List, [], ◌∷◌, ◌++◌, Bytes, get_elem?, map, arith, append_assoc, int_eq,
}
use avant.Buffer.{append}
use avant.Connection.{Connection}
use avant.ConnectionMgr.{get_conn, deref}
use avant.ConnectionMgr.At.{deref-with_conn_self, deref-with_conn_ne}
use avant.Route.{TunnelPackage}
use avant.Session.{Interest, rwe}
use avant.StreamCtx.{SendResult}
use avant.TunnelId.{TunnelId, get_other_tunnel_id, is_tunnel_id, is_worker_tunnel_id}
use avant.MainTunnel.{
  MainState, Sending, at_tunnel, note_flush, try_send_flush_tunnel, get_main2worker_tunnel,
  get_main2other_tunnel, dest_tunnel_conn, flush_dest, append_data, main_tunnel_forward,
}
use avant.MainTunnel.Flush.{took, took-append_self, took-append_ne, IsSentOn, flushed}

-- `fd` is the main thread's end of the tunnel of `dest`: a worker's, at its place, or the other thread's
pub data IsReached (t : TunnelId) (s : MainState) (dest fd : ℤ) : Type 0 where
  worker_end :
      (k : ℕ)
      → dest ≡ pos k
      → is_worker_tunnel_id t (pos k) ≡ true
      → get_elem? s.m_main_worker_tunnel k ≡ some fd
      → Map.find fd s.m_main_worker_tunnel_fd2index ≡ some k
      → IsReached t s dest fd
  other_end :
      dest ≡ get_other_tunnel_id
      → s.m_main_other_tunnel ≡ fd
      → Map.find fd s.m_main_worker_tunnel_fd2index ≡ none
      → IsReached t s dest fd

-- `fd` names the connection at `i`, which is `conn`
pub record IsEnd (fd : ℤ) (i : ℕ) (conn : Connection) (s : MainState) : Type 0 where
  pub named : get_conn fd s.m_main_connection_mgr ≡ some i
  pub there : deref s.m_main_connection_mgr (some i) ≡ some conn
  pub its_fd : conn.fd ≡ fd

-- The bytes stand behind all that was sent or waited on that tunnel; what is left waits for the write
-- event, or the server stops; the connections and sockets of other tunnels are as they were.
pub record IsForwarded (bytes : Bytes) (fd : ℤ) (i : ℕ) (conn : Connection) (s : MainState)
    (r : ℤ × MainState) : Type 0 where
  pub code : r.0 ≡ pos 0
  pub after : Connection
  pub there : deref r.1.m_main_connection_mgr (some i) ≡ some after
  pub delivered :
      took fd r.1.sends ++ after.send_buffer.m_data
      ≡ took fd s.sends ++ (conn.send_buffer.m_data ++ bytes)
  pub waits :
      (after.send_buffer.m_data ≡ [])
      ⊎ ((before : List (ℤ × Interest)) × (r.1.mods ≡ before ++ ((fd, rwe) ∷ [])))
      ⊎ (r.1.stopping ≡ true)
  pub others :
      (j : ℕ)
      → i ≢ j
      → deref r.1.m_main_connection_mgr (some j) ≡ deref s.m_main_connection_mgr (some j)
  pub other_sends : (d : ℤ) → fd ≢ d → took d r.1.sends ≡ took d s.sends

-- where the destination's tunnel is found and flushed
dest_tunnel_conn-IsReached :
    (t : TunnelId) (s : MainState) (dest fd : ℤ)
    → IsReached t s dest fd
    → dest_tunnel_conn t dest s ≡ get_conn fd s.m_main_connection_mgr
unfolding dest_tunnel_conn get_main2worker_tunnel get_main2other_tunnel is_worker_tunnel_id
dest_tunnel_conn-IsReached t s dest fd (worker_end k e w at_k named) = rw e (rw (w, at_k) refl)
dest_tunnel_conn-IsReached t s dest fd (other_end e same unnamed) =
    rw e (ap (λ d. get_conn d s.m_main_connection_mgr) same)

flush_dest-IsReached :
    (t : TunnelId) (s : MainState) (dest fd : ℤ) (results : List SendResult)
    → IsReached t s dest fd
    → flush_dest results true fd s ≡ (pos 0, try_send_flush_tunnel results fd s)
unfolding flush_dest
flush_dest-IsReached t s dest fd results (worker_end k e w at_k named) = rw (named, at_k) refl
flush_dest-IsReached t s dest fd results (other_end e same unnamed) =
    let is_other : eq_ℤ s.m_main_other_tunnel fd ≡ true =
      ground (arith, same, int_eq.beq_iff s.m_main_other_tunnel fd) in
    rw (unnamed, is_other) (ap (λ d. (pos 0, try_send_flush_tunnel results d s)) same)

abbrev marked : ℤ → List Interest → List (ℤ × Interest)
marked fd is = map (λ (i : Interest). (fd, i)) is

marked_last :
    (fd : ℤ) (is : List Interest) → marked fd (is ++ (rwe ∷ [])) ≡ marked fd is ++ ((fd, rwe) ∷ [])
marked_last fd [] = refl
marked_last fd (i ∷ is) = ap (λ (t : List (ℤ × Interest)). (fd, i) ∷ t) (marked_last fd is)

module _ (bytes : Bytes) (fd : ℤ) (i : ℕ) (conn : Connection) (s : MainState)
    (h : IsEnd fd i conn s) where
  abbrev longer : Connection
  longer = record conn { send_buffer = append (some bytes) conn.send_buffer }

  appended : deref (append_data bytes i s).m_main_connection_mgr (some i) ≡ some longer
  unfolding append_data at_tunnel
  appended =
      deref-with_conn_self (λ c. record c { send_buffer = append (some bytes) c.send_buffer }) i
        s.m_main_connection_mgr conn h.there

  appended_others :
      (j : ℕ)
      → i ≢ j
      → deref (append_data bytes i s).m_main_connection_mgr (some j)
        ≡ deref s.m_main_connection_mgr (some j)
  unfolding append_data at_tunnel
  appended_others j ne =
      deref-with_conn_ne (λ c. record c { send_buffer = append (some bytes) c.send_buffer }) i j
        s.m_main_connection_mgr ne

  -- the package waits for the write event
  unflushed-IsForwarded :
      (results : List SendResult)
      → IsForwarded bytes fd i conn s (flush_dest results false fd (append_data bytes i s))
  unfolding flush_dest append_data at_tunnel append
  unflushed-IsForwarded results = record {
    code = refl;
    after = longer;
    there = appended;
    delivered = refl;
    waits = inr (inl (s.mods, refl));
    others = appended_others;
    other_sends = λ d ne. refl;
  }

  -- the package is flushed
  noted-IsForwarded :
      (l : Sending)
      → IsSentOn
          (record { send_buffer = longer.send_buffer; taken = []; mods = []; stopping = false })
          l
      → IsForwarded bytes fd i conn s (pos 0, note_flush fd i l (append_data bytes i s))
  unfolding note_flush at_tunnel append_data append
  noted-IsForwarded l k = record {
    code = refl;
    after = record longer { send_buffer = l.send_buffer };
    there =
        deref-with_conn_self (λ c. record c { send_buffer = l.send_buffer }) i
          (append_data bytes i s).m_main_connection_mgr longer appended;
    delivered =
        ap (λ (t : Bytes). t ++ l.send_buffer.m_data) (took-append_self fd l.taken s.sends)
        ∙ append_assoc (took fd s.sends) l.taken l.send_buffer.m_data
        ∙ ap (λ (t : Bytes). took fd s.sends ++ t) k.same_bytes;
    waits = waiting k.waits;
    others = λ j ne.
        deref-with_conn_ne (λ c. record c { send_buffer = l.send_buffer }) i j
          (append_data bytes i s).m_main_connection_mgr ne
        ∙ appended_others j ne;
    other_sends = λ d ne. took-append_ne fd d l.taken s.sends ne;
  }
    where
      waiting :
          (l.send_buffer.m_data ≡ [])
            ⊎ ((before : List Interest) × (l.mods ≡ before ++ (rwe ∷ [])))
            ⊎ (l.stopping ≡ true)
          → (l.send_buffer.m_data ≡ [])
            ⊎ ((before : List (ℤ × Interest)) × (s.mods ++ marked fd l.mods
                  ≡ before ++ ((fd, rwe) ∷ [])))
            ⊎ (s.stopping || l.stopping ≡ true)
      waiting (inl e) = inl e
      waiting (inr (inl (before, e))) = inr (
          inl (
            s.mods ++ marked fd before,
            ap (λ (is : List Interest). s.mods ++ marked fd is) e
                ∙ ap (λ (t : List (ℤ × Interest)). s.mods ++ t) (marked_last fd before)
                ∙ sym (append_assoc s.mods (marked fd before) ((fd, rwe) ∷ [])),
          ))
      waiting (inr (inr e)) = inr (inr (ground (arith, e)))

  flush_dest-IsForwarded :
      (t : TunnelId) (dest : ℤ) (flush : Bool) (results : List SendResult)
      → IsReached t (append_data bytes i s) dest fd
      → IsForwarded bytes fd i conn s (flush_dest results flush fd (append_data bytes i s))
  unfolding append_data at_tunnel get_conn
  flush_dest-IsForwarded t dest false results reached = unflushed-IsForwarded results
  flush_dest-IsForwarded t dest true results reached =
      let f = flushed results fd i longer (append_data bytes i s) h.named appended in
      subst (IsForwarded bytes fd i conn s)
        (sym (
          flush_dest-IsReached t (append_data bytes i s) dest fd results reached
          ∙ ap (λ (v : MainState). (pos 0, v)) f.2))
        (noted-IsForwarded f.0 f.1)

append_data-IsReached :
    (t : TunnelId) (bytes : Bytes) (i : ℕ) (dest fd : ℤ) (s : MainState)
    → IsReached t s dest fd
    → IsReached t (append_data bytes i s) dest fd
unfolding append_data at_tunnel
append_data-IsReached t bytes i dest fd s (worker_end k e w at_k named) =
    worker_end k e w at_k named
append_data-IsReached t bytes i dest fd s (other_end e same unnamed) = other_end e same unnamed

-- The main thread forwards a package between two names of tunnels to a worker or the other thread,
-- where the main thread's end of that tunnel names a connection: the call answers 0, and the package,
-- under its source and with its one destination, stands behind all that the socket of that tunnel took and
-- all that waited for it, whatever the socket answers and whether it flushes or not. What is left behind a
-- flush waits for the write event, unless an error of the socket stops the server. Nothing is sent on
-- another tunnel, and the other connections are as they were.
pub main_tunnel_forward-IsForwarded :
    {P : Type 0}
    → (t : TunnelId) (pack : TunnelPackage P → Bytes) (source dest fd : ℤ) (message : P)
    → (flush : Bool) (results : List SendResult) (s : MainState) (i : ℕ) (conn : Connection)
    → is_tunnel_id t source ≡ true
    → is_tunnel_id t dest ≡ true
    → IsReached t s dest fd
    → IsEnd fd i conn s
    → IsForwarded
        (pack (record {
          sourcetunnelsid = source;
          targettunnelsid = dest ∷ [];
          innerprotopackage = message;
        }))
        fd
        i
        conn
        s
        (main_tunnel_forward t pack source dest message flush results s)
unfolding main_tunnel_forward
main_tunnel_forward-IsForwarded t pack source dest fd message flush results s i conn a b reached h =
    let bytes : Bytes = pack (record {
      sourcetunnelsid = source;
      targettunnelsid = dest ∷ [];
      innerprotopackage = message;
    }) in
    let found : dest_tunnel_conn t dest s ≡ some i =
      dest_tunnel_conn-IsReached t s dest fd reached ∙ h.named in
    rw (a, b, found, h.there, main_tunnel_forward)
      (subst
        (λ d. IsForwarded bytes fd i conn s (flush_dest results flush d (append_data bytes i s)))
        (sym h.its_fd)
        (flush_dest-IsForwarded bytes fd i conn s h t dest flush results
          (append_data-IsReached t bytes i dest fd s reached)))
