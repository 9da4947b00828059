-- ===== src/MainTunnel/Flush.antt =====
-- What a flush of a tunnel sends.
use avant.Base.{
  ℕ, zero, suc, ◌≡◌, ◌≢◌, ◌⊎◌, inl, inr, refl, ap, sym, ◌∙◌, ℤ, eq_ℤ, true, false, some, List, [],
  ◌∷◌, ◌++◌, Bytes, length, take, drop, leb, arith, append_assoc, append-nil, take-append-drop,
  Bool-cases, if◌then◌else◌, int_eq,
}
use avant.Buffer.{size, move_read_ptr_n}
use avant.Buffer.Laws.{m_data-move}
use avant.Connection.{Connection}
use avant.ConnectionMgr.{get_conn, deref}
use avant.Session.{Interest, re, rwe}
use avant.StreamCtx.{SendResult, sent, send_blocked, send_failed}
use avant.MainTunnel.{MainState, Sending, flush_tunnel_loop, note_flush, try_send_flush_tunnel}

-- the bytes that the socket of a tunnel has taken
abbrev pub took : ℤ → List (ℤ × Bytes) → Bytes
took fd [] = []
took fd ((d, bytes) ∷ rest) = if eq_ℤ d fd then bytes ++ took fd rest else took fd rest

pub took-append_self :
    (fd : ℤ) (bytes : Bytes) (sends : List (ℤ × Bytes))
    → took fd (sends ++ ((fd, bytes) ∷ [])) ≡ took fd sends ++ bytes
took-append_self fd bytes [] = ground (arith, int_eq.beq_iff fd fd, append-nil bytes)
took-append_self fd bytes ((d, b) ∷ rest) = elim (Bool-cases (eq_ℤ d fd)) [
  | inl q ↦ rw q (
      ap (λ (t : Bytes). b ++ t) (took-append_self fd bytes rest)
      ∙ sym (append_assoc b (took fd rest) bytes))
  | inr q ↦ rw q (took-append_self fd bytes rest)
]

pub took-append_ne :
    (fd d : ℤ) (bytes : Bytes) (sends : List (ℤ × Bytes))
    → fd ≢ d
    → took d (sends ++ ((fd, bytes) ∷ [])) ≡ took d sends
took-append_ne fd d bytes [] ne = ground (arith, int_eq.beq_iff fd d, ne)
took-append_ne fd d bytes ((e, b) ∷ rest) ne = elim (Bool-cases (eq_ℤ e d)) [
  | inl q ↦ rw q (ap (λ (t : Bytes). b ++ t) (took-append_ne fd d bytes rest ne))
  | inr q ↦ rw q (took-append_ne fd d bytes rest ne)
]

-- no byte is lost or doubled, and bytes that are left wait for the write event, or the server stops
pub record IsSentOn (l l' : Sending) : Type 0 where
  pub same_bytes : l'.taken ++ l'.send_buffer.m_data ≡ l.taken ++ l.send_buffer.m_data
  pub waits :
      (l'.send_buffer.m_data ≡ [])
      ⊎ ((before : List Interest) × (l'.mods ≡ before ++ (rwe ∷ [])))
      ⊎ (l'.stopping ≡ true)

empty_lem : (bs : Bytes) → leb (length bs) 0 ≡ true → bs ≡ []
empty_lem [] h = refl
empty_lem (b ∷ bs) h = absurd (ground (arith, h))

idle : (l : Sending) → leb (size l.send_buffer) 0 ≡ true → IsSentOn l l
idle l q = record { same_bytes = refl; waits = inl (empty_lem l.send_buffer.m_data q) }

moved :
    (n : ℕ) (l : Sending)
    → (l.taken ++ take n l.send_buffer.m_data) ++ (move_read_ptr_n n l.send_buffer).m_data
      ≡ l.taken ++ l.send_buffer.m_data
moved n l =
    ap (λ (t : Bytes). (l.taken ++ take n l.send_buffer.m_data) ++ t) (m_data-move n l.send_buffer)
    ∙ append_assoc l.taken (take n l.send_buffer.m_data) (drop n l.send_buffer.m_data)
    ∙ ap (λ (t : Bytes). l.taken ++ t) (take-append-drop n l.send_buffer.m_data)

flush_tunnel_loop-IsSentOn :
    (results : List SendResult) (l : Sending) → IsSentOn l (flush_tunnel_loop results l)
unfolding flush_tunnel_loop
flush_tunnel_loop-IsSentOn [] l = elim (Bool-cases (leb (size l.send_buffer) 0)) [
  | inl q ↦ rw (q, flush_tunnel_loop) (idle l q)
  | inr q ↦
      rw (q, flush_tunnel_loop) (record { same_bytes = refl; waits = inr (inl (l.mods, refl)) })
]
flush_tunnel_loop-IsSentOn (sent zero ∷ rest) l = elim (Bool-cases (leb (size l.send_buffer) 0)) [
  | inl q ↦ rw (q, flush_tunnel_loop) (idle l q)
  | inr q ↦ rw (q, flush_tunnel_loop) (record { same_bytes = refl; waits = inr (inr refl) })
]
flush_tunnel_loop-IsSentOn (sent (suc n) ∷ rest) l =
    let l' : Sending = record l {
      taken = l.taken ++ take (suc n) l.send_buffer.m_data;
      send_buffer = move_read_ptr_n (suc n) l.send_buffer;
    } in
    let h : IsSentOn l' (flush_tunnel_loop rest l') = flush_tunnel_loop-IsSentOn rest l' in
    elim (Bool-cases (leb (size l.send_buffer) 0)) [
      | inl q ↦ rw (q, flush_tunnel_loop) (idle l q)
      | inr q ↦
          rw (q, flush_tunnel_loop)
            (record { same_bytes = h.same_bytes ∙ moved (suc n) l; waits = h.waits })
    ]
flush_tunnel_loop-IsSentOn (send_blocked ∷ rest) l =
    elim (Bool-cases (leb (size l.send_buffer) 0)) [
      | inl q ↦ rw (q, flush_tunnel_loop) (idle l q)
      | inr q ↦
          rw (q, flush_tunnel_loop) (record { same_bytes = refl; waits = inr (inl (l.mods, refl)) })
    ]
flush_tunnel_loop-IsSentOn (send_failed ∷ rest) l = elim (Bool-cases (leb (size l.send_buffer) 0)) [
  | inl q ↦ rw (q, flush_tunnel_loop) (idle l q)
  | inr q ↦ rw (q, flush_tunnel_loop) (record { same_bytes = refl; waits = inr (inr refl) })
]

-- a flush, with what the loop did
pub flushed :
    (results : List SendResult) (fd : ℤ) (i : ℕ) (conn : Connection) (s : MainState)
    → get_conn fd s.m_main_connection_mgr ≡ some i
    → deref s.m_main_connection_mgr (some i) ≡ some conn
    → (l : Sending) × IsSentOn
        (record { send_buffer = conn.send_buffer; taken = []; mods = []; stopping = false })
        l
      × (try_send_flush_tunnel results fd s ≡ note_flush fd i l s)
unfolding try_send_flush_tunnel
flushed results fd i conn s named there =
    let begun : Sending = record {
      send_buffer = conn.send_buffer;
      taken = [];
      mods = [];
      stopping = false;
    } in
    elim (Bool-cases (leb (size conn.send_buffer) 0)) [
      | inl q ↦ (
        record begun { mods = re ∷ [] },
        record { same_bytes = refl; waits = inl (empty_lem conn.send_buffer.m_data q) },
        rw (named, there, q, try_send_flush_tunnel) refl,
      )
      | inr q ↦ (
        flush_tunnel_loop results begun,
        flush_tunnel_loop-IsSentOn results begun,
        rw (named, there, q, try_send_flush_tunnel) refl,
      )
    ]
