-- ===== src/Ipc/Delivery.antt =====
-- What another process receives, and the header that the size check lets through.
use avant.Base.{
  ℕ, ◌+◌, ◌≤◌, ◌<◌, ◌≡◌, sym, ap, ◌∙◌, inl, inr, Option, none, some, List, [], ◌∷◌, ◌++◌, Bytes,
  length, take, drop, of_be64, arith, All, Eq, append_assoc, append-nil, length-append, length-drop,
}
use avant.Buffer.{VecStrBuffer, size, move_read_ptr_n, append}
use avant.Buffer.Laws.{m_data-move}
use avant.Proto.{IsCodec}
use avant.Proto.Frame.{again, done, loop, loop_done}
use avant.Proto.Reader.{IsWaiting, IsSendable, wire, deliver_all}
use avant.Proto.Chunks.{concat_all, feed, feed_delivers}
use avant.Proto.Deliver.{of_be64-append}
use avant.Ipc.{Codec, IpcState, Peer, on_recv_package, ipc_step, on_process_connection}

-- a size that leaves room in a receive buffer of 2048000 bytes
abbrev pub max_payload : ℕ
max_payload = 2000000

module _ {A P M : Type 0} ⦃e : Eq A⦄ (codec : Codec A P M) (peer : Peer) where
  runs :
      (b : VecStrBuffer) (s : IpcState A P M)
      → size b ≤ 2048000
      → on_process_connection codec peer b s ≡ loop (ipc_step codec peer) (size b) b s
  unfolding on_process_connection
  runs b s h = ground arith

  -- What the code relies on: an array whose announced size is negative as an `int` does not parse.
  module _
      (negative : (bs : Bytes) (n : ℕ)
        → 18446744073709551608 ≤ n
        → codec.parse_from_array bs n ≡ none) where
    stays :
        (b : VecStrBuffer) (s : IpcState A P M)
        → of_be64 b.m_data ≡ 18446744073709551608
        → 8 ≤ size b
        → ipc_step codec peer b s ≡ done b s
    unfolding ipc_step
    stays b s q h =
        ground
          (arith, negative (drop 8 b.m_data) 18446744073709551608 (omega arith), m_data-move 0 b)

    -- The size check of the IPC loop wraps. After a header of 2^64 - 8 no byte is ever taken off
    -- the receive buffer again and no package reaches the process, whatever the peer sends
    -- behind it, as an array whose size is negative as an `int` does not parse: each event
    -- leaves the state as it is, up to the limit of the receive buffer.
    pub ipc_header_wraps :
        (chunks : List Bytes) (b : VecStrBuffer) (s : IpcState A P M)
        → of_be64 b.m_data ≡ 18446744073709551608
        → 8 ≤ size b
        → size b + length (concat_all chunks) ≤ 2048000
        → feed (on_process_connection codec peer) chunks b s
          ≡ (record { m_data = b.m_data ++ concat_all chunks }, s)
    unfolding feed append
    ipc_header_wraps [] b s q h k =
        ap (λ (t : Bytes). (record { m_data = t }, s)) (sym (append-nil b.m_data))
    ipc_header_wraps (c ∷ cs) b s q h k =
        let b' : VecStrBuffer = record { m_data = b.m_data ++ c } in
        let longer : size b' ≡ size b + length c = length-append b.m_data c in
        let total : length (c ++ concat_all cs) ≡ length c + length (concat_all cs) =
          length-append c (concat_all cs) in
        let header : of_be64 b'.m_data ≡ 18446744073709551608 = of_be64-append b.m_data c h ∙ q in
        let step : on_process_connection codec peer b' s ≡ (b', s) =
          runs b' s (omega arith)
          ∙ loop_done (ipc_step codec peer) (size b') b' s (stays b' s header (omega arith)) in
        ap
          (λ (o : VecStrBuffer × IpcState A P M).
            feed (on_process_connection codec peer) cs o.0 o.1)
          step
        ∙ ipc_header_wraps cs b' s header (omega arith) (omega arith)
        ∙ ap (λ (t : Bytes). (record { m_data = t }, s)) (append_assoc b.m_data c (concat_all cs))

  module _ (parse : Bytes → Option P)
      (within : (bs : Bytes) (n : ℕ)
        → n ≤ length bs
        → codec.parse_from_array bs n ≡ parse (take n bs)) where
    waits :
        (b : VecStrBuffer) (s : IpcState A P M)
        → IsWaiting max_payload b.m_data
        → ipc_step codec peer b s ≡ done b s
    unfolding ipc_step
    waits b s (inl short) = ground arith
    waits b s (inr (fits, short)) = ground arith

    takes :
        (b : VecStrBuffer) (s : IpcState A P M) (p : P) (n : ℕ)
        → of_be64 b.m_data ≡ n
        → 0 < n
        → n ≤ max_payload
        → 8 + n ≤ size b
        → parse (take n (drop 8 b.m_data)) ≡ some p
        → ipc_step codec peer b s
          ≡ again (move_read_ptr_n (8 + n) b) (on_recv_package codec peer s p)
    unfolding ipc_step
    takes b s p n header h0 h1 h2 q =
        ground (arith, within (drop 8 b.m_data) n, length-drop 8 b.m_data)

    -- Where parsing undoes serialising and looks at no byte beyond the array: packages of up to
    -- 2000000 bytes, none of them empty, that another process sends are received each once and
    -- in order, however the network cuts them into reads of at most 10240 bytes; the receive
    -- buffer then holds exactly the beginning of the package to come.
    pub ipc_delivery :
        (serialize : P → Option Bytes)
        → IsCodec serialize parse
        → (chunks : List Bytes) (ps : List P) (rest : Bytes) (b : VecStrBuffer) (s : IpcState A P M)
        → All (λ c. length c ≤ 10240) chunks
        → All (IsSendable serialize max_payload) ps
        → IsWaiting max_payload b.m_data
        → IsWaiting max_payload rest
        → b.m_data ++ concat_all chunks ≡ wire serialize ps ++ rest
        → ((feed (on_process_connection codec peer) chunks b s).0.m_data ≡ rest)
          × ((feed (on_process_connection codec peer) chunks b s).1
              ≡ deliver_all (on_recv_package codec peer) s ps)
    ipc_delivery serialize faithful chunks ps rest b s hc ok hb hr q =
        feed_delivers serialize max_payload 10240 (omega arith) parse faithful
          (on_recv_package codec peer) (ipc_step codec peer)
          (record { waits = waits; takes = takes }) (on_process_connection codec peer) size
          (λ c w h. (runs c w (omega arith), omega arith)) chunks ps rest b s hc ok hb hr q
