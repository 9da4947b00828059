-- ===== src/Stream/Delivery.antt =====
-- What the other thread receives of the packages that a client sends over a TCP stream.
use avant.Base.{
  ℕ, ◌+◌, ◌≤◌, ◌<◌, ◌≡◌, refl, sym, ap, ap₂, ◌∙◌, Option, List, [], ◌∷◌, ◌++◌, Bytes, length, map,
  arith, append_assoc, append-nil, All, le→ltb,
}
use avant.Buffer.{VecStrBuffer, size}
use avant.Proto.{IsCodec}
use avant.Proto.Frame.{loop}
use avant.Proto.Reader.{IsWaiting, IsSendable, wire, deliver_all}
use avant.Proto.Chunks.{concat_all, feed, feed_delivers}
use avant.Session.{Session, LuaVmMessage, client_package}
use avant.Stream.{
  max_packsize, max_recv_buffer, int32_max, parse_step, on_recv_package, on_process_connection,
}
use avant.Stream.Reader.{stream_reader}

module _ {P : Type 0} where
  -- the message in which the session `s` hands the package to the other thread
  abbrev pub message_of : Session P → P → LuaVmMessage P
  message_of s p = record { gid = s.gid; workeridx = s.worker_idx; inner = client_package p }

  pub deliver_all-outbox :
      (s : Session P) (ps : List P)
      → deliver_all on_recv_package s ps ≡ record s { outbox = s.outbox ++ map (message_of s) ps }
  unfolding on_recv_package
  deliver_all-outbox s [] = ap (λ o. record s { outbox = o }) (sym (append-nil s.outbox))
  deliver_all-outbox s (p ∷ ps) =
      deliver_all-outbox (on_recv_package s p) ps
      ∙ ap (λ o. record s { outbox = o })
          (append_assoc s.outbox (message_of s p ∷ []) (map (message_of s) ps))

  -- below the limit of the receive buffer an event runs the loop, and its count does not stop it
  runs :
      (parse : Bytes → Option P) (b : VecStrBuffer) (s : Session P)
      → size b < 8 + max_packsize + 10240
      → (on_process_connection parse b s ≡ loop (parse_step parse) int32_max b s)
        × (size b ≤ int32_max)
  unfolding on_process_connection
  runs parse b s h = (under (le→ltb max_recv_buffer (size b) (omega arith)), omega arith)
    where
      under :
          avant.Base.ltb max_recv_buffer (size b) ≡ avant.Base.false
          → on_process_connection parse b s ≡ loop (parse_step parse) int32_max b s
      under e = ground arith

  module _ (serialize : P → Option Bytes) (parse : Bytes → Option P)
      (codec : IsCodec serialize parse) where
    -- A client sends packages, each of at most 10240 bytes and none of them empty, and then `rest`,
    -- the beginning of a further package. However the network cuts the bytes into reads of at most
    -- 10240 bytes, after the last read event the other thread has been handed every package, once
    -- and in order, under the gid and the worker of the connection; the receive buffer holds
    -- exactly `rest`, and nothing else of the session has changed.
    pub stream_delivery :
        (chunks : List Bytes) (ps : List P) (rest : Bytes) (b : VecStrBuffer) (s : Session P)
        → All (λ c. length c ≤ 10240) chunks
        → All (IsSendable serialize max_packsize) ps
        → IsWaiting max_packsize b.m_data
        → IsWaiting max_packsize rest
        → b.m_data ++ concat_all chunks ≡ wire serialize ps ++ rest
        → ((feed (on_process_connection parse) chunks b s).0.m_data ≡ rest)
          × ((feed (on_process_connection parse) chunks b s).1
              ≡ record s { outbox = s.outbox ++ map (message_of s) ps })
    stream_delivery chunks ps rest b s hc ok hb hr e =
        let got =
          feed_delivers serialize max_packsize 10240 (omega arith) parse codec on_recv_package
            (parse_step parse) (stream_reader parse) (on_process_connection parse) (λ _. int32_max)
            (runs parse) chunks ps rest b s hc ok hb hr e in
        (got.0, got.1 ∙ deliver_all-outbox s ps)
