-- ===== src/StreamCtx/Tests.antt =====
-- A connection with three bytes to send.
use avant.Base.{◌≡◌, refl, ◌⊎◌, pos, negsuc, Bool, true, false, ◌||◌, [], ◌∷◌, ◌++◌, arith}
use avant.Session.{re, rwe}
use avant.StreamCtx.{
  Link, sent, send_blocked, received, recv_interrupted, recv_closed, try_send_flush, send_data,
  read_event,
}
use avant.StreamCtx.Flush.{IsFlushed, outgoing, try_send_flush-IsFlushed, send_data-outgoing}
use avant.StreamCtx.Read.{read_event_drops_last}

abbrev link : Link
link = record {
  is_close = false;
  closed_flag = false;
  is_ready = true;
  interest = re;
  recv_buffer = record { m_data = 4 ∷ [] };
  send_buffer = record { m_data = 1 ∷ 2 ∷ 3 ∷ [] };
  wire = [];
}

try_send_flush-IsFlushed_example : IsFlushed link (try_send_flush (sent 2 ∷ send_blocked ∷ []) link)
try_send_flush-IsFlushed_example = try_send_flush-IsFlushed (sent 2 ∷ send_blocked ∷ []) link

send_data-outgoing_example :
    (((send_data (sent 4 ∷ []) true (8 ∷ []) link).0 ≡ pos 0)
      × (outgoing (send_data (sent 4 ∷ []) true (8 ∷ []) link).1 ≡ outgoing link ++ (8 ∷ []))
      × ((false || false) ≡ false)
      × (link.is_ready ≡ true))
    ⊎ ((send_data (sent 4 ∷ []) true (8 ∷ []) link ≡ (negsuc 0, link)) × ((false || false) ≡ true))
    ⊎ ((send_data (sent 4 ∷ []) true (8 ∷ []) link ≡ (negsuc 1, link))
        × ((false || false) ≡ false)
        × (link.is_ready ≡ false))
send_data-outgoing_example = send_data-outgoing (sent 4 ∷ []) true (8 ∷ []) link

-- an application that takes whatever is received
abbrev take_in : Link → Link × Bool
take_in l = (record l { recv_buffer = record { m_data = [] } }, false)

read_event_drops_last_example :
    read_event take_in
      ((received (5 ∷ 6 ∷ []) ∷ recv_interrupted ∷ received (7 ∷ []) ∷ []) ++ (recv_closed ∷ []))
      link
    ≡ (record link { is_close = true; interest = rwe }, true)
read_event_drops_last_example =
    read_event_drops_last take_in
      (received (5 ∷ 6 ∷ []) ∷ recv_interrupted ∷ received (7 ∷ []) ∷ []) [] link refl (omega arith)
