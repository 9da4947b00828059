-- ===== src/Worker/SendTests.antt =====
-- A worker that sends a client's message.
use avant.Base.Map
use avant.Base.{ℕ, ◌≡◌, ℤ, Bool, true, false, List, [], ◌∷◌, arith, map}
use avant.ConnectionMgr.{ConnectionMgr}
use avant.Route.{TunnelEnd}
use avant.TunnelId.{TunnelId}
use avant.Worker.{ForwardMessage, stream_task, client_forward}
use avant.Worker.Send.{send_client_forward_message, forward_tunnel, group_targets}
use avant.Worker.Sent.{reference, send_client_forward_message-reference}
use avant.Worker.Tests.{one_live}

-- the pool, the indices of the clients that got a message, and the tunnel
abbrev Thread : Type 0
Thread = ConnectionMgr × List ℕ × TunnelEnd (ForwardMessage ℕ)

abbrev pool : Thread → ConnectionMgr
pool s = s.0

abbrev note : ℕ → Bool → ℕ → Thread → Thread
note index self message s = (s.0, index ∷ s.1, s.2)

abbrev tunnel_of : Thread → TunnelEnd (ForwardMessage ℕ)
tunnel_of s = s.2

abbrev set_tunnel : TunnelEnd (ForwardMessage ℕ) → Thread → Thread
set_tunnel e s = (s.0, s.1, e)

abbrev keys : Map.Map ℤ (List ℕ) → List ℤ
keys m = map (λ (p : ℤ × List ℕ). p.0) m

abbrev four_workers : TunnelId
four_workers = record { m_worker_cnt = 4 }

abbrev thread : Thread
thread = (
  one_live,
  [],
  record { connected = true; send_buffer = []; flushes = 0; write_interest = false },
)

-- gids of workers 1, 2 and 2
abbrev targets : List ℕ
targets = 513 ∷ 514 ∷ 1026 ∷ []

send_client_forward_message-reference_example :
    send_client_forward_message four_workers 1 tunnel_of set_tunnel stream_task pool note keys 513
      targets 77 thread
    ≡ reference 1
        (client_forward stream_task 1 pool note)
        (forward_tunnel four_workers 1 tunnel_of set_tunnel)
        four_workers
        (keys (group_targets targets []))
        513
        targets
        77
        thread
send_client_forward_message-reference_example =
    send_client_forward_message-reference four_workers 1 tunnel_of set_tunnel stream_task pool note
      keys 513 targets 77 thread (ground arith)
