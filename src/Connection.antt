-- ===== src/Connection.antt =====
-- src/connection/connection.cpp: the object that a pool hands out for a socket, less its buffers of
-- traffic samples, which nothing of the protocol reads. The context and the socket are named by the
-- calls made on them.
use avant.Base.{ℕ, ℤ, negsuc, Bool, true, false, List, [], ◌∷◌, ◌++◌, if◌then◌else◌}
use avant.Buffer.{VecStrBuffer}

-- what on_release calls
pub data Call : Type 0 where
  ctx_on_close : ℕ → Call
  -- the descriptor that the socket holds
  socket_close : ℤ → Call

pub record Connection : Type 0 where
  pub fd : ℤ
  pub gid : ℕ
  pub recv_buffer : VecStrBuffer
  pub send_buffer : VecStrBuffer
  pub has_ctx : Bool
  -- app_layer_notified of the context
  pub app_layer_notified : Bool
  -- m_sockfd of the socket, and whether m_ssl_instance is set
  pub socket_fd : ℤ
  pub has_ssl : Bool
  pub closed_flag : Bool
  pub is_close : Bool
  pub is_ready : Bool
  pub calls : List Call

unfoldable pub on_alloc : ℤ → ℕ → Connection → Connection
on_alloc fd gid c = record c {
  recv_buffer = record { m_data = [] };
  send_buffer = record { m_data = [] };
  fd = fd;
  gid = gid;
  closed_flag = false;
  is_close = false;
  is_ready = false;
}

-- The context is told first, while the connection still has its gid and its buffers.
unfoldable pub on_release : Connection → Connection
on_release c = record c {
  recv_buffer = record { m_data = [] };
  send_buffer = record { m_data = [] };
  calls =
      c.calls
      ++ ((if c.has_ctx then ctx_on_close c.gid ∷ [] else []) ++ (socket_close c.socket_fd ∷ []));
  socket_fd = negsuc 0;
  has_ssl = false;
  closed_flag = true;
  fd = negsuc 0;
  gid = 0;
  is_close = false;
  is_ready = false;
}
