-- ===== src/Http/Site.antt =====
-- What surrounds an HTTP context: the application, llhttp, the socket and the worker of
-- src/connection/http_ctx.cpp, and an event with what the socket then answers.
use avant.Base.{ℕ, ℤ, Bool, true, List, [], ◌∷◌, ◌++◌, Bytes, leb}
use avant.Buffer.{size}
use avant.Connection.{Connection}
use avant.Session.{rwe}
use avant.Http.{HttpCtx, Callback, WorkerCall, epoller_mod}
use avant.Http.Parser.{ParserEvent}

-- What surrounds a context. A Boolean result is whether an exception came out.
pub record Site : Type 0 where
  pub use_ssl : Bool
  -- http_app::on_new_connection, whose flag is is_keep_alive_call
  pub hook_new_connection : Bool → HttpCtx → HttpCtx × Bool
  pub call : Callback → HttpCtx → HttpCtx × Bool
  -- llhttp: the callbacks for more bytes behind those it had, and whether it accepts them
  pub parse : Bytes → Bytes → List ParserEvent × Bool

-- SSL_accept: 1; 0; SSL_ERROR_WANT_READ; SSL_ERROR_WANT_WRITE; any other error
pub data Handshake : Type 0 where
  accepted incomplete want_read want_write handshake_failed : Handshake

-- recv: bytes, none at the end of the stream; EAGAIN or EWOULDBLOCK; EINTR; any other failure
pub data RecvAnswer : Type 0 where
  received : Bytes → RecvAnswer
  recv_blocked recv_interrupted recv_failed : RecvAnswer

-- send: a count; EAGAIN or EWOULDBLOCK; EINTR; any other failure
pub data SendAnswer : Type 0 where
  sent : ℕ → SendAnswer
  send_blocked send_interrupted send_failed : SendAnswer

-- an event of the poller, and what the socket then answers
pub record IoEvent : Type 0 where
  pub error : Bool
  pub readable : Bool
  pub writable : Bool
  pub handshake : Handshake
  pub recvs : List RecvAnswer
  pub sends : List SendAnswer

abbrev pub with_conn : Connection → HttpCtx → HttpCtx
with_conn conn c = record c { conn = conn }

abbrev pub to_worker : WorkerCall → HttpCtx → HttpCtx
to_worker call c = record c { worker_calls = c.worker_calls ++ (call ∷ []) }

-- set_is_close(true) and epoller.mod(fd, RWE)
abbrev pub to_close : ℤ → HttpCtx → HttpCtx
to_close fd c = to_worker (epoller_mod fd rwe) (with_conn (record (c.conn) { is_close = true }) c)

abbrev pub sends_nothing : HttpCtx → Bool
sends_nothing c = leb (size c.conn.send_buffer) 0
