-- ===== src/Http.antt =====
-- src/connection/http_ctx.cpp and .h: the context of an HTTP connection, and of src/app/http_app.cpp
-- the functions that the parser calls on a body. The requests' bytes go through llhttp, a parameter.
pub mod Parser
pub mod Site
pub mod Event
pub mod Size
pub mod Steps
pub mod Bounded
pub mod Body
pub mod Span
pub mod Request
pub mod Headers
pub mod Later
pub mod Wait
pub mod Outcome
pub mod Reuse
pub mod Write
pub mod Read
pub mod Answer
pub mod Serve
mod Tests
use avant.Base.{ℕ, ℤ, Bool, Option, List, Bytes}
use avant.Base.Map.{Map}
use avant.Connection.{Connection}
use avant.Session.{Interest}

-- The closures that http_app stores in a context: process_connection's destory_callback and
-- process_callback, and the write_end_callback of a file and of a folder.
pub data Callback : Type 0 where
  destory_response process_request write_file write_folder : Callback

-- the context's calls of its worker, whose epoller gets a descriptor and what to wait for
pub data WorkerCall : Type 0 where
  mark_delete_timeout_timer : ℕ → WorkerCall
  epoller_mod : ℤ → Interest → WorkerCall
  call_close_client_fd : ℤ → WorkerCall

pub record HttpCtx : Type 0 where
  -- conn_ptr and worker_ptr are set
  pub attached : Bool
  pub conn : Connection
  pub ssl_accepted : Bool
  pub url : Bytes
  pub method : Bytes
  pub protocol : Bytes
  pub version : Bytes
  pub headers : Map Bytes (List Bytes)
  pub head_field_tmp : Bytes
  pub head_value_tmp : Bytes
  pub process_callback : Option Callback
  pub write_end_callback : Option Callback
  pub destory_callback : Option Callback
  -- what the application hangs on the context
  pub ptr : Option ℕ
  pub keep_alive : Bool
  -- http_parser_obj: the bytes that it was given since llhttp_init
  pub parsed : Bytes
  pub recv_end : Bool
  pub process_end : Bool
  pub response_end : Bool
  pub everything_end : Bool
  pub recv_body_size : ℕ
  -- the calls of the worker and what the socket has taken, oldest first
  pub worker_calls : List WorkerCall
  pub wire : Bytes
