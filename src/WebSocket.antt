-- ===== src/WebSocket.antt =====
-- websocket.h and websocket.cpp: the state of one connection, and what its socket may answer.
pub mod Detect
pub mod Frame
pub mod Output
pub mod Handshake
pub mod Input
use support_proxy.Base.{ℕ, ◌*◌, ◌^◌, Bool, List, Option, none, some}

abbrev pub u64_mod : ℕ
u64_mod = 2 ^ 64

abbrev pub ws_default_max_message : ℕ
ws_default_max_message = 256 * 1024

abbrev pub ws_max_tx_queue : ℕ
ws_max_tx_queue = 1024 * 1024

abbrev pub ws_read_chunk : ℕ
ws_read_chunk = 16384

-- `fd` is `none` for -1, and `ssl` says whether the pointer is set.
pub record WebSocket : Type 0 where
  pub fd : Option ℕ
  pub is_ssl : Bool
  pub ssl_handshake_complete : Bool
  pub ssl : Bool
  pub done_headers : Bool
  pub sent_close : Bool
  pub max_message : ℕ
  pub rx : List ℕ
  pub msg : List ℕ
  pub msg_taken : ℕ
  pub in_fragment : Bool
  pub tx : List ℕ
  pub tx_sent : ℕ
  pub tls_tx : List ℕ
  pub req_target : List ℕ
  pub handshake_buf : List ℕ
  pub handshake_len : ℕ
  pub handshake_sent : ℕ

-- What ::send or SSL_write answers: a count, EAGAIN or SSL_ERROR_WANT_*, or another error.
pub data SendResult : Type 0 where
  wrote : ℕ → SendResult
  send_again send_failed : SendResult

-- One call: the answer to the bytes that are offered. After the calls of a list the socket is full.
abbrev pub SendCall : Type 0
SendCall = List ℕ → SendResult

-- What ::recv or SSL_read answers.
pub data RecvResult : Type 0 where
  got : List ℕ → RecvResult
  recv_again recv_eof recv_failed : RecvResult

-- What SSL_accept answers.
pub data AcceptResult : Type 0 where
  accepted accept_again accept_failed : AcceptResult
