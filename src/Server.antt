-- ===== src/Server.antt =====
-- pkg/server, pkg/utils: the HTTP API. What a handler does through gin, a library, is the value
-- that it returns: a response, or the pools that `AuthRequired` sets for the handlers behind it.
pub mod Clientset
pub mod Access
pub mod Acquire
pub mod Lookup
pub mod Routes
pub mod Setup
pub mod Started
pub mod Tokens
pub mod Released
pub mod Acquired
pub mod Served
pub mod Handed
pub mod Choice
pub mod Best
pub mod Races
use ofcir.Prelude.{ℕ, String, List, Error}

-- A text, `gin.H` with the field `msg`, or `gin.H` with the fields listed. A format string stands
-- with its arguments.
pub data Body : Type 0 where
  text : String → List String → Body
  msg : String → List String → Body
  msg_of : Error → Body
  fields : List (String × String) → Body

pub record Response : Type 0 where
  pub status : ℕ
  pub body : Body

abbrev pub status_ok : ℕ
status_ok = 200

abbrev pub status_bad_request : ℕ
status_bad_request = 400

abbrev pub status_unauthorized : ℕ
status_unauthorized = 401

abbrev pub status_not_found : ℕ
status_not_found = 404

abbrev pub status_internal_server_error : ℕ
status_internal_server_error = 500

abbrev pub status_service_unavailable : ℕ
status_service_unavailable = 503
