-- ===== src/Connection.antt =====
-- src/server_connection.h and .cc: `ServerConnection` and the part of `InterceptIOChannel` that the
-- server looks at. A connection is a cell of a heap; `none` is memory that was freed, or never used.
pub mod Heap
pub mod Address
use ats_fastcgi.Common.{
  ℕ, ◌+◌, ◌%◌, ◌^◌, Bool, true, false, ◌||◌, Option, none, some, ◌==◌, if◌then◌else◌, Outcome, ok,
  ◌>>=◌, fault,
}
use ats_fastcgi.Response.{Decoder}
use ats_fastcgi.Request.{ClientState}

pub data ConnState : Type 0 where
  initiated ready inuse complete closed : ConnState

unfoldable pub is_ready : ConnState → Bool
is_ready ready = true
is_ready _ = false

unfoldable pub is_complete : ConnState → Bool
is_complete complete = true
is_complete _ = false

-- A `FCGIClientRequest`: what its decoder holds, and its `FCGIClientState`.
pub record FcgiRequest : Type 0 where
  pub decoder : Decoder
  pub client : ClientState

-- `read_enable` is `writeio.readEnable`; `reading` and `writing` are that `readio.iobuf` and
-- `writeio.iobuf` are not null, `write_vio` that `writeio.vio` is not; `fcgi_request` is
-- `_fcgiRequest`, `none` for a null pointer; `connected` is that `vc_` is not null.
pub record ServerConnection : Type 0 where
  pub state : ConnState
  pub request_id : ℕ
  pub max_requests : ℕ
  pub req_count : ℕ
  pub read_enable : Bool
  pub reading : Bool
  pub writing : Bool
  pub write_vio : Bool
  pub connected : Bool
  pub fcgi_request : Option FcgiRequest

-- `ServerConnection(…)`
abbrev pub new_connection : ℕ → ServerConnection
new_connection max_requests = record {
  state = initiated;
  request_id = 0;
  max_requests = max_requests;
  req_count = 0;
  read_enable = false;
  reading = false;
  writing = false;
  write_vio = false;
  connected = false;
  fcgi_request = none;
}

abbrev pub new_client : Decoder
new_client = record { first_chunk = true; header_record = none }

-- `createFCGIClient` with what `new FCGIClientRequest` makes, and whether it gives the intercept
-- to its transaction and resumes that.
unfoldable pub create_fcgi_client :
    Outcome ClientState → ServerConnection → Outcome (ServerConnection × Bool)
unfolding is_ready is_complete
create_fcgi_client new_request c =
    if is_ready c.state || is_complete c.state
    then (do
      client ← new_request
      ok (
        record c {
          fcgi_request = some (record { decoder = new_client; client = client });
          state = inuse;
          req_count = (c.req_count + 1) % 2 ^ 32;
        },
        true,
      ))
    else ok (c, false)

-- `releaseFCGIClient`
unfoldable pub release_fcgi_client : ServerConnection → ServerConnection
unfolding is_complete
release_fcgi_client c =
    if is_complete c.state then record c { fcgi_request = none; state = ready } else c
