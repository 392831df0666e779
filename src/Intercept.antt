-- ===== src/Intercept.antt =====
-- src/server_intercept.h: `ServerIntercept`; what the plugin asks of Traffic Server, and what it is
-- given: the configuration and the transactions.
use ats_fastcgi.Common.{ℕ, ◌≢◌, Bool, false, [], Bytes, Outcome, fault}
use ats_fastcgi.Config.Settings.{FcgiPluginConfig}
use ats_fastcgi.Headers.{Transaction}
use ats_fastcgi.Response.{Mime}
use ats_fastcgi.Request.{ClientState}
use ats_fastcgi.Client.{new_client_request}
use ats_fastcgi.Connection.Address.{Address, server_address}

-- What the plugin asks Traffic Server to do.
pub data Effect : Type 0 where
  -- `transaction.addPlugin(intercept); transaction.resume();`
  start_intercept : ℕ → Effect
  -- `transaction.resume()` of a request that the plugin leaves alone
  resume : ℕ → Effect
  -- `TSNetConnect` for a connection
  net_connect : ℕ → Address → Effect
  -- `TSVConnClose`, `TSVConnAbort` and `TSVConnRead`
  close : ℕ → Effect
  abort : ℕ → Effect
  start_read : ℕ → Effect
  -- `TSVConnWrite`, `TSIOBufferWrite` and `TSVIOReenable`
  start_write : ℕ → Effect
  write : ℕ → Bytes → Effect
  reenable : ℕ → Effect
  -- `produce` and `setOutputComplete` of an intercept
  produce : ℕ → Bytes → Effect
  set_output_complete : ℕ → Effect
  -- `setStatusCode` and `error` of an intercept's transaction
  set_status_code : ℕ → ℕ → Effect
  fail : ℕ → Effect

-- `ServerIntercept`: what it changes.
pub record Intercept : Type 0 where
  pub request_id : ℕ
  pub data_buffered : Bool
  pub client_header : Bytes
  pub client_body : Bytes
  pub input_complete : Bool
  pub output_complete : Bool

-- `ServerIntercept(…)`; `_request_id` has the value that the memory had.
abbrev pub new_intercept : ℕ → Intercept
new_intercept request_id = record {
  request_id = request_id;
  data_buffered = false;
  client_header = [];
  client_body = [];
  input_complete = false;
  output_complete = false;
}

-- What stays the same while the server runs.
pub record Environment : Type 0 where
  pub ts_malloc : ℕ → Bytes
  pub mime : Mime
  -- `InterceptGlobal::plugin_data->getGlobalConfigObj()`
  pub config : FcgiPluginConfig
  -- the transaction of an intercept
  pub transactions : ℕ → Transaction

-- `new FCGIClientRequest(request_id, intercept->_txn)`
unfoldable pub client_request : Environment → ℕ → ℕ → Outcome ClientState
unfolding new_client_request
client_request env request_id i =
    new_client_request env.ts_malloc env.config request_id (env.transactions i)

-- The address of the application can be read, and every client request can be made.
abbrev pub Works : Environment → Type 0
Works env =
    (server_address env.config ≢ fault)
    × ((request_id i : ℕ) → client_request env request_id i ≢ fault)
