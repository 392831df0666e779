-- ===== src/Config/Settings.antt =====
-- src/fcgi_config.h: `FcgiPluginConfig`; src/fcgi_config.cc: its getters and setters, the defaults, and
-- the two `switch` statements that store a value.
use ats_fastcgi.Common.{
  Bool, true, Option, none, some, [], Bytes, codes, equal, strtoll, ℤ, pos, if◌then◌else◌, Outcome,
  ok, ◌>>=◌,
}
use ats_fastcgi.StringMap.{StringMap, insert}
use ats_fastcgi.Config.Keys

-- `none` is a null pointer. `params` is the map that `FCGIParams` points to.
pub record FcgiPluginConfig : Type 0 where
  pub enabled : Bool
  pub hostname : Option Bytes
  pub server_ip : Option Bytes
  pub server_port : Option Bytes
  pub include_ : Option Bytes
  pub params : StringMap
  pub document_root : Option Bytes
  pub html : Option Bytes
  pub min_connections : ℤ
  pub max_connections : ℤ
  pub max_requests : ℤ
  pub request_queue_size : ℤ

-- The first branch of `initConfig`, which is the one it takes: `plugin_data` is new and not null.
abbrev pub default_config : FcgiPluginConfig
default_config = record {
  enabled = true;
  hostname = some (codes "localhost");
  server_ip = some (codes "127.0.0.1");
  server_port = some (codes "60000");
  include_ = some (codes "fastcgi.config");
  params = [];
  document_root = some (codes "/var/www/html/");
  html = some (codes "index.php");
  min_connections = pos 4;
  max_connections = pos 10;
  max_requests = pos 1000;
  request_queue_size = pos 250;
}

-- `4 == strlen(tok) && 0 == strcmp(tok, "NULL")`
unfoldable pub is_null : Bytes → Bool
unfolding equal
is_null tok = equal tok (codes "NULL")

-- `nullptr`, or `TSstrdup(tok)`
unfoldable pub text_or_null : Bytes → Option Bytes
unfolding is_null
text_or_null tok = if is_null tok then none else some tok

-- The `switch` of `initFcgiParam`: `insert` keeps a value that is there.
unfoldable pub store_param : Keys.ParamKey → Bytes → StringMap → StringMap
unfolding is_null insert Keys.param_text
store_param k tok params = insert (Keys.param_text k) (if is_null tok then [] else tok) params

-- What else the reading does: the parameter file that an include names, and the reports of `TSError`.
module _ {World : Type 0}
    (read_params : Bytes → StringMap × World → Outcome (StringMap × World)) where
  -- The case `fcgiInclude`
  unfoldable pub store_include :
      Option Bytes → FcgiPluginConfig → World → Outcome (FcgiPluginConfig × World)
  store_include none c w = ok (record c { include_ = none }, w)
  store_include (some fn) c w = do
    (params, w') ← read_params fn (c.params, w)
    ok (record c { include_ = some fn; params = params }, w')

  -- The `switch` of `initConfig`: `config->enabled = tok` is true for every pointer that is not null.
  unfoldable pub store :
      Keys.ConfigKey → Bytes → FcgiPluginConfig → World → Outcome (FcgiPluginConfig × World)
  unfolding store_include text_or_null strtoll
  store Keys.fcgi_enabled tok c w = ok (record c { enabled = true }, w)
  store Keys.fcgi_hostname tok c w = ok (record c { hostname = text_or_null tok }, w)
  store Keys.fcgi_server_ip tok c w = ok (record c { server_ip = text_or_null tok }, w)
  store Keys.fcgi_server_port tok c w = ok (record c { server_port = text_or_null tok }, w)
  store Keys.fcgi_include tok c w = store_include (text_or_null tok) c w
  store Keys.fcgi_document_root tok c w = ok (record c { document_root = text_or_null tok }, w)
  store Keys.fcgi_html tok c w = ok (record c { html = text_or_null tok }, w)
  store Keys.fcgi_min_connections tok c w = ok (record c { min_connections = strtoll tok }, w)
  store Keys.fcgi_max_connections tok c w = ok (record c { max_connections = strtoll tok }, w)
  store Keys.fcgi_max_requests tok c w = ok (record c { max_requests = strtoll tok }, w)
  store Keys.fcgi_request_queue_size tok c w = ok (record c { request_queue_size = strtoll tok }, w)
