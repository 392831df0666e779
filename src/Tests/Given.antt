-- ===== src/Tests/Given.antt =====
-- What the servers of the tests are given: room for two connections and five requests, and requests
-- without header fields and bodies.
use ats_fastcgi.Common.{
  Option, fault, ok, Outcome, some, decimal_before, ap, inl, arith, ℕ, zero, suc, ◌≡◌, refl, sym,
  ◌∙◌, [], ◌∷◌, none, false, Bytes, codes, pos, ltb, if◌then◌else◌,
}
use ats_fastcgi.Client.Working.{decimal_address-Works}
use ats_fastcgi.Config.Settings.{FcgiPluginConfig, default_config}
use ats_fastcgi.Response.{Mime, parse_error}
use ats_fastcgi.Headers.{Transaction}
use ats_fastcgi.Connection.{ServerConnection, FcgiRequest, new_connection, new_client}
use ats_fastcgi.Server.{Server}
use ats_fastcgi.Intercept.{Environment, Works}

abbrev pub nul_block : ℕ → Bytes
nul_block zero = []
nul_block (suc n) = 0 ∷ nul_block n

-- Blocks are cut at 400 bytes, which is more than the tests write, to keep them short.
abbrev pub small_block : ℕ → Bytes
small_block n = nul_block (if ltb n 400 then n else 400)

-- A parser that refuses every header.
abbrev pub no_mime : Mime
no_mime = record {
  parse = λ text. parse_error;
  print = λ text. [];
  is_initialized = λ text. false;
  status = λ text. none;
  http_version_1_1 = codes "HTTP/1.1";
}

abbrev pub given_config : FcgiPluginConfig
given_config = record default_config { max_connections = pos 12; request_queue_size = pos 5 }

abbrev pub get_page : Transaction
get_page = record {
  fields = none;
  path = codes "a.php";
  query = [];
  method = codes "GET";
  content_length = none;
  content_type = none;
}

abbrev pub given : Environment
given = record {
  ts_malloc = small_block;
  mime = no_mime;
  config = given_config;
  transactions = λ i. get_page;
}

-- The tests' configurations differ in numbers only.
pub get_pages-Works :
    (env : Environment)
    → env.config.document_root ≡ some (codes "/var/www/html/")
    → env.config.html ≡ some (codes "index.php")
    → env.config.server_ip ≡ some (codes "127.0.0.1")
    → env.config.server_port ≡ some (codes "60000")
    → ((i : ℕ) → env.transactions i ≡ get_page)
    → Works env
unfolding decimal_before
get_pages-Works env root html ip port pages =
    decimal_address-Works env (codes "/var/www/html/") (codes "index.php") 127 0 0 1 60000 root html
      ip port (omega arith) (omega arith) (omega arith) (omega arith) (omega arith)
      (λ i. inl (λ e. let get = sym (ap (λ t. t.method) (pages i)) ∙ e in cc))

pub given-Works : Works given
given-Works = get_pages-Works given refl refl refl refl (λ i. refl)

-- The server after calls that end well
abbrev pub result : Server → Outcome Server → Server
result s (ok s') = s'
result s fault = s

abbrev pub connection_of : Option ServerConnection → ServerConnection
connection_of (some conn) = conn
connection_of none = new_connection 0

abbrev pub request_of : Option FcgiRequest → FcgiRequest
request_of (some r) = r
request_of none = record {
  decoder = new_client;
  client = record { request_id = 0; request_headers = []; buff = []; p_buff_inc = 0 };
}
