-- ===== src/Config/Keys.antt =====
-- The names of src/fcgi_config.cc: `FcgiConfigKey`, `FcgiParamKey`, and the functions that find a key.
use ats_fastcgi.Common.{
  Option, none, some, List, [], ◌∷◌, Bytes, codes, length, equal, strncmp_eq, if◌then◌else◌,
  Outcome, ok, fault,
}

-- `TSRecordDataType`, without `TS_RECORDDATATYPE_NULL`.
pub data DataType : Type 0 where
  type_int type_string : DataType

pub data ConfigKey : Type 0 where
  fcgi_enabled fcgi_hostname fcgi_server_ip fcgi_server_port fcgi_include : ConfigKey
  fcgi_document_root fcgi_html fcgi_min_connections fcgi_max_connections : ConfigKey
  fcgi_max_requests fcgi_request_queue_size : ConfigKey

pub data ParamKey : Type 0 where
  gateway_interface server_software query_string request_method content_type : ParamKey
  content_length script_filename script_name request_uri document_uri : ParamKey
  document_root server_protocol remote_addr remote_port server_addr : ParamKey
  server_port server_name : ParamKey

-- `str_to_datatype`; the null pointer and the empty text give `TS_RECORDDATATYPE_NULL`.
unfoldable pub str_to_datatype : Option Bytes → Option DataType
unfolding equal
str_to_datatype none = none
str_to_datatype (some []) = none
str_to_datatype (some (c ∷ cs)) =
    if equal (c ∷ cs) (codes "INT")
    then some type_int
    else if equal (c ∷ cs) (codes "STRING")
    then some type_string
    else none

-- The text that a key is compared with.
unfoldable pub config_text : ConfigKey → Bytes
config_text fcgi_enabled = codes "proxy.config.http.fcgi.enabled"
config_text fcgi_hostname = codes "proxy.config.http.fcgi.host.hostname"
config_text fcgi_server_ip = codes "proxy.config.http.fcgi.host.server_ip"
config_text fcgi_server_port = codes "proxy.config.http.fcgi.host.server_port"
config_text fcgi_include = codes "proxy.config.http.fcgi.host.include"
config_text fcgi_document_root = codes "proxy.config.http.fcgi.host.document_root"
config_text fcgi_html = codes "proxy.config.http.fcgi.host.html"
config_text fcgi_min_connections = codes "proxy.config.http.fcgi.host.min_connections"
config_text fcgi_max_connections = codes "proxy.config.http.fcgi.host.max_connections"
config_text fcgi_max_requests = codes "proxy.config.http.fcgi.host.max_requests"
config_text fcgi_request_queue_size = codes "proxy.config.http.fcgi.host.request_queue_size"

unfoldable pub config_type : ConfigKey → DataType
config_type fcgi_enabled = type_int
config_type fcgi_hostname = type_string
config_type fcgi_server_ip = type_string
config_type fcgi_server_port = type_string
config_type fcgi_include = type_string
config_type fcgi_document_root = type_string
config_type fcgi_html = type_string
config_type fcgi_min_connections = type_int
config_type fcgi_max_connections = type_int
config_type fcgi_max_requests = type_int
config_type fcgi_request_queue_size = type_int

-- The keys in the order of the tests.
abbrev pub config_keys : List ConfigKey
config_keys =
    fcgi_enabled ∷ fcgi_hostname ∷ fcgi_server_ip ∷ fcgi_server_port ∷ fcgi_include
    ∷ fcgi_document_root ∷ fcgi_html ∷ fcgi_min_connections ∷ fcgi_max_connections
    ∷ fcgi_max_requests ∷ fcgi_request_queue_size ∷ []

unfoldable pub param_text : ParamKey → Bytes
param_text gateway_interface = codes "GATEWAY_INTERFACE"
param_text server_software = codes "SERVER_SOFTWARE"
param_text query_string = codes "QUERY_STRING"
param_text request_method = codes "REQUEST_METHOD"
param_text content_type = codes "CONTENT_TYPE"
param_text content_length = codes "CONTENT_LENGTH"
param_text script_filename = codes "SCRIPT_FILENAME"
param_text script_name = codes "SCRIPT_NAME"
param_text request_uri = codes "REQUEST_URI"
param_text document_uri = codes "DOCUMENT_URI"
param_text document_root = codes "DOCUMENT_ROOT"
param_text server_protocol = codes "SERVER_PROTOCOL"
param_text remote_addr = codes "REMOTE_ADDR"
param_text remote_port = codes "REMOTE_PORT"
param_text server_addr = codes "SERVER_ADDR"
param_text server_port = codes "SERVER_PORT"
param_text server_name = codes "SERVER_NAME"

abbrev pub param_type : ParamKey → DataType
param_type k = type_string

abbrev pub param_keys : List ParamKey
param_keys =
    gateway_interface ∷ server_software ∷ query_string ∷ request_method ∷ content_type
    ∷ content_length ∷ script_filename ∷ script_name ∷ request_uri ∷ document_uri ∷ document_root
    ∷ server_protocol ∷ remote_addr ∷ remote_port ∷ server_addr ∷ server_port ∷ server_name ∷ []

-- The tests `!strncmp(name, "…", length)` in their order, with the length of `name`.
unfoldable pub find_key : {K : Type 0} → (K → Bytes) → List K → Bytes → Option K
unfolding strncmp_eq
find_key text [] name = none
find_key text (k ∷ ks) name =
    if strncmp_eq (length name) name (text k) then some k else find_key text ks name

-- The null pointer goes to `strlen`.
find_or_fault : {K : Type 0} → (K → Bytes) → List K → Option Bytes → Outcome (Option K)
unfolding find_key
find_or_fault text ks none = fault
find_or_fault text ks (some name) = ok (find_key text ks name)

-- `fcgiHttpTxnConfigFind` with the length -1; the type of the key is `config_type`.
unfoldable pub fcgi_http_txn_config_find : Option Bytes → Outcome (Option ConfigKey)
unfolding find_or_fault config_text
fcgi_http_txn_config_find name = find_or_fault config_text config_keys name

-- `fcgiParamConfigFind` with the length -1; every key is a text.
unfoldable pub fcgi_param_config_find : Option Bytes → Outcome (Option ParamKey)
unfolding find_or_fault param_text
fcgi_param_config_find name = find_or_fault param_text param_keys name
