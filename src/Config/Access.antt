-- ===== src/Config/Access.antt =====
-- src/fcgi_config.cc: the getters and setters of `FcgiPluginConfig`. A text that a setter gets is a C
-- string, or `none` for a null pointer.
use ats_fastcgi.Common.{Bool, Option, Bytes, ℤ}
use ats_fastcgi.StringMap.{StringMap}
use ats_fastcgi.Config.Settings.{FcgiPluginConfig}

abbrev pub get_fcgi_enabled_status : FcgiPluginConfig → Bool
get_fcgi_enabled_status c = c.enabled

abbrev pub set_fcgi_enabled_status : Bool → FcgiPluginConfig → FcgiPluginConfig
set_fcgi_enabled_status val c = record c { enabled = val }

-- The assignment `params = params` is of the argument to itself.
abbrev pub set_fcgi_params : StringMap → FcgiPluginConfig → FcgiPluginConfig
set_fcgi_params params c = c

abbrev pub get_fcgi_params : FcgiPluginConfig → StringMap
get_fcgi_params c = c.params

abbrev pub get_hostname : FcgiPluginConfig → Option Bytes
get_hostname c = c.hostname

abbrev pub set_hostname : Option Bytes → FcgiPluginConfig → FcgiPluginConfig
set_hostname v c = record c { hostname = v }

abbrev pub get_server_ip : FcgiPluginConfig → Option Bytes
get_server_ip c = c.server_ip

abbrev pub set_server_ip : Option Bytes → FcgiPluginConfig → FcgiPluginConfig
set_server_ip v c = record c { server_ip = v }

abbrev pub get_server_port : FcgiPluginConfig → Option Bytes
get_server_port c = c.server_port

abbrev pub set_server_port : Option Bytes → FcgiPluginConfig → FcgiPluginConfig
set_server_port v c = record c { server_port = v }

abbrev pub get_include_file_path : FcgiPluginConfig → Option Bytes
get_include_file_path c = c.include_

abbrev pub set_include_file_path : Option Bytes → FcgiPluginConfig → FcgiPluginConfig
set_include_file_path v c = record c { include_ = v }

abbrev pub get_document_root_dir : FcgiPluginConfig → Option Bytes
get_document_root_dir c = c.document_root

abbrev pub set_document_root_dir : Option Bytes → FcgiPluginConfig → FcgiPluginConfig
set_document_root_dir v c = record c { document_root = v }

abbrev pub get_html : FcgiPluginConfig → Option Bytes
get_html c = c.html

abbrev pub set_html : Option Bytes → FcgiPluginConfig → FcgiPluginConfig
set_html v c = record c { html = v }

abbrev pub get_min_conn_length : FcgiPluginConfig → ℤ
get_min_conn_length c = c.min_connections

abbrev pub set_min_conn_length : ℤ → FcgiPluginConfig → FcgiPluginConfig
set_min_conn_length v c = record c { min_connections = v }

abbrev pub get_max_conn_length : FcgiPluginConfig → ℤ
get_max_conn_length c = c.max_connections

abbrev pub set_max_conn_length : ℤ → FcgiPluginConfig → FcgiPluginConfig
set_max_conn_length v c = record c { max_connections = v }

abbrev pub get_max_req_length : FcgiPluginConfig → ℤ
get_max_req_length c = c.max_requests

abbrev pub set_max_req_length : ℤ → FcgiPluginConfig → FcgiPluginConfig
set_max_req_length v c = record c { max_requests = v }

abbrev pub get_request_queue_size : FcgiPluginConfig → ℤ
get_request_queue_size c = c.request_queue_size

abbrev pub set_request_queue_size : ℤ → FcgiPluginConfig → FcgiPluginConfig
set_request_queue_size v c = record c { request_queue_size = v }
