-- ===== src/Config/Rendered.antt =====
-- A setting that is written as a line is read back from it; lines that lack a name or a type.
use ats_fastcgi.Common.{
  ℕ, ◌≡◌, refl, true, none, some, ◌∷◌, ◌++◌, Bytes, codes, ok, fault, all, is_word_char, is_space,
  is_blank, arith,
}
use ats_fastcgi.Config.Keys.{
  fcgi_enabled, fcgi_hostname, fcgi_server_ip, fcgi_server_port, fcgi_include, fcgi_document_root,
  fcgi_html, fcgi_min_connections, fcgi_max_connections, fcgi_max_requests, fcgi_request_queue_size,
  gateway_interface, server_software, query_string, request_method, content_type, content_length,
  script_filename, script_name, request_uri, document_uri, document_root, server_protocol,
  remote_addr, remote_port, server_addr, server_port, server_name,
}
use ats_fastcgi.Config.Keys.{
  ConfigKey, ParamKey, config_text, config_type, param_text, param_type, str_to_datatype,
  fcgi_http_txn_config_find, fcgi_param_config_find,
}
use ats_fastcgi.Config.Line.{refused, bad_type, refused, setting, config_line, param_line}
use ats_fastcgi.Config.Matching.{config_find-text, param_find-text}
use ats_fastcgi.Config.Layout.{Layout, IsLayout, IsGap, IsWord, IsValue, render}
use ats_fastcgi.Config.Words.{parse_line-render, parse_line-untyped, parse_line-no_name}

config_text-IsWord : (k : ConfigKey) → IsWord (config_text k)
unfolding config_text
config_text-IsWord fcgi_enabled = (refl, λ e. cc)
config_text-IsWord fcgi_hostname = (refl, λ e. cc)
config_text-IsWord fcgi_server_ip = (refl, λ e. cc)
config_text-IsWord fcgi_server_port = (refl, λ e. cc)
config_text-IsWord fcgi_include = (refl, λ e. cc)
config_text-IsWord fcgi_document_root = (refl, λ e. cc)
config_text-IsWord fcgi_html = (refl, λ e. cc)
config_text-IsWord fcgi_min_connections = (refl, λ e. cc)
config_text-IsWord fcgi_max_connections = (refl, λ e. cc)
config_text-IsWord fcgi_max_requests = (refl, λ e. cc)
config_text-IsWord fcgi_request_queue_size = (refl, λ e. cc)

param_text-IsWord : (k : ParamKey) → IsWord (param_text k)
unfolding param_text
param_text-IsWord gateway_interface = (refl, λ e. cc)
param_text-IsWord server_software = (refl, λ e. cc)
param_text-IsWord query_string = (refl, λ e. cc)
param_text-IsWord request_method = (refl, λ e. cc)
param_text-IsWord content_type = (refl, λ e. cc)
param_text-IsWord content_length = (refl, λ e. cc)
param_text-IsWord script_filename = (refl, λ e. cc)
param_text-IsWord script_name = (refl, λ e. cc)
param_text-IsWord request_uri = (refl, λ e. cc)
param_text-IsWord document_uri = (refl, λ e. cc)
param_text-IsWord document_root = (refl, λ e. cc)
param_text-IsWord server_protocol = (refl, λ e. cc)
param_text-IsWord remote_addr = (refl, λ e. cc)
param_text-IsWord remote_port = (refl, λ e. cc)
param_text-IsWord server_addr = (refl, λ e. cc)
param_text-IsWord server_port = (refl, λ e. cc)
param_text-IsWord server_name = (refl, λ e. cc)

-- A line `CONFIG`, a key's name, its type and a value, with blanks between the words and any white space
-- around them, sets that key to that value; the value begins and ends with no white space and has no
-- NUL.
pub config_line-render :
    (k : ConfigKey) (v : Bytes) (l : Layout)
    → IsValue v
    → IsLayout l
    → config_line (render (codes "CONFIG") (config_text k) (config_type k) v l) ≡ ok (setting k v)
unfolding config_line
config_line-render k v l value lay =
    parse_line-render (codes "CONFIG") fcgi_http_txn_config_find config_type b'C' (codes "ONFIG")
      (config_text k) v k l refl (λ e. absurd (omega arith)) refl (config_find-text k)
      (refl, λ e. cc) (config_text-IsWord k) value lay

-- A line of the parameter file, `fastcgi_param`, a key's name, `STRING` and a value, with blanks between
-- the words and any white space around them, sets that key to that value; the value begins and ends with
-- no white space and has no NUL.
pub param_line-render :
    (k : ParamKey) (v : Bytes) (l : Layout)
    → IsValue v
    → IsLayout l
    → param_line (render (codes "fastcgi_param") (param_text k) (param_type k) v l)
      ≡ ok (setting k v)
unfolding param_line
param_line-render k v l value lay =
    parse_line-render (codes "fastcgi_param") fcgi_param_config_find param_type b'f'
      (codes "astcgi_param") (param_text k) v k l refl (λ e. absurd (omega arith)) refl
      (param_find-text k) (refl, λ e. cc) (param_text-IsWord k) value lay

-- A line whose only word begins with `CONFIG`, among white space before it and blanks after it, makes
-- `initConfig` give a null pointer to `strlen`.
pub config_line-no_name :
    (lead tail blanks : Bytes)
    → all is_space lead ≡ true
    → all is_word_char tail ≡ true
    → all is_blank blanks ≡ true
    → config_line (lead ++ ((codes "CONFIG" ++ tail) ++ blanks)) ≡ fault
unfolding config_line fcgi_http_txn_config_find
config_line-no_name lead tail blanks h w b =
    parse_line-no_name (codes "CONFIG") fcgi_http_txn_config_find config_type b'C' (codes "ONFIG")
      lead tail blanks refl (λ e. absurd (omega arith)) refl h w b refl

-- A line of the parameter file that has a key's name and one more word, other than `INT` and `STRING`,
-- is refused: `initFcgiParam` wants a type before the value.
pub param_line-untyped :
    (k : ParamKey) (lead g1 g2 word : Bytes) (b d : ℕ)
    → all is_space lead ≡ true
    → IsGap (b ∷ g1)
    → IsGap (d ∷ g2)
    → IsWord word
    → str_to_datatype (some word) ≡ none
    → param_line
        (lead ++ (codes "fastcgi_param" ++ ((b ∷ g1) ++ (param_text k ++ ((d ∷ g2) ++ word)))))
      ≡ ok (refused bad_type)
unfolding param_line
param_line-untyped k lead g1 g2 word b d h n1 n2 w u =
    parse_line-untyped (codes "fastcgi_param") fcgi_param_config_find param_type b'f'
      (codes "astcgi_param") (param_text k) lead g1 g2 word b d k refl (λ e. absurd (omega arith))
      refl (param_find-text k) (refl, λ e. cc) (param_text-IsWord k) h n1 n2 w u
