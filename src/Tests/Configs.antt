-- ===== src/Tests/Configs.antt =====
-- Lines and files of a configuration.
use ats_fastcgi.Common.{
  ◌≡◌, pos, refl, List, [], ◌∷◌, ◌++◌, Bytes, Option, none, some, codes, if◌then◌else◌, equal, true,
  trim_end, strtoll, ok, fault,
}
use ats_fastcgi.StringMap.{StringMap, find}
use ats_fastcgi.Config.Keys.{
  ConfigKey, ParamKey, config_text, config_type, param_text, param_type, request_uri, script_name,
  fcgi_html, fcgi_include, fcgi_enabled, fcgi_max_connections, fcgi_http_txn_config_find,
  fcgi_param_config_find, str_to_datatype,
}
use ats_fastcgi.Config.Line.{setting, refused, bad_type, config_line, param_line}
use ats_fastcgi.Config.Layout.{Layout, IsLayout, IsValue, render}
use ats_fastcgi.Config.Matching.{config_find_iff, param_find_iff}
use ats_fastcgi.Config.Rendered.{
  config_line-render, param_line-render, config_line-no_name, param_line-untyped,
}
use ats_fastcgi.Config.Settings.{FcgiPluginConfig, store}
use ats_fastcgi.Config.Init.{Report, init_fcgi_param, read_config}
use ats_fastcgi.Config.Stored.{Lines, Parameters, read_config-stores}
use ats_fastcgi.Config.Reading.{
  param_file, first_value, init_fcgi_param-find, config_file, read_config-render,
  read_config-enabled,
}

abbrev layout : Layout
layout = record {
  lead = codes "  ";
  after_keyword = codes " ";
  after_name = 9 ∷ 32 ∷ [];
  after_type = codes " ";
  trail = 13 ∷ 10 ∷ [];
}

layout-IsLayout : IsLayout layout
layout-IsLayout = record {
  lead_space = refl;
  keyword_gap = (refl, refl);
  name_gap = (refl, refl);
  type_gap = (refl, refl);
  trail_space = refl;
}

abbrev page : Bytes
page = codes "front page.php"

page-IsValue : IsValue page
unfolding trim_end
page-IsValue = record { begins = refl; ends = refl; no_nul = refl }

abbrev zero_text : Bytes
zero_text = codes "0"

zero_text-IsValue : IsValue zero_text
unfolding trim_end
zero_text-IsValue = record { begins = refl; ends = refl; no_nul = refl }

config_find_iff_example :
    ((k : ConfigKey)
      → fcgi_http_txn_config_find (some (codes "proxy")) ≡ ok (some k)
      → (rest : Bytes) × (config_text k ≡ codes "proxy" ++ rest))
    × ((k : ConfigKey) (rest : Bytes)
        → config_text k ≡ codes "proxy" ++ rest
        → (j : ConfigKey) × (fcgi_http_txn_config_find (some (codes "proxy")) ≡ ok (some j)))
config_find_iff_example = config_find_iff (codes "proxy")

param_find_iff_example :
    ((k : ParamKey)
      → fcgi_param_config_find (some (codes "SERVER_")) ≡ ok (some k)
      → (rest : Bytes) × (param_text k ≡ codes "SERVER_" ++ rest))
    × ((k : ParamKey) (rest : Bytes)
        → param_text k ≡ codes "SERVER_" ++ rest
        → (j : ParamKey) × (fcgi_param_config_find (some (codes "SERVER_")) ≡ ok (some j)))
param_find_iff_example = param_find_iff (codes "SERVER_")

config_line-render_example :
    config_line
      (render (codes "CONFIG") (config_text fcgi_html) (config_type fcgi_html) page layout)
    ≡ ok (setting fcgi_html page)
config_line-render_example = config_line-render fcgi_html page layout page-IsValue layout-IsLayout

param_line-render_example :
    param_line
      (render (codes "fastcgi_param") (param_text script_name) (param_type script_name) page layout)
    ≡ ok (setting script_name page)
param_line-render_example = param_line-render script_name page layout page-IsValue layout-IsLayout

config_line-no_name_example :
    config_line (codes " " ++ ((codes "CONFIG" ++ codes "S") ++ codes "  ")) ≡ fault
config_line-no_name_example =
    config_line-no_name (codes " ") (codes "S") (codes "  ") refl refl refl

-- `fastcgi_param REQUEST_URI $request_uri;`, as in config/fastcgi.config
param_line-untyped_example :
    param_line (
      []
      ++ (codes "fastcgi_param"
          ++ ((32 ∷ []) ++ (param_text request_uri ++ ((32 ∷ 32 ∷ []) ++ codes "$request_uri;")))))
    ≡ ok (refused bad_type)
unfolding str_to_datatype
param_line-untyped_example =
    param_line-untyped request_uri [] [] (codes " ") (codes "$request_uri;") 32 32 refl (refl, refl)
      (refl, refl) (refl, λ e. cc) refl

abbrev params_name : Bytes
params_name = codes "fcgi.params"

abbrev config_name : Bytes
config_name = codes "fcgi.config"

abbrev param_settings : List (ParamKey × Bytes × Layout)
param_settings =
    (script_name, page, layout)
    ∷ (request_uri, zero_text, layout)
    ∷ (script_name, zero_text, layout)
    ∷ []

abbrev config_settings : List (ConfigKey × Bytes × Layout)
config_settings =
    (fcgi_html, page, layout)
    ∷ (fcgi_enabled, zero_text, layout)
    ∷ (fcgi_max_connections, zero_text, layout)
    ∷ []

abbrev two_files : Bytes → Option (List Bytes)
unfolding equal
two_files fn =
    if equal fn params_name
    then some (param_file param_settings)
    else if equal fn config_name
    then some (config_file config_settings)
    else none

abbrev old_params : StringMap
old_params = (codes "REQUEST_URI", codes "/") ∷ []

init_fcgi_param-find_example :
    (params : StringMap) × (init_fcgi_param two_files params_name (old_params, [])
      ≡ ok (params, []))
    × ((name : Bytes)
        → find name params ≡ elim (find name old_params) [
          | some w ↦ some w
          | none ↦ first_value name param_settings
        ])
unfolding equal
init_fcgi_param-find_example =
    init_fcgi_param-find two_files params_name param_settings old_params []
      (
        page-IsValue,
        layout-IsLayout,
        (zero_text-IsValue, layout-IsLayout, (zero_text-IsValue, layout-IsLayout, tt)),
      )
      refl

params_name-IsValue : IsValue params_name
unfolding trim_end
params_name-IsValue = record { begins = refl; ends = refl; no_nul = refl }

-- The same configuration with a parameter file
abbrev including : Lines
including = (fcgi_include, params_name, layout) ∷ config_settings

abbrev files : Bytes → Option (List Bytes)
files fn =
    if equal fn params_name then some (param_file param_settings) else some (config_file including)

abbrev given_params : Parameters
given_params fn = param_settings

read_config-stores_example :
    (c : FcgiPluginConfig) × (read_config files config_name ≡ ok (c, []))
    × (c.enabled ≡ true)
    × (c.hostname ≡ some (codes "localhost"))
    × (c.server_ip ≡ some (codes "127.0.0.1"))
    × (c.server_port ≡ some (codes "60000"))
    × (c.include_ ≡ some params_name)
    × (c.document_root ≡ some (codes "/var/www/html/"))
    × (c.html ≡ some page)
    × (c.min_connections ≡ pos 4)
    × (c.max_connections ≡ pos 0)
    × (c.max_requests ≡ pos 1000)
    × (c.request_queue_size ≡ pos 250)
    × ((name : Bytes) → find name c.params ≡ first_value name param_settings)
unfolding equal config_text strtoll
read_config-stores_example =
    read_config-stores files given_params config_name including
      (
        params_name-IsValue,
        layout-IsLayout,
        (
          page-IsValue,
          layout-IsLayout,
          (zero_text-IsValue, layout-IsLayout, (zero_text-IsValue, layout-IsLayout, tt)),
        ),
      )
      refl
      (
        (λ e n. (
          (
            page-IsValue,
            layout-IsLayout,
            (zero_text-IsValue, layout-IsLayout, (zero_text-IsValue, layout-IsLayout, tt)),
          ),
          refl,
        )),
        ((λ e. absurd (cc)), ((λ e. absurd (cc)), ((λ e. absurd (cc)), tt))),
      )

-- The value 0 of the setting `enabled` is read, and the plugin is enabled.
disabled :
    (c : FcgiPluginConfig) × (log : List Report) × (read_config two_files config_name ≡ ok (c, log))
unfolding store strtoll equal
disabled = (
  _,
  [],
  read_config-render two_files config_name config_settings
      (
        page-IsValue,
        layout-IsLayout,
        (zero_text-IsValue, layout-IsLayout, (zero_text-IsValue, layout-IsLayout, tt)),
      )
      refl,
)

read_config-enabled_example : disabled.0.enabled ≡ true
read_config-enabled_example =
    read_config-enabled two_files config_name disabled.0 disabled.1 disabled.2
