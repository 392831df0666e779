-- ===== src/Config/Stored.antt =====
-- What a configuration file makes of each member of the configuration, by the option's name in the file.
use ats_fastcgi.Common.{
  ◌≡◌, ◌≢◌, refl, sym, ap, ◌∙◌, true, Bool-cases, inl, inr, Option, none, some, List, [], ◌∷◌, ◌++◌,
  Bytes, codes, equal, equal_iff, if◌then◌else◌, ℤ, pos, strtoll, ok,
}
use ats_fastcgi.StringMap.{StringMap, find}
use ats_fastcgi.Config.Keys
use ats_fastcgi.Config.Keys.{ConfigKey, ParamKey, config_text, param_text}
use ats_fastcgi.Config.Layout.{Layout}
use ats_fastcgi.Config.Settings.{
  FcgiPluginConfig, default_config, is_null, text_or_null, store, store_include,
}
use ats_fastcgi.Config.Init.{Report, read_config}
use ats_fastcgi.Config.Reading.{
  param_file, AllParams, first_value, init_fcgi_param-find, config_file, AllSettings, store_all,
  read_config-render,
}

-- The lines of a file, as the key, the value and the layout of each
abbrev pub Lines : Type 0
Lines = List (ConfigKey × Bytes × Layout)

-- `NULL` stands for no text.
abbrev pub text_value : Bytes → Option Bytes
text_value v = if equal v (codes "NULL") then none else some v

-- The text that the last line of an option sets
abbrev pub last_text : Bytes → Option Bytes → Lines → Option Bytes
last_text name old [] = old
last_text name old ((k, v, l) ∷ ss) =
    last_text name (if equal (config_text k) name then text_value v else old) ss

-- The number that the last line of an option sets
abbrev pub last_number : Bytes → ℤ → Lines → ℤ
last_number name old [] = old
last_number name old ((k, v, l) ∷ ss) =
    last_number name (if equal (config_text k) name then strtoll v else old) ss

-- The settings of a parameter file, for each name
abbrev pub Parameters : Type 0
Parameters = Bytes → List (ParamKey × Bytes × Layout)

-- The settings of the parameter files that the lines include, in the order of the lines
abbrev pub included : Parameters → Lines → List (ParamKey × Bytes × Layout)
included given [] = []
included given ((k, v, l) ∷ ss) =
    let rest = included given ss in
    if equal (config_text k) (codes "proxy.config.http.fcgi.host.include")
    then (if equal v (codes "NULL") then rest else given v ++ rest)
    else rest

abbrev pub either : Option Bytes → Option Bytes → Option Bytes
either (some w) o = some w
either none o = o

first_value-append :
    (name : Bytes) (ps qs : List (ParamKey × Bytes × Layout))
    → first_value name (ps ++ qs) ≡ either (first_value name ps) (first_value name qs)
first_value-append name [] qs = refl
first_value-append name ((k, v, l) ∷ ps) qs = elim (Bool-cases (equal (param_text k) name)) [
  | inl here ↦ rw here refl
  | inr other ↦ rw other (first_value-append name ps qs)
]

either-none : (o : Option Bytes) → o ≡ either o none
either-none none = refl
either-none (some w) = refl

-- Each line that includes a file names one of settings.
abbrev pub AllIncluded : (Bytes → Option (List Bytes)) → Parameters → Lines → Type 0
AllIncluded files given [] = Unit {0}
AllIncluded files given ((k, v, l) ∷ ss) =
    (k ≡ Keys.fcgi_include
      → v ≢ codes "NULL"
      → AllParams (given v) × (files v ≡ some (param_file (given v))))
    × AllIncluded files given ss

-- The members of a configuration but for the parameters, after some lines, from those before
abbrev HasMembers : FcgiPluginConfig → Lines → FcgiPluginConfig → Type 0
HasMembers c ss c' =
    (c'.enabled ≡ true)
    × (c'.hostname ≡ last_text (codes "proxy.config.http.fcgi.host.hostname") c.hostname ss)
    × (c'.server_ip ≡ last_text (codes "proxy.config.http.fcgi.host.server_ip") c.server_ip ss)
    × (c'.server_port
        ≡ last_text (codes "proxy.config.http.fcgi.host.server_port") c.server_port ss)
    × (c'.include_ ≡ last_text (codes "proxy.config.http.fcgi.host.include") c.include_ ss)
    × (c'.document_root
        ≡ last_text (codes "proxy.config.http.fcgi.host.document_root") c.document_root ss)
    × (c'.html ≡ last_text (codes "proxy.config.http.fcgi.host.html") c.html ss)
    × (c'.min_connections
        ≡ last_number (codes "proxy.config.http.fcgi.host.min_connections") c.min_connections ss)
    × (c'.max_connections
        ≡ last_number (codes "proxy.config.http.fcgi.host.max_connections") c.max_connections ss)
    × (c'.max_requests
        ≡ last_number (codes "proxy.config.http.fcgi.host.max_requests") c.max_requests ss)
    × (c'.request_queue_size
        ≡ last_number (codes "proxy.config.http.fcgi.host.request_queue_size") c.request_queue_size
            ss)

abbrev HasParams : Parameters → FcgiPluginConfig → Lines → FcgiPluginConfig → Type 0
HasParams given c ss c' =
    (name : Bytes)
    → find name c'.params ≡ either (find name c.params) (first_value name (included given ss))

module _ (files : Bytes → Option (List Bytes)) (given : Parameters) where
  abbrev Stores : Lines → FcgiPluginConfig → List Report → Type 0
  Stores ss c log =
      (c' : FcgiPluginConfig) × (store_all files ss c log ≡ ok (c', log))
      × HasMembers c ss c'
      × HasParams given c ss c'

  included_first :
      (name : Bytes) (old params : StringMap) (v : Bytes) (ss : Lines)
      → find name params
        ≡ elim (find name old) [ some w ↦ some w | none ↦ first_value name (given v) ]
      → either (find name params) (first_value name (included given ss))
        ≡ either (find name old) (first_value name (given v ++ included given ss))
  included_first name old params v ss e =
      ap (λ o. either o (first_value name (included given ss))) e ∙ by_old (find name old)
    where
      by_old :
          (o : Option Bytes)
          → either
              (elim o [ some w ↦ some w | none ↦ first_value name (given v) ])
              (first_value name (included given ss))
            ≡ either o (first_value name (given v ++ included given ss))
      by_old none = sym (first_value-append name (given v) (included given ss))
      by_old (some w) = refl

  include-Stores :
      (v : Bytes) (l : Layout) (ss : Lines) (c : FcgiPluginConfig) (log : List Report)
      → (v ≢ codes "NULL" → AllParams (given v) × (files v ≡ some (param_file (given v))))
      → ((c0 : FcgiPluginConfig) → c0.enabled ≡ true → Stores ss c0 log)
      → c.enabled ≡ true
      → Stores ((Keys.fcgi_include, v, l) ∷ ss) c log
  unfolding store store_include text_or_null is_null equal config_text
  include-Stores v l ss c log given_file next on = elim (Bool-cases (equal v (codes "NULL"))) [
    | inl null ↦ rw null (next (record c { include_ = none }) on)
    | inr named ↦
        let (all, there) = given_file (λ e. let same = (equal_iff v (codes "NULL")).1 e in cc) in
        let (params, run, values) = init_fcgi_param-find files v (given v) c.params log all there in
        let (c', ran, members, found) = next (record c { include_ = some v; params = params }) on in
        rw (named, run)
          (
            c',
            ran,
            members,
            (λ name. found name ∙ included_first name c.params params v ss (values name)),
          )
  ]

  store_all-Stores :
      (ss : Lines) (c : FcgiPluginConfig) (log : List Report)
      → AllIncluded files given ss
      → c.enabled ≡ true
      → Stores ss c log
  unfolding store text_or_null is_null equal config_text
  store_all-Stores [] c log h on = (
    c,
    refl,
    (on, refl, refl, refl, refl, refl, refl, refl, refl, refl, refl),
    λ name. either-none (find name c.params),
  )
  store_all-Stores ((Keys.fcgi_enabled, v, l) ∷ ss) c log (h, hs) on =
      store_all-Stores ss (record c { enabled = true }) log hs refl
  store_all-Stores ((Keys.fcgi_hostname, v, l) ∷ ss) c log (h, hs) on =
      store_all-Stores ss (record c { hostname = text_value v }) log hs on
  store_all-Stores ((Keys.fcgi_server_ip, v, l) ∷ ss) c log (h, hs) on =
      store_all-Stores ss (record c { server_ip = text_value v }) log hs on
  store_all-Stores ((Keys.fcgi_server_port, v, l) ∷ ss) c log (h, hs) on =
      store_all-Stores ss (record c { server_port = text_value v }) log hs on
  store_all-Stores ((Keys.fcgi_include, v, l) ∷ ss) c log (h, hs) on =
      include-Stores v l ss c log (h refl) (λ c0 on0. store_all-Stores ss c0 log hs on0) on
  store_all-Stores ((Keys.fcgi_document_root, v, l) ∷ ss) c log (h, hs) on =
      store_all-Stores ss (record c { document_root = text_value v }) log hs on
  store_all-Stores ((Keys.fcgi_html, v, l) ∷ ss) c log (h, hs) on =
      store_all-Stores ss (record c { html = text_value v }) log hs on
  store_all-Stores ((Keys.fcgi_min_connections, v, l) ∷ ss) c log (h, hs) on =
      store_all-Stores ss (record c { min_connections = strtoll v }) log hs on
  store_all-Stores ((Keys.fcgi_max_connections, v, l) ∷ ss) c log (h, hs) on =
      store_all-Stores ss (record c { max_connections = strtoll v }) log hs on
  store_all-Stores ((Keys.fcgi_max_requests, v, l) ∷ ss) c log (h, hs) on =
      store_all-Stores ss (record c { max_requests = strtoll v }) log hs on
  store_all-Stores ((Keys.fcgi_request_queue_size, v, l) ∷ ss) c log (h, hs) on =
      store_all-Stores ss (record c { request_queue_size = strtoll v }) log hs on

  -- A configuration file of lines that are written as settings, in which each included file is one of
  -- parameter settings, is read without a report. The plugin is enabled; each of the texts is that of the
  -- last line of its option, none for `NULL`, and each of the numbers that of the last line of its option;
  -- without such a line they are `localhost`, 127.0.0.1, 60000, `fastcgi.config`, `/var/www/html/`,
  -- `index.php`, 4, 10, 1000 and 250. A parameter has the value of the first line that sets it in the
  -- included files, in their order.
  pub read_config-stores :
      (fn : Bytes) (ss : Lines)
      → AllSettings ss
      → files fn ≡ some (config_file ss)
      → AllIncluded files given ss
      → (c : FcgiPluginConfig) × (read_config files fn ≡ ok (c, []))
        × (c.enabled ≡ true)
        × (c.hostname
            ≡ last_text
                (codes "proxy.config.http.fcgi.host.hostname")
                (some (codes "localhost"))
                ss)
        × (c.server_ip
            ≡ last_text
                (codes "proxy.config.http.fcgi.host.server_ip")
                (some (codes "127.0.0.1"))
                ss)
        × (c.server_port
            ≡ last_text (codes "proxy.config.http.fcgi.host.server_port") (some (codes "60000")) ss)
        × (c.include_
            ≡ last_text
                (codes "proxy.config.http.fcgi.host.include")
                (some (codes "fastcgi.config"))
                ss)
        × (c.document_root
            ≡ last_text
                (codes "proxy.config.http.fcgi.host.document_root")
                (some (codes "/var/www/html/"))
                ss)
        × (c.html
            ≡ last_text (codes "proxy.config.http.fcgi.host.html") (some (codes "index.php")) ss)
        × (c.min_connections
            ≡ last_number (codes "proxy.config.http.fcgi.host.min_connections") (pos 4) ss)
        × (c.max_connections
            ≡ last_number (codes "proxy.config.http.fcgi.host.max_connections") (pos 10) ss)
        × (c.max_requests
            ≡ last_number (codes "proxy.config.http.fcgi.host.max_requests") (pos 1000) ss)
        × (c.request_queue_size
            ≡ last_number (codes "proxy.config.http.fcgi.host.request_queue_size") (pos 250) ss)
        × ((name : Bytes) → find name c.params ≡ first_value name (included given ss))
  unfolding find
  read_config-stores fn ss h e inc =
      let (c, run, (a1, a2, a3, a4, a5, a6, a7, a8, a9, a10, a11), found) =
        store_all-Stores ss default_config [] inc refl in
      (
        c,
        read_config-render files fn ss h e ∙ run,
        a1,
        a2,
        a3,
        a4,
        a5,
        a6,
        a7,
        a8,
        a9,
        a10,
        a11,
        found,
      )
