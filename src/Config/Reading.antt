-- ===== src/Config/Reading.antt =====
-- What the two configuration files make of the configuration, line after line.
use ats_fastcgi.Common.{
  ℕ, ◌+◌, ◌≡◌, refl, true, Option, none, some, List, [], ◌∷◌, Bytes, codes, equal, if◌then◌else◌,
  Outcome, ok, ◌>>=◌, arith, >>=-cong, OnOk, OnOk->>=, OnOk-any, subst,
}
use ats_fastcgi.StringMap.{StringMap, find}
use ats_fastcgi.StringMap.Laws.{find-insert}
use ats_fastcgi.Config.Keys.{
  fcgi_enabled, fcgi_include, ConfigKey, ParamKey, config_text, config_type, param_text, param_type,
}
use ats_fastcgi.Config.Line.{Line, skipped, refused, setting, config_line}
use ats_fastcgi.Config.Layout.{Layout, IsLayout, IsValue, render}
use ats_fastcgi.Config.Rendered.{config_line-render, param_line-render}
use ats_fastcgi.Config.Settings.{
  FcgiPluginConfig, default_config, is_null, store, store_include, text_or_null, store_param,
}
use ats_fastcgi.Config.Init.{
  Report, init_fcgi_param, param_lines, config_lines, config_step, read_config,
}

-- The settings of a file, and the lines that they are written as.
abbrev pub param_file : List (ParamKey × Bytes × Layout) → List Bytes
param_file [] = []
param_file ((k, v, l) ∷ ss) =
    render (codes "fastcgi_param") (param_text k) (param_type k) v l ∷ param_file ss

abbrev pub AllParams : List (ParamKey × Bytes × Layout) → Type 0
AllParams [] = Unit {0}
AllParams ((k, v, l) ∷ ss) = IsValue v × IsLayout l × AllParams ss

abbrev pub store_params : List (ParamKey × Bytes × Layout) → StringMap → StringMap
store_params [] m = m
store_params ((k, v, l) ∷ ss) m = store_params ss (store_param k v m)

abbrev param_value : Bytes → Bytes
param_value v = if is_null v then [] else v

-- The value of the first setting of a name.
abbrev pub first_value : Bytes → List (ParamKey × Bytes × Layout) → Option Bytes
first_value name [] = none
first_value name ((k, v, l) ∷ ss) =
    if equal (param_text k) name then some (if is_null v then [] else v) else first_value name ss

module _ (files : Bytes → Option (List Bytes)) where
  param_lines-render :
      (fn : Bytes) (n : ℕ) (ss : List (ParamKey × Bytes × Layout)) (m : StringMap)
      (log : List Report)
      → AllParams ss
      → param_lines files fn n (param_file ss) (m, log) ≡ ok (store_params ss m, log)
  unfolding param_lines
  param_lines-render fn n [] m log h = refl
  param_lines-render fn n ((k, v, l) ∷ ss) m log h =
      rw (param_line-render k v l h.0 h.1)
        (param_lines-render fn (n + 1) ss (store_param k v m) log h.2)

  store_params-find :
      (name : Bytes) (ss : List (ParamKey × Bytes × Layout)) (m : StringMap)
      → find name (store_params ss m)
        ≡ elim (find name m) [ some w ↦ some w | none ↦ first_value name ss ]
  unfolding store_param
  store_params-find name [] m = ground arith
  store_params-find name ((k, v, l) ∷ ss) m = ground (
    arith,
    store_params-find name ss (store_param k v m),
    find-insert (param_text k) name (if is_null v then [] else v) m,
  )

  -- A parameter file of lines that are written as settings: the map keeps what it has, and a name that it
  -- lacks gets the value of the first line that sets it, empty for `NULL`; nothing is reported.
  pub init_fcgi_param-find :
      (fn : Bytes) (ss : List (ParamKey × Bytes × Layout)) (m : StringMap) (log : List Report)
      → AllParams ss
      → files fn ≡ some (param_file ss)
      → (params : StringMap) × (init_fcgi_param files fn (m, log) ≡ ok (params, log))
        × ((name : Bytes)
            → find name params
              ≡ elim (find name m) [ some w ↦ some w | none ↦ first_value name ss ])
  unfolding init_fcgi_param
  init_fcgi_param-find fn ss m log h e = (
    store_params ss m,
    rw (e, init_fcgi_param) (param_lines-render fn 1 ss m log h),
    (λ name. store_params-find name ss m),
  )

abbrev pub config_file : List (ConfigKey × Bytes × Layout) → List Bytes
config_file [] = []
config_file ((k, v, l) ∷ ss) =
    render (codes "CONFIG") (config_text k) (config_type k) v l ∷ config_file ss

abbrev pub AllSettings : List (ConfigKey × Bytes × Layout) → Type 0
AllSettings [] = Unit {0}
AllSettings ((k, v, l) ∷ ss) = IsValue v × IsLayout l × AllSettings ss

module _ (files : Bytes → Option (List Bytes)) where
  -- The settings stored one after the other.
  abbrev pub store_all :
      List (ConfigKey × Bytes × Layout)
      → FcgiPluginConfig
      → List Report
      → Outcome (FcgiPluginConfig × List Report)
  store_all [] c log = ok (c, log)
  store_all ((k, v, l) ∷ ss) c log =
      store (init_fcgi_param files) k v c log >>= λ r. store_all ss r.0 r.1

  config_lines-render :
      (fn : Bytes) (n : ℕ) (ss : List (ConfigKey × Bytes × Layout)) (c : FcgiPluginConfig)
      (log : List Report)
      → AllSettings ss
      → config_lines files fn n (config_file ss) c log ≡ store_all ss c log
  unfolding config_lines
  config_lines-render fn n [] c log h = refl
  config_lines-render fn n ((k, v, l) ∷ ss) c log h = rw (config_line-render k v l h.0 h.1) (
      >>=-cong (store (init_fcgi_param files) k v c log)
        (λ r. config_lines files fn (n + 1) (config_file ss) r.0 r.1) (λ r. store_all ss r.0 r.1)
        (λ r. config_lines-render fn (n + 1) ss r.0 r.1 h.2))

  -- A configuration file of lines that are written as settings stores those settings in the defaults,
  -- one after the other, from the first line to the last.
  pub read_config-render :
      (fn : Bytes) (ss : List (ConfigKey × Bytes × Layout))
      → AllSettings ss
      → files fn ≡ some (config_file ss)
      → read_config files fn ≡ store_all ss default_config []
  unfolding read_config
  read_config-render fn ss h e =
      rw (e, read_config) (config_lines-render fn 1 ss default_config [] h)

  abbrev IsEnabled : FcgiPluginConfig × List Report → Type 0
  IsEnabled r = r.0.enabled ≡ true

  store_include-enabled :
      (v : Option Bytes) (c : FcgiPluginConfig) (log : List Report)
      → c.enabled ≡ true
      → OnOk IsEnabled (store_include (init_fcgi_param files) v c log)
  unfolding store_include
  store_include-enabled none c log h = h
  store_include-enabled (some fn) c log h =
      OnOk->>= (λ r. Unit {0}) IsEnabled (init_fcgi_param files fn (c.params, log))
        (λ r. ok (record c { include_ = some fn; params = r.0 }, r.1))
        (OnOk-any (init_fcgi_param files fn (c.params, log))) (λ r u. h)

  store-enabled :
      (k : ConfigKey) (v : Bytes) (c : FcgiPluginConfig) (log : List Report)
      → c.enabled ≡ true
      → OnOk IsEnabled (store (init_fcgi_param files) k v c log)
  unfolding store
  store-enabled fcgi_enabled v c log h = refl
  store-enabled fcgi_include v c log h = store_include-enabled (text_or_null v) c log h
  store-enabled _ v c log h = h

  config_step-enabled :
      (fn : Bytes) (n : ℕ) (line : Line ConfigKey) (c : FcgiPluginConfig) (log : List Report)
      → c.enabled ≡ true
      → OnOk IsEnabled (config_step files fn n line c log)
  unfolding config_step
  config_step-enabled fn n skipped c log h = h
  config_step-enabled fn n (refused e) c log h = h
  config_step-enabled fn n (setting k v) c log h = store-enabled k v c log h

  config_lines-enabled :
      (fn : Bytes) (n : ℕ) (bufs : List Bytes) (c : FcgiPluginConfig) (log : List Report)
      → c.enabled ≡ true
      → OnOk IsEnabled (config_lines files fn n bufs c log)
  unfolding config_lines
  config_lines-enabled fn n [] c log h = h
  config_lines-enabled fn n (buf ∷ bufs) c log h =
      OnOk->>= (λ line. Unit {0}) IsEnabled (config_line buf)
        (λ line.
          config_step files fn n line c log >>= λ r. config_lines files fn (n + 1) bufs r.0 r.1)
        (OnOk-any (config_line buf))
        (λ line u.
          OnOk->>= IsEnabled IsEnabled (config_step files fn n line c log)
            (λ r. config_lines files fn (n + 1) bufs r.0 r.1)
            (config_step-enabled fn n line c log h)
            (λ r e. config_lines-enabled fn (n + 1) bufs r.0 r.1 e))

  -- No configuration file turns the plugin off: whatever lines it has, if the reading ends without a
  -- fault, the plugin is enabled.
  pub read_config-enabled :
      (fn : Bytes) (c : FcgiPluginConfig) (log : List Report)
      → read_config files fn ≡ ok (c, log)
      → c.enabled ≡ true
  unfolding read_config
  read_config-enabled fn c log e = subst (OnOk IsEnabled) e (any_file (files fn) refl)
    where
      any_file : (o : Option (List Bytes)) → files fn ≡ o → OnOk IsEnabled (read_config files fn)
      any_file none f = rw (f, read_config) refl
      any_file (some bufs) f =
          rw (f, read_config) (config_lines-enabled fn 1 bufs default_config [] refl)
