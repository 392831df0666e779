-- ===== src/Config/Init.antt =====
-- src/fcgi_config.cc: `initFcgiParam` and `initConfig`. The files are a parameter: a name gives the
-- lines that `TSfgets` reads from it, or nothing where `TSfopen` fails.
use ats_fastcgi.Common.{
  ℕ, ◌+◌, true, false, Option, none, some, List, [], ◌∷◌, ◌++◌, Bytes, ◌==◌, if◌then◌else◌, Outcome,
  ok, ◌>>=◌,
}
use ats_fastcgi.StringMap.{StringMap}
use ats_fastcgi.Config.Keys.{ConfigKey, ParamKey}
use ats_fastcgi.Config.Line.{Line, LineError, skipped, refused, setting, config_line, param_line}
use ats_fastcgi.Config.Settings.{FcgiPluginConfig, default_config, store, store_param}

-- What `TSError` is given.
pub data Report : Type 0 where
  could_not_open : Bytes → Report
  bad_line : Bytes → ℕ → LineError → Report
  parameter_ignored : Bytes → Report

module _ (files : Bytes → Option (List Bytes)) where
  -- What a line of the parameter file does.
  param_step : Bytes → ℕ → Line ParamKey → StringMap × List Report → StringMap × List Report
  unfolding store_param
  param_step fn line_num skipped (params, log) = (params, log)
  param_step fn line_num (refused e) (params, log) = (params, log ++ (bad_line fn line_num e ∷ []))
  param_step fn line_num (setting k v) (params, log) = (store_param k v params, log)

  -- The loop of `initFcgiParam`, with the number of the next line
  unfoldable pub param_lines :
      Bytes → ℕ → List Bytes → StringMap × List Report → Outcome (StringMap × List Report)
  unfolding param_line param_step
  param_lines fn line_num [] st = ok st
  param_lines fn line_num (buf ∷ bufs) st =
      param_line buf >>= λ line. param_lines fn (line_num + 1) bufs (param_step fn line_num line st)

  -- `initFcgiParam`
  unfoldable pub init_fcgi_param :
      Bytes → StringMap × List Report → Outcome (StringMap × List Report)
  unfolding param_lines
  init_fcgi_param fn (params, log) = elim (files fn) [
    | none ↦ ok (params, log ++ (could_not_open fn ∷ []))
    | some bufs ↦ param_lines fn 1 bufs (params, log)
  ]

  -- What a line of the configuration does.
  unfoldable pub config_step :
      Bytes
      → ℕ
      → Line ConfigKey
      → FcgiPluginConfig
      → List Report
      → Outcome (FcgiPluginConfig × List Report)
  unfolding store init_fcgi_param
  config_step fn line_num skipped config log = ok (config, log)
  config_step fn line_num (refused e) config log = ok (config, log ++ (bad_line fn line_num e ∷ []))
  config_step fn line_num (setting k v) config log = store init_fcgi_param k v config log

  -- The loop of `initConfig`
  unfoldable pub config_lines :
      Bytes
      → ℕ
      → List Bytes
      → FcgiPluginConfig
      → List Report
      → Outcome (FcgiPluginConfig × List Report)
  unfolding config_line config_step
  config_lines fn line_num [] config log = ok (config, log)
  config_lines fn line_num (buf ∷ bufs) config log = do
    line ← config_line buf
    (config', log') ← config_step fn line_num line config log
    config_lines fn (line_num + 1) bufs config' log'

  -- The branch of `initConfig` that opens the file
  unfoldable pub read_config : Bytes → Outcome (FcgiPluginConfig × List Report)
  unfolding config_lines
  read_config fn = elim (files fn) [
    | none ↦ ok (default_config, could_not_open fn ∷ [])
    | some bufs ↦ config_lines fn 1 bufs default_config []
  ]

  -- A name of one character is a switch.
  switch : ℕ → Outcome (FcgiPluginConfig × List Report)
  switch c =
      if c == b'0'
      then ok (record default_config { enabled = false }, [])
      else if c == b'1'
      then ok (record default_config { enabled = true }, [])
      else ok (default_config, parameter_ignored (c ∷ []) ∷ [])

  -- `initConfig`, of a null pointer or a file's name
  unfoldable pub init_config : Option Bytes → Outcome (FcgiPluginConfig × List Report)
  unfolding read_config switch
  init_config none = ok (default_config, [])
  init_config (some (c ∷ [])) = switch c
  init_config (some []) = read_config []
  init_config (some (c ∷ d ∷ fn)) = read_config (c ∷ d ∷ fn)
