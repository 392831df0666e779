-- ===== src/Plugin/Init.antt =====
-- src/ats_fastcgi.cc: `TSPluginInit`, which reads the configuration and starts the plugin.
use ats_fastcgi.Common.{
  ℕ, Bool, true, false, List, [], ◌∷◌, ◌++◌, Option, none, some, Bytes, codes, Outcome, ok, ◌>>=◌,
}
use ats_fastcgi.Config.Settings.{FcgiPluginConfig}
use ats_fastcgi.Config.Access.{get_fcgi_enabled_status}
use ats_fastcgi.Config.Init.{Report, init_config}

-- The statistics, by their names and in the order in which they are made
abbrev pub stat_names : List Bytes
stat_names =
    codes "plugin.ats_fastcgi.reqCountBeg"
    ∷ codes "plugin.ats_fastcgi.reqCountEnd"
    ∷ codes "plugin.ats_fastcgi.respCountBeg"
    ∷ codes "plugin.ats_fastcgi.respCountEnd"
    ∷ codes "plugin.ats_fastcgi.threadCount"
    ∷ codes "plugin.ats_fastcgi.phpConnCount"
    ∷ []

-- What `TSError` writes of a statistic
pub data Notice : Type 0 where
  registered : Bytes → ℕ → Notice
  failed_to_register : Bytes → Notice

-- What the call leaves: the configuration and the reports of its reading, whether there are a plugin with
-- its hook and a server, the notices, and the statistics that are set to 0.
pub record Plugin : Type 0 where
  pub config : FcgiPluginConfig
  pub reports : List Report
  pub is_active : Bool
  pub notices : List Notice
  pub zeroed : List ℕ

-- What `TSStatFindName` and `TSStatCreate` give for a name: an id, or `TS_ERROR`
pub record Stats : Type 0 where
  pub find_name : Bytes → Option ℕ
  pub create : Bytes → Option ℕ

-- A statistic that is not found is created.
unfoldable pub stat_id : Stats → Bytes → Option ℕ
stat_id stats name = elim (stats.find_name name) [ none ↦ stats.create name | some id ↦ some id ]

-- `TSStatIntSet(id, 0)`, for each
abbrev pub set_zero : List ℕ → Plugin → Plugin
set_zero ids p = record p { zeroed = p.zeroed ++ ids }

abbrev pub notify : Notice → Plugin → Plugin
notify n p = record p { notices = p.notices ++ (n ∷ []) }

-- One statistic after the other, with the ids of those before; the first that fails ends the call.
unfoldable pub register_stats : Stats → List Bytes → List ℕ → Plugin → Plugin
unfolding stat_id
register_stats stats [] ids p = set_zero ids p
register_stats stats (name ∷ names) ids p = elim (stat_id stats name) [
  | none ↦ notify (failed_to_register name) p
  | some id ↦ register_stats stats names (ids ++ (id ∷ [])) (notify (registered name id) p)
]

abbrev pub with_config : FcgiPluginConfig → List Report → Plugin
with_config config reports = record {
  config = config;
  reports = reports;
  is_active = false;
  notices = [];
  zeroed = [];
}

-- `new InterceptGlobalPlugin()` and `new Server()`, before the statistics
abbrev pub activate : Plugin → Plugin
activate p = record p { is_active = true }

-- `argv[1]`, if there is one
abbrev pub first_argument : List Bytes → Option Bytes
first_argument [] = none
first_argument (arg ∷ args) = some arg

-- By whether the configuration enables the plugin
unfoldable pub start_plugin : Bool → Stats → Plugin → Plugin
unfolding register_stats
start_plugin true stats p = register_stats stats stat_names [] (activate p)
start_plugin false stats p = p

module _ (files : Bytes → Option (List Bytes)) where
  -- `TSPluginInit`, with the arguments after the plugin's name
  unfoldable pub ts_plugin_init : Stats → List Bytes → Outcome Plugin
  unfolding init_config start_plugin
  ts_plugin_init stats args = do
    (config, reports) ← init_config files (first_argument args)
    ok (start_plugin (get_fcgi_enabled_status config) stats (with_config config reports))
