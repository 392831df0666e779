-- ===== src/Tests/Plugins.antt =====
-- The hook, and the start of the plugin.
use ats_fastcgi.Common.{
  ℕ, ◌≡◌, ◌≢◌, refl, ◌++◌, [], ◌∷◌, Option, none, some, true, false, Bytes, List, ok, arith,
}
use ats_fastcgi.Config.Settings.{default_config}
use ats_fastcgi.Config.Init.{init_config}
use ats_fastcgi.Intercept.{new_intercept}
use ats_fastcgi.Server.{Server, new_server}
use ats_fastcgi.Server.Reachable.{start}
use ats_fastcgi.Plugin.Thread.{ThreadData, new_thread_data, Thread, KeyAnswer, set_up}
use ats_fastcgi.Plugin.Hook.{handle_read_cache_lookup_complete}
use ats_fastcgi.Plugin.SetUp.{granted, HasNewData, Spares, set_up-ends}
use ats_fastcgi.Plugin.Serving.{Connects, IsServed}
use ats_fastcgi.Plugin.Decisions.{
  line_front, lookup_of, new_thread, IsDecided, handle-decides, handle-starts,
}
use ats_fastcgi.Plugin.Init.{Stats, Plugin, ts_plugin_init}
use ats_fastcgi.Plugin.Starts.{StartsWith, ts_plugin_init-starts}
use ats_fastcgi.Tests.Given.{given, given-Works}

abbrev fresh_server : Server
fresh_server = new_server given (λ i. new_intercept 0)

abbrev no_data : ℕ → Option ThreadData
no_data j = none

abbrev unset_thread : Thread
unset_thread = new_thread no_data fresh_server

-- A thread with its data under the key 3
abbrev set_thread : Thread
set_thread = record {
  thread_key = 3;
  specific = λ j. some (new_thread_data given.config);
  server = fresh_server;
}

-- No key, and a key whose value cannot be set
abbrev refusals : List KeyAnswer
refusals = record { key = none; can_set = true } ∷ record { key = some 2; can_set = false } ∷ []

set_up-ends_example :
    (t' : Thread) × (set_up (refusals ++ granted 3 ∷ []) unset_thread ≡ some t')
    × HasNewData 3 unset_thread t'
    × ((j : ℕ) → j ≢ 3 → Spares j refusals → t'.specific j ≡ none)
set_up-ends_example = set_up-ends refusals [] 3 unset_thread (_, (refl, _))

abbrev first_line : Bytes → Option Bytes
first_line path = some (line_front path)

handle-decides_example :
    IsServed
      (handle_read_cache_lookup_complete first_line (lookup_of false true) [] 7 0 set_thread)
      3
      (IsDecided (lookup_of false true) 7 0 fresh_server)
handle-decides_example =
    handle-decides first_line (λ path. refl) (lookup_of false true) [] 7 0 set_thread fresh_server
      (λ e. cc) (new_thread_data given.config, refl, refl)
      (start given (λ i. new_intercept 0) given-Works) (omega arith)

handle-starts_example :
    IsServed
      (handle_read_cache_lookup_complete first_line
        (lookup_of false true)
        (refusals ++ granted 3 ∷ [])
        7
        0
        unset_thread)
      3
      (Connects 7 0 fresh_server)
handle-starts_example =
    handle-starts first_line (λ path. refl) refusals [] 3 7 0 given (λ i. new_intercept 0) no_data
      (_, (refl, _)) given-Works refl

-- Every statistic is created, with the id 112.
abbrev all_stats : Stats
all_stats = record {
  find_name = λ name. none;
  create = λ name. elim name [ [] ↦ none | c ∷ cs ↦ some c ];
}

abbrev no_files : Bytes → Option (List Bytes)
no_files name = none

ts_plugin_init-starts_example :
    (p : Plugin) × (ts_plugin_init no_files all_stats [] ≡ ok p)
    × StartsWith all_stats default_config [] p
unfolding init_config
ts_plugin_init-starts_example = ts_plugin_init-starts no_files all_stats [] default_config [] refl
