-- ===== src/Plugin/Starts.antt =====
-- What `TSPluginInit` leaves.
use ats_fastcgi.Common.{
  ℕ, ◌≡◌, ◌≢◌, refl, ap, sym, subst, ◌∙◌, Bool, true, false, List, [], ◌∷◌, ◌++◌, append_assoc,
  append-nil, Option, none, some, Bytes, ok,
}
use ats_fastcgi.Config.Settings.{FcgiPluginConfig}
use ats_fastcgi.Config.Init.{Report, init_config}
use ats_fastcgi.Plugin.Init.{
  Stats, stat_id, stat_names, Notice, registered, failed_to_register, Plugin, notify,
  register_stats, with_config, activate, first_argument, start_plugin, ts_plugin_init,
}

-- The id of a statistic that has one
abbrev pub found_id : Stats → Bytes → ℕ
found_id stats name = elim (stat_id stats name) [ none ↦ 0 | some id ↦ id ]

abbrev pub AllFound : Stats → List Bytes → Type 0
AllFound stats [] = Unit {0}
AllFound stats (name ∷ names) = (stat_id stats name ≢ none) × AllFound stats names

abbrev pub registrations : Stats → List Bytes → List Notice
registrations stats [] = []
registrations stats (name ∷ names) =
    registered name (found_id stats name) ∷ registrations stats names

abbrev pub found_ids : Stats → List Bytes → List ℕ
found_ids stats [] = []
found_ids stats (name ∷ names) = found_id stats name ∷ found_ids stats names

-- Notices after those of the plugin
abbrev pub noted : List Notice → Plugin → Plugin
noted ns p = record p { notices = p.notices ++ ns }

noted-noted : (ns ms : List Notice) (p : Plugin) → noted ms (noted ns p) ≡ noted (ns ++ ms) p
noted-noted ns ms p = ap (λ l. record p { notices = l }) (append_assoc p.notices ns ms)

stat_id-found :
    (stats : Stats) (name : Bytes)
    → stat_id stats name ≢ none
    → stat_id stats name ≡ some (found_id stats name)
stat_id-found stats name n = by_id (stat_id stats name) refl
  where
    by_id :
        (v : Option ℕ) → stat_id stats name ≡ v → stat_id stats name ≡ some (found_id stats name)
    by_id none e = absurd (n e)
    by_id (some id) e = rw (e, found_id) refl

register_stats-next :
    (stats : Stats) (name : Bytes) (names : List Bytes) (ids : List ℕ) (p : Plugin) (id : ℕ)
    → stat_id stats name ≡ some id
    → register_stats stats (name ∷ names) ids p
      ≡ register_stats stats names (ids ++ (id ∷ [])) (noted (registered name id ∷ []) p)
unfolding register_stats
register_stats-next stats name names ids p id h = rw (h, register_stats) refl

register_stats-found :
    (stats : Stats) (names after : List Bytes) (ids : List ℕ) (p : Plugin)
    → AllFound stats names
    → register_stats stats (names ++ after) ids p
      ≡ register_stats stats after
          (ids ++ found_ids stats names)
          (noted (registrations stats names) p)
unfolding register_stats
register_stats-found stats [] after ids p h = rw (append-nil ids, append-nil p.notices) refl
register_stats-found stats (name ∷ names) after ids p (h, hs) =
    let id = found_id stats name in
    let p' = noted (registered name id ∷ []) p in
    register_stats-next stats name (names ++ after) ids p id (stat_id-found stats name h)
    ∙ (register_stats-found stats names after (ids ++ (id ∷ [])) p' hs
        ∙ rw
            (
              append_assoc ids (id ∷ []) (found_ids stats names),
              noted-noted (registered name id ∷ []) (registrations stats names) p,
            )
            refl)

register_stats-fails :
    (stats : Stats) (name : Bytes) (after : List Bytes) (ids : List ℕ) (p : Plugin)
    → stat_id stats name ≡ none
    → register_stats stats (name ∷ after) ids p ≡ notify (failed_to_register name) p
unfolding register_stats
register_stats-fails stats name after ids p h = rw (h, register_stats) refl

-- The configuration, the reports of its reading, and whether the plugin is active
abbrev IsSame : Plugin → Plugin → Type 0
IsSame p p' = (p'.config ≡ p.config) × (p'.reports ≡ p.reports) × (p'.is_active ≡ p.is_active)

register_stats-IsSame :
    (stats : Stats) (names : List Bytes) (ids : List ℕ) (p : Plugin)
    → IsSame p (register_stats stats names ids p)
unfolding register_stats
register_stats-IsSame stats [] ids p = (refl, refl, refl)
register_stats-IsSame stats (name ∷ names) ids p =
    by_id (stat_id stats name) refl (λ id.
      register_stats-IsSame stats names (ids ++ (id ∷ [])) (noted (registered name id ∷ []) p))
  where
    by_id :
        (v : Option ℕ)
        → stat_id stats name ≡ v
        → ((id : ℕ)
            → IsSame p
                (register_stats stats names (ids ++ (id ∷ [])) (noted (registered name id ∷ []) p)))
        → IsSame p (register_stats stats (name ∷ names) ids p)
    by_id none e rest =
        subst (IsSame p) (sym (register_stats-fails stats name names ids p e)) (refl, refl, refl)
    by_id (some id) e rest =
        subst (IsSame p) (sym (register_stats-next stats name names ids p id e)) (rest id)

-- What becomes of an active plugin
abbrev pub IsStarted : Stats → Plugin → Type 0
IsStarted stats p =
    (AllFound stats stat_names
      → (p.notices ≡ registrations stats stat_names) × (p.zeroed ≡ found_ids stats stat_names))
    × ((before after : List Bytes) (name : Bytes)
        → stat_names ≡ before ++ name ∷ after
        → AllFound stats before
        → stat_id stats name ≡ none
        → (p.notices ≡ registrations stats before ++ (failed_to_register name ∷ []))
          × (p.zeroed ≡ []))

register_stats-IsStarted :
    (stats : Stats) (config : FcgiPluginConfig) (reports : List Report)
    → IsStarted stats (register_stats stats stat_names [] (activate (with_config config reports)))
unfolding register_stats
register_stats-IsStarted stats config reports =
    let p = activate (with_config config reports) in
    (
      (λ all.
          let run =
            ap (λ l. register_stats stats l [] p) (sym (append-nil stat_names))
            ∙ register_stats-found stats stat_names [] [] p all in
          (ap Plugin.notices run, ap Plugin.zeroed run)),
      (λ before after name e all h.
          let run =
            ap (λ l. register_stats stats l [] p) e
            ∙ register_stats-found stats before (name ∷ after) [] p all
            ∙ register_stats-fails stats name after (found_ids stats before)
                (noted (registrations stats before) p) h in
          (ap Plugin.notices run, ap Plugin.zeroed run)),
    )

-- How the plugin starts with a configuration
abbrev pub StartsWith : Stats → FcgiPluginConfig → List Report → Plugin → Type 0
StartsWith stats config reports p =
    (p.config ≡ config)
    × (p.reports ≡ reports)
    × (p.is_active ≡ config.enabled)
    × (config.enabled ≡ true → IsStarted stats p)
    × (config.enabled ≡ false → (p.notices ≡ []) × (p.zeroed ≡ []))

start_plugin-StartsWith :
    (on : Bool) (stats : Stats) (config : FcgiPluginConfig) (reports : List Report)
    → config.enabled ≡ on
    → StartsWith stats config reports (start_plugin on stats (with_config config reports))
unfolding start_plugin
start_plugin-StartsWith true stats config reports e =
    let p = activate (with_config config reports) in
    let (same, reported, active) = register_stats-IsSame stats stat_names [] p in
    (
      same,
      reported,
      active ∙ sym e,
      (λ h. register_stats-IsStarted stats config reports),
      (λ h. absurd (cc)),
    )
start_plugin-StartsWith false stats config reports e =
    (refl, refl, sym e, (λ h. absurd (cc)), (λ h. (refl, refl)))

-- Where the configuration can be read, `TSPluginInit` ends with this configuration, and the hook and the
-- server are made exactly if it enables the plugin. If they are, and each statistic is found or created,
-- all of them are registered, in their order, and set to 0; if one is neither found nor created, those
-- before it are registered, an error is written for it, and none is set to 0, while the hook stays. If
-- they are not made, nothing is registered.
pub ts_plugin_init-starts :
    (files : Bytes → Option (List Bytes)) (stats : Stats) (args : List Bytes)
    (config : FcgiPluginConfig) (reports : List Report)
    → init_config files (first_argument args) ≡ ok (config, reports)
    → (p : Plugin) × (ts_plugin_init files stats args ≡ ok p) × StartsWith stats config reports p
unfolding ts_plugin_init
ts_plugin_init-starts files stats args config reports e = (
  start_plugin config.enabled stats (with_config config reports),
  rw (e, ts_plugin_init) refl,
  start_plugin-StartsWith config.enabled stats config reports refl,
)
