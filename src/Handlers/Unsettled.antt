-- ===== src/Handlers/Unsettled.antt =====
-- srv/server.go: the settings are no part of the counts.
use feedreader.Prelude.{
  ℕ, String, ◌≡◌, refl, ap, Option, none, some, List, [], ◌∷◌, Bool-cases, inl, inr,
}
use feedreader.Prelude.Dict.{Dict}
use feedreader.Strings.{TextTools}
use feedreader.Server.{Server}
use feedreader.Db.Models.{UserSetting, Database}
use feedreader.Db.Calls.{Faults, set_user_setting_call}
use feedreader.Db.SeenGuids.{set_user_setting}
use feedreader.Db.Queue.{get_queue_count}
use feedreader.Db.Rules.{list_all_exclusions, list_feed_category_mappings}
use feedreader.Db.Counts.{
  get_unread_count, get_starred_count, count_undismissed_alerts, has_exclusion_rules,
  get_all_feed_unread_counts, get_all_category_unread_counts, list_unread_article_filter_inputs,
}
use feedreader.Filter.Lists.{filter_all_articles}
use feedreader.Handlers.Settings.{setting_allowed, store_settings, api_update_settings}
use feedreader.Handlers.Counts.{
  computed_article_counts, filtered_article_counts, direct_article_counts,
}

-- the database with other settings
abbrev with_settings : List UserSetting → Database → Database
with_settings rows db = record db { user_settings = rows }

-- nothing but the settings differs
abbrev pub OnlySettings : Database → Database → Type 0
OnlySettings db db' = db' ≡ record db { user_settings = db'.user_settings }

store_settings-OnlySettings :
    (faults : Faults) (user : ℕ) (body : Dict String String) (db : Database)
    → OnlySettings db (store_settings faults user body db).1
unfolding store_settings set_user_setting
store_settings-OnlySettings faults user [] db = refl
store_settings-OnlySettings faults user ((key, value) ∷ rest) db =
    elim (Bool-cases (setting_allowed key value)) [
      | inr e ↦ rw e refl
      | inl e ↦ elim (Bool-cases (faults (set_user_setting_call key))) [
        | inl f ↦ rw (e, f) refl
        | inr f ↦
            rw (e, f)
              (store_settings-OnlySettings faults user rest (set_user_setting user key value db))
      ]
    ]

pub counts_of-OnlySettings :
    (tools : TextTools) (reads : Faults) (user : ℕ) (db db' : Database)
    → OnlySettings db db'
    → computed_article_counts tools reads db' user ≡ computed_article_counts tools reads db user
unfolding computed_article_counts filtered_article_counts direct_article_counts filter_all_articles
    list_all_exclusions list_feed_category_mappings get_unread_count get_starred_count
    count_undismissed_alerts has_exclusion_rules get_all_feed_unread_counts
    get_all_category_unread_counts list_unread_article_filter_inputs get_queue_count
counts_of-OnlySettings tools reads user db db' same =
    ap (λ d. computed_article_counts tools reads d user) same

pub api_update_settings-OnlySettings :
    (faults : Faults) (user : ℕ) (body : Option (Dict String String)) (s : Server)
    → OnlySettings s.db (api_update_settings faults user body s).1.db
      × ((api_update_settings faults user body s).1.counts_cache ≡ s.counts_cache)
unfolding api_update_settings
api_update_settings-OnlySettings faults user none s = (refl, refl)
api_update_settings-OnlySettings faults user (some body) s =
    (store_settings-OnlySettings faults user body s.db, refl)
