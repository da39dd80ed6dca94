-- ===== src/Tests/Handlers.antt =====
-- The theorems on the handlers at concrete requests.
use feedreader.Prelude.{
  String, ℕ, nat_eq, ◌++◌, none, Bool, true, false, length, ◌≡◌, refl, some, List, [], ◌∷◌,
}
use feedreader.Prelude.Int.{pos}
use feedreader.Server.{Server}
use feedreader.CountsCache.{new_counts_cache}
use feedreader.Strings.{TextTools}
use feedreader.Db.Alerts.{list_alerts_by_user}
use feedreader.Alerts.Evaluate.{compile_alerts}
use feedreader.Handlers.Alerts.{AlertRequest, create_route, delete_route}
use feedreader.Handlers.Usable.{AllUsable}
use feedreader.Handlers.AlertRuns.{AlertEvent, dispatch_alerts, dispatch_alerts-usable}
use feedreader.Prelude.{◌≤◌}
use feedreader.Handlers.Settings.{setting_allowed, api_update_settings}
use feedreader.Handlers.Partial.{setting_after, is_empty, api_update_settings-front}
use feedreader.Prelude.Dict.{Dict, lookup}
use feedreader.Db.SeenGuids.{get_user_setting}
use feedreader.Retention.Cleanup.{get_user_retention_days}
use feedreader.Handlers.Stored.{AllAllowed, SettingsEvent, update_all, update_all-retention}
use feedreader.Tests.Sample.{plain_tools, no_faults, sample_db}
use feedreader.Handlers.Articles.{
  dispatch, mark_read, batch_mark_read, toggle_star, toggle_queue, mark_feed,
}
use feedreader.Handlers.Counts.{computed_article_counts, get_article_counts}
use feedreader.Handlers.Rows.{Outcome}
use feedreader.Handlers.Isolation.{dispatch-Outcome}
use feedreader.Handlers.Coherence.{
  Event, request_event, settings_event, counts_event, happen_all, happen_all-counts,
}

abbrev sample_server : Server
sample_server = record { db = sample_db; counts_cache = new_counts_cache 30 }

-- the first user puts article 2 into the queue
dispatch-Outcome_example :
    Outcome 1 sample_server (dispatch no_faults 100 1 (toggle_queue "2") sample_server)
dispatch-Outcome_example = dispatch-Outcome no_faults 100 1 (toggle_queue "2") sample_server

-- both users look at their counts and send requests, one of which is malformed
abbrev some_events : List Event
some_events =
    counts_event 0 1
    ∷ counts_event 0 2
    ∷ request_event no_faults 5 1 (toggle_star "1")
    ∷ request_event no_faults 6 2 (mark_read "1")
    ∷ counts_event 7 2
    ∷ settings_event no_faults 2 (some (("defaultView", "list") ∷ []))
    ∷ request_event no_faults 8 1 (batch_mark_read (some (pos 2 ∷ pos 9 ∷ [])))
    ∷ counts_event 9 1
    ∷ request_event no_faults 10 2 (mark_feed "x" "day")
    ∷ []

happen_all-counts_example :
    (get_article_counts plain_tools no_faults 20 1
      (happen_all plain_tools no_faults some_events sample_server)).0
    ≡ computed_article_counts plain_tools no_faults
        (happen_all plain_tools no_faults some_events sample_server).db
        1
happen_all-counts_example =
    happen_all-counts plain_tools no_faults some_events sample_server 30 20 1 (refl, (refl, tt))
      refl

-- the first user creates two alerts, one of which does not compile, and deletes the first
abbrev strict_tools : TextTools
strict_tools = record plain_tools { compile_regexp = λ pattern. none }

abbrev alert_request : Bool → AlertRequest
alert_request is_regex = record { name = "n"; pattern = "p"; is_regex = is_regex; match_field = "" }

abbrev alert_events : List AlertEvent
alert_events =
    record {
      faults = no_faults;
      now = 1;
      user = 1;
      route = create_route (some (alert_request false));
    }
    ∷ record {
      faults = no_faults;
      now = 2;
      user = 1;
      route = create_route (some (alert_request true));
    }
    ∷ record { faults = no_faults; now = 3; user = 1; route = delete_route "7" }
    ∷ []

dispatch_alerts-usable_example :
    AllUsable strict_tools (dispatch_alerts strict_tools alert_events sample_server).db
    × (length (
          compile_alerts strict_tools
            (list_alerts_by_user (dispatch_alerts strict_tools alert_events sample_server).db 1))
        ≡ length
            (list_alerts_by_user (dispatch_alerts strict_tools alert_events sample_server).db 1))
dispatch_alerts-usable_example =
    dispatch_alerts-usable strict_tools alert_events sample_server 1 refl

-- the first user stores a view and 90 days, is refused 0 days, and the second has a failing statement
abbrev settings_events : List SettingsEvent
settings_events =
    record {
      faults = no_faults;
      user = 1;
      body = some (("defaultView", "list") ∷ ("retentionDays", "90") ∷ []);
    }
    ∷ record { faults = no_faults; user = 1; body = some (("retentionDays", "0") ∷ []) }
    ∷ record { faults = λ c. true; user = 2; body = some (("retentionDays", "7") ∷ []) }
    ∷ []

update_all-retention_example :
    AllAllowed (update_all settings_events sample_server).db.user_settings
    × (7 ≤ get_user_retention_days no_faults (update_all settings_events sample_server).db 1)
    × (get_user_retention_days no_faults (update_all settings_events sample_server).db 1 ≤ 365)
unfolding setting_allowed
update_all-retention_example = update_all-retention no_faults settings_events sample_server 1 refl

stored_days : get_user_retention_days no_faults (update_all settings_events sample_server).db 1 ≡ 90
unfolding update_all get_user_retention_days get_user_setting
stored_days = refl

-- the view is stored, and the days are refused
abbrev half_allowed : Dict String String
half_allowed = ("defaultView", "list") ∷ ("retentionDays", "0") ∷ []

api_update_settings-front_example :
    (front back : Dict String String) × (half_allowed ≡ front ++ back)
    × (nat_eq (api_update_settings no_faults 1 (some half_allowed) sample_server).0.status 200
        ≡ is_empty back)
    × ((reader : ℕ) (key : String)
        → get_user_setting
            (api_update_settings no_faults 1 (some half_allowed) sample_server).1.db
            reader
            key
          ≡ setting_after front 1 reader key (get_user_setting sample_server.db reader key))
unfolding lookup
api_update_settings-front_example =
    api_update_settings-front no_faults 1 half_allowed sample_server (refl, (refl, tt))
