-- ===== src/Handlers/Settings.antt =====
-- srv/server.go: the handler that stores the settings of a user.
use feedreader.Prelude.{
  ℕ, String, Bool, false, true, Option, none, some, List, [], ◌∷◌, any, ◌==◌, String_eq,
  if◌then◌else◌,
}
use feedreader.Prelude.Dict.{Dict, lookup}
use feedreader.Http.{Response}
use feedreader.Server.{Server}
use feedreader.Db.Models.{Database}
use feedreader.Db.Calls.{Faults, set_user_setting_call}
use feedreader.Db.SeenGuids.{set_user_setting}

abbrev views : List String
views = "card" ∷ "list" ∷ "magazine" ∷ "expanded" ∷ []

-- the values that a key may have; an empty list is any value
abbrev pub valid_settings : Dict String (List String)
valid_settings =
    ("autoMarkRead", "true" ∷ "false" ∷ [])
    ∷ ("hideReadArticles", "hide" ∷ "show" ∷ [])
    ∷ ("hideEmptyFeeds", "hide" ∷ "show" ∷ [])
    ∷ ("defaultFolderView", views)
    ∷ ("defaultFeedView", views)
    ∷ ("defaultView", views)
    ∷ ("retentionDays", "7" ∷ "14" ∷ "30" ∷ "60" ∷ "90" ∷ "180" ∷ "365" ∷ [])
    ∷ ("youtubeApiKey", [])
    ∷ []

abbrev pub in_list : Option (List String) → String → Bool
in_list none value = false
in_list (some []) value = true
in_list (some (a ∷ allowed)) value = any (λ v. v == value) (a ∷ allowed)

unfoldable pub setting_allowed : String → String → Bool
unfolding lookup
setting_allowed key value = in_list (lookup key valid_settings) value

module _ (faults : Faults) (user : ℕ) where
  -- The loop over the body, in the order in which Go visits the map. What was stored before a key
  -- that is refused stays stored.
  unfoldable pub store_settings : Dict String String → Database → Response × Database
  unfolding setting_allowed set_user_setting
  store_settings [] db = (record { status = 200 }, db)
  store_settings ((key, value) ∷ rest) db =
      let stored = store_settings rest (set_user_setting user key value db) in
      if setting_allowed key value
      then (if faults (set_user_setting_call key) then (record { status = 500 }, db) else stored)
      else (record { status = 400 }, db)

  -- the body is `none` where decoding fails; the cache keeps the counts
  unfoldable pub api_update_settings : Option (Dict String String) → Server → Response × Server
  unfolding store_settings
  api_update_settings none s = (record { status = 400 }, s)
  api_update_settings (some body) s =
      let (answer, db) = store_settings body s.db in (answer, record s { db = db })
