-- ===== src/Db/Calls.antt =====
-- The calls into db/dbgen that can return an error, and how a result is withheld when one does.
use feedreader.Prelude.Int.{ℤ, pos, negsuc}
use feedreader.Prelude.{ℕ, String, Bool, Option, none, some, if◌then◌else◌, nat_eq, false}

-- One constructor for each query method, with the arguments that tell its calls apart.
pub data Call : Type 0 where
  list_exclusions_by_category_call : ℕ → Call
  list_all_exclusions_call : Call
  list_feed_category_mappings_call : Call
  get_feed_categories_call : ℕ → Call
  list_unread_articles_by_feed_call : ℕ → Call
  list_unread_articles_by_category_call : ℕ → Call
  mark_article_read_call : ℕ → Call
  get_user_setting_call : ℕ → Call
  list_all_user_ids_call : Call
  insert_seen_guids_call : ℕ → Call
  delete_old_unstarred_articles_call : ℕ → Call
  prune_seen_guids_call : ℕ → Call
  is_guid_seen_call : String → Call
  create_article_call : String → Call
  begin_tx_call : Call
  commit_call : Call
  get_or_create_user_call : String → Call
  get_feed_owner_call : ℕ → Call
  list_alerts_by_user_call : ℕ → Call
  list_unread_articles_for_alerts_call : ℕ → Call
  insert_article_alert_call : ℕ → ℕ → Call
  rows_affected_call : Call
  set_article_call : ℤ → Call
  set_articles_call : Call
  is_article_queued_call : Call
  add_to_queue_call : Call
  remove_from_queue_call : Call
  has_exclusion_rules_call : Call
  get_unread_count_call : Call
  get_starred_count_call : Call
  get_queue_count_call : Call
  count_undismissed_alerts_call : Call
  get_all_feed_unread_counts_call : Call
  get_all_category_unread_counts_call : Call
  list_unread_article_filter_inputs_call : Call
  list_feeds_to_fetch_call : Call
  create_alert_call : Call
  update_alert_call : Call
  delete_alert_call : Call
  set_dismissed_call : Call
  increment_feed_errors_call : ℕ → Call
  reset_feed_errors_call : ℕ → Call
  update_feed_site_url_call : ℕ → Call
  update_feed_scraper_config_call : ℕ → Call
  get_scraper_module_call : String → Call
  set_user_setting_call : String → Call

-- Which calls return an error in a run: any of them may.
abbrev pub Faults : Type 0
Faults = Call → Bool

-- `rows, err := q.Query(…)`
abbrev pub ask {ℓ} : {A : Type ℓ} → Faults → Call → A → Option A
ask faults call result = if faults call then none else some result

-- `column = ?` where either side may be NULL: NULL equals nothing
abbrev pub sql_eq : Option ℕ → Option ℕ → Bool
sql_eq none b = false
sql_eq (some a) none = false
sql_eq (some a) (some b) = nat_eq a b

-- `column = ?` for a parameter that may be negative
abbrev pub is_id : ℤ → ℕ → Bool
is_id (pos m) n = nat_eq n m
is_id (negsuc m) n = false

-- `column = 1` at a nullable column
abbrev pub is_one : Option ℕ → Bool
is_one none = false
is_one (some n) = nat_eq n 1

-- `column = 0` at a nullable column
abbrev pub is_zero : Option ℕ → Bool
is_zero none = false
is_zero (some n) = nat_eq n 0
