-- ===== src/Handlers/Counts.antt =====
-- srv/server.go: `getArticleCounts` and `getFilteredArticleCounts`. An error of a query is dropped,
-- and its result is then zero, false or empty.
use feedreader.Prelude.{
  ℕ, Bool, false, Option, none, some, List, [], ◌∷◌, ◌++◌, map, length, if◌then◌else◌, ℕ_eq,
}
use feedreader.Prelude.Dict.{Dict, lookup, insert}
use feedreader.Strings.{TextTools}
use feedreader.Server.{Server}
use feedreader.CountsCache.{ArticleCounts, get, set}
use feedreader.Db.Models.{FeedCategory, Database}
use feedreader.Db.Calls.{
  Faults, ask, has_exclusion_rules_call, get_unread_count_call, get_starred_count_call,
  get_queue_count_call, count_undismissed_alerts_call, get_all_feed_unread_counts_call,
  get_all_category_unread_counts_call, list_unread_article_filter_inputs_call,
  list_feed_category_mappings_call,
}
use feedreader.Db.Rules.{list_feed_category_mappings}
use feedreader.Db.Queue.{get_queue_count}
use feedreader.Db.Counts.{
  tally, get_unread_count, get_starred_count, count_undismissed_alerts, has_exclusion_rules,
  get_all_feed_unread_counts, get_all_category_unread_counts, ListUnreadArticleFilterInputsRow,
  list_unread_article_filter_inputs,
}
use feedreader.Filter.Rules.{Row}
use feedreader.Filter.Lists.{filter_all_articles}
use feedreader.Handlers.Articles.{or_zero}

instance abbrev pub FilterInputs_row : Row ListUnreadArticleFilterInputsRow
FilterInputs_row = record {
  feed_id = λ r. r.feed_id;
  title = λ r. r.title;
  summary = λ r. r.summary;
  author = λ r. r.author;
}

abbrev or_empty {ℓ} : {A : Type ℓ} → Option (List A) → List A
or_empty none = []
or_empty (some xs) = xs

abbrev or_false : Option Bool → Bool
or_false none = false
or_false (some b) = b

-- the loop that keeps the first category of each feed
unfoldable pub first_category : List FeedCategory → Dict ℕ ℕ → Dict ℕ ℕ
unfolding lookup insert
first_category [] m = m
first_category (r ∷ rows) m =
    first_category rows
      (elim (lookup r.feed_id m) [ none ↦ insert r.feed_id r.category_id m | some c ↦ m ])

-- the categories whose counters the last loop raises
abbrev pub attributed : Dict ℕ ℕ → List ListUnreadArticleFilterInputsRow → List ℕ
attributed feed_to_cat [] = []
attributed feed_to_cat (r ∷ rows) =
    elim (lookup r.feed_id feed_to_cat) [ none ↦ [] | some c ↦ c ∷ [] ]
    ++ attributed feed_to_cat rows

module _ (tools : TextTools) (faults : Faults) (db : Database) (user : ℕ) where
  abbrev pub shown_rows : List ListUnreadArticleFilterInputsRow
  shown_rows =
      filter_all_articles tools db faults
        (or_empty (
          ask faults list_unread_article_filter_inputs_call
            (list_unread_article_filter_inputs db user)))
        user

  abbrev feed_to_cat : Dict ℕ ℕ
  feed_to_cat =
      first_category
        (or_empty (
          ask faults list_feed_category_mappings_call (list_feed_category_mappings db (some user))))
        []

  -- the counts that `getFilteredArticleCounts` stores and returns
  unfoldable pub filtered_article_counts : ArticleCounts
  unfolding filter_all_articles list_unread_article_filter_inputs list_feed_category_mappings
      first_category tally get_starred_count get_queue_count count_undismissed_alerts
  filtered_article_counts = record {
    unread = length shown_rows;
    starred = or_zero (ask faults get_starred_count_call (get_starred_count db user));
    queue = or_zero (ask faults get_queue_count_call (get_queue_count db user));
    alerts = or_zero (ask faults count_undismissed_alerts_call (count_undismissed_alerts db user));
    feed_counts = tally (map (λ r. r.feed_id) shown_rows) [];
    cat_counts = tally (attributed feed_to_cat shown_rows) [];
  }

  -- the counts of the fast path
  unfoldable pub direct_article_counts : ArticleCounts
  unfolding get_unread_count get_starred_count get_queue_count count_undismissed_alerts
      get_all_feed_unread_counts get_all_category_unread_counts
  direct_article_counts = record {
    unread = or_zero (ask faults get_unread_count_call (get_unread_count db user));
    starred = or_zero (ask faults get_starred_count_call (get_starred_count db user));
    queue = or_zero (ask faults get_queue_count_call (get_queue_count db user));
    alerts = or_zero (ask faults count_undismissed_alerts_call (count_undismissed_alerts db user));
    feed_counts =
        or_empty (ask faults get_all_feed_unread_counts_call (get_all_feed_unread_counts db user));
    cat_counts =
        or_empty
          (ask faults get_all_category_unread_counts_call (get_all_category_unread_counts db user));
  }

  unfoldable pub computed_article_counts : ArticleCounts
  unfolding filtered_article_counts direct_article_counts has_exclusion_rules
  computed_article_counts =
      if or_false (ask faults has_exclusion_rules_call (has_exclusion_rules db user))
      then filtered_article_counts
      else direct_article_counts

-- cached counts are returned as they are; computed ones are stored first
abbrev pub counts_or :
    TextTools → Faults → ℕ → ℕ → Server → Option ArticleCounts → ArticleCounts × Server
counts_or tools faults now user s (some cached) = (cached, s)
counts_or tools faults now user s none =
    let counts = computed_article_counts tools faults s.db user in
    (counts, record s { counts_cache = set s.counts_cache user counts now })

unfoldable pub get_article_counts : TextTools → Faults → ℕ → ℕ → Server → ArticleCounts × Server
unfolding get set computed_article_counts
get_article_counts tools faults now user s =
    counts_or tools faults now user s (get s.counts_cache user now)
