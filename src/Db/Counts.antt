-- ===== src/Db/Counts.antt =====
-- db/dbgen: the queries behind the counts that every page shows.
use feedreader.Prelude.{
  ℕ, String, Bool, Option, none, some, List, [], ◌∷◌, ◌++◌, map, ◌+◌, nat_eq, ltb, ◌&&◌, any, keep,
  length, ℕ_eq,
}
use feedreader.Prelude.Dict.{Dict, lookup, insert}
use feedreader.Db.Models.{Article, FeedCategory, Database}
use feedreader.Db.Calls.{is_one, is_zero}
use feedreader.Db.Rules.{owns_category}
use feedreader.Db.Reading.{of_user}

-- `m[k]`, where a missing key reads as 0
abbrev pub at : ℕ → Dict ℕ ℕ → ℕ
at k m = elim (lookup k m) [ none ↦ 0 | some n ↦ n ]

-- `m[k]++`
abbrev pub increment : ℕ → Dict ℕ ℕ → Dict ℕ ℕ
increment k m = insert k (at k m + 1) m

-- GROUP BY a key with its COUNT(*), and the loop that counts rows into a map
unfoldable pub tally : List ℕ → Dict ℕ ℕ → Dict ℕ ℕ
unfolding insert lookup
tally [] m = m
tally (k ∷ ks) m = tally ks (increment k m)

abbrev pub unread : Article → Bool
unread a = is_zero a.is_read

-- the JOIN with `feeds`, whose key repeats no article
abbrev pub articles_of : Database → ℕ → List Article
articles_of db user = keep (of_user db user) db.articles

unfoldable pub get_unread_count : Database → ℕ → ℕ
get_unread_count db user = length (keep unread (articles_of db user))

unfoldable pub get_starred_count : Database → ℕ → ℕ
get_starred_count db user = length (keep (λ a. is_one a.is_starred) (articles_of db user))

unfoldable pub count_undismissed_alerts : Database → ℕ → ℕ
count_undismissed_alerts db user = length (
    keep
      (λ r.
        any (λ n. nat_eq n.id r.alert_id && nat_eq n.user_id user) db.news_alerts
        && nat_eq r.dismissed 0)
      db.article_alerts)

unfoldable pub has_exclusion_rules : Database → ℕ → Bool
has_exclusion_rules db user = ltb 0 (
    length
      (keep (λ e. owns_category db.categories e.category_id (some user)) db.category_exclusions))

-- The rows have no ORDER BY: as a map from a feed to its count.
unfoldable pub get_all_feed_unread_counts : Database → ℕ → Dict ℕ ℕ
unfolding tally
get_all_feed_unread_counts db user =
    tally (map (λ a. a.feed_id) (keep unread (articles_of db user))) []

-- the categories of an article's feed, by the rows of `feed_categories`
abbrev pub joined : List FeedCategory → List Article → List ℕ
joined mappings [] = []
joined mappings (a ∷ rows) =
    map (λ m. m.category_id) (keep (λ m. nat_eq m.feed_id a.feed_id) mappings)
    ++ joined mappings rows

unfoldable pub get_all_category_unread_counts : Database → ℕ → Dict ℕ ℕ
unfolding tally
get_all_category_unread_counts db user =
    tally (joined db.feed_categories (keep unread (articles_of db user))) []

pub record ListUnreadArticleFilterInputsRow : Type 0 where
  pub id : ℕ
  pub feed_id : ℕ
  pub title : String
  pub author : Option String
  pub summary : Option String

unfoldable pub list_unread_article_filter_inputs :
    Database → ℕ → List ListUnreadArticleFilterInputsRow
list_unread_article_filter_inputs db user =
    map
      (λ (a : Article). record {
        id = a.id;
        feed_id = a.feed_id;
        title = a.title;
        author = a.author;
        summary = a.summary;
      })
      (keep unread (articles_of db user))
