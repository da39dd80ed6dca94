-- ===== src/Tests/Articles.antt =====
-- The properties of articles, filters, retention and the counts cache at the sample database.
use mathlib.Core.List.{Memᴰ}
use feedreader.Prelude.{
  ℕ, ◌≡◌, refl, false, not, none, some, List, [], ◌∷◌, ◌+◌, any, keep, map, length, nat_eq,
  if◌then◌else◌, arith,
}
use feedreader.Db.Models.{Article}
use feedreader.Db.SeenGuids.{is_guid_seen, get_user_setting}
use feedreader.Filter.Marking.{
  Article_row, mark_excluded_articles_read_for_feed, mark_excluded_articles_read_for_category,
}
use feedreader.Filter.Lists.{filter_all_articles, filter_articles_by_category}
use feedreader.Filter.Exact.{
  filter_all_articles_exact, filter_articles_by_category_exact, feed_hit, category_hit,
}
use feedreader.Filter.Marked.{UniqueIds, read}
use feedreader.Filter.MarkedExact.{mark_for_category_exact, category_target}
use feedreader.Filter.MarkedFeed.{mark_for_feed_exact, feed_target}
use feedreader.Fetcher.Articles.{has_guid, IsValid, Keeps}
use feedreader.Fetcher.Store.{store_items}
use feedreader.Fetcher.Laws.{store_items-IsValid, store_items-Keeps}
use feedreader.Fetcher.Seen.{store_items_seen, store_items-count, is_stored, Storing, store_all}
use feedreader.CountsCache.{ArticleCounts, get, fresh, invalidate_all}
use feedreader.CountsCache.Laws.{Op, set_op, invalidate_op, run, last_write, get-run}
use feedreader.Server.{Server}
use feedreader.Retention.Cleanup.{
  Stamps, cleanup_user, cleanup, run_cleanup_now, get_user_retention_days,
}
use feedreader.Retention.Gone.{cleaned_article_stays_away}
use feedreader.Retention.Protected.{Held, cleanup-Held}
use feedreader.Retention.Counting.{run_cleanup_now-count, cleanup_user-forgets}
use feedreader.Tests.Sample.{plain_tools, no_faults, article_of, sample_db, two_items}

sample_db-IsValid : IsValid sample_db
sample_db-IsValid = record {
  unique = (refl, refl, (refl, refl, (refl, refl, tt)));
  below = (omega arith, (omega arith, (omega arith, tt)));
}

abbrev advert : Article
advert = article_of 1 1 "a" "an advert" 0

abbrev star : Article
star = article_of 2 1 "b" "a star" 1

abbrev later_on : Article
later_on = article_of 3 1 "c" "for later" 0

-- a week and a day after the articles came in
abbrev round : Stamps
round = record { at_insert = 700000; at_delete = 700001; at_prune = 700002 }

-- the items come again in the feed of the advert and in another one
abbrev two_storings : List Storing
two_storings =
    record { faults = no_faults; feed = 1; now = 800000; items = two_items }
    ∷ record { faults = no_faults; feed = 2; now = 900000; items = two_items }
    ∷ []

cleaned_article_stays_away_example :
    any
      (has_guid 1 "a")
      (store_all two_storings (cleanup_user no_faults 1 round sample_db).0).articles
    ≡ false
unfolding get_user_retention_days get_user_setting
cleaned_article_stays_away_example =
    cleaned_article_stays_away no_faults 1 round sample_db advert two_storings sample_db-IsValid
      (Memᴰ.head refl) refl refl (omega arith) (omega arith) refl refl refl

abbrev server : Server
server = record { db = sample_db; counts_cache = none }

cleanup-Held_example : Held star (cleanup no_faults (λ user. round) server).db
cleanup-Held_example =
    cleanup-Held no_faults star (λ user. round) server (Memᴰ.tail (Memᴰ.head refl), refl)

filter_all_articles_exact_example :
    filter_all_articles plain_tools {A = Article} sample_db no_faults sample_db.articles 1
    ≡ keep (λ a. not (feed_hit plain_tools sample_db 1 a)) sample_db.articles
filter_all_articles_exact_example =
    filter_all_articles_exact plain_tools {A = Article} sample_db no_faults sample_db.articles 1
      refl refl

filter_articles_by_category_exact_example :
    filter_articles_by_category plain_tools {A = Article} sample_db no_faults sample_db.articles 5 1
    ≡ keep (λ a. not (category_hit plain_tools sample_db 5 1 a)) sample_db.articles
filter_articles_by_category_exact_example =
    filter_articles_by_category_exact plain_tools {A = Article} sample_db no_faults
      sample_db.articles 5 1 refl

sample_db-UniqueIds : UniqueIds sample_db.articles
sample_db-UniqueIds = (refl, (refl, (refl, tt)))

mark_for_feed_exact_example :
    mark_excluded_articles_read_for_feed plain_tools no_faults 1 sample_db ≡ record sample_db {
      articles =
          map
            (λ a. if feed_target plain_tools no_faults sample_db 1 a then read a else a)
            sample_db.articles;
    }
mark_for_feed_exact_example =
    mark_for_feed_exact plain_tools no_faults sample_db 1 refl refl (λ c. refl) sample_db-UniqueIds

mark_for_category_exact_example :
    mark_excluded_articles_read_for_category plain_tools no_faults 5 1 sample_db
    ≡ record sample_db {
      articles =
          map
            (λ a. if category_target plain_tools no_faults sample_db 5 1 a then read a else a)
            sample_db.articles;
    }
mark_for_category_exact_example =
    mark_for_category_exact plain_tools no_faults sample_db 5 1 refl refl sample_db-UniqueIds

store_items_seen_example :
    any (has_guid 2 "old") (store_items no_faults 2 900 two_items sample_db).0.articles
    ≡ any (has_guid 2 "old") sample_db.articles
unfolding is_guid_seen
store_items_seen_example =
    store_items_seen no_faults 2 900 "old" two_items sample_db refl (omega arith)

store_items-count_example :
    (store_items no_faults 1 900 two_items sample_db).1
    ≡ length (keep (is_stored no_faults 1 900 sample_db) two_items)
store_items-count_example =
    store_items-count no_faults 1 900 two_items sample_db refl refl (λ guid. refl) (λ guid. refl)

store_items-IsValid_example : IsValid (store_items no_faults 1 900 two_items sample_db).0
store_items-IsValid_example =
    store_items-IsValid no_faults 1 900 two_items sample_db sample_db-IsValid

store_items-Keeps_example :
    (b : Article) × Memᴰ b (store_items no_faults 1 900 two_items sample_db).0.articles
    × Keeps star b
store_items-Keeps_example =
    store_items-Keeps no_faults 1 900 two_items sample_db {a = star} (Memᴰ.tail (Memᴰ.head refl))

run_cleanup_now-count_example :
    (n : ℕ) × ((run_cleanup_now no_faults 1 round server).1 ≡ some (n, false))
    × (n + length (run_cleanup_now no_faults 1 round server).0.db.articles
        ≡ length sample_db.articles)
    × ((run_cleanup_now no_faults 1 round server).0.counts_cache
        ≡ (if nat_eq n 0 then none else invalidate_all none))
run_cleanup_now-count_example = run_cleanup_now-count no_faults 1 round server refl refl

-- two weeks later the first user's cleanup forgets the second user's guid
abbrev late_round : Stamps
late_round = record { at_insert = 1300000; at_delete = 1300000; at_prune = 1300000 }

cleanup_user-forgets_example :
    is_guid_seen (cleanup_user no_faults 1 late_round sample_db).0 2 "old" ≡ 0
unfolding get_user_retention_days get_user_setting
cleanup_user-forgets_example =
    cleanup_user-forgets no_faults 1 late_round sample_db 2 "old" refl refl refl refl

abbrev counts : ArticleCounts
counts = record {
  unread = 3;
  starred = 1;
  queue = 1;
  alerts = 0;
  feed_counts = [];
  cat_counts = [];
}

abbrev writes : List Op
writes = set_op 1 counts 10 ∷ invalidate_op 2 ∷ []

get-run_example :
    get (run writes (some (record { entries = []; ttl = 60 }))) 1 20
    ≡ fresh (last_write 1 none writes) 60 20
get-run_example = get-run writes (record { entries = []; ttl = 60 }) 1 20
