-- ===== src/Fetcher/Feeds.antt =====
-- What a fetch of srv/feeds/fetcher.go changes in the table of feeds.
use feedreader.Prelude.{
  ℕ, String, ◌≡◌, refl, ap, ◌∙◌, Bool, true, false, not, Option, some, List, nat_eq, ltb, any,
  any-map, any_congr, ◌&&◌, ◌==◌, String_eq, Bool-cases, inl, inr, if_holds, if◌then◌else◌,
}
use feedreader.Prelude.Results.{ok}
use feedreader.Strings.{TextTools}
use feedreader.Server.{Server}
use feedreader.CountsCache.{CountsCache}
use feedreader.Db.Models.{Feed, Database}
use feedreader.Db.Calls.{Faults, update_feed_site_url_call}
use feedreader.Db.SeenGuids.{CreateArticleParams, create_article, same_article}
use feedreader.Db.Articles.{mark_article_read_internal}
use feedreader.Db.Alerts.{insert_article_alert, same_pair}
use feedreader.Db.Fetching.{update_feed, update_feed_scraper_config, update_feed_site_url}
use feedreader.Fetcher.Store.{FeedItem, article_params, store_items}
use feedreader.Fetcher.Laws.{store_items_induction}
use feedreader.Fetcher.World.{World}
use feedreader.Fetcher.Download.{fetch_items}
use feedreader.Fetcher.Fetch.{
  FetchTimes, set_site, set_fetched, after_store, finish_fetch, on_feed_fetched,
}
use feedreader.Fetcher.Steps.{fetch_items_induction, on_feed_fetched_induction}

-- a test that an UPDATE of one feed does not change, or changes into another test
pub any-update_feed :
    (p q : Feed → Bool) (id : ℕ) (g : Feed → Feed) (db : Database)
    → ((f : Feed) → nat_eq f.id id ≡ true → p (g f) ≡ q f)
    → ((f : Feed) → nat_eq f.id id ≡ false → p f ≡ q f)
    → any p (update_feed id g db).feeds ≡ any q db.feeds
any-update_feed p q id g db h k =
    any-map p (λ f. if nat_eq f.id id then g f else f) db.feeds
    ∙ any_congr (λ f. p (if nat_eq f.id id then g f else f)) q db.feeds each
  where
    each : (f : Feed) → p (if nat_eq f.id id then g f else f) ≡ q f
    each f = elim (Bool-cases (nat_eq f.id id)) [ inl e ↦ rw e (h f e) | inr e ↦ rw e (k f e) ]

create_article-feeds :
    (p : CreateArticleParams) (now : ℕ) (db : Database) → (create_article p now db).feeds ≡ db.feeds
unfolding create_article
create_article-feeds p now db =
    if_holds (λ (d : Database). d.feeds ≡ db.feeds) (any (same_article p) db.articles) _ _ refl refl

insert-feeds :
    (article alert now : ℕ) (db : Database)
    → (insert_article_alert article alert now db).feeds ≡ db.feeds
unfolding insert_article_alert
insert-feeds article alert now db =
    if_holds (λ (d : Database). d.feeds ≡ db.feeds)
      (any (same_pair article alert) db.article_alerts) _ _ refl refl

mark-feeds : (id : ℕ) (db : Database) → (mark_article_read_internal id db).feeds ≡ db.feeds
unfolding mark_article_read_internal
mark-feeds id db = refl

module _ (world : World) (tools : TextTools) (faults : Faults) (times : FetchTimes) where
  after_store-feeds :
      (feed inserted : ℕ) (cache : Option CountsCache) (db : Database)
      → (after_store world tools faults times feed cache (db, inserted)).db.feeds ≡ db.feeds
  after_store-feeds feed inserted cache db =
      if_holds (λ (t : Server). t.db.feeds ≡ db.feeds) (ltb 0 inserted)
        (on_feed_fetched tools faults times.downloaded feed s) s
        (on_feed_fetched_induction world tools faults times (λ d. d.feeds ≡ db.feeds)
          (λ id d h. mark-feeds id d ∙ h)
          (λ article alert d h. insert-feeds article alert times.downloaded d ∙ h) feed s refl)
        refl
    where
      s : Server
      s = record { db = db; counts_cache = cache }

  store_items-feeds :
      (feed now : ℕ) (items : List FeedItem) (db : Database)
      → (store_items faults feed now items db).0.feeds ≡ db.feeds
  store_items-feeds feed now items db =
      store_items_induction faults feed now (λ d. d.feeds ≡ db.feeds)
        (λ item d h. create_article-feeds (article_params feed item) now d ∙ h) items db refl

  -- a test on the columns that neither the configuration nor the site URL is
  module _ (p : Feed → Bool)
      (config_free : (f : Feed) (c : String) (n : ℕ)
        → p (record f { scraper_config = some c; updated_at = n }) ≡ p f)
      (site_free : (f : Feed) (u : String) → p (record f { site_url = u }) ≡ p f) where
    pub fetch_items-any :
        (feed : Feed) (db : Database)
        → any p (fetch_items world faults times.downloaded feed db).1.feeds ≡ any p db.feeds
    unfolding update_feed_scraper_config
    fetch_items-any feed db =
        fetch_items_induction world faults times.downloaded (λ d. any p d.feeds ≡ any p db.feeds)
          feed (λ c d h. config_step c d ∙ h) db refl
      where
        config_step :
            (c : String) (d : Database)
            → any p (update_feed_scraper_config c times.downloaded feed.id d).feeds ≡ any p d.feeds
        config_step c d =
            any-update_feed p p feed.id
              (λ f. record f { scraper_config = some c; updated_at = times.downloaded }) d
              (λ f e. config_free f c times.downloaded) (λ f e. refl)

    set_site-any :
        (feed : Feed) (site : String) (db : Database)
        → any p (set_site world tools faults times feed site db).feeds ≡ any p db.feeds
    unfolding update_feed_site_url
    set_site-any feed site db =
        if_holds (λ (d : Database). any p d.feeds ≡ any p db.feeds)
          ((not (site == "") && not (site == feed.site_url))
            && not (faults (update_feed_site_url_call feed.id)))
          (update_feed_site_url site feed.id db) db
          (any-update_feed p p feed.id (λ f. record f { site_url = site }) db
            (λ f e. site_free f site) (λ f e. refl))
          refl

    -- behind the UPDATE of the status, nothing that a fetch does is seen by the test
    pub finish-any :
        (feed : Feed) (cache : Option CountsCache) (items : List FeedItem) (site : String)
        (db : Database)
        → any p (finish_fetch world tools faults times feed cache (ok (items, site), db)).1.db.feeds
          ≡ any p (set_fetched world tools faults times feed.id db).feeds
    finish-any feed cache items site db =
        let fetched = set_fetched world tools faults times feed.id db in
        let sited = set_site world tools faults times feed site fetched in
        let (stored, inserted) = store_items faults feed.id times.downloaded items sited in
        ap (any p) (
          after_store-feeds feed.id inserted cache stored
          ∙ store_items-feeds feed.id times.downloaded items sited)
        ∙ set_site-any feed site fetched
