-- ===== src/Fetcher/Hook.antt =====
-- srv/server.go: the hook after a fetch, over the tables: rules first, then alerts, then the counts.
use feedreader.Prelude.{
  ℕ, ◌≡◌, refl, ap, ◌∙◌, Bool, false, not, Option, some, List, [], ◌∷◌, map, nat_eq, any, any-map,
  any_congr, ◌&&◌, ◌||◌, Bool-cases, inl, inr, arith, if_holds, if◌then◌else◌,
}
use feedreader.Strings.{TextTools}
use feedreader.Server.{Server}
use feedreader.CountsCache.{CountsCache, invalidate}
use feedreader.Db.Models.{Article, Database}
use feedreader.Db.Calls.{
  Faults, Call, ask, is_zero, get_feed_categories_call, list_unread_articles_by_feed_call,
  list_exclusions_by_category_call, get_feed_owner_call, list_alerts_by_user_call,
  list_unread_articles_for_alerts_call, insert_article_alert_call, mark_article_read_call,
}
use feedreader.Db.Alerts.{get_feed_owner, insert_article_alert, is_unread_of, same_pair}
use feedreader.Filter.Marking.{mark_excluded_articles_read_for_feed}
use feedreader.Filter.Marked.{UniqueIds, read}
use feedreader.Filter.MarkedFeed.{feed_rule_hit, feed_target, mark_for_feed_exact}
use feedreader.Alerts.Evaluate.{evaluate_alerts_for_feed}
use feedreader.Alerts.Matched.{holds, owned_match, evaluate_alerts_for_feed-holds}
use feedreader.Alerts.Steps.{evaluate_alerts_induction}
use feedreader.Fetcher.Fetch.{drop_counts, on_feed_fetched}

any-false {ℓ} :
    {A : Type ℓ} (p : A → Bool) (xs : List A) → ((x : A) → p x ≡ false) → any p xs ≡ false
any-false p [] h = refl
any-false p (x ∷ xs) h = rw (h x) (any-false p xs h)

module _ (tools : TextTools) (faults : Faults) (feed : ℕ) where
  -- an unread article of the feed that a rule hits
  abbrev pub missed : Database → Article → Bool
  missed db a = (nat_eq a.feed_id feed && is_zero a.is_read) && feed_rule_hit tools faults db feed a

  -- what the rules leave of an article
  abbrev marked : Database → Article → Article
  marked db a = if feed_target tools faults db feed a then read a else a

  -- an unread article of the user's feed that no rule hits
  abbrev pub remains : ℕ → Database → Article → Bool
  remains user db a = is_unread_of db feed user a && not (feed_rule_hit tools faults db feed a)

module _ (tools : TextTools) (faults : Faults) (now feed user : ℕ)
    (fine : (c : Call) → faults c ≡ false) where
  alerted-marked :
      (db : Database) (p : Article → Bool) (a : Article)
      → (is_unread_of db feed user (marked tools faults feed db a)
          && p (marked tools faults feed db a))
        ≡ (remains tools faults feed user db a && p a)
  alerted-marked db p a = elim (Bool-cases (feed_target tools faults db feed a)) [
    | inl e ↦ rw e (ground (arith, fine (mark_article_read_call a.id)))
    | inr e ↦ rw e (ground (arith, fine (mark_article_read_call a.id)))
  ]

  missed-marked :
      (db : Database) (a : Article)
      → missed tools faults feed db (marked tools faults feed db a) ≡ false
  missed-marked db a = elim (Bool-cases (feed_target tools faults db feed a)) [
    | inl e ↦ rw e (ground arith)
    | inr e ↦ rw e (ground (arith, fine (mark_article_read_call a.id)))
  ]

  insert-missed :
      (article alert : ℕ) (d : Database)
      → any (missed tools faults feed d) d.articles ≡ false
      → (let d' = insert_article_alert article alert now d in
          any (missed tools faults feed d') d'.articles ≡ false)
  unfolding insert_article_alert
  insert-missed article alert d h =
      if_holds (λ (d' : Database). any (missed tools faults feed d') d'.articles ≡ false)
        (any (same_pair article alert) d.article_alerts) _ _ h h

  insert-owner :
      (article alert : ℕ) (d : Database)
      → get_feed_owner d feed ≡ some (some user)
      → get_feed_owner (insert_article_alert article alert now d) feed ≡ some (some user)
  unfolding insert_article_alert get_feed_owner
  insert-owner article alert d h =
      if_holds (λ (d' : Database). get_feed_owner d' feed ≡ some (some user))
        (any (same_pair article alert) d.article_alerts) _ _ h h

  marked-owner :
      (articles : List Article) (d : Database)
      → get_feed_owner d feed ≡ some (some user)
      → get_feed_owner (record d { articles = articles }) feed ≡ some (some user)
  unfolding get_feed_owner
  marked-owner articles d h = h

  drop_counts-owner :
      (d : Database) (cache : Option CountsCache)
      → get_feed_owner d feed ≡ some (some user)
      → drop_counts tools faults now
          (ask faults (get_feed_owner_call feed) (get_feed_owner d feed))
          cache
        ≡ invalidate cache user
  drop_counts-owner d cache h = rw (fine (get_feed_owner_call feed), h) refl

  -- With every statement answered and distinct article keys, the hook of a feed that a user owns
  -- leaves no unread article of the feed that a rule of its categories hits; an alert then holds
  -- an article just if it held it before, or the article is an unread one of the feed that no rule
  -- hits and the alert is the owner's, compiles and matches; and the owner's counts are dropped.
  pub on_feed_fetched-exact :
      (article alert : ℕ) (s : Server)
      → UniqueIds s.db.articles
      → get_feed_owner s.db feed ≡ some (some user)
      → (let s' = on_feed_fetched tools faults now feed s in
          (any (missed tools faults feed s'.db) s'.db.articles ≡ false)
          × (holds article alert s'.db ≡ (
              holds article alert s.db
              || any
                  (λ a.
                    remains tools faults feed user s.db a
                    && any (owned_match tools faults now article alert user a) s.db.news_alerts)
                  s.db.articles))
          × (s'.counts_cache ≡ invalidate s.counts_cache user))
  unfolding on_feed_fetched
  on_feed_fetched-exact article alert s unique owner = rw marks (
    evaluate_alerts_induction tools faults now
        (λ d. any (missed tools faults feed d) d.articles ≡ false) insert-missed feed db
        (any-map (missed tools faults feed s.db) (marked tools faults feed s.db) s.db.articles
          ∙ any-false (λ a. missed tools faults feed s.db (marked tools faults feed s.db a))
              s.db.articles (missed-marked s.db)),
    evaluate_alerts_for_feed-holds tools faults now article alert feed user db owned
          (fine (get_feed_owner_call feed)) (fine (list_alerts_by_user_call user))
          (fine (list_unread_articles_for_alerts_call feed))
          (λ i j. fine (insert_article_alert_call i j))
        ∙ ap (λ b. holds article alert s.db || b)
            (any-map alerted (marked tools faults feed s.db) s.db.articles
              ∙ any_congr (λ a. alerted (marked tools faults feed s.db a))
                  (λ a.
                    remains tools faults feed user s.db a
                    && any (owned_match tools faults now article alert user a) s.db.news_alerts)
                  s.db.articles
                  (λ a.
                    alerted-marked s.db
                      (λ a.
                        any (owned_match tools faults now article alert user a) s.db.news_alerts)
                      a)),
    drop_counts-owner (evaluate_alerts_for_feed tools faults now feed db) s.counts_cache (
        evaluate_alerts_induction tools faults now (λ d. get_feed_owner d feed ≡ some (some user))
          insert-owner feed db owned),
  )
    where
      db : Database
      db = record s.db { articles = map (marked tools faults feed s.db) s.db.articles }

      owned : get_feed_owner db feed ≡ some (some user)
      owned = marked-owner (map (marked tools faults feed s.db) s.db.articles) s.db owner

      alerted : Article → Bool
      alerted a =
          is_unread_of s.db feed user a
          && any (owned_match tools faults now article alert user a) s.db.news_alerts

      marks : mark_excluded_articles_read_for_feed tools faults feed s.db ≡ db
      marks =
          mark_for_feed_exact tools faults s.db feed (fine (get_feed_categories_call feed))
            (fine (list_unread_articles_by_feed_call feed))
            (λ c. fine (list_exclusions_by_category_call c)) unique
