-- ===== src/Handlers/Isolation.antt =====
-- srv/server.go: what a request of one user leaves alone.
use feedreader.Prelude.{
  if_holds, ℕ, String, ◌≡◌, refl, Bool, Option, none, some, List, [], ◌∷◌, ltb, ◌&&◌, length, inl,
  inr, String_eq,
}
use feedreader.Prelude.Int.{ℤ}
use feedreader.Strings.Numbers.{atoi}
use feedreader.Server.{Server}
use feedreader.Db.Models.{Article, Database}
use feedreader.Db.Calls.{
  Faults, Call, ask, is_id, is_zero, set_article_call, set_articles_call, add_to_queue_call,
}
use feedreader.Db.Reading.{
  of_user, date, update_where, set_is_read, sql_not, in_category, mark_article_read,
  mark_article_unread, toggle_article_star, mark_all_articles_read,
  mark_all_articles_read_older_than, mark_feed_read, mark_feed_articles_read_older_than,
  mark_category_read, mark_category_articles_read_older_than,
}
use feedreader.Db.SeenGuids.{older_than}
use feedreader.Handlers.Articles.{
  Route, mark_read, batch_mark_read, mark_unread, toggle_star, toggle_queue, remove_queued,
  mark_all_read, mark_feed, mark_category, written, by_age, removed, added, mark_batch,
  api_mark_read, api_batch_mark_read, api_mark_unread, api_toggle_star, api_toggle_queue,
  api_remove_from_queue, api_mark_all_read, api_mark_feed_read, api_mark_category_read, dispatch,
}
use feedreader.Handlers.Rows.{
  OnlyOf, OnOk, OnlyOf-refl, OnlyOf-update_where, ask-OnOk, remove_from_queue-OnlyOf,
  add_to_queue-OnlyOf, Outcome, written-Outcome, parsed-Outcome, by_age_holds,
}

module _ (faults : Faults) (now user : ℕ) where
  mark_batch-OnlyOf :
      (db : Database) (ids : List ℤ) (d : Database)
      → OnlyOf user db d
      → OnlyOf user db (mark_batch faults now user ids d)
  unfolding mark_batch mark_article_read
  mark_batch-OnlyOf db [] d h = h
  mark_batch-OnlyOf db (id ∷ ids) d h = mark_batch-OnlyOf db ids _ (
      if_holds (OnlyOf user db) (faults (set_article_call id)) d (mark_article_read id user d) h
        (OnlyOf-update_where user db (λ a. is_id id a.id) (set_is_read 1) d (λ a. refl) h))

  -- an UPDATE of the user's articles, as a handler runs it
  update-Outcome :
      (call : Call) (s : Server) (w : Article → Bool) (f : Article → Article)
      → ((a : Article) → (f a).feed_id ≡ a.feed_id)
      → Outcome user s
          (written user (ask faults call (update_where (λ a. w a && of_user s.db user a) f s.db)) s)
  update-Outcome call s w f same = written-Outcome user _ s (
      ask-OnOk user s.db (OnlyOf user s.db) faults call _
        (OnlyOf-update_where user s.db w f s.db same (OnlyOf-refl user s.db)))

  aged-Outcome :
      (call : Call) (age : String) (s : Server) (older : ℕ → Article → Bool) (all : Article → Bool)
      → Outcome user s (
          written user
            (ask faults call (
              by_age age
                (λ days.
                  update_where (λ a. older days a && of_user s.db user a) (set_is_read 1) s.db)
                (update_where (λ a. all a && of_user s.db user a) (set_is_read 1) s.db)))
            s)
  aged-Outcome call age s older all = written-Outcome user _ s (
      ask-OnOk user s.db (OnlyOf user s.db) faults call _ (
        by_age_holds (OnlyOf user s.db) age _ _
          (λ days.
            OnlyOf-update_where user s.db (older days) (set_is_read 1) s.db (λ a. refl)
              (OnlyOf-refl user s.db))
          (OnlyOf-update_where user s.db all (set_is_read 1) s.db (λ a. refl)
            (OnlyOf-refl user s.db))))

  OnlyOf-self : (s : Server) → OnlyOf user s.db s.db
  OnlyOf-self s = OnlyOf-refl user s.db

  batch-Outcome :
      (ids : Option (List ℤ)) (s : Server)
      → Outcome user s (api_batch_mark_read faults now user ids s)
  unfolding api_batch_mark_read
  batch-Outcome none s = inl refl
  batch-Outcome (some []) s = inl refl
  batch-Outcome (some (id ∷ ids)) s =
      if_holds (Outcome user s) (ltb 200 (length (id ∷ ids))) _ _ (inl refl)
        (inr (refl, mark_batch-OnlyOf s.db (id ∷ ids) s.db (OnlyOf-self s), refl))

  removed-Outcome :
      (article : ℤ) (s : Server)
      → Outcome user s (written user (removed faults now user article s.db) s)
  removed-Outcome article s = written-Outcome user _ s (
      ask-OnOk user s.db (OnlyOf user s.db) faults _ _ (remove_from_queue-OnlyOf user article s.db))

  added-Outcome :
      (article : ℤ) (s : Server)
      → Outcome user s (written user (added faults now user article s.db) s)
  added-Outcome article s = written-Outcome user _ s (
      if_holds (OnOk user s.db (OnlyOf user s.db)) (faults add_to_queue_call) none _ tt
        (add_to_queue-OnlyOf now user article s.db))

  -- A request of a user to mark, star or queue articles (one of `Route`), whichever statement fails
  -- and whatever the identifiers, the age and the body are, either leaves the server as it is, or is
  -- answered with 200, changes only articles of the user's feeds and rows of the user's queue, and
  -- drops the user's counts from the cache.
  pub dispatch-Outcome :
      (route : Route) (s : Server) → Outcome user s (dispatch faults now user route s)
  unfolding dispatch api_mark_read api_mark_unread api_toggle_star api_toggle_queue
      api_remove_from_queue api_mark_all_read api_mark_feed_read api_mark_category_read
      mark_article_read mark_article_unread toggle_article_star mark_all_articles_read
      mark_all_articles_read_older_than mark_feed_read mark_feed_articles_read_older_than
      mark_category_read mark_category_articles_read_older_than
  dispatch-Outcome (mark_read id) s =
      parsed-Outcome user (atoi id) s _
        (λ n. update-Outcome (set_article_call n) s (λ a. is_id n a.id) (set_is_read 1) (λ a. refl))
  dispatch-Outcome (batch_mark_read ids) s = batch-Outcome ids s
  dispatch-Outcome (mark_unread id) s =
      parsed-Outcome user (atoi id) s _
        (λ n. update-Outcome (set_article_call n) s (λ a. is_id n a.id) (set_is_read 0) (λ a. refl))
  dispatch-Outcome (toggle_star id) s = parsed-Outcome user (atoi id) s _ (λ n.
      update-Outcome (set_article_call n) s (λ a. is_id n a.id)
        (λ a. record a { is_starred = sql_not a.is_starred }) (λ a. refl))
  dispatch-Outcome (toggle_queue id) s = parsed-Outcome user (atoi id) s _ (λ n.
      if_holds (λ o. Outcome user s (written user o s)) _ _ _ (removed-Outcome n s)
        (added-Outcome n s))
  dispatch-Outcome (remove_queued id) s =
      parsed-Outcome user (atoi id) s _ (λ n. removed-Outcome n s)
  dispatch-Outcome (mark_all_read age) s =
      aged-Outcome set_articles_call age s
        (λ days a. is_zero a.is_read && older_than days now (date a)) (λ a. is_zero a.is_read)
  dispatch-Outcome (mark_feed id age) s = parsed-Outcome user (atoi id) s _ (λ n.
      aged-Outcome set_articles_call age s
        (λ days a. (is_id n a.feed_id && is_zero a.is_read) && older_than days now (date a))
        (λ a. is_id n a.feed_id))
  dispatch-Outcome (mark_category id age) s = parsed-Outcome user (atoi id) s _ (λ n.
      aged-Outcome set_articles_call age s
        (λ days a.
          (in_category s.db n a.feed_id && is_zero a.is_read) && older_than days now (date a))
        (λ a. in_category s.db n a.feed_id))
