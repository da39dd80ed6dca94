-- ===== src/Alerts/Steps.antt =====
-- What a step of `EvaluateAlertsForFeed` of srv/alerts.go keeps, all of it keeps.
use feedreader.Prelude.{ℕ, Option, none, some, List, [], ◌∷◌, if_holds}
use feedreader.Strings.{TextTools}
use feedreader.Db.Models.{Article, NewsAlert, Database}
use feedreader.Db.Calls.{Faults, insert_article_alert_call}
use feedreader.Db.Alerts.{insert_article_alert}
use feedreader.Alerts.Evaluate.{
  CompiledAlert, match_one, match_alerts, match_articles, evaluate_articles, evaluate_compiled,
  evaluate_alerts, evaluate_owner, evaluate_alerts_for_feed,
}

module _ (tools : TextTools) (faults : Faults) (now : ℕ) (P : Database → Type 0)
    (step : (article alert : ℕ) (db : Database)
      → P db
      → P (insert_article_alert article alert now db)) where
  match_alerts_induction :
      (a : Article) (compiled : List CompiledAlert) (db : Database)
      → P db
      → P (match_alerts tools faults now a compiled db)
  unfolding match_alerts
  match_alerts_induction a [] db h = h
  match_alerts_induction a (ca ∷ compiled) db h =
      match_alerts_induction a compiled (match_one tools faults now a ca db) (
        if_holds P _ _ db
          (if_holds P (faults (insert_article_alert_call a.id ca.alert.id)) db _ h
            (step a.id ca.alert.id db h))
          h)

  match_articles_induction :
      (compiled : List CompiledAlert) (rows : List Article) (db : Database)
      → P db
      → P (match_articles tools faults now compiled rows db)
  unfolding match_articles
  match_articles_induction compiled [] db h = h
  match_articles_induction compiled (a ∷ rows) db h =
      match_articles_induction compiled rows _ (match_alerts_induction a compiled db h)

  evaluate_articles_induction :
      (compiled : List CompiledAlert) (rows : Option (List Article)) (db : Database)
      → P db
      → P (evaluate_articles tools faults now compiled rows db)
  evaluate_articles_induction compiled none db h = h
  evaluate_articles_induction compiled (some rows) db h =
      match_articles_induction compiled rows db h

  evaluate_compiled_induction :
      (compiled : List CompiledAlert) (feed user : ℕ) (db : Database)
      → P db
      → P (evaluate_compiled tools faults now compiled feed user db)
  evaluate_compiled_induction [] feed user db h = h
  evaluate_compiled_induction (ca ∷ compiled) feed user db h =
      evaluate_articles_induction (ca ∷ compiled) _ db h

  evaluate_owner_induction :
      (owner : Option (Option (Option ℕ))) (feed : ℕ) (db : Database)
      → P db
      → P (evaluate_owner tools faults now owner feed db)
  evaluate_owner_induction none feed db h = h
  evaluate_owner_induction (some none) feed db h = h
  evaluate_owner_induction (some (some none)) feed db h = h
  evaluate_owner_induction (some (some (some user))) feed db h = alerts_induction _
    where
      alerts_induction :
          (found : Option (List NewsAlert))
          → P (evaluate_alerts tools faults now found feed user db)
      alerts_induction none = h
      alerts_induction (some alerts) = evaluate_compiled_induction _ feed user db h

  pub evaluate_alerts_induction :
      (feed : ℕ) (db : Database) → P db → P (evaluate_alerts_for_feed tools faults now feed db)
  unfolding evaluate_alerts_for_feed
  evaluate_alerts_induction feed db h = evaluate_owner_induction _ feed db h
