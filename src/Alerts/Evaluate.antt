-- ===== src/Alerts/Evaluate.antt =====
-- srv/alerts.go: `alertMatches` and `EvaluateAlertsForFeed`.
use Prim.Native.String
use feedreader.Prelude.{
  ℕ, String, Bool, false, Option, none, some, List, [], ◌∷◌, nat_eq, any, ◌==◌, String_eq,
  if◌then◌else◌,
}
use feedreader.Strings.{TextTools, contains, to_lower}
use feedreader.Filter.Rules.{ptr_to_str}
use feedreader.Db.Models.{Article, NewsAlert, Database}
use feedreader.Db.Calls.{
  Faults, ask, get_feed_owner_call, list_alerts_by_user_call, list_unread_articles_for_alerts_call,
  insert_article_alert_call,
}
use feedreader.Db.Alerts.{
  get_feed_owner, list_alerts_by_user, list_unread_articles_by_feed_for_alerts,
  insert_article_alert,
}

-- an alert with its regular expression; `re` is nil for a plain keyword
pub record CompiledAlert : Type 0 where
  pub alert : NewsAlert
  pub re : Option (String → Bool)

module _ (tools : TextTools) where
  abbrev pub matches_text : CompiledAlert → String → Bool
  matches_text ca text = if text == "" then false else elim ca.re [
    | some re ↦ re text
    | none ↦ contains (to_lower tools text) (to_lower tools ca.alert.pattern)
  ]

  -- the `switch` of the fields
  abbrev pub fields_of : String → String → String → List String
  fields_of match_field title summary =
      if match_field == "title"
      then title ∷ []
      else if match_field == "content"
      then summary ∷ []
      else title ∷ summary ∷ []

  -- an empty field stands for both texts, which is what the default of the `switch` takes
  unfoldable pub alert_matches : CompiledAlert → String → String → Bool
  unfolding contains to_lower
  alert_matches ca title summary =
      any (matches_text ca) (fields_of ca.alert.match_field title summary)

  abbrev pub with_regexp : NewsAlert → Option (String → Bool) → Option CompiledAlert
  with_regexp a none = none
  with_regexp a (some re) = some (record { alert = a; re = some re })

  -- `none` is a pattern that does not compile, which is skipped
  unfoldable pub compile_alert : NewsAlert → Option CompiledAlert
  compile_alert a =
      if nat_eq a.is_regex 0
      then some (record { alert = a; re = none })
      else with_regexp a (tools.compile_regexp (String.◌++◌ "(?i)" a.pattern))

  abbrev pub add_compiled : Option CompiledAlert → List CompiledAlert → List CompiledAlert
  add_compiled none rest = rest
  add_compiled (some ca) rest = ca ∷ rest

  unfoldable pub compile_alerts : List NewsAlert → List CompiledAlert
  unfolding compile_alert
  compile_alerts [] = []
  compile_alerts (a ∷ alerts) = add_compiled (compile_alert a) (compile_alerts alerts)

  module _ (faults : Faults) (now : ℕ) where
    -- one round of the inner loop: an INSERT that fails is logged and skipped
    abbrev pub match_one : Article → CompiledAlert → Database → Database
    match_one a ca db =
        if alert_matches ca a.title (ptr_to_str a.summary)
        then if faults (insert_article_alert_call a.id ca.alert.id)
          then db
          else insert_article_alert a.id ca.alert.id now db
        else db

    unfoldable pub match_alerts : Article → List CompiledAlert → Database → Database
    unfolding alert_matches insert_article_alert
    match_alerts a [] db = db
    match_alerts a (ca ∷ compiled) db = match_alerts a compiled (match_one a ca db)

    unfoldable pub match_articles : List CompiledAlert → List Article → Database → Database
    unfolding match_alerts
    match_articles compiled [] db = db
    match_articles compiled (a ∷ articles) db =
        match_articles compiled articles (match_alerts a compiled db)

    abbrev pub evaluate_articles : List CompiledAlert → Option (List Article) → Database → Database
    evaluate_articles compiled none db = db
    evaluate_articles compiled (some articles) db = match_articles compiled articles db

    -- `len(compiled) == 0` returns before the query of articles
    abbrev pub evaluate_compiled : List CompiledAlert → ℕ → ℕ → Database → Database
    evaluate_compiled [] feed user db = db
    evaluate_compiled (ca ∷ compiled) feed user db =
        evaluate_articles (ca ∷ compiled)
          (ask faults (list_unread_articles_for_alerts_call feed)
            (list_unread_articles_by_feed_for_alerts db feed user))
          db

    -- no alerts give no compiled alerts, so the early return on none is the one above
    abbrev pub evaluate_alerts : Option (List NewsAlert) → ℕ → ℕ → Database → Database
    evaluate_alerts none feed user db = db
    evaluate_alerts (some alerts) feed user db =
        evaluate_compiled (compile_alerts alerts) feed user db

    abbrev pub evaluate_owner : Option (Option (Option ℕ)) → ℕ → Database → Database
    evaluate_owner none feed db = db
    evaluate_owner (some none) feed db = db
    evaluate_owner (some (some none)) feed db = db
    evaluate_owner (some (some (some user))) feed db =
        evaluate_alerts (ask faults (list_alerts_by_user_call user) (list_alerts_by_user db user))
          feed user db

    unfoldable pub evaluate_alerts_for_feed : ℕ → Database → Database
    unfolding compile_alerts match_articles
    evaluate_alerts_for_feed feed db =
        evaluate_owner (ask faults (get_feed_owner_call feed) (get_feed_owner db feed)) feed db
