-- ===== src/Handlers/Alerts.antt =====
-- srv/server.go: the handlers that create, change, delete and dismiss news alerts.
use Prim.Native.String
use feedreader.Prelude.{
  ℕ, String, Bool, not, Option, none, some, is_some, ◌==◌, String_eq, ◌&&◌, ◌||◌, if◌then◌else◌,
}
use feedreader.Strings.{TextTools}
use feedreader.Strings.Numbers.{atoi}
use feedreader.Http.{Response}
use feedreader.Server.{Server}
use feedreader.Db.Models.{Database}
use feedreader.Db.Calls.{
  Faults, ask, create_alert_call, update_alert_call, delete_alert_call, set_dismissed_call,
}
use feedreader.Db.AlertRows.{
  CreateAlertParams, create_alert, update_alert, delete_alert, dismiss_all_for_alert,
  dismiss_article_alert, undismiss_article_alert,
}
use feedreader.Handlers.Articles.{parsed, written}

-- the decoded body of a request
pub record AlertRequest : Type 0 where
  pub name : String
  pub pattern : String
  pub is_regex : Bool
  pub match_field : String

-- The requests: a body is `none` where decoding fails, an `{id}` of the path is a text.
pub data AlertRoute : Type 0 where
  create_route : Option AlertRequest → AlertRoute
  update_route : String → Option AlertRequest → AlertRoute
  delete_route : String → AlertRoute
  dismiss_all_route : String → AlertRoute
  dismiss_route : String → AlertRoute
  undismiss_route : String → AlertRoute

abbrev pub is_match_field : String → Bool
is_match_field f = f == "title" || f == "content" || f == "title_and_content"

abbrev pub field_or_default : String → String
field_or_default f = if f == "" then "title_and_content" else f

module _ (tools : TextTools) where
  -- the checks of a request, which are answered with 400, and the columns it sets
  unfoldable pub checked : Option AlertRequest → Option CreateAlertParams
  checked none = none
  checked (some req) =
      if req.name == ""
      then none
      else if req.pattern == ""
      then none
      else if not (is_match_field (field_or_default req.match_field))
      then none
      else if req.is_regex && not (is_some (tools.compile_regexp (String.◌++◌ "(?i)" req.pattern)))
      then none
      else some (record {
        name = req.name;
        pattern = req.pattern;
        is_regex = if req.is_regex then 1 else 0;
        match_field = field_or_default req.match_field;
      })

  -- the row that is written is answered; the cache keeps the counts
  abbrev pub answered_row : Option Database → Server → Response × Server
  answered_row none s = (record { status = 500 }, s)
  answered_row (some db) s = (record { status = 200 }, record s { db = db })

  abbrev pub with_params :
      Option CreateAlertParams → (CreateAlertParams → Option Database) → Server → Response × Server
  with_params none write s = (record { status = 400 }, s)
  with_params (some p) write s = answered_row (write p) s

  module _ (faults : Faults) (now user : ℕ) where
    unfoldable pub api_create_alert : Option AlertRequest → Server → Response × Server
    unfolding checked create_alert
    api_create_alert body s =
        with_params (checked body)
          (λ p. ask faults create_alert_call (create_alert p user now s.db)) s

    unfoldable pub api_update_alert : String → Option AlertRequest → Server → Response × Server
    unfolding atoi checked update_alert
    api_update_alert id body s = parsed (atoi id) s (λ n.
        with_params (checked body)
          (λ p. if faults update_alert_call then none else update_alert p n user s.db) s)

    unfoldable pub api_delete_alert : String → Server → Response × Server
    unfolding atoi delete_alert
    api_delete_alert id s =
        parsed (atoi id) s
          (λ n. written user (ask faults delete_alert_call (delete_alert n user s.db)) s)

    unfoldable pub api_dismiss_all_for_alert : String → Server → Response × Server
    unfolding atoi dismiss_all_for_alert
    api_dismiss_all_for_alert id s =
        parsed (atoi id) s
          (λ n. written user (ask faults set_dismissed_call (dismiss_all_for_alert n user s.db)) s)

    unfoldable pub api_dismiss_article_alert : String → Server → Response × Server
    unfolding atoi dismiss_article_alert
    api_dismiss_article_alert id s =
        parsed (atoi id) s
          (λ n. written user (ask faults set_dismissed_call (dismiss_article_alert n user s.db)) s)

    unfoldable pub api_undismiss_article_alert : String → Server → Response × Server
    unfolding atoi undismiss_article_alert
    api_undismiss_article_alert id s =
        parsed (atoi id) s (λ n.
          written user (ask faults set_dismissed_call (undismiss_article_alert n user s.db)) s)

    unfoldable pub dispatch_alert : AlertRoute → Server → Response × Server
    unfolding api_create_alert api_update_alert api_delete_alert api_dismiss_all_for_alert
        api_dismiss_article_alert api_undismiss_article_alert
    dispatch_alert (create_route body) s = api_create_alert body s
    dispatch_alert (update_route id body) s = api_update_alert id body s
    dispatch_alert (delete_route id) s = api_delete_alert id s
    dispatch_alert (dismiss_all_route id) s = api_dismiss_all_for_alert id s
    dispatch_alert (dismiss_route id) s = api_dismiss_article_alert id s
    dispatch_alert (undismiss_route id) s = api_undismiss_article_alert id s
