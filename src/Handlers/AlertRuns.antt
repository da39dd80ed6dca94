-- ===== src/Handlers/AlertRuns.antt =====
-- srv/server.go and srv/alerts.go: after any requests on alerts, an evaluation skips none.
use feedreader.Prelude.{
  ℕ, suc, ◌≡◌, refl, ap, ◌∙◌, true, false, not, Option, none, some, List, [], ◌∷◌, nat_eq, ltb, any,
  keep, length, Bool-cases, Option-cases, inl, inr, arith, if_holds,
}
use Prim.Native.String
use feedreader.Prelude.Sorting.{any-order_by}
use feedreader.Prelude.Int.{ℤ}
use feedreader.Strings.{TextTools}
use feedreader.Strings.Numbers.{atoi}
use feedreader.Http.{Response}
use feedreader.Server.{Server}
use feedreader.Db.Models.{NewsAlert, Database}
use feedreader.Db.Calls.{
  Faults, Call, ask, update_alert_call, delete_alert_call, set_dismissed_call, create_alert_call,
}
use feedreader.Db.Alerts.{list_alerts_by_user}
use feedreader.Db.AlertRows.{
  CreateAlertParams, alert_of, delete_alert, dismiss_all_for_alert, dismiss_article_alert,
  undismiss_article_alert,
}
use feedreader.Alerts.Evaluate.{compile_alert, compile_alerts, CompiledAlert}
use feedreader.Handlers.Articles.{parsed, written}
use feedreader.Handlers.Alerts.{
  AlertRoute, create_route, update_route, delete_route, dismiss_all_route, dismiss_route,
  undismiss_route, checked, answered_row, with_params, api_create_alert, api_update_alert,
  api_delete_alert, api_dismiss_all_for_alert, api_dismiss_article_alert,
  api_undismiss_article_alert, dispatch_alert,
}
use feedreader.Handlers.Usable.{
  is_usable, AllUsable, OnSome, UsableParams, checked-UsableParams, create_alert-AllUsable,
  update_alert-AllUsable, any-keep_none,
}

-- a request of a user at a time, with the failures that it meets
pub record AlertEvent : Type 0 where
  pub faults : Faults
  pub now : ℕ
  pub user : ℕ
  pub route : AlertRoute

module _ (tools : TextTools) where
  answered-AllUsable :
      (o : Option Database) (s : Server)
      → OnSome tools o
      → AllUsable tools s.db
      → AllUsable tools (answered_row tools o s).1.db
  answered-AllUsable none s h k = k
  answered-AllUsable (some db) s h k = h

  with_params-AllUsable :
      (o : Option CreateAlertParams) (write : CreateAlertParams → Option Database) (s : Server)
      → UsableParams tools o
      → ((p : CreateAlertParams) → UsableParams tools (some p) → OnSome tools (write p))
      → AllUsable tools s.db
      → AllUsable tools (with_params tools o write s).1.db
  with_params-AllUsable none write s h step k = k
  with_params-AllUsable (some p) write s h step k = answered-AllUsable (write p) s (step p h) k

  written-AllUsable :
      (user : ℕ) (o : Option Database) (s : Server)
      → OnSome tools o
      → AllUsable tools s.db
      → AllUsable tools (written user o s).1.db
  written-AllUsable user none s h k = k
  written-AllUsable user (some db) s h k = h

  parsed-AllUsable :
      (id : Option ℤ) (s : Server) (next : ℤ → Response × Server)
      → ((n : ℤ) → AllUsable tools (next n).1.db)
      → AllUsable tools s.db
      → AllUsable tools (parsed id s next).1.db
  parsed-AllUsable none s next h k = k
  parsed-AllUsable (some n) s next h k = h n

  ask-OnSome :
      (faults : Faults) (call : Call) (db : Database)
      → AllUsable tools db
      → OnSome tools (ask faults call db)
  ask-OnSome faults call db h = if_holds (OnSome tools) (faults call) none (some db) tt h

  delete_alert-AllUsable :
      (id : ℤ) (user : ℕ) (db : Database)
      → AllUsable tools db
      → AllUsable tools (delete_alert id user db)
  unfolding delete_alert
  delete_alert-AllUsable id user db h =
      any-keep_none (λ a. not (is_usable tools a)) (λ a. not (alert_of id user a)) db.news_alerts h

  dispatch_alert-AllUsable :
      (faults : Faults) (now user : ℕ) (route : AlertRoute) (s : Server)
      → AllUsable tools s.db
      → AllUsable tools (dispatch_alert tools faults now user route s).1.db
  unfolding dispatch_alert api_create_alert api_update_alert api_delete_alert
      api_dismiss_all_for_alert api_dismiss_article_alert api_undismiss_article_alert
      dismiss_all_for_alert dismiss_article_alert undismiss_article_alert
  dispatch_alert-AllUsable faults now user (create_route body) s k =
      with_params-AllUsable (checked tools body) _ s (checked-UsableParams tools body)
        (λ p h.
          ask-OnSome faults create_alert_call _ (create_alert-AllUsable tools p user now s.db h k))
        k
  dispatch_alert-AllUsable faults now user (update_route id body) s k =
      parsed-AllUsable (atoi id) s _
        (λ n.
          with_params-AllUsable (checked tools body) _ s (checked-UsableParams tools body)
            (λ p h.
              if_holds (OnSome tools) (faults update_alert_call) none _ tt
                (update_alert-AllUsable tools p n user s.db h k))
            k)
        k
  dispatch_alert-AllUsable faults now user (delete_route id) s k =
      parsed-AllUsable (atoi id) s _
        (λ n.
          written-AllUsable user _ s
            (ask-OnSome faults delete_alert_call _ (delete_alert-AllUsable n user s.db k)) k)
        k
  dispatch_alert-AllUsable faults now user (dismiss_all_route id) s k =
      parsed-AllUsable (atoi id) s _
        (λ n.
          written-AllUsable user _ s
            (ask-OnSome faults set_dismissed_call (dismiss_all_for_alert n user s.db) k) k)
        k
  dispatch_alert-AllUsable faults now user (dismiss_route id) s k =
      parsed-AllUsable (atoi id) s _
        (λ n.
          written-AllUsable user _ s
            (ask-OnSome faults set_dismissed_call (dismiss_article_alert n user s.db) k) k)
        k
  dispatch_alert-AllUsable faults now user (undismiss_route id) s k =
      parsed-AllUsable (atoi id) s _
        (λ n.
          written-AllUsable user _ s
            (ask-OnSome faults set_dismissed_call (undismiss_article_alert n user s.db) k) k)
        k

  unfoldable pub dispatch_alerts : List AlertEvent → Server → Server
  unfolding dispatch_alert
  dispatch_alerts [] s = s
  dispatch_alerts (e ∷ es) s =
      dispatch_alerts es (dispatch_alert tools e.faults e.now e.user e.route s).1

  dispatch_alerts-AllUsable :
      (es : List AlertEvent) (s : Server)
      → AllUsable tools s.db
      → AllUsable tools (dispatch_alerts es s).db
  unfolding dispatch_alerts
  dispatch_alerts-AllUsable [] s h = h
  dispatch_alerts-AllUsable (e ∷ es) s h =
      dispatch_alerts-AllUsable es (dispatch_alert tools e.faults e.now e.user e.route s).1
        (dispatch_alert-AllUsable e.faults e.now e.user e.route s h)

  -- a usable alert compiles
  compile_usable :
      (a : NewsAlert)
      → not (is_usable tools a) ≡ false
      → (ca : CompiledAlert) × (compile_alert tools a ≡ some ca)
  unfolding compile_alert
  compile_usable a h = elim (Bool-cases (nat_eq a.is_regex 0)) [
    | inl plain ↦ (record { alert = a; re = none }, rw plain refl)
    | inr regex ↦ elim (Option-cases (tools.compile_regexp (String.◌++◌ "(?i)" a.pattern))) [
      | inl bad ↦ absurd (let k = no_regexp h regex bad in ground arith)
      | inr (re, good) ↦ (record { alert = a; re = some re }, rw (regex, good) refl)
    ]
  ]
    where
      no_regexp :
          not (is_usable tools a) ≡ false
          → nat_eq a.is_regex 0 ≡ false
          → tools.compile_regexp (String.◌++◌ "(?i)" a.pattern) ≡ none
          → true ≡ false
      no_regexp h regex bad = let k = rw (regex, bad) at h in ground arith

  length-compile_alerts :
      (alerts : List NewsAlert)
      → any (λ a. not (is_usable tools a)) alerts ≡ false
      → length (compile_alerts tools alerts) ≡ length alerts
  unfolding compile_alerts
  length-compile_alerts [] h = refl
  length-compile_alerts (a ∷ alerts) h =
      let (ca, e) = compile_usable a (ground arith) in
      rw e (ap (λ n. suc n) (length-compile_alerts alerts (ground arith)))

  -- If no alert of the table is unusable, that is, each has a pattern that is not empty and that
  -- compiles if it is a regular expression, and a known field, this holds after any sequence of
  -- requests on alerts, whichever statements fail; and then an evaluation compiles every alert of
  -- a user and skips none.
  pub dispatch_alerts-usable :
      (es : List AlertEvent) (s : Server) (user : ℕ)
      → AllUsable tools s.db
      → AllUsable tools (dispatch_alerts es s).db
        × (length (compile_alerts tools (list_alerts_by_user (dispatch_alerts es s).db user))
            ≡ length (list_alerts_by_user (dispatch_alerts es s).db user))
  unfolding list_alerts_by_user
  dispatch_alerts-usable es s user h =
      let k = dispatch_alerts-AllUsable es s h in
      let unusable = λ (a : NewsAlert). not (is_usable tools a) in
      (
        k,
        length-compile_alerts (list_alerts_by_user (dispatch_alerts es s).db user) (
            any-order_by (λ (a b : NewsAlert). ltb b.created_at a.created_at) unusable
              (keep (λ a. nat_eq a.user_id user) (dispatch_alerts es s).db.news_alerts)
            ∙ any-keep_none unusable (λ a. nat_eq a.user_id user)
                (dispatch_alerts es s).db.news_alerts k),
      )
