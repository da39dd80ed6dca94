-- ===== src/Alerts/Matched.antt =====
-- srv/alerts.go against the tables: which articles an alert holds after `EvaluateAlertsForFeed`.
use feedreader.Prelude.{
  ℕ, ◌≡◌, refl, sym, ap, ap₂, ◌∙◌, Bool, true, false, Option, none, some, List, [], ◌∷◌, nat_eq,
  nat_eq_iff, ltb, keep, any, any-append, any-keep, any_congr, Bool-cases, Option-cases, ◌&&◌, ◌||◌,
  inl, inr, arith,
}
use feedreader.Prelude.Sorting.{any-order_by}
use feedreader.Strings.{TextTools}
use feedreader.Filter.Rules.{ptr_to_str}
use feedreader.Db.Models.{Article, NewsAlert, Database}
use feedreader.Db.Calls.{
  Faults, get_feed_owner_call, list_alerts_by_user_call, list_unread_articles_for_alerts_call,
  insert_article_alert_call,
}
use feedreader.Db.Alerts.{
  get_feed_owner, list_alerts_by_user, list_unread_articles_by_feed_for_alerts,
  insert_article_alert, is_unread_of, same_pair,
}
use feedreader.Alerts.Evaluate.{
  CompiledAlert, alert_matches, compile_alert, compile_alerts, match_one, match_alerts,
  match_articles, evaluate_compiled, evaluate_alerts_for_feed,
}

-- the alert holds the article
abbrev pub holds : ℕ → ℕ → Database → Bool
holds article alert db = any (same_pair article alert) db.article_alerts

holds-insert :
    (article alert x y now : ℕ) (db : Database)
    → holds article alert (insert_article_alert x y now db)
      ≡ (holds article alert db || (nat_eq x article && nat_eq y alert))
unfolding insert_article_alert
holds-insert article alert x y now db = elim (Bool-cases (holds x y db)) [
  | inr new ↦ rw new (any-append (same_pair article alert) db.article_alerts _ ∙ ground arith)
  | inl old ↦ elim (Bool-cases (nat_eq x article && nat_eq y alert)) [
    | inr other ↦ rw (old, other) (ground arith)
    | inl same ↦
        let here : holds article alert db ≡ true =
          ap₂ (λ i j. holds i j db) (sym ((nat_eq_iff x article).0 (ground arith)))
            (sym ((nat_eq_iff y alert).0 (ground arith)))
          ∙ old in
        rw (old, here) refl
  ]
]

any-unread :
    (db : Database) (feed user : ℕ) (p : Article → Bool)
    → any p (list_unread_articles_by_feed_for_alerts db feed user)
      ≡ any (λ a. is_unread_of db feed user a && p a) db.articles
unfolding list_unread_articles_by_feed_for_alerts
any-unread db feed user p =
    any-order_by (λ (a b : Article). ltb b.fetched_at a.fetched_at) p
      (keep (is_unread_of db feed user) db.articles)
    ∙ any-keep p (is_unread_of db feed user) db.articles

any-alerts :
    (db : Database) (user : ℕ) (p : NewsAlert → Bool)
    → any p (list_alerts_by_user db user) ≡ any (λ n. nat_eq n.user_id user && p n) db.news_alerts
unfolding list_alerts_by_user
any-alerts db user p =
    any-order_by (λ (a b : NewsAlert). ltb b.created_at a.created_at) p
      (keep (λ n. nat_eq n.user_id user) db.news_alerts)
    ∙ any-keep p (λ n. nat_eq n.user_id user) db.news_alerts

module _ (tools : TextTools) (faults : Faults) (now article alert : ℕ) where
  -- a compiled alert, for an article: it is the alert, that is the article, and they match
  abbrev pairs : Article → CompiledAlert → Bool
  pairs a ca =
      alert_matches tools ca a.title (ptr_to_str a.summary)
      && (nat_eq a.id article && nat_eq ca.alert.id alert)

  holds-match_alerts :
      ((i j : ℕ) → faults (insert_article_alert_call i j) ≡ false)
      → (a : Article) (compiled : List CompiledAlert) (db : Database)
      → holds article alert (match_alerts tools faults now a compiled db)
        ≡ (holds article alert db || any (pairs a) compiled)
  unfolding match_alerts
  holds-match_alerts ok a [] db = ground arith
  holds-match_alerts ok a (ca ∷ compiled) db =
      holds-match_alerts ok a compiled (match_one tools faults now a ca db)
      ∙ elim (Bool-cases (alert_matches tools ca a.title (ptr_to_str a.summary))) [
        | inr e ↦ rw e refl
        | inl e ↦
            rw (e, ok a.id ca.alert.id)
              (ap (λ b. b || any (pairs a) compiled)
                  (holds-insert article alert a.id ca.alert.id now db)
                ∙ ground arith)
      ]

  holds-match_articles :
      ((i j : ℕ) → faults (insert_article_alert_call i j) ≡ false)
      → (compiled : List CompiledAlert) (articles : List Article) (db : Database)
      → holds article alert (match_articles tools faults now compiled articles db)
        ≡ (holds article alert db || any (λ a. any (pairs a) compiled) articles)
  unfolding match_articles
  holds-match_articles ok compiled [] db = ground arith
  holds-match_articles ok compiled (a ∷ articles) db =
      holds-match_articles ok compiled articles (match_alerts tools faults now a compiled db)
      ∙ ap (λ b. b || any (λ c. any (pairs c) compiled) articles)
          (holds-match_alerts ok a compiled db)
      ∙ ground arith

  abbrev compiled_pairs : Article → Option CompiledAlert → Bool
  compiled_pairs a none = false
  compiled_pairs a (some ca) = pairs a ca

  any-compile_alerts :
      (a : Article) (alerts : List NewsAlert)
      → any (pairs a) (compile_alerts tools alerts)
        ≡ any (λ n. compiled_pairs a (compile_alert tools n)) alerts
  unfolding compile_alerts
  any-compile_alerts a [] = refl
  any-compile_alerts a (n ∷ alerts) = elim (Option-cases (compile_alert tools n)) [
    | inl bad ↦ rw bad (any-compile_alerts a alerts)
    | inr (ca, good) ↦ rw good (ap (λ b. pairs a ca || b) (any-compile_alerts a alerts))
  ]

  no_pairs : (articles : List Article) → any (λ a. any (pairs a) []) articles ≡ false
  no_pairs [] = refl
  no_pairs (a ∷ articles) = no_pairs articles

  holds-evaluate_compiled :
      ((i j : ℕ) → faults (insert_article_alert_call i j) ≡ false)
      → (compiled : List CompiledAlert) (feed user : ℕ) (db : Database)
      → faults (list_unread_articles_for_alerts_call feed) ≡ false
      → holds article alert (evaluate_compiled tools faults now compiled feed user db) ≡ (
          holds article alert db
          || any
              (λ a. any (pairs a) compiled)
              (list_unread_articles_by_feed_for_alerts db feed user))
  holds-evaluate_compiled ok [] feed user db h =
      rw (no_pairs (list_unread_articles_by_feed_for_alerts db feed user)) (ground arith)
  holds-evaluate_compiled ok (ca ∷ compiled) feed user db h =
      rw h (holds-match_articles ok (ca ∷ compiled) _ db)

  -- an alert of the user that compiles and matches the article
  abbrev pub owned_match : ℕ → Article → NewsAlert → Bool
  owned_match user a n = nat_eq n.user_id user && compiled_pairs a (compile_alert tools n)

  -- With every statement answered, an alert holds an article after the evaluation of a feed exactly
  -- when it held it before, or the article is an unread one of the feed, the alert is the feed
  -- owner's, its pattern compiles, and it matches the article's title or summary by its field.
  pub evaluate_alerts_for_feed-holds :
      (feed user : ℕ) (db : Database)
      → get_feed_owner db feed ≡ some (some user)
      → faults (get_feed_owner_call feed) ≡ false
      → faults (list_alerts_by_user_call user) ≡ false
      → faults (list_unread_articles_for_alerts_call feed) ≡ false
      → ((i j : ℕ) → faults (insert_article_alert_call i j) ≡ false)
      → holds article alert (evaluate_alerts_for_feed tools faults now feed db) ≡ (
          holds article alert db
          || any
              (λ a. is_unread_of db feed user a && any (owned_match user a) db.news_alerts)
              db.articles)
  unfolding evaluate_alerts_for_feed
  evaluate_alerts_for_feed-holds feed user db owner f g h ok =
      rw (f, owner, g)
        (holds-evaluate_compiled ok (compile_alerts tools (list_alerts_by_user db user)) feed user
            db h
          ∙ ap (λ b. holds article alert db || b)
              (any-unread db feed user
                  (λ a. any (pairs a) (compile_alerts tools (list_alerts_by_user db user)))
                ∙ any_congr
                    (λ a.
                      is_unread_of db feed user a
                      && any (pairs a) (compile_alerts tools (list_alerts_by_user db user)))
                    (λ a. is_unread_of db feed user a && any (owned_match user a) db.news_alerts)
                    db.articles
                    (λ a.
                      ap (λ b. is_unread_of db feed user a && b)
                        (any-compile_alerts a (list_alerts_by_user db user)
                          ∙ any-alerts db user (λ n. compiled_pairs a (compile_alert tools n))))))
