-- ===== src/Handlers/Owners.antt =====
-- The counts of srv/server.go see only the rows of their user: a feed has one owner.
use feedreader.Prelude.{
  ℕ, ◌≡◌, ◌≢◌, refl, sym, ap, ◌∙◌, Bool, true, false, not, Option, none, some, List, [], ◌∷◌,
  nat_eq, nat_eq_iff, any, keep, Bool-cases, inl, inr, arith,
}
use feedreader.Strings.{TextTools}
use feedreader.Db.Models.{Article, Feed, QueueArticle, Database}
use feedreader.Db.Calls.{Faults, sql_eq}
use feedreader.Db.Rules.{owns_feed, list_all_exclusions, list_feed_category_mappings}
use feedreader.Db.Reading.{of_user}
use feedreader.Db.Queue.{get_queue_count}
use feedreader.Db.Counts.{
  get_unread_count, get_starred_count, count_undismissed_alerts, has_exclusion_rules,
  get_all_feed_unread_counts, get_all_category_unread_counts, list_unread_article_filter_inputs,
}
use feedreader.Filter.Lists.{filter_all_articles}
use feedreader.Handlers.Counts.{
  computed_article_counts, filtered_article_counts, direct_article_counts,
}
use feedreader.Handlers.Rows.{OnlyOf}

-- the key of `feeds`
abbrev pub UniqueFeeds : List Feed → Type 0
UniqueFeeds [] = Unit {0}
UniqueFeeds (f ∷ rest) = (any (λ g. nat_eq g.id f.id) rest ≡ false) × UniqueFeeds rest

owns_feed_there :
    (feeds : List Feed) (feed user : ℕ)
    → owns_feed feeds feed (some user) ≡ true
    → any (λ g. nat_eq g.id feed) feeds ≡ true
owns_feed_there [] feed user h = h
owns_feed_there (f ∷ feeds) feed user h = ground (arith, owns_feed_there feeds feed user)

sql_eq_inj : (a : Option ℕ) (u v : ℕ) → sql_eq a (some u) ≡ true → sql_eq a (some v) ≡ true → u ≡ v
sql_eq_inj none u v h k = absurd (cc)
sql_eq_inj (some n) u v h k = ground (arith, nat_eq_iff n u, nat_eq_iff n v)

-- a feed has one owner
one_owner :
    (feeds : List Feed) (feed u v : ℕ)
    → UniqueFeeds feeds
    → owns_feed feeds feed (some u) ≡ true
    → owns_feed feeds feed (some v) ≡ true
    → u ≡ v
one_owner [] feed u v h k l = absurd (cc)
one_owner (f ∷ feeds) feed u v (fresh, h) k l = elim (Bool-cases (nat_eq f.id feed)) [
  | inl e ↦
      let same = (nat_eq_iff f.id feed).0 e in
      let gone : any (λ g. nat_eq g.id feed) feeds ≡ false = rw same at fresh in
      ground (
        arith,
        sql_eq_inj f.user_id u v,
        owns_feed_there feeds feed u,
        owns_feed_there feeds feed v,
      )
  | inr e ↦ ground (arith, one_owner feeds feed u v h)
]

keep_within {ℓ} :
    {A : Type ℓ} (p q : A → Bool) (xs : List A)
    → ((a : A) → p a ≡ true → q a ≡ true)
    → keep p (keep q xs) ≡ keep p xs
keep_within p q [] h = refl
keep_within p q (x ∷ xs) h = ground (arith, h x, keep_within p q xs h)

keep_of_keep {ℓ} :
    {A : Type ℓ} (p q : A → Bool) (xs ys : List A)
    → ((a : A) → p a ≡ true → q a ≡ true)
    → keep q xs ≡ keep q ys
    → keep p xs ≡ keep p ys
keep_of_keep p q xs ys h k = sym (keep_within p q xs h) ∙ ap (keep p) k ∙ keep_within p q ys h

module _ (tools : TextTools) (reads : Faults) where
  -- the counts see of articles and queue only the user's rows
  counts_of_rows :
      (db : Database) (user next : ℕ) (articles : List Article) (queue : List QueueArticle)
      → keep (of_user db user) articles ≡ keep (of_user db user) db.articles
      → keep (λ r. nat_eq r.user_id user) queue
        ≡ keep (λ r. nat_eq r.user_id user) db.queue_articles
      → computed_article_counts tools reads
          (record db { articles = articles; queue_articles = queue; next_queue_article_id = next })
          user
        ≡ computed_article_counts tools reads db user
  unfolding computed_article_counts filtered_article_counts direct_article_counts get_unread_count
      get_starred_count count_undismissed_alerts has_exclusion_rules get_all_feed_unread_counts
      get_all_category_unread_counts list_unread_article_filter_inputs get_queue_count
      filter_all_articles list_all_exclusions list_feed_category_mappings
  counts_of_rows db user next articles queue h k = rw (h, k) refl

  pub counts_of-OnlyOf :
      (user reader : ℕ) (db db' : Database)
      → UniqueFeeds db.feeds
      → user ≢ reader
      → OnlyOf user db db'
      → computed_article_counts tools reads db' reader
        ≡ computed_article_counts tools reads db reader
  counts_of-OnlyOf user reader db db' unique other (articles, queue, rest) =
      ap (λ d. computed_article_counts tools reads d reader) rest
      ∙ counts_of_rows db reader db'.next_queue_article_id db'.articles db'.queue_articles
          (keep_of_keep (of_user db reader) (λ a. not (of_user db user a)) db'.articles db.articles
            (λ a h. not_of_user a h) articles)
          (keep_of_keep (λ r. nat_eq r.user_id reader) (λ r. not (nat_eq r.user_id user))
            db'.queue_articles db.queue_articles
            (λ r h. ground (arith, nat_eq_iff r.user_id reader, nat_eq_iff r.user_id user)) queue)
    where
      not_of_user : (a : Article) → of_user db reader a ≡ true → not (of_user db user a) ≡ true
      not_of_user a h = elim (Bool-cases (of_user db user a)) [
        | inl e ↦ absurd (other (one_owner db.feeds a.feed_id user reader unique e h))
        | inr e ↦ rw e refl
      ]
