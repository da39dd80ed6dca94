-- ===== src/Filter/MarkedExact.antt =====
-- Which articles the two marking functions of srv/filter.go mark read, stated over the tables.
use mathlib.Core.List.{Memᴰ}
use feedreader.Prelude.{
  ℕ, ◌≡◌, refl, sym, ap, ◌∙◌, Bool, false, not, some, List, [], ◌∷◌, map, nat_eq, ◌&&◌, any, keep,
  arith, if◌then◌else◌, any-keep, any_congr, map_congr, map_congr_mem, map_id,
}
use feedreader.Strings.{TextTools}
use feedreader.Db.Models.{Article, CategoryExclusion, Database}
use feedreader.Db.Calls.{
  Faults, is_zero, mark_article_read_call, list_exclusions_by_category_call,
  list_unread_articles_by_category_call,
}
use feedreader.Db.Rules.{list_exclusions_by_category}
use feedreader.Db.Joins.{any-list_exclusions_by_category}
use feedreader.Db.Articles.{list_unread_articles_by_category_internal}
use feedreader.Filter.Rules.{should_exclude, row_excluded}
use feedreader.Filter.Exact.{row_hit, row_excluded-any, category_hit}
use feedreader.Filter.Marking.{Article_row, mark_found, mark_excluded_articles_read_for_category}
use feedreader.Filter.Marked.{UniqueIds, read, selected_by_id, marked, mark_rows-map}

module _ (tools : TextTools) (faults : Faults) where
  abbrev pub hits : List CategoryExclusion → Article → Bool
  hits es b = row_excluded tools es b && not (faults (mark_article_read_call b.id))

  -- the key of a row tells whether it is among the selected ones
  marked_by_id :
      (es : List CategoryExclusion) (q : Article → Bool) {a : Article} {xs : List Article}
      → Memᴰ a xs
      → UniqueIds xs
      → any (λ b. nat_eq b.id a.id && hits es b) (keep q xs) ≡ (q a && hits es a)
  marked_by_id es q {a} {xs} m u =
      any-keep (λ b. nat_eq b.id a.id && hits es b) q xs
      ∙ any_congr _ _ xs (λ b. turn (q b) (nat_eq b.id a.id) (hits es b))
      ∙ sym (any-keep (λ b. nat_eq b.id a.id) (λ b. q b && hits es b) xs)
      ∙ selected_by_id (λ b. q b && hits es b) m u
    where
      turn : (x y z : Bool) → (x && (y && z)) ≡ ((x && z) && y)
      turn x y z = ground arith

  no_hit : (rows : List Article) (id : ℕ) → any (λ b. nat_eq b.id id && hits [] b) rows ≡ false
  unfolding should_exclude
  no_hit [] id = refl
  no_hit (b ∷ rows) id = ground (arith, no_hit rows id)

  -- the early return on an empty list of rules is what the loop would give
  mark_found-map :
      (es : List CategoryExclusion) (rows : List Article) (db : Database)
      → mark_found tools faults es (some rows) db
        ≡ record db { articles = map (marked tools faults es rows) db.articles }
  mark_found-map [] rows db = λ i. record db {
    articles =
        sym
          (map_congr (marked tools faults [] rows) (λ a. a) db.articles
              (λ a. ap (λ h. if h then read a else a) (no_hit rows a.id))
            ∙ map_id db.articles)
          i;
  }
  mark_found-map (e ∷ es) rows db = mark_rows-map tools faults (e ∷ es) rows db

  pub mark_found-exact :
      (es : List CategoryExclusion) (q : Article → Bool) (db : Database)
      → UniqueIds db.articles
      → mark_found tools faults es (some (keep q db.articles)) db
        ≡ record db { articles = map (λ a. if q a && hits es a then read a else a) db.articles }
  mark_found-exact es q db u = mark_found-map es (keep q db.articles) db ∙ (λ i. record db {
    articles =
        map_congr_mem (marked tools faults es (keep q db.articles))
          (λ a. if q a && hits es a then read a else a) db.articles
          (λ a m. ap (λ h. if h then read a else a) (marked_by_id es q m u)) i;
  })

  -- an article of the category, unread, that a rule of the user's category hits, and whose UPDATE
  -- does not fail
  abbrev pub category_target : Database → ℕ → ℕ → Article → Bool
  category_target db category user a =
      (any (λ m. nat_eq m.feed_id a.feed_id && nat_eq m.category_id category) db.feed_categories
        && is_zero a.is_read)
      && (category_hit tools db category user a && not (faults (mark_article_read_call a.id)))

  -- With both queries answered, marking sets `is_read` of exactly the category's unread articles
  -- that a rule of the user's category hits and whose UPDATE succeeds; nothing else of the
  -- database changes. Articles have distinct keys.
  pub mark_for_category_exact :
      (db : Database) (category user : ℕ)
      → faults (list_exclusions_by_category_call category) ≡ false
      → faults (list_unread_articles_by_category_call category) ≡ false
      → UniqueIds db.articles
      → mark_excluded_articles_read_for_category tools faults category user db ≡ record db {
        articles = map (λ a. if category_target db category user a then read a else a) db.articles;
      }
  unfolding mark_excluded_articles_read_for_category list_unread_articles_by_category_internal
  mark_for_category_exact db category user h k u =
      let es = list_exclusions_by_category db category (some user) in
      let member = λ (a : Article).
        any (λ m. nat_eq m.feed_id a.feed_id && nat_eq m.category_id category) db.feed_categories
        && is_zero a.is_read in
      rw (h, k)
        (mark_found-exact es member db u ∙ (λ i. record db {
          articles =
              map_congr (λ (a : Article). if member a && hits es a then read a else a)
                (λ a. if category_target db category user a then read a else a) db.articles
                (λ a.
                  ap
                    (λ h.
                      if member a && (h && not (faults (mark_article_read_call a.id)))
                      then read a
                      else a)
                    (row_excluded-any tools es a
                      ∙ any-list_exclusions_by_category db category (some user) (row_hit tools a)))
                i;
        }))
