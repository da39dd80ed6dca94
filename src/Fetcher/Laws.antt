-- ===== src/Fetcher/Laws.antt =====
-- What `storeItems` does to the table of articles.
use mathlib.Core.List.{Memᴰ}
use feedreader.Prelude.{ℕ, refl, ◌∙◌, List, [], ◌∷◌, ◌+◌, ◌==◌, String_eq, Bool-cases, inl, inr}
use feedreader.Db.Models.{Article, Database}
use feedreader.Db.Calls.{
  Faults, ask, begin_tx_call, commit_call, is_guid_seen_call, create_article_call,
}
use feedreader.Db.SeenGuids.{create_article, is_guid_seen}
use feedreader.Fetcher.Store.{
  FeedItem, article_params, skipped, store_item, store_loop, store_items,
}
use feedreader.Fetcher.Articles.{IsValid, create_article-IsValid, Keeps, create_article-Keeps}

module _ (faults : Faults) (feed now : ℕ) where
  -- the three ways in which a round leaves everything as it was, and the one in which it stores
  pub store_item-cases :
      (P : Database × ℕ → Type 0) (item : FeedItem) (db : Database) (n : ℕ)
      → P (db, n)
      → P (create_article (article_params feed item) now db, n + 1)
      → P (store_item faults feed now item (db, n))
  unfolding store_item
  store_item-cases P item db n same stored = elim (Bool-cases (item.guid == "")) [
    | inl e ↦ rw e same
    | inr e ↦
        let seen =
          skipped faults feed now
            (ask faults (is_guid_seen_call item.guid) (is_guid_seen db feed item.guid)) in
        elim (Bool-cases seen) [
          | inl s ↦ rw (e, s) same
          | inr s ↦ elim (Bool-cases (faults (create_article_call item.guid))) [
            | inl f ↦ rw (e, s, f) same
            | inr f ↦ rw (e, s, f) stored
          ]
        ]
  ]

  -- an invariant of CreateArticle is one of the whole loop
  store_loop_induction :
      (P : Database → Type 0)
      → ((item : FeedItem) (db : Database)
          → P db
          → P (create_article (article_params feed item) now db))
      → (items : List FeedItem) (db : Database) (n : ℕ) → P db
      → P (store_loop faults feed now items (db, n)).0
  unfolding store_loop
  store_loop_induction P step [] db n h = h
  store_loop_induction P step (item ∷ items) db n h =
      let (db', n') = store_item faults feed now item (db, n) in
      store_loop_induction P step items db' n'
        (store_item-cases (λ s. P s.0) item db n h (step item db h))

  pub store_items_induction :
      (P : Database → Type 0)
      → ((item : FeedItem) (db : Database)
          → P db
          → P (create_article (article_params feed item) now db))
      → (items : List FeedItem) (db : Database) → P db
      → P (store_items faults feed now items db).0
  unfolding store_items
  store_items_induction P step items db h = elim (Bool-cases (faults begin_tx_call)) [
    | inl b ↦ rw b h
    | inr b ↦ elim (Bool-cases (faults commit_call)) [
      | inl c ↦ rw (b, c) h
      | inr c ↦ rw (b, c) (store_loop_induction P step items db 0 h)
    ]
  ]

  -- Whatever fails, the keys of the articles stay distinct and below the counter.
  pub store_items-IsValid :
      (items : List FeedItem) (db : Database)
      → IsValid db
      → IsValid (store_items faults feed now items db).0
  store_items-IsValid items db v =
      store_items_induction IsValid
        (λ item d. create_article-IsValid (article_params feed item) now d) items db v

  -- Every article stays, with its key, guid, time of fetching, read flag and star.
  pub store_items-Keeps :
      (items : List FeedItem) (db : Database) {a : Article}
      → Memᴰ a db.articles
      → (b : Article) × Memᴰ b (store_items faults feed now items db).0.articles × Keeps a b
  store_items-Keeps items db {a} m =
      store_items_induction (λ d. (b : Article) × Memᴰ b d.articles × Keeps a b)
        (λ item d (b, n, k).
          let (c, l, j) = create_article-Keeps (article_params feed item) now d n in
          (c, l, Keeps-trans a b c k j))
        items db (a, m, (refl, refl, refl, refl, refl, refl))
    where
      Keeps-trans : (a b c : Article) → Keeps a b → Keeps b c → Keeps a c
      Keeps-trans a b c k j = (j.0 ∙ k.0, j.1 ∙ k.1, j.2 ∙ k.2, j.3 ∙ k.3, j.4 ∙ k.4, j.5 ∙ k.5)
