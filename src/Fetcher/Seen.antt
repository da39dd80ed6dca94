-- ===== src/Fetcher/Seen.antt =====
-- srv/feeds/fetcher.go: items that the retention cleanup has removed do not come back, and what the
-- number that `storeItems` returns counts.
use mathlib.Core.Path.{subst}
use feedreader.Prelude.{
  ℕ, String, ◌≡◌, refl, sym, all, nat_eq_iff, ap, ◌∙◌, Bool, true, false, not, List, [], ◌∷◌,
  nat_eq, ◌+◌, ◌<◌, ltb, ◌==◌, String_eq, ◌&&◌, any, keep, keep_congr, length, Bool-cases, inl, inr,
  arith, if◌then◌else◌,
}
use text.Mathlib.TextEquality.{eq_iff}
use feedreader.Db.Models.{Database}
use feedreader.Db.Calls.{Faults, begin_tx_call, commit_call, is_guid_seen_call, create_article_call}
use feedreader.Db.SeenGuids.{create_article, CreateArticleParams, is_guid_seen, same_article}
use feedreader.Fetcher.Store.{FeedItem, article_params, store_item, store_loop, store_items}
use feedreader.Fetcher.Laws.{store_item-cases, store_items_induction}
use feedreader.Fetcher.Articles.{has_guid, any_guid-create_article}

seen-create_article :
    (p : CreateArticleParams) (now feed : ℕ) (guid : String) (db : Database)
    → is_guid_seen (create_article p now db) feed guid ≡ is_guid_seen db feed guid
unfolding create_article is_guid_seen
seen-create_article p now feed guid db = elim (Bool-cases (any (same_article p) db.articles)) [
  | inl old ↦ rw old refl
  | inr new ↦ rw new refl
]

-- the guid counts as seen, and there is an article of it or not
abbrev pub Blocked : ℕ → String → Bool → Database → Type 0
Blocked feed guid there db =
    (ltb 0 (is_guid_seen db feed guid) ≡ true) × (any (has_guid feed guid) db.articles ≡ there)

-- an item of another guid or another feed leaves it so
create_article-Blocked :
    (p : CreateArticleParams) (now feed : ℕ) (guid : String) (there : Bool) (db : Database)
    → (nat_eq p.feed_id feed && p.guid == guid) ≡ false
    → Blocked feed guid there db
    → Blocked feed guid there (create_article p now db)
create_article-Blocked p now feed guid there db other (seen, rows) = (
  rw (seen-create_article p now feed guid db) seen,
  any_guid-create_article p now feed guid db ∙ ground arith,
)

module _ (faults : Faults) (feed now : ℕ) where
  store_item_seen :
      (item : FeedItem) (db : Database) (n : ℕ)
      → faults (is_guid_seen_call item.guid) ≡ false
      → ltb 0 (is_guid_seen db feed item.guid) ≡ true
      → store_item faults feed now item (db, n) ≡ (db, n)
  unfolding store_item
  store_item_seen item db n h seen = elim (Bool-cases (item.guid == "")) [
    | inl e ↦ rw e refl
    | inr e ↦ rw (e, h, seen) refl
  ]

  store_item-Blocked :
      (guid : String) (there : Bool) (item : FeedItem) (db : Database) (n : ℕ)
      → faults (is_guid_seen_call guid) ≡ false
      → Blocked feed guid there db
      → Blocked feed guid there (store_item faults feed now item (db, n)).0
  store_item-Blocked guid there item db n h (seen, rows) = elim (Bool-cases (item.guid == guid)) [
    | inl same ↦
        let e = (eq_iff item.guid guid).0 same in
        rw
          (store_item_seen item db n (ap (λ g. faults (is_guid_seen_call g)) e ∙ h)
            (ap (λ g. ltb 0 (is_guid_seen db feed g)) e ∙ seen))
          (seen, rows)
    | inr other ↦
        store_item-cases faults feed now (λ s. Blocked feed guid there s.0) item db n (seen, rows)
          (create_article-Blocked (article_params feed item) now feed guid there db (ground arith)
            (seen, rows))
  ]

  store_loop-Blocked :
      (guid : String) (there : Bool) (items : List FeedItem) (db : Database) (n : ℕ)
      → faults (is_guid_seen_call guid) ≡ false
      → Blocked feed guid there db
      → Blocked feed guid there (store_loop faults feed now items (db, n)).0
  unfolding store_loop
  store_loop-Blocked guid there [] db n h b = b
  store_loop-Blocked guid there (item ∷ items) db n h b =
      let (db', n') = store_item faults feed now item (db, n) in
      store_loop-Blocked guid there items db' n' h (store_item-Blocked guid there item db n h b)

  store_items-Blocked :
      (guid : String) (there : Bool) (items : List FeedItem) (db : Database)
      → faults (is_guid_seen_call guid) ≡ false
      → Blocked feed guid there db
      → Blocked feed guid there (store_items faults feed now items db).0
  unfolding store_items
  store_items-Blocked guid there items db h b = elim (Bool-cases (faults begin_tx_call)) [
    | inl failed ↦ rw failed b
    | inr begun ↦ elim (Bool-cases (faults commit_call)) [
      | inl failed ↦ rw (begun, failed) b
      | inr done ↦ rw (begun, done) (store_loop-Blocked guid there items db 0 h b)
    ]
  ]

  -- A guid that counts as seen, and whose check succeeds, gets no article from the items of any
  -- fetch: there is one afterwards just if there was one before.
  pub store_items_seen :
      (guid : String) (items : List FeedItem) (db : Database)
      → faults (is_guid_seen_call guid) ≡ false
      → 0 < is_guid_seen db feed guid
      → any (has_guid feed guid) (store_items faults feed now items db).0.articles
        ≡ any (has_guid feed guid) db.articles
  store_items_seen guid items db h seen =
      (store_items-Blocked guid _ items db h (ground arith, refl)).1

  -- an item that is neither without a guid nor already seen
  abbrev pub is_stored : Database → FeedItem → Bool
  is_stored db item = not (item.guid == "") && nat_eq (is_guid_seen db feed item.guid) 0

  store_item-count :
      (item : FeedItem) (db : Database) (n : ℕ)
      → faults (is_guid_seen_call item.guid) ≡ false
      → faults (create_article_call item.guid) ≡ false
      → (store_item faults feed now item (db, n)).1 ≡ (if is_stored db item then n + 1 else n)
  unfolding store_item
  store_item-count item db n h k = rw (h, k) (ground arith)

  store_item-seen :
      (item : FeedItem) (db : Database) (n : ℕ) (guid : String)
      → is_guid_seen (store_item faults feed now item (db, n)).0 feed guid
        ≡ is_guid_seen db feed guid
  store_item-seen item db n guid =
      store_item-cases faults feed now (λ s. is_guid_seen s.0 feed guid ≡ is_guid_seen db feed guid)
        item db n refl (seen-create_article (article_params feed item) now feed guid db)

  store_loop-count :
      (items : List FeedItem) (db : Database) (n : ℕ)
      → ((guid : String) → faults (is_guid_seen_call guid) ≡ false)
      → ((guid : String) → faults (create_article_call guid) ≡ false)
      → (store_loop faults feed now items (db, n)).1 ≡ n + length (keep (is_stored db) items)
  unfolding store_loop
  store_loop-count [] db n h k = omega arith
  store_loop-count (item ∷ items) db n h k =
      let (db', n') = store_item faults feed now item (db, n) in
      store_loop-count items db' n' h k
      ∙ ap (λ c. n' + length c)
          (keep_congr (is_stored db') (is_stored db) items
            (λ i. ap (λ m. not (i.guid == "") && nat_eq m 0) (store_item-seen item db n i.guid)))
      ∙ ground (arith, store_item-count item db n (h item.guid) (k item.guid))

  -- With no statement failing, the number that `storeItems` returns is the number of items that
  -- have a guid and are not seen, whether or not the table held an article of that guid.
  pub store_items-count :
      (items : List FeedItem) (db : Database)
      → faults begin_tx_call ≡ false
      → faults commit_call ≡ false
      → ((guid : String) → faults (is_guid_seen_call guid) ≡ false)
      → ((guid : String) → faults (create_article_call guid) ≡ false)
      → (store_items faults feed now items db).1 ≡ length (keep (is_stored db) items)
  unfolding store_items
  store_items-count items db b c h k = rw (b, c) (store_loop-count items db 0 h k ∙ omega arith)

-- the storing of the items of some feed, at a time, with failures of its own
pub record Storing : Type 0 where
  pub faults : Faults
  pub feed : ℕ
  pub now : ℕ
  pub items : List FeedItem

unfoldable pub store_all : List Storing → Database → Database
unfolding store_items
store_all [] db = db
store_all (r ∷ rs) db = store_all rs (store_items r.faults r.feed r.now r.items db).0

-- the check of the guid succeeds each time
abbrev pub checks : String → List Storing → Bool
checks guid rs = all (λ r. not (r.faults (is_guid_seen_call guid))) rs

storing-Blocked :
    (r : Storing) (feed : ℕ) (guid : String) (there : Bool) (db : Database)
    → r.faults (is_guid_seen_call guid) ≡ false
    → Blocked feed guid there db
    → Blocked feed guid there (store_items r.faults r.feed r.now r.items db).0
storing-Blocked r feed guid there db h b = elim (Bool-cases (nat_eq r.feed feed)) [
  | inl e ↦
      let same = (nat_eq_iff r.feed feed).0 e in
      subst (λ f. Blocked f guid there (store_items r.faults r.feed r.now r.items db).0) same
        (store_items-Blocked r.faults r.feed r.now guid there r.items db h
          (subst (λ f. Blocked f guid there db) (sym same) b))
  | inr e ↦
      store_items_induction r.faults r.feed r.now (Blocked feed guid there)
        (λ item d k.
          create_article-Blocked (article_params r.feed item) r.now feed guid there d (ground arith)
            k)
        r.items db b
]

pub store_all-Blocked :
    (rs : List Storing) (feed : ℕ) (guid : String) (there : Bool) (db : Database)
    → checks guid rs ≡ true
    → Blocked feed guid there db
    → Blocked feed guid there (store_all rs db)
unfolding store_all
store_all-Blocked [] feed guid there db h b = b
store_all-Blocked (r ∷ rs) feed guid there db h b =
    store_all-Blocked rs feed guid there (store_items r.faults r.feed r.now r.items db).0
      (ground arith) (storing-Blocked r feed guid there db (ground arith) b)
