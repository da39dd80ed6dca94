-- ===== src/Fetcher/Articles.antt =====
-- What CreateArticle keeps of the table of articles: its keys, and the reader's flags.
use mathlib.Core.Path.{subst₂}
use mathlib.Core.List.{Memᴰ}
use mathlib.Core.List.Memᴰ.{append_left}
use feedreader.Prelude.{
  ℕ, String, ◌≡◌, refl, ap, ◌∙◌, Bool, true, false, List, [], ◌∷◌, ◌++◌, nat_eq, nat_eq_iff, ◌+◌,
  ◌<◌, ◌==◌, String_eq, ◌&&◌, ◌||◌, any, any-append, and_true, Bool-cases, inl, inr, arith,
  if◌then◌else◌,
}
use text.Mathlib.TextEquality.{eq_iff}
use feedreader.Db.Models.{Article, Database}
use feedreader.Db.SeenGuids.{
  CreateArticleParams, create_article, same_article, update_article, update_rows, new_article,
}

-- the article of a feed with a guid
abbrev pub has_guid : ℕ → String → Article → Bool
has_guid feed guid a = nat_eq a.feed_id feed && a.guid == guid

-- the keys of the table: `id`, and UNIQUE(feed_id, guid)
abbrev pub UniqueRows : List Article → Type 0
UniqueRows [] = Unit {0}
UniqueRows (a ∷ rest) =
    (any (λ b. nat_eq b.id a.id) rest ≡ false)
    × (any (has_guid a.feed_id a.guid) rest ≡ false)
    × UniqueRows rest

abbrev pub IdsBelow : ℕ → List Article → Type 0
IdsBelow n [] = Unit {0}
IdsBelow n (a ∷ rest) = (a.id < n) × IdsBelow n rest

-- the table of articles, and the counter of its AUTOINCREMENT key
pub record IsValid (db : Database) : Type 0 where
  pub unique : UniqueRows db.articles
  pub below : IdsBelow db.next_article_id db.articles

module _ (p : CreateArticleParams) where
  pub any_id-update_rows :
      (id : ℕ) (xs : List Article)
      → any (λ b. nat_eq b.id id) (update_rows p xs) ≡ any (λ b. nat_eq b.id id) xs
  any_id-update_rows id [] = refl
  any_id-update_rows id (a ∷ xs) = ground (arith, any_id-update_rows id xs)

  pub any_guid-update_rows :
      (feed : ℕ) (guid : String) (xs : List Article)
      → any (has_guid feed guid) (update_rows p xs) ≡ any (has_guid feed guid) xs
  any_guid-update_rows feed guid [] = refl
  any_guid-update_rows feed guid (a ∷ xs) =
      step (same_article p a) (any_guid-update_rows feed guid xs)
    where
      step :
          (b : Bool)
          → any (has_guid feed guid) (update_rows p xs) ≡ any (has_guid feed guid) xs
          → (has_guid feed guid (if b then update_article p a else a)
              || any (has_guid feed guid) (update_rows p xs))
            ≡ (has_guid feed guid a || any (has_guid feed guid) xs)
      step true ih = ap (λ r. has_guid feed guid a || r) ih
      step false ih = ap (λ r. has_guid feed guid a || r) ih

  update_rows-UniqueRows : (xs : List Article) → UniqueRows xs → UniqueRows (update_rows p xs)
  update_rows-UniqueRows [] h = tt
  update_rows-UniqueRows (a ∷ xs) (ids, guids, u) =
      step (same_article p a) (update_rows-UniqueRows xs u)
    where
      step :
          (b : Bool)
          → UniqueRows (update_rows p xs)
          → UniqueRows ((if b then update_article p a else a) ∷ update_rows p xs)
      step true ih =
          (any_id-update_rows a.id xs ∙ ids, any_guid-update_rows a.feed_id a.guid xs ∙ guids, ih)
      step false ih =
          (any_id-update_rows a.id xs ∙ ids, any_guid-update_rows a.feed_id a.guid xs ∙ guids, ih)

  update_rows-IdsBelow : (n : ℕ) (xs : List Article) → IdsBelow n xs → IdsBelow n (update_rows p xs)
  update_rows-IdsBelow n [] h = tt
  update_rows-IdsBelow n (a ∷ xs) (h, hs) = step (same_article p a) (update_rows-IdsBelow n xs hs)
    where
      step :
          (b : Bool)
          → IdsBelow n (update_rows p xs)
          → IdsBelow n ((if b then update_article p a else a) ∷ update_rows p xs)
      step true ih = (h, ih)
      step false ih = (h, ih)

below-fresh : (n : ℕ) (xs : List Article) → IdsBelow n xs → any (λ b. nat_eq b.id n) xs ≡ false
below-fresh n [] h = refl
below-fresh n (a ∷ xs) (h, hs) = ground (arith, below-fresh n xs hs)

IdsBelow-suc : (n : ℕ) (xs : List Article) → IdsBelow n xs → IdsBelow (n + 1) xs
IdsBelow-suc n [] h = tt
IdsBelow-suc n (a ∷ xs) (h, hs) = (omega arith, IdsBelow-suc n xs hs)

IdsBelow-append :
    (n : ℕ) (xs : List Article) (a : Article) → IdsBelow n xs → a.id < n → IdsBelow n (xs ++ a ∷ [])
IdsBelow-append n [] a h k = (k, tt)
IdsBelow-append n (x ∷ xs) a (h, hs) k = (h, IdsBelow-append n xs a hs k)

pub has_guid_comm :
    (a x : Article) → has_guid x.feed_id x.guid a ≡ false → has_guid a.feed_id a.guid x ≡ false
has_guid_comm a x h = ground (arith, eq_iff a.guid x.guid, eq_iff x.guid a.guid)

-- a row with a new key and a new guid may be added
UniqueRows-append :
    (xs : List Article) (a : Article)
    → UniqueRows xs
    → any (λ b. nat_eq b.id a.id) xs ≡ false
    → any (has_guid a.feed_id a.guid) xs ≡ false
    → UniqueRows (xs ++ a ∷ [])
UniqueRows-append [] a u h k = (refl, refl, tt)
UniqueRows-append (x ∷ xs) a (ids, guids, u) h k = (
  any-append (λ b. nat_eq b.id x.id) xs (a ∷ []) ∙ ground arith,
  any-append (has_guid x.feed_id x.guid) xs (a ∷ []) ∙ ground (arith, has_guid_comm x a),
  UniqueRows-append xs a u (ground arith) (ground arith),
)

-- CreateArticle keeps the keys of the table distinct, and its counter above them.
pub create_article-IsValid :
    (p : CreateArticleParams) (now : ℕ) (db : Database)
    → IsValid db
    → IsValid (create_article p now db)
unfolding create_article
create_article-IsValid p now db v = elim (Bool-cases (any (same_article p) db.articles)) [
  | inl old ↦ rw old (record {
    unique = update_rows-UniqueRows p db.articles v.unique;
    below = update_rows-IdsBelow p db.next_article_id db.articles v.below;
  })
  | inr new ↦ rw new (record {
    unique =
        UniqueRows-append db.articles (new_article p db.next_article_id now) v.unique
          (below-fresh db.next_article_id db.articles v.below) new;
    below =
        IdsBelow-append (db.next_article_id + 1) db.articles (new_article p db.next_article_id now)
          (IdsBelow-suc db.next_article_id db.articles v.below) (omega arith);
  })
]

stored_before :
    (p : CreateArticleParams) (feed : ℕ) (guid : String) (xs : List Article)
    → any (same_article p) xs ≡ true
    → (nat_eq p.feed_id feed && p.guid == guid) ≡ true
    → any (has_guid feed guid) xs ≡ true
stored_before p feed guid xs old h =
    let (f, g) = and_true (nat_eq p.feed_id feed) (p.guid == guid) h in
    subst₂ (λ f g. any (has_guid f g) xs ≡ true) ((nat_eq_iff p.feed_id feed).0 f)
      ((eq_iff p.guid guid).0 g) old

-- A row is there for the guid that was stored, and for another guid just if it was there before.
pub any_guid-create_article :
    (p : CreateArticleParams) (now feed : ℕ) (guid : String) (db : Database)
    → any (has_guid feed guid) (create_article p now db).articles
      ≡ (any (has_guid feed guid) db.articles || (nat_eq p.feed_id feed && p.guid == guid))
unfolding create_article
any_guid-create_article p now feed guid db = elim (Bool-cases (any (same_article p) db.articles)) [
  | inl old ↦ rw old (
      any_guid-update_rows p feed guid db.articles
      ∙ ground (arith, stored_before p feed guid db.articles old))
  | inr new ↦ rw new (any-append (has_guid feed guid) db.articles _ ∙ ground arith)
]

-- Every row is there afterwards with its key, guid, time of fetching and flags.
abbrev pub Keeps : Article → Article → Type 0
Keeps a b =
    (b.id ≡ a.id)
    × (b.feed_id ≡ a.feed_id)
    × (b.guid ≡ a.guid)
    × (b.fetched_at ≡ a.fetched_at)
    × (b.is_read ≡ a.is_read)
    × (b.is_starred ≡ a.is_starred)

update_rows-Keeps :
    (p : CreateArticleParams) {a : Article} {xs : List Article}
    → Memᴰ a xs
    → (b : Article) × Memᴰ b (update_rows p xs) × Keeps a b
update_rows-Keeps p {a} (Memᴰ.head {x} {xs} e) = rw e (elim (Bool-cases (same_article p x)) [
  | inl same ↦ (update_article p x, Memᴰ.head (rw same), (refl, refl, refl, refl, refl, refl))
  | inr other ↦ (x, Memᴰ.head (rw other), (refl, refl, refl, refl, refl, refl))
])
update_rows-Keeps p (Memᴰ.tail m) = let (b, n, k) = update_rows-Keeps p m in (b, Memᴰ.tail n, k)

pub create_article-Keeps :
    (p : CreateArticleParams) (now : ℕ) (db : Database) {a : Article}
    → Memᴰ a db.articles
    → (b : Article) × Memᴰ b (create_article p now db).articles × Keeps a b
unfolding create_article
create_article-Keeps p now db {a} m = elim (Bool-cases (any (same_article p) db.articles)) [
  | inl old ↦ rw old (update_rows-Keeps p m)
  | inr new ↦ rw new (a, append_left _ m, (refl, refl, refl, refl, refl, refl))
]
