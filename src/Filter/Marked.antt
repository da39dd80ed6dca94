-- ===== src/Filter/Marked.antt =====
-- What marking leaves in the table of articles.
use mathlib.Core.List.{Memᴰ}
use feedreader.Prelude.{
  ℕ, ◌≡◌, refl, sym, ap, ◌∙◌, Bool, true, false, not, some, List, [], ◌∷◌, map, nat_eq, ◌&&◌, ◌||◌,
  nat_eq_flip, any, keep, Bool-cases, inl, inr, arith, if◌then◌else◌, nat_eq_iff, any_of_mem,
  map_congr, map-map, map_id,
}
use feedreader.Strings.{TextTools}
use feedreader.Db.Models.{Article, CategoryExclusion, Database}
use feedreader.Db.Calls.{Faults, mark_article_read_call}
use feedreader.Db.Articles.{set_read, mark_article_read_internal}
use feedreader.Filter.Rules.{row_excluded}
use feedreader.Filter.Marking.{Article_row, mark_one, mark_rows}

-- the primary key of `articles`
abbrev pub UniqueIds : List Article → Type 0
UniqueIds [] = Unit {0}
UniqueIds (a ∷ rest) = (any (λ b. nat_eq b.id a.id) rest ≡ false) × UniqueIds rest

abbrev pub read : Article → Article
read a = record a { is_read = some 1 }

any-keep-false :
    (p q : Article → Bool) (xs : List Article) → any q xs ≡ false → any q (keep p xs) ≡ false
any-keep-false p q [] h = refl
any-keep-false p q (x ∷ xs) h = ground (arith, any-keep-false p q xs)

same_key :
    (a x : Article) (xs : List Article)
    → a ≡ x
    → any (λ b. nat_eq b.id x.id) xs ≡ false
    → any (λ b. nat_eq b.id a.id) xs ≡ false
same_key a x xs e h = rw e h

other_key :
    (a x : Article) (xs : List Article)
    → Memᴰ a xs
    → any (λ b. nat_eq b.id x.id) xs ≡ false
    → nat_eq x.id a.id ≡ false
other_key a x xs m h = elim (Bool-cases (nat_eq x.id a.id)) [
  | inl same ↦ absurd (cc (any_of_mem (λ b. nat_eq b.id x.id) m (ground arith)))
  | inr other ↦ other
]

-- in a table with a primary key, a selected row is told by its key
pub selected_by_id :
    (p : Article → Bool) {a : Article} {xs : List Article}
    → Memᴰ a xs
    → UniqueIds xs
    → any (λ b. nat_eq b.id a.id) (keep p xs) ≡ p a
selected_by_id p {a} (Memᴰ.head {x} {xs} e) (fresh, u) = ground (
  arith,
  ap p e,
  ap (λ (y : Article). y.id) e,
  any-keep-false p (λ b. nat_eq b.id a.id) xs (same_key a x xs e fresh),
)
selected_by_id p {a} (Memᴰ.tail {x} {xs} m) (fresh, u) =
    ground (arith, selected_by_id p m u, other_key a x xs m fresh)

-- what one round of the loop does to one row
abbrev round : Bool → ℕ → Article → Article
round true id a = set_read id a
round false id a = a

-- a row marked in one round and tested later is the row tested at once
set_then_hit :
    (c : Bool) (id : ℕ) (h : ℕ → Bool) (a : Article)
    → (if h (round c id a).id then read (round c id a) else round c id a)
      ≡ (if (nat_eq id a.id && c) || h a.id then read a else a)
set_then_hit true id h a = elim (Bool-cases (nat_eq a.id id)) [
  | inl same ↦
      rw (same, sym ((nat_eq_iff a.id id).0 same), (nat_eq_iff a.id a.id).1 refl) (both (h a.id))
  | inr other ↦ rw (other, nat_eq_flip a.id id other) refl
]
  where
    both : (b : Bool) → (if b then read (read a) else read a) ≡ read a
    both true = refl
    both false = refl
set_then_hit false id h a = ground arith

module _ (tools : TextTools) (faults : Faults) where
  -- the articles that the loop over `rows` marks
  abbrev pub marked : List CategoryExclusion → List Article → Article → Article
  marked es rows a =
      if any
        (λ b.
          nat_eq b.id a.id
          && (row_excluded tools es b && not (faults (mark_article_read_call b.id))))
        rows
      then read a
      else a

  abbrev chosen : List CategoryExclusion → Article → Bool
  chosen es b = row_excluded tools es b && not (faults (mark_article_read_call b.id))

  mark_one-map :
      (es : List CategoryExclusion) (b : Article) (db : Database)
      → mark_one tools faults es b db
        ≡ record db { articles = map (round (chosen es b) b.id) db.articles }
  unfolding mark_article_read_internal
  mark_one-map es b db = cases (row_excluded tools es b) (faults (mark_article_read_call b.id))
    where
      cases :
          (x f : Bool)
          → (if x then if f then db else mark_article_read_internal b.id db else db)
            ≡ record db { articles = map (round (x && not f) b.id) db.articles }
      cases true true = λ i. record db { articles = sym (map_id db.articles) i }
      cases true false = refl
      cases false f = λ i. record db { articles = sym (map_id db.articles) i }

  marked-round :
      (es : List CategoryExclusion) (b : Article) (rows : List Article) (a : Article)
      → marked es rows (round (chosen es b) b.id a) ≡ marked es (b ∷ rows) a
  marked-round es b rows a =
      set_then_hit (chosen es b) b.id (λ id. any (λ x. nat_eq x.id id && chosen es x) rows) a

  pub mark_rows-map :
      (es : List CategoryExclusion) (rows : List Article) (db : Database)
      → mark_rows tools faults es rows db
        ≡ record db { articles = map (marked es rows) db.articles }
  unfolding mark_rows
  mark_rows-map es [] db = λ i. record db { articles = sym (map_id db.articles) i }
  mark_rows-map es (b ∷ rows) db =
      mark_rows-map es rows (mark_one tools faults es b db)
      ∙ ap (λ (d : Database). record d { articles = map (marked es rows) d.articles })
          (mark_one-map es b db)
      ∙ (λ i. record db {
        articles =
            (map-map (marked es rows) (round (chosen es b) b.id) db.articles
                ∙ map_congr _ _ db.articles (marked-round es b rows))
              i;
      })
