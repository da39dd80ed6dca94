-- ===== src/Opml/Grouping.antt =====
-- srv/opml/opml.go: how `Export` groups feeds by category.
use mathlib.Core.List.{append-nil, append_assoc}
use feedreader.Prelude.{
  String, ◌≡◌, refl, sym, ap, ap₂, ◌∙◌, Bool, true, false, none, some, List, [], ◌∷◌, ◌++◌, map,
  ◌==◌, String_eq, any, keep, keep-append, mem_of_keep, map_congr_mem, Bool-cases, inl, inr, arith,
  if◌then◌else◌,
}
use text.Mathlib.TextEquality.{eq_iff}
use feedreader.Prelude.Dict.{
  Dict, NodupKeys, lookup, insert, items, lookup-insert, insert-NodupKeys,
}
use feedreader.Opml.Outlines.{
  Feed, ExportFeed, parse_body, MapOrder, Groups, group_feed, group_feeds, folder_outlines,
  export_body,
}
use feedreader.Opml.Roundtrip.{
  filed, lacks_url, extract-feed_outlines, extract-folder_outlines, HaveUrls, flat, keep-flat,
  keep-filed,
}

abbrev of_category : String → ExportFeed → Bool
of_category c f = f.category == c

-- one round of the loop puts a feed at the end of its category's list
group_feed-lookup :
    (c : String) (f : ExportFeed) (g : Groups)
    → (c == "") ≡ false
    → items (lookup c (group_feed f g).0)
      ≡ items (lookup c g.0) ++ (if of_category c f then f ∷ [] else [])
group_feed-lookup c f (m, u) h = elim (Bool-cases (f.category == "")) [
  | inl e ↦
      let other : of_category c f ≡ false =
        ap (λ k. k == c) ((eq_iff f.category "").0 e) ∙ ground (arith, eq_iff c "", eq_iff "" c) in
      rw (e, other) (sym (append-nil (items (lookup c m))))
  | inr e ↦
      let longer : List ExportFeed = items (lookup f.category m) ++ f ∷ [] in
      elim (Bool-cases (f.category == c)) [
        | inl mine ↦
            let found : lookup c (insert f.category longer m) ≡ some longer =
              lookup-insert c f.category longer m ∙ rw mine refl in
            rw (e, mine)
              (ap items found
                ∙ ap (λ k. items (lookup k m) ++ f ∷ []) ((eq_iff f.category c).0 mine))
        | inr other ↦
            let found : lookup c (insert f.category longer m) ≡ lookup c m =
              lookup-insert c f.category longer m ∙ rw other refl in
            rw (e, other) (ap items found ∙ sym (append-nil (items (lookup c m))))
      ]
]

group_feed-uncategorized :
    (f : ExportFeed) (g : Groups)
    → (group_feed f g).1 ≡ g.1 ++ (if of_category "" f then f ∷ [] else [])
group_feed-uncategorized f (m, u) = elim (Bool-cases (f.category == "")) [
  | inl e ↦ rw e refl
  | inr e ↦ rw e (sym (append-nil u))
]

-- no category is the empty text, and none stands twice
abbrev IsGrouped : Groups → Type 0
IsGrouped g = (lookup "" g.0 ≡ none) × NodupKeys g.0

group_feed-IsGrouped : (f : ExportFeed) (g : Groups) → IsGrouped g → IsGrouped (group_feed f g)
group_feed-IsGrouped f (m, u) (h, n) = elim (Bool-cases (f.category == "")) [
  | inl e ↦ rw e (h, n)
  | inr e ↦ rw e (
    lookup-insert "" f.category _ m ∙ rw e h,
    insert-NodupKeys f.category (items (lookup f.category m) ++ f ∷ []) m n,
  )
]

keep-one :
    (p : ExportFeed → Bool) (f : ExportFeed) (feeds : List ExportFeed)
    → (if p f then f ∷ [] else []) ++ keep p feeds ≡ keep p (f ∷ feeds)
keep-one p f feeds = ground arith

group_feeds-lookup :
    (c : String) (feeds : List ExportFeed) (g : Groups)
    → (c == "") ≡ false
    → items (lookup c (group_feeds feeds g).0) ≡ items (lookup c g.0) ++ keep (of_category c) feeds
unfolding group_feeds
group_feeds-lookup c [] g h = sym (append-nil _)
group_feeds-lookup c (f ∷ feeds) g h =
    group_feeds-lookup c feeds (group_feed f g) h
    ∙ ap (λ xs. xs ++ keep (of_category c) feeds) (group_feed-lookup c f g h)
    ∙ append_assoc (items (lookup c g.0)) _ _
    ∙ ap (λ xs. items (lookup c g.0) ++ xs) (keep-one (of_category c) f feeds)

group_feeds-uncategorized :
    (feeds : List ExportFeed) (g : Groups)
    → (group_feeds feeds g).1 ≡ g.1 ++ keep (of_category "") feeds
unfolding group_feeds
group_feeds-uncategorized [] g = sym (append-nil _)
group_feeds-uncategorized (f ∷ feeds) g =
    group_feeds-uncategorized feeds (group_feed f g)
    ∙ ap (λ xs. xs ++ keep (of_category "") feeds) (group_feed-uncategorized f g)
    ∙ append_assoc g.1 _ _
    ∙ ap (λ xs. g.1 ++ xs) (keep-one (of_category "") f feeds)

group_feeds-IsGrouped :
    (feeds : List ExportFeed) (g : Groups) → IsGrouped g → IsGrouped (group_feeds feeds g)
unfolding group_feeds
group_feeds-IsGrouped [] g h = h
group_feeds-IsGrouped (f ∷ feeds) g h =
    group_feeds-IsGrouped feeds (group_feed f g) (group_feed-IsGrouped f g h)

-- the feeds of a category, read off the groups
abbrev grouped : List ExportFeed → String → List ExportFeed
grouped feeds c = items (lookup c (group_feeds feeds ([], [])).0)

grouped-empty : (feeds : List ExportFeed) → grouped feeds "" ≡ []
unfolding lookup
grouped-empty feeds = ap items (group_feeds-IsGrouped feeds ([], []) (refl, tt)).0

grouped-category :
    (feeds : List ExportFeed) (c : String)
    → (c == "") ≡ false
    → grouped feeds c ≡ keep (of_category c) feeds
unfolding lookup
grouped-category feeds c h = group_feeds-lookup c feeds ([], []) h

none_lack :
    (c : String) (feeds : List ExportFeed)
    → any lacks_url feeds ≡ false
    → any lacks_url (keep (of_category c) feeds) ≡ false
none_lack c [] h = refl
none_lack c (f ∷ feeds) h = ground (arith, none_lack c feeds)

grouped-urls :
    (feeds : List ExportFeed) (c : String)
    → any lacks_url feeds ≡ false
    → any lacks_url (grouped feeds c) ≡ false
grouped-urls feeds c h = elim (Bool-cases (c == "")) [
  | inl e ↦ ap (any lacks_url) (ap (grouped feeds) ((eq_iff c "").0 e) ∙ grouped-empty feeds)
  | inr e ↦ ap (any lacks_url) (grouped-category feeds c e) ∙ none_lack c feeds h
]

-- what holds of the lists that a lookup finds holds of every entry
found-HaveUrls :
    (m : Dict String (List ExportFeed))
    → NodupKeys m
    → ((k : String) → any lacks_url (items (lookup k m)) ≡ false)
    → HaveUrls m
unfolding lookup
found-HaveUrls [] u h = tt
found-HaveUrls ((name, feeds) ∷ m) (fresh, u) h = (
  (let here : (name == name) ≡ true = (eq_iff name name).1 refl in rw here at (h name)),
  found-HaveUrls m u (λ k. elim (Bool-cases (name == k)) [
    | inl e ↦
        ap (λ o. any lacks_url (items o)) (ap (λ j. lookup j m) (sym ((eq_iff name k).0 e)) ∙ fresh)
    | inr e ↦ rw e at (h k)
  ]),
)

as_filed :
    (c : String) (feeds : List ExportFeed)
    → map (filed c) (keep (of_category c) feeds)
      ≡ map (λ f. filed f.category f) (keep (of_category c) feeds)
as_filed c feeds =
    map_congr_mem (filed c) (λ f. filed f.category f) (keep (of_category c) feeds)
      (λ f m.
        ap (λ k. filed k f) (sym ((eq_iff f.category c).0 (mem_of_keep (of_category c) feeds m).1)))

-- In whatever order the categories are visited, feeds that all have a URL are read back from the
-- body that `Export` writes: for every category, and for none, the same feeds in the same order.
pub parse_body-export_body :
    (order : MapOrder) (feeds : List ExportFeed) (category : String)
    → any (λ f. f.url == "") feeds ≡ false
    → keep (λ (f : Feed). f.category == category) (parse_body (export_body order feeds))
      ≡ map (λ f. filed f.category f) (keep (λ (f : ExportFeed). f.category == category) feeds)
unfolding export_body lookup
parse_body-export_body order feeds category h =
    ap (keep (λ (f : Feed). f.category == category)) (
      extract-feed_outlines "" uncategorized (folder_outlines visited)
        (ap (any lacks_url) (group_feeds-uncategorized feeds ([], [])) ∙ none_lack "" feeds h)
      ∙ ap (λ fs. map (filed "") uncategorized ++ fs)
          (extract-folder_outlines visited (
            found-HaveUrls visited distinct
              (λ k. ap (any lacks_url) (visited_lookup k) ∙ grouped-urls feeds k h))))
    ∙ keep-append (λ (f : Feed). f.category == category) (map (filed "") uncategorized)
        (flat visited)
    ∙ ap₂ ◌++◌ (keep-filed category "" uncategorized) (keep-flat category visited distinct)
    ∙ elim (Bool-cases (category == "")) [
      | inl e ↦
          let same = (eq_iff category "").0 e in
          let flipped : ("" == category) ≡ true = (eq_iff "" category).1 (sym same) in
          let empty : items (lookup category visited) ≡ [] =
            visited_lookup category ∙ ap (grouped feeds) same ∙ grouped-empty feeds in
          rw (flipped, empty)
            (append-nil (map (filed "") uncategorized)
              ∙ ap (map (filed "")) (group_feeds-uncategorized feeds ([], []))
              ∙ as_filed "" feeds
              ∙ ap (λ c. map (λ f. filed f.category f) (keep (of_category c) feeds)) (sym same))
      | inr e ↦
          let flipped : ("" == category) ≡ false =
            ground (arith, eq_iff "" category, eq_iff category "") in
          rw flipped (
            ap (map (filed category)) (visited_lookup category ∙ grouped-category feeds category e)
            ∙ as_filed category feeds)
    ]
  where
    uncategorized : List ExportFeed
    uncategorized = (group_feeds feeds ([], [])).1

    visited : Dict String (List ExportFeed)
    visited = order.visit (group_feeds feeds ([], [])).0

    visited_lookup : (k : String) → items (lookup k visited) ≡ grouped feeds k
    visited_lookup k = ap items (order.visit_lookup (group_feeds feeds ([], [])).0 k)

    distinct : NodupKeys visited
    distinct =
        order.visit_nodup (group_feeds feeds ([], [])).0
          (group_feeds-IsGrouped feeds ([], []) (refl, tt)).1
