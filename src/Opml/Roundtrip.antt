-- ===== src/Opml/Roundtrip.antt =====
-- srv/opml/opml.go: what `extractFeeds` reads from outlines of the form that `Export` writes.
use mathlib.Core.List.{append-nil}
use feedreader.Prelude.{
  String, ◌≡◌, ◌⊎◌, refl, sym, ap, ap₂, ◌∙◌, Bool, true, false, List, [], ◌∷◌, ◌++◌, map, ◌==◌,
  String_eq, any, keep, keep-append, Bool-cases, inl, inr, arith, if◌then◌else◌,
}
use text.Mathlib.TextEquality.{eq_iff}
use feedreader.Prelude.Dict.{Dict, NodupKeys, lookup, items}
use feedreader.Opml.Outlines.{
  Feed, ExportFeed, Outlines, no_outlines, extract_children, feed_outlines, folder_outlines,
}

-- a feed as it is read back from a folder
abbrev pub filed : String → ExportFeed → Feed
filed category f = record { name = f.name; url = f.url; site_url = f.site_url; category = category }

abbrev pub lacks_url : ExportFeed → Bool
lacks_url f = f.url == ""

pub extract-feed_outlines :
    (category : String) (feeds : List ExportFeed) (rest : Outlines)
    → any lacks_url feeds ≡ false
    → extract_children (feed_outlines feeds rest) category
      ≡ map (filed category) feeds ++ extract_children rest category
unfolding extract_children
extract-feed_outlines category [] rest h = refl
extract-feed_outlines category (f ∷ feeds) rest h = elim (Bool-cases (f.url == "")) [
  | inl e ↦ absurd (ground arith)
  | inr e ↦ elim (Bool-cases (f.name == "")) [
    | inl n ↦
        rw (e, n)
          (ap (λ fs. filed category f ∷ fs)
            (extract-feed_outlines category feeds rest (ground arith)))
    | inr n ↦
        rw (e, n)
          (ap (λ fs. filed category f ∷ fs)
            (extract-feed_outlines category feeds rest (ground arith)))
  ]
]

-- the feeds of all folders, in order
abbrev pub flat : Dict String (List ExportFeed) → List Feed
flat [] = []
flat ((name, feeds) ∷ entries) = map (filed name) feeds ++ flat entries

abbrev pub HaveUrls : Dict String (List ExportFeed) → Type 0
HaveUrls [] = Unit {0}
HaveUrls ((name, feeds) ∷ entries) = (any lacks_url feeds ≡ false) × HaveUrls entries

pub extract-folder_outlines :
    (entries : Dict String (List ExportFeed))
    → HaveUrls entries
    → extract_children (folder_outlines entries) "" ≡ flat entries
unfolding extract_children
extract-folder_outlines [] h = refl
extract-folder_outlines ((name, []) ∷ entries) (h, hs) = extract-folder_outlines entries hs
extract-folder_outlines ((name, f ∷ feeds) ∷ entries) (h, hs) =
    ap₂ ◌++◌ {y = map (filed name) (f ∷ feeds)}
      (inside name (Bool-cases (name == ""))
        ∙ (extract-feed_outlines name (f ∷ feeds) no_outlines h
            ∙ append-nil (map (filed name) (f ∷ feeds))))
      (extract-folder_outlines entries hs)
  where
    inside :
        (n : String)
        → ((n == "") ≡ true) ⊎ ((n == "") ≡ false)
        → extract_children (feed_outlines (f ∷ feeds) no_outlines) (if n == "" then n else n)
          ≡ extract_children (feed_outlines (f ∷ feeds) no_outlines) n
    inside n (inl e) = rw e refl
    inside n (inr e) = rw e refl

pub keep-filed :
    (c name : String) (feeds : List ExportFeed)
    → keep (λ (f : Feed). f.category == c) (map (filed name) feeds)
      ≡ (if name == c then map (filed name) feeds else [])
keep-filed c name [] = ground arith
keep-filed c name (f ∷ feeds) = elim (Bool-cases (name == c)) [
  | inl e ↦ rw e (ap (λ fs. filed name f ∷ fs) (keep-filed c name feeds ∙ rw e refl))
  | inr e ↦ rw e (keep-filed c name feeds ∙ rw e refl)
]

pub keep-flat :
    (c : String) (entries : Dict String (List ExportFeed))
    → NodupKeys entries
    → keep (λ (f : Feed). f.category == c) (flat entries) ≡ map (filed c) (items (lookup c entries))
unfolding lookup
keep-flat c [] u = refl
keep-flat c ((name, feeds) ∷ entries) (fresh, u) =
    keep-append (λ (f : Feed). f.category == c) (map (filed name) feeds) (flat entries)
    ∙ ap₂ ◌++◌ (keep-filed c name feeds) (keep-flat c entries u)
    ∙ elim (Bool-cases (name == c)) [
      | inl e ↦
          let same = (eq_iff name c).0 e in
          rw e (
            ap (λ o. map (filed name) feeds ++ map (filed c) (items o))
              (ap (λ k. lookup k entries) (sym same) ∙ fresh)
            ∙ append-nil _
            ∙ ap (λ k. map (filed k) feeds) same)
      | inr e ↦ rw e refl
    ]
