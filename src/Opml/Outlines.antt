-- ===== src/Opml/Outlines.antt =====
-- srv/opml/opml.go: the outlines of a document, `extractFeeds`, `Parse` and `Export`.
use feedreader.Prelude.{
  String, Bool, true, false, List, [], ◌∷◌, ◌++◌, ◌==◌, String_eq, ◌&&◌, ◌≡◌, if◌then◌else◌,
}
use feedreader.Prelude.Dict.{Dict, NodupKeys, lookup, insert, items}

-- `Outline`, with its children
mutual
  pub data Outline : Type 0 where
    outline : (text title kind xml_url html_url : String) → (outlines : Outlines) → Outline

  pub data Outlines : Type 0 where
    no_outlines : Outlines
    outline_and : Outline → Outlines → Outlines

pub record Feed : Type 0 where
  pub name : String
  pub url : String
  pub site_url : String
  pub category : String

abbrev pub or_else : String → String → String
or_else a b = if a == "" then b else a

abbrev pub has_children : Outlines → Bool
has_children no_outlines = false
has_children (outline_and o os) = true

-- `folderName`: a folder has children and no feed URL
abbrev pub folder_name : String → String → String → Outlines → String → String
folder_name text title xml_url children category =
    if xml_url == "" && has_children children then or_else text title else category

abbrev pub own_feed : String → String → String → String → String → List Feed
own_feed text title xml_url html_url category =
    if xml_url == ""
    then []
    else record {
      name = or_else title text;
      url = xml_url;
      site_url = html_url;
      category = category;
    }
      ∷ []

unfoldable mutual
  pub extract_feeds : Outline → String → List Feed
  extract_feeds (outline text title kind xml_url html_url children) category =
      own_feed text title xml_url html_url category
      ++ extract_children children (folder_name text title xml_url children category)

  -- the loop over the children, and that of `Parse` over the body
  pub extract_children : Outlines → String → List Feed
  extract_children no_outlines category = []
  extract_children (outline_and o os) category =
      extract_feeds o category ++ extract_children os category

abbrev pub parse_body : Outlines → List Feed
parse_body body = extract_children body ""

pub record ExportFeed : Type 0 where
  pub name : String
  pub url : String
  pub site_url : String
  pub category : String

-- the order in which `range` visits a map: every entry once, and Go does not say when
pub record MapOrder : Type 0 where
  pub visit : Dict String (List ExportFeed) → Dict String (List ExportFeed)
  pub visit_lookup :
      (m : Dict String (List ExportFeed)) (k : String) → lookup k (visit m) ≡ lookup k m
  pub visit_nodup : (m : Dict String (List ExportFeed)) → NodupKeys m → NodupKeys (visit m)

-- feeds by category, and the feeds without one
abbrev pub Groups : Type 0
Groups = Dict String (List ExportFeed) × List ExportFeed

abbrev pub group_feed : ExportFeed → Groups → Groups
group_feed f (categories, uncategorized) =
    if f.category == "" then (categories, uncategorized ++ f ∷ []) else (
      insert f.category (items (lookup f.category categories) ++ f ∷ []) categories,
      uncategorized,
    )

unfoldable pub group_feeds : List ExportFeed → Groups → Groups
group_feeds [] g = g
group_feeds (f ∷ feeds) g = group_feeds feeds (group_feed f g)

abbrev pub feed_outline : ExportFeed → Outline
feed_outline f = outline f.name f.name "rss" f.url f.site_url no_outlines

abbrev pub feed_outlines : List ExportFeed → Outlines → Outlines
feed_outlines [] rest = rest
feed_outlines (f ∷ feeds) rest = outline_and (feed_outline f) (feed_outlines feeds rest)

abbrev pub folder_outlines : Dict String (List ExportFeed) → Outlines
folder_outlines [] = no_outlines
folder_outlines ((name, feeds) ∷ rest) =
    outline_and (outline name name "" "" "" (feed_outlines feeds no_outlines))
      (folder_outlines rest)

-- the body of the document that `Export` writes
unfoldable pub export_body : MapOrder → List ExportFeed → Outlines
unfolding group_feeds
export_body order feeds =
    let (categories, uncategorized) = group_feeds feeds ([], []) in
    feed_outlines uncategorized (folder_outlines (order.visit categories))
