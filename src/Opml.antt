-- ===== src/Opml.antt =====
-- srv/opml/opml.go: subscription lists as OPML documents. The XML text of a document is the work of
-- Go's `encoding/xml`; the model starts from, and ends with, the body's outlines.
pub mod Outlines
pub mod Roundtrip
pub mod Grouping
