-- ===== src/CategoryTree.antt =====
-- srv/category_tree.go: the tree of categories.
pub mod Nodes
pub mod Shown
pub mod Depths
