-- ===== src/Filter/Rules.antt =====
-- srv/filter.go: when a rule excludes an article (`matchesPattern`, `shouldExclude`, `ptrToStr`).
use Prim.Native.String
use feedreader.Prelude.{
  ℕ, String, Bool, true, false, Option, none, some, List, [], ◌∷◌, nat_eq, ◌||◌, ◌==◌, String_eq,
  if◌then◌else◌,
}
use feedreader.Strings.{TextTools, contains, to_lower}
use feedreader.Db.Models.{CategoryExclusion}

abbrev pub ptr_to_str : Option String → String
ptr_to_str none = ""
ptr_to_str (some s) = s

-- `excl.IsRegex != nil && *excl.IsRegex == 1`
abbrev pub is_regex_rule : CategoryExclusion → Bool
is_regex_rule excl = elim excl.is_regex [ none ↦ false | some n ↦ nat_eq n 1 ]

-- the columns of an article row that the rules read; each row type of the queries has them
pub record Row {ℓ} (A : Type ℓ) : Type ℓ where
  pub feed_id : A → ℕ
  pub title : A → String
  pub summary : A → Option String
  pub author : A → Option String

module _ (tools : TextTools) where
  unfoldable pub matches_pattern : String → String → Bool → Bool
  unfolding contains to_lower
  matches_pattern text pattern is_regex =
      if text == "" || pattern == ""
      then false
      else if is_regex
      then elim (tools.compile_regexp (String.◌++◌ "(?i)" pattern)) [
        | none ↦ false
        | some re ↦ re text
      ]
      else contains (to_lower tools text) (to_lower tools pattern)

  -- the `switch` of `shouldExclude` for one rule
  unfoldable pub rule_hits : String → String → String → CategoryExclusion → Bool
  unfolding matches_pattern
  rule_hits title summary author excl =
      if excl.exclusion_type == "author"
      then matches_pattern author excl.pattern (is_regex_rule excl)
      else if excl.exclusion_type == "title"
      then matches_pattern title excl.pattern (is_regex_rule excl)
      else if excl.exclusion_type == "keyword"
      then if matches_pattern title excl.pattern (is_regex_rule excl)
        then true
        else matches_pattern summary excl.pattern (is_regex_rule excl)
      else false

  unfoldable pub should_exclude : String → String → String → List CategoryExclusion → Bool
  unfolding rule_hits
  should_exclude title summary author [] = false
  should_exclude title summary author (excl ∷ exclusions) =
      if rule_hits title summary author excl
      then true
      else should_exclude title summary author exclusions

  -- the call that every filter makes for a row
  abbrev pub row_excluded {ℓ} : {A : Type ℓ} ⦃row : Row A⦄ → List CategoryExclusion → A → Bool
  row_excluded ⦃row⦄ exclusions a =
      should_exclude (row.title a) (ptr_to_str (row.summary a)) (ptr_to_str (row.author a))
        exclusions
