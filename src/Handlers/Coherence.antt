-- ===== src/Handlers/Coherence.antt =====
-- srv/server.go and srv/counts_cache.go: the counts that a reader gets are the ones of the tables.
use feedreader.Prelude.{
  ℕ, String, ◌≡◌, ◌≢◌, refl, sym, ap, ◌∙◌, ◌⊎◌, ◌+◌, ltb, false, Option, none, some, List, [], ◌∷◌,
  nat_eq, nat_eq_iff, Bool-cases, inl, inr, arith,
}
use feedreader.Prelude.Dict.{Dict, lookup}
use feedreader.Strings.{TextTools}
use feedreader.Server.{Server}
use feedreader.CountsCache.{CountsCache, ArticleCounts, get, set, invalidate, new_counts_cache}
use feedreader.CountsCache.Laws.{get-set, get-invalidate}
use feedreader.Db.Models.{Database}
use feedreader.Db.Calls.{Faults}
use feedreader.Handlers.Articles.{Route, dispatch}
use feedreader.Handlers.Counts.{computed_article_counts, get_article_counts, counts_or}
use feedreader.Handlers.Isolation.{dispatch-Outcome}
use feedreader.Handlers.Settings.{api_update_settings}
use feedreader.Handlers.Unsettled.{counts_of-OnlySettings, api_update_settings-OnlySettings}
use feedreader.Handlers.Owners.{UniqueFeeds, counts_of-OnlyOf}

get_after_invalidate :
    (c : Option CountsCache) (user reader now : ℕ) (counts : ArticleCounts)
    → get (invalidate c user) reader now ≡ some counts
    → (nat_eq user reader ≡ false) × (get c reader now ≡ some counts)
unfolding get invalidate
get_after_invalidate none user reader now counts h = absurd (cc)
get_after_invalidate (some c) user reader now counts h =
    let k = sym (get-invalidate c user reader now) ∙ h in
    elim (Bool-cases (nat_eq user reader)) [
      | inl e ↦ absurd (ground arith)
      | inr e ↦ (e, rw e at k)
    ]

get_after_set :
    (c : Option CountsCache) (user reader at now : ℕ) (stored counts : ArticleCounts)
    → get (set c user stored at) reader now ≡ some counts
    → ((user ≡ reader) × (counts ≡ stored)) ⊎ (get c reader now ≡ some counts)
unfolding get set
get_after_set none user reader at now stored counts h = absurd (cc)
get_after_set (some c) user reader at now stored counts h =
    let k = sym (get-set c user reader stored at now) ∙ h in
    elim (Bool-cases (nat_eq user reader)) [
      | inl e ↦ elim (Bool-cases (ltb (at + c.ttl) now)) [
        | inl late ↦ absurd (ground arith)
        | inr fresh ↦
            let same : some stored ≡ some counts = rw (e, fresh) at k in
            inl ((nat_eq_iff user reader).0 e, cc)
      ]
      | inr e ↦ inr (rw e at k)
    ]

empty_gives_none :
    (ttl user now : ℕ) (counts : ArticleCounts) → get (new_counts_cache ttl) user now ≢ some counts
unfolding get new_counts_cache lookup
empty_gives_none ttl user now counts h = absurd (cc)

-- what happens at the server: a request of a user that marks, stars or queues articles or that
-- stores settings, with failures of its own, or a reading of a user's counts
pub data Event : Type 0 where
  request_event : Faults → ℕ → ℕ → Route → Event
  settings_event : Faults → ℕ → Option (Dict String String) → Event
  counts_event : ℕ → ℕ → Event

module _ (tools : TextTools) (reads : Faults) where
  -- Whatever a reader gets from the cache is what the queries would count.
  abbrev pub Coherent : Server → Type 0
  Coherent s =
      (user now : ℕ) (counts : ArticleCounts)
      → get s.counts_cache user now ≡ some counts
      → counts ≡ computed_article_counts tools reads s.db user

  dispatch-Coherent :
      (faults : Faults) (now user : ℕ) (route : Route) (s : Server)
      → UniqueFeeds s.db.feeds
      → Coherent s
      → Coherent (dispatch faults now user route s).1
  dispatch-Coherent faults now user route s unique h =
      elim (dispatch-Outcome faults now user route s) [
        | inl same ↦ rw same h
        | inr (_, only, cache) ↦ λ reader at counts hit.
            let (other, old) =
              get_after_invalidate s.counts_cache user reader at counts
                (ap (λ c. get c reader at) (sym cache) ∙ hit) in
            h reader at counts old
            ∙ sym (
                counts_of-OnlyOf tools reads user reader s.db _ unique
                  (λ e. ground (arith, nat_eq_iff user reader)) only)
      ]

  settings-Coherent :
      (faults : Faults) (user : ℕ) (body : Option (Dict String String)) (s : Server)
      → Coherent s
      → Coherent (api_update_settings faults user body s).1
  settings-Coherent faults user body s h =
      let (only, cache) = api_update_settings-OnlySettings faults user body s in
      λ reader at counts hit.
        h reader at counts (ap (λ c. get c reader at) (sym cache) ∙ hit)
        ∙ sym (counts_of-OnlySettings tools reads reader s.db _ only)

  counts_or-Coherent :
      (now user : ℕ) (s : Server) (o : Option ArticleCounts)
      → Coherent s
      → Coherent (counts_or tools reads now user s o).1
  counts_or-Coherent now user s (some cached) h = h
  counts_or-Coherent now user s none h = λ reader at counts hit.
      elim (get_after_set s.counts_cache user reader now at
        (computed_article_counts tools reads s.db user) counts hit) [
          | inl (same, stored) ↦ stored ∙ ap (λ u. computed_article_counts tools reads s.db u) same
          | inr old ↦ h reader at counts old
        ]

  read-Coherent :
      (now user : ℕ) (s : Server)
      → Coherent s
      → Coherent (get_article_counts tools reads now user s).1
  unfolding get_article_counts
  read-Coherent now user s = counts_or-Coherent now user s _

  counts_or-counts :
      (now user : ℕ) (s : Server) (o : Option ArticleCounts)
      → get s.counts_cache user now ≡ o
      → Coherent s
      → (counts_or tools reads now user s o).0 ≡ computed_article_counts tools reads s.db user
  counts_or-counts now user s (some cached) e h = h user now cached e
  counts_or-counts now user s none e h = refl

  read-counts :
      (now user : ℕ) (s : Server)
      → Coherent s
      → (get_article_counts tools reads now user s).0
        ≡ computed_article_counts tools reads s.db user
  unfolding get_article_counts
  read-counts now user s h = counts_or-counts now user s _ refl h

  counts_or-db :
      (now user : ℕ) (s : Server) (o : Option ArticleCounts)
      → (counts_or tools reads now user s o).1.db ≡ s.db
  counts_or-db now user s (some cached) = refl
  counts_or-db now user s none = refl

  read-db : (now user : ℕ) (s : Server) → (get_article_counts tools reads now user s).1.db ≡ s.db
  unfolding get_article_counts
  read-db now user s = counts_or-db now user s _

  dispatch-feeds :
      (faults : Faults) (now user : ℕ) (route : Route) (s : Server)
      → (dispatch faults now user route s).1.db.feeds ≡ s.db.feeds
  dispatch-feeds faults now user route s = elim (dispatch-Outcome faults now user route s) [
    | inl same ↦ ap (λ (t : Server). t.db.feeds) same
    | inr (_, only, cache) ↦ ap (λ (d : Database). d.feeds) only.2
  ]

  unfoldable pub happen : Event → Server → Server
  unfolding dispatch api_update_settings get_article_counts
  happen (request_event faults now user route) s = (dispatch faults now user route s).1
  happen (settings_event faults user body) s = (api_update_settings faults user body s).1
  happen (counts_event now user) s = (get_article_counts tools reads now user s).1

  unfoldable pub happen_all : List Event → Server → Server
  unfolding happen
  happen_all [] s = s
  happen_all (e ∷ es) s = happen_all es (happen e s)

  happen-Coherent :
      (e : Event) (s : Server)
      → UniqueFeeds s.db.feeds × Coherent s
      → UniqueFeeds (happen e s).db.feeds × Coherent (happen e s)
  unfolding happen
  happen-Coherent (request_event faults now user route) s (unique, h) = (
    rw (dispatch-feeds faults now user route s) unique,
    dispatch-Coherent faults now user route s unique h,
  )
  happen-Coherent (settings_event faults user body) s (unique, h) = (
    rw (ap (λ (d : Database). d.feeds) (api_update_settings-OnlySettings faults user body s).0)
        unique,
    settings-Coherent faults user body s h,
  )
  happen-Coherent (counts_event now user) s (unique, h) =
      (rw (read-db now user s) unique, read-Coherent now user s h)

  happen_all-Coherent :
      (es : List Event) (s : Server)
      → UniqueFeeds s.db.feeds × Coherent s
      → UniqueFeeds (happen_all es s).db.feeds × Coherent (happen_all es s)
  unfolding happen_all
  happen_all-Coherent [] s h = h
  happen_all-Coherent (e ∷ es) s h = happen_all-Coherent es (happen e s) (happen-Coherent e s h)

  -- From a cache that holds no counts yet, and with distinct feed keys, after any sequence of
  -- readings of counts and of requests that mark, star or queue articles (those of `Route`) or store
  -- settings, by any users, each request with failures of its own, `getArticleCounts` gives a user
  -- what the queries count in the tables at that moment, cached or not. The count queries fail in
  -- one and the same way throughout. Requests that change feeds, categories, rules or alerts, and
  -- the background tasks, are not in the sequence.
  pub happen_all-counts :
      (es : List Event) (s : Server) (ttl now user : ℕ)
      → UniqueFeeds s.db.feeds
      → s.counts_cache ≡ new_counts_cache ttl
      → (get_article_counts tools reads now user (happen_all es s)).0
        ≡ computed_article_counts tools reads (happen_all es s).db user
  happen_all-counts es s ttl now user unique empty =
      read-counts now user (happen_all es s)
        (happen_all-Coherent es s (
          unique,
          λ u at counts hit.
              absurd (empty_gives_none ttl u at counts (ap (λ c. get c u at) (sym empty) ∙ hit)),
        )).1
