-- ===== src/Retention/Recorded.antt =====
-- srv/retention.go: the guids of the articles that a cleanup removes are on record afterwards.
use feedreader.Prelude.{
  ℕ, String, ◌≡◌, ap₂, ◌∙◌, Bool, true, false, List, [], ◌∷◌, nat_eq, nat_eq_iff, ◌<◌, ◌==◌,
  String_eq, any, any-append, keep, length, and_true, Bool-cases, inl, inr, arith,
}
use text.Mathlib.TextEquality.{eq_iff}
use feedreader.Db.Models.{Article, SeenGuid}
use feedreader.Db.SeenGuids.{same_guid, record_guids}
use feedreader.Fetcher.Articles.{has_guid}

-- a test that some row passes counts at least one row
pub count_pos {ℓ} :
    {A : Type ℓ} (p : A → Bool) (xs : List A) → any p xs ≡ true → 0 < length (keep p xs)
count_pos p [] h = absurd (cc)
count_pos p (x ∷ xs) h = ground (arith, count_pos p xs)

-- what is on record stays so
record_guids_grows :
    (p : SeenGuid → Bool) (now : ℕ) (xs : List Article) (seen : List SeenGuid)
    → any p seen ≡ true
    → any p (record_guids now xs seen) ≡ true
unfolding record_guids
record_guids_grows p now [] seen h = h
record_guids_grows p now (a ∷ xs) seen h =
    elim (Bool-cases (any (same_guid a.feed_id a.guid) seen)) [
      | inl old ↦ rw old (record_guids_grows p now xs seen h)
      | inr new ↦ rw new (record_guids_grows p now xs _ (any-append p seen _ ∙ ground arith))
    ]

same_key :
    (feed : ℕ) (guid : String) (a : Article) (seen : List SeenGuid)
    → has_guid feed guid a ≡ true
    → any (same_guid feed guid) seen ≡ false
    → any (same_guid a.feed_id a.guid) seen ≡ false
same_key feed guid a seen h k =
    let (f, g) = and_true (nat_eq a.feed_id feed) (a.guid == guid) h in
    ap₂ (λ f g. any (same_guid f g) seen) ((nat_eq_iff a.feed_id feed).0 f)
      ((eq_iff a.guid guid).0 g)
    ∙ k

other_key :
    (feed : ℕ) (guid : String) (a : Article) (now : ℕ)
    → has_guid feed guid a ≡ false
    → same_guid feed guid (record { feed_id = a.feed_id; guid = a.guid; seen_at = now }) ≡ false
other_key feed guid a now h = h

-- a guid with no row yet gets one that carries the time of the statement
pub record_guids_stamped :
    (p : SeenGuid → Bool) (feed : ℕ) (guid : String) (now : ℕ) (xs : List Article)
    (seen : List SeenGuid)
    → ((a : Article)
        → has_guid feed guid a ≡ true
        → p (record { feed_id = a.feed_id; guid = a.guid; seen_at = now }) ≡ true)
    → any (same_guid feed guid) seen ≡ false
    → any (has_guid feed guid) xs ≡ true
    → any p (record_guids now xs seen) ≡ true
unfolding record_guids
record_guids_stamped p feed guid now [] seen h k m = absurd (cc)
record_guids_stamped p feed guid now (a ∷ xs) seen h k m =
    elim (Bool-cases (has_guid feed guid a)) [
      | inl same ↦
          rw (same_key feed guid a seen same k)
            (record_guids_grows p now xs _ (any-append p seen _ ∙ ground (arith, h a same)))
      | inr other ↦ elim (Bool-cases (any (same_guid a.feed_id a.guid) seen)) [
        | inl old ↦ rw old (record_guids_stamped p feed guid now xs seen h k (ground arith))
        | inr new ↦ rw new (
            record_guids_stamped p feed guid now xs _ h
              (any-append (same_guid feed guid) seen _ ∙ ground arith) (ground arith))
      ]
    ]
