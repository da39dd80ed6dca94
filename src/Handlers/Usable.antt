-- ===== src/Handlers/Usable.antt =====
-- srv/server.go and srv/alerts.go: the alerts that the handlers accept are the ones that an
-- evaluation can compile.
use Prim.Native.String
use feedreader.Prelude.{
  ℕ, String, ◌≡◌, refl, ap, ◌∙◌, Bool, true, false, not, Option, none, some, is_some, List, [], ◌∷◌,
  map, nat_eq, any, any-append, keep, ◌==◌, String_eq, ◌&&◌, ◌||◌, Bool-cases, inl, inr, arith,
  if_holds, if◌then◌else◌,
}
use feedreader.Prelude.Int.{ℤ}
use feedreader.Strings.{TextTools}
use feedreader.Db.Models.{NewsAlert, Database}
use feedreader.Db.AlertRows.{CreateAlertParams, alert_of, changed_alert, create_alert, update_alert}
use feedreader.Handlers.Alerts.{AlertRequest, is_match_field, field_or_default, checked}

pub any-keep_none {ℓ} :
    {A : Type ℓ} (p q : A → Bool) (xs : List A) → any p xs ≡ false → any p (keep q xs) ≡ false
any-keep_none p q [] h = refl
any-keep_none p q (x ∷ xs) h = ground (arith, any-keep_none p q xs)

any-map_none {ℓ} :
    {A : Type ℓ} (p q : A → Bool) (f : A → A) (xs : List A)
    → ((x : A) → p (f x) ≡ false)
    → any p xs ≡ false
    → any p (map (λ x. if q x then f x else x) xs) ≡ false
any-map_none p q f [] h k = refl
any-map_none p q f (x ∷ xs) h k = elim (Bool-cases (q x)) [
  | inl e ↦ rw (e, h x) (any-map_none p q f xs h (ground arith))
  | inr e ↦ rw e (ground (arith, any-map_none p q f xs h))
]

module _ (tools : TextTools) where
  -- a pattern that is not empty and compiles if it is a regular expression, and a known field
  abbrev columns_usable : String → ℕ → String → Bool
  columns_usable pattern is_regex field =
      (nat_eq is_regex 0 || is_some (tools.compile_regexp (String.◌++◌ "(?i)" pattern)))
      && (not (pattern == "") && is_match_field field)

  abbrev pub is_usable : NewsAlert → Bool
  is_usable a = columns_usable a.pattern a.is_regex a.match_field

  -- what the checks let through is usable
  abbrev pub UsableParams : Option CreateAlertParams → Type 0
  UsableParams none = Unit {0}
  UsableParams (some p) = columns_usable p.pattern p.is_regex p.match_field ≡ true

  pub checked-UsableParams : (body : Option AlertRequest) → UsableParams (checked tools body)
  unfolding checked
  checked-UsableParams none = tt
  checked-UsableParams (some req) = elim (Bool-cases (req.name == "")) [
    | inl e ↦ rw e tt
    | inr named ↦ elim (Bool-cases (req.pattern == "")) [
      | inl e ↦ rw (named, e) tt
      | inr given ↦ elim (Bool-cases (is_match_field (field_or_default req.match_field))) [
        | inr e ↦ rw (named, given, e) tt
        | inl known ↦
            let compiles = is_some (tools.compile_regexp (String.◌++◌ "(?i)" req.pattern)) in
            elim (Bool-cases (req.is_regex && not compiles)) [
              | inl e ↦ rw (named, given, known, e) tt
              | inr fine ↦
                  rw (named, given, known, fine)
                    (rw (given, known) (kept req.is_regex compiles fine))
            ]
      ]
    ]
  ]
    where
      kept :
          (b compiles : Bool)
          → (b && not compiles) ≡ false
          → ((nat_eq (if b then 1 else 0) 0 || compiles) && (true && true)) ≡ true
      kept true compiles h = ground arith
      kept false compiles h = ground arith

  -- no alert of the table is unusable
  abbrev pub AllUsable : Database → Type 0
  AllUsable db = any (λ a. not (is_usable a)) db.news_alerts ≡ false

  abbrev pub OnSome : Option Database → Type 0
  OnSome none = Unit {0}
  OnSome (some db) = AllUsable db

  pub create_alert-AllUsable :
      (p : CreateAlertParams) (user now : ℕ) (db : Database)
      → UsableParams (some p)
      → AllUsable db
      → AllUsable (create_alert p user now db)
  unfolding create_alert
  create_alert-AllUsable p user now db h k =
      any-append (λ a. not (is_usable a)) db.news_alerts _ ∙ rw (k, h) refl

  pub update_alert-AllUsable :
      (p : CreateAlertParams) (id : ℤ) (user : ℕ) (db : Database)
      → UsableParams (some p)
      → AllUsable db
      → OnSome (update_alert p id user db)
  unfolding update_alert
  update_alert-AllUsable p id user db h k =
      if_holds OnSome (any (alert_of id user) db.news_alerts) _ none
        (any-map_none (λ a. not (is_usable a)) (alert_of id user) (changed_alert p) db.news_alerts
          (λ a. ap not h) k)
        tt
