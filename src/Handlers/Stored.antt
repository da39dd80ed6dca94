-- ===== src/Handlers/Stored.antt =====
-- srv/server.go and srv/retention.go: the settings that the handler stores are ones that it allows,
-- and the days of retention that they mean.
use mathlib.Core.Path.{subst}
use feedreader.Prelude.{
  ℕ, String, ◌≡◌, refl, ap, sym, ◌∙◌, Bool, true, false, not, Option, none, some, List, [], ◌∷◌,
  nat_eq, any, ◌==◌, String_eq, ◌&&◌, ◌≤◌, Bool-cases, inl, inr, arith, if_holds,
}
use feedreader.Prelude.Dict.{Dict, lookup}
use feedreader.Strings.Numbers.{atoi}
use feedreader.Server.{Server}
use feedreader.Http.{Response}
use feedreader.Db.Models.{UserSetting, Database}
use feedreader.Db.Calls.{Faults, get_user_setting_call, set_user_setting_call}
use feedreader.Db.SeenGuids.{find_setting, put_setting, get_user_setting, set_user_setting}
use feedreader.Retention.Cleanup.{setting_days, join, get_user_retention_days}
use feedreader.Handlers.Settings.{setting_allowed, store_settings, api_update_settings}

abbrev not_allowed : UserSetting → Bool
not_allowed s = not (setting_allowed s.key s.value)

-- every row of the table is one that the handler would store
abbrev pub AllAllowed : List UserSetting → Type 0
AllAllowed rows = any not_allowed rows ≡ false

put_setting-AllAllowed :
    (user : ℕ) (key value : String) (rows : List UserSetting)
    → setting_allowed key value ≡ true
    → AllAllowed rows
    → AllAllowed (put_setting user key value rows)
put_setting-AllAllowed user key value [] h k = rw h refl
put_setting-AllAllowed user key value (s ∷ rest) h k = elim (Bool-cases (s.key == key)) [
  | inl e ↦
      let same : setting_allowed s.key value ≡ true =
        ap (λ j. setting_allowed j value) ((String_eq.same_iff s.key key).0 e) ∙ h in
      rw e (ground (arith, put_setting-AllAllowed user key value rest h))
  | inr e ↦ rw e (ground (arith, put_setting-AllAllowed user key value rest h))
]

module _ (faults : Faults) (user : ℕ) where
  store_settings-AllAllowed :
      (body : Dict String String) (db : Database)
      → AllAllowed db.user_settings
      → AllAllowed (store_settings faults user body db).1.user_settings
  unfolding store_settings set_user_setting
  store_settings-AllAllowed [] db k = k
  store_settings-AllAllowed ((key, value) ∷ rest) db k =
      elim (Bool-cases (setting_allowed key value)) [
        | inr e ↦ rw e k
        | inl e ↦ rw e (
            if_holds (λ (r : Response × Database). AllAllowed r.1.user_settings)
              (faults (set_user_setting_call key)) _ _ k
              (store_settings-AllAllowed rest (set_user_setting user key value db)
                (put_setting-AllAllowed user key value db.user_settings e k)))
      ]

  api_update_settings-AllAllowed :
      (body : Option (Dict String String)) (s : Server)
      → AllAllowed s.db.user_settings
      → AllAllowed (api_update_settings faults user body s).1.db.user_settings
  unfolding api_update_settings
  api_update_settings-AllAllowed none s k = k
  api_update_settings-AllAllowed (some body) s k = store_settings-AllAllowed body s.db k

-- requests of any users, each with failures of its own
pub record SettingsEvent : Type 0 where
  pub faults : Faults
  pub user : ℕ
  pub body : Option (Dict String String)

unfoldable pub update_all : List SettingsEvent → Server → Server
unfolding api_update_settings
update_all [] s = s
update_all (e ∷ es) s = update_all es (api_update_settings e.faults e.user e.body s).1

update_all-AllAllowed :
    (es : List SettingsEvent) (s : Server)
    → AllAllowed s.db.user_settings
    → AllAllowed (update_all es s).db.user_settings
unfolding update_all
update_all-AllAllowed [] s k = k
update_all-AllAllowed (e ∷ es) s k =
    update_all-AllAllowed es (api_update_settings e.faults e.user e.body s).1
      (api_update_settings-AllAllowed e.faults e.user e.body s k)

abbrev InRange : ℕ → Type 0
InRange days = (7 ≤ days) × (days ≤ 365)

abbrev Each : (String → Type 0) → List String → Type 0
Each P [] = Unit {0}
Each P (x ∷ xs) = P x × Each P xs

holds_of_any :
    (P : String → Type 0) (value : String) (xs : List String)
    → Each P xs
    → any (λ v. v == value) xs ≡ true
    → P value
holds_of_any P value [] t h = absurd (ground arith)
holds_of_any P value (x ∷ xs) (px, rest) h = elim (Bool-cases (x == value)) [
  | inl e ↦ subst P ((String_eq.same_iff x value).0 e) px
  | inr e ↦ holds_of_any P value xs rest (rw e at h)
]

allowed_days :
    (value : String)
    → setting_allowed "retentionDays" value ≡ true
    → InRange (setting_days (some value))
unfolding setting_allowed lookup atoi
allowed_days value h =
    holds_of_any (λ v. InRange (setting_days (some v))) value
      ("7" ∷ "14" ∷ "30" ∷ "60" ∷ "90" ∷ "180" ∷ "365" ∷ [])
      ((
        (omega arith, omega arith),
        (
          (omega arith, omega arith),
          (
            (omega arith, omega arith),
            (
              (omega arith, omega arith),
              (
                (omega arith, omega arith),
                ((omega arith, omega arith), ((omega arith, omega arith), tt)),
              ),
            ),
          ),
        ),
      ))
      h

found_days :
    (rows : List UserSetting) (user : ℕ)
    → AllAllowed rows
    → InRange (setting_days (find_setting rows user "retentionDays"))
found_days [] user k = (omega arith, omega arith)
found_days (s ∷ rest) user k =
    elim (Bool-cases (nat_eq s.user_id user && s.key == "retentionDays")) [
      | inr e ↦ rw e (found_days rest user (ground arith))
      | inl e ↦ rw e (
          allowed_days s.value (
            ap (λ j. setting_allowed j s.value)
              (sym ((String_eq.same_iff s.key "retentionDays").0 (ground arith)))
            ∙ ground arith))
    ]

-- If every row of the table of settings is one that the handler allows, then after any sequence of
-- requests to store settings, whichever statements fail and wherever a body is refused, every row
-- still is, and the days of retention of every user lie between 7 and 365.
pub update_all-retention :
    (faults : Faults) (es : List SettingsEvent) (s : Server) (user : ℕ)
    → AllAllowed s.db.user_settings
    → AllAllowed (update_all es s).db.user_settings
      × (7 ≤ get_user_retention_days faults (update_all es s).db user)
      × (get_user_retention_days faults (update_all es s).db user ≤ 365)
unfolding get_user_retention_days get_user_setting
update_all-retention faults es s user h =
    let k = update_all-AllAllowed es s h in
    let days =
      if_holds (λ (o : Option (Option String)). InRange (setting_days (join o)))
        (faults (get_user_setting_call user)) none _ (omega arith, omega arith)
        (found_days (update_all es s).db.user_settings user k) in
    (k, days.0, days.1)
