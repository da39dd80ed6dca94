-- ===== src/Handlers/Partial.antt =====
-- srv/server.go: what a request to store settings has stored when it is answered.
use feedreader.Prelude.{
  ℕ, String, ◌≡◌, refl, sym, ap, ◌∙◌, Bool, true, false, Option, none, some, List, [], ◌∷◌, ◌++◌,
  nat_eq, nat_eq_iff, ◌==◌, String_eq, ◌&&◌, Bool-cases, inl, inr, arith, if◌then◌else◌,
}
use feedreader.Prelude.Dict.{Dict, lookup, NodupKeys}
use feedreader.Server.{Server}
use feedreader.Db.Models.{UserSetting, Database}
use feedreader.Db.Calls.{Faults, set_user_setting_call}
use feedreader.Db.SeenGuids.{find_setting, put_setting, get_user_setting, set_user_setting}
use feedreader.Handlers.Settings.{setting_allowed, store_settings, api_update_settings}

find-put_setting :
    (user reader : ℕ) (key value wanted : String) (rows : List UserSetting)
    → find_setting (put_setting user key value rows) reader wanted ≡ (
        if nat_eq user reader && key == wanted then some value else find_setting rows reader wanted)
find-put_setting user reader key value wanted [] = refl
find-put_setting user reader key value wanted (s ∷ rest) = ground (
  arith,
  find-put_setting user reader key value wanted rest,
  nat_eq_iff s.user_id user,
  nat_eq_iff s.user_id reader,
  nat_eq_iff user reader,
  String_eq.same_iff s.key key,
  String_eq.same_iff s.key wanted,
  String_eq.same_iff key wanted,
)

lookup-front :
    (key : String) (front back : Dict String String)
    → lookup key (front ++ back) ≡ none
    → lookup key front ≡ none
unfolding lookup
lookup-front key [] back h = refl
lookup-front key ((k, v) ∷ front) back h = ground (arith, lookup-front key front back)

abbrev pub or_else : Option String → Option String → Option String
or_else none old = old
or_else (some value) old = some value

-- the setting that a reader has after these pairs of a user were stored
abbrev pub setting_after : Dict String String → ℕ → ℕ → String → Option String → Option String
setting_after front user reader key old =
    if nat_eq user reader then or_else (lookup key front) old else old

abbrev pub is_empty : Dict String String → Bool
is_empty [] = true
is_empty (p ∷ rest) = false

none_after :
    (user reader : ℕ) (key : String) (old : Option String)
    → old ≡ setting_after [] user reader key old
unfolding lookup
none_after user reader key old = ground arith

one_more :
    (user reader : ℕ) (key value wanted : String) (front : Dict String String) (old : Option String)
    → lookup key front ≡ none
    → setting_after front user reader wanted
        (if nat_eq user reader && key == wanted then some value else old)
      ≡ setting_after ((key, value) ∷ front) user reader wanted old
unfolding lookup
one_more user reader key value wanted front old fresh = elim (Bool-cases (nat_eq user reader)) [
  | inr e ↦ rw e refl
  | inl e ↦ elim (Bool-cases (key == wanted)) [
    | inr f ↦ rw (e, f) refl
    | inl f ↦
        rw (e, f)
          (ap (λ o. or_else o (some value))
            (ap (λ k. lookup k front) (sym ((String_eq.same_iff key wanted).0 f)) ∙ fresh))
  ]
]

module _ (faults : Faults) (user : ℕ) where
  -- the pairs that were stored are a front part of the body, all of it just if the answer is 200
  abbrev Stored : Dict String String → Database → Type 0
  Stored body db =
      (front back : Dict String String) × (body ≡ front ++ back)
      × (nat_eq (store_settings faults user body db).0.status 200 ≡ is_empty back)
      × ((reader : ℕ) (key : String)
          → find_setting (store_settings faults user body db).1.user_settings reader key
            ≡ setting_after front user reader key (find_setting db.user_settings reader key))

  store_settings-Stored :
      (body : Dict String String) (db : Database) → NodupKeys body → Stored body db
  unfolding store_settings set_user_setting
  store_settings-Stored [] db u = ([], [], refl, refl, λ reader key. none_after user reader key _)
  store_settings-Stored ((key, value) ∷ rest) db (fresh, u) =
      elim (Bool-cases (setting_allowed key value)) [
        | inr e ↦
            rw e (
              [],
              (key, value) ∷ rest,
              refl,
              refl,
              λ reader wanted. none_after user reader wanted _,
            )
        | inl e ↦ elim (Bool-cases (faults (set_user_setting_call key))) [
          | inl f ↦
              rw (e, f)
                (
                  [],
                  (key, value) ∷ rest,
                  refl,
                  refl,
                  λ reader wanted. none_after user reader wanted _,
                )
          | inr f ↦
              let (front, back, whole, answer, read) =
                store_settings-Stored rest (set_user_setting user key value db) u in
              rw (e, f)
                (
                  (key, value) ∷ front,
                  back,
                  ap (λ r. (key, value) ∷ r) whole,
                  answer,
                  λ reader wanted.
                      read reader wanted
                      ∙ ap (setting_after front user reader wanted)
                          (find-put_setting user reader key value wanted db.user_settings)
                      ∙ one_more user reader key value wanted front _ (
                          lookup-front key front back (ap (λ m. lookup key m) (sym whole) ∙ fresh)),
                )
        ]
      ]

  -- A request to store settings, whose body has distinct keys, has stored a front part of the body
  -- when it is answered, in the order in which the keys are visited, whichever statement fails and
  -- whichever key is refused: all of the body exactly if the answer is 200. The user's settings of
  -- the keys in that part have the values of the body, and every other setting, also of the other
  -- users, is what it was.
  pub api_update_settings-front :
      (body : Dict String String) (s : Server)
      → NodupKeys body
      → (front back : Dict String String) × (body ≡ front ++ back)
        × (nat_eq (api_update_settings faults user (some body) s).0.status 200 ≡ is_empty back)
        × ((reader : ℕ) (key : String)
            → get_user_setting (api_update_settings faults user (some body) s).1.db reader key
              ≡ setting_after front user reader key (get_user_setting s.db reader key))
  unfolding api_update_settings get_user_setting
  api_update_settings-front body s u = store_settings-Stored body s.db u
