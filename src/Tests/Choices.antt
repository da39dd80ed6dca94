-- ===== src/Tests/Choices.antt =====
-- The properties of alerts, of Cloudflare Access and of the configuration at concrete values.
use feedreader.Prelude.{
  ℕ, ◌≡◌, refl, not, none, some, [], ◌∷◌, any, ◌&&◌, ◌||◌, ◌==◌, String_eq, if◌then◌else◌,
}
use feedreader.Prelude.Dict.{lookup, insert}
use feedreader.Http.{Request}
use feedreader.Db.Models.{Database}
use feedreader.Db.Alerts.{get_feed_owner, is_unread_of}
use feedreader.Alerts.Evaluate.{evaluate_alerts_for_feed}
use feedreader.Alerts.Matched.{holds, owned_match, evaluate_alerts_for_feed-holds}
use feedreader.Auth.Cloudflare.{
  CfJwk, Tokens, CloudflareAccessProvider, get_key, cloudflare_authenticate, collect_keys,
  parse_ec_public_key, jwt_header,
}
use feedreader.Auth.Keys.{
  InFreshCache, Verified, get_key-InFreshCache, cloudflare_authenticate-Verified,
}
use feedreader.Config.Settings.{build_auth_provider, resolve_provider_choice, cloudflare_settings}
use feedreader.Config.Choice.{is_built, resolve_provider_choice-is_built}
use feedreader.Tests.Sample.{plain_tools, no_faults, sample_db}

-- the first user's alert on a word of the first article's title
abbrev alert_db : Database
alert_db = record sample_db {
  news_alerts =
      record {
        id = 9;
        user_id = 1;
        name = "adverts";
        pattern = "advert";
        is_regex = 0;
        match_field = "title";
        created_at = 0;
      }
      ∷ [];
}

evaluate_alerts_for_feed-holds_example :
    holds 1 9 (evaluate_alerts_for_feed plain_tools no_faults 50 1 alert_db) ≡ (
      holds 1 9 alert_db
      || any
          (λ a.
            is_unread_of alert_db 1 1 a
            && any (owned_match plain_tools no_faults 50 1 9 1 a) alert_db.news_alerts)
          alert_db.articles)
unfolding get_feed_owner
evaluate_alerts_for_feed-holds_example =
    evaluate_alerts_for_feed-holds plain_tools no_faults 50 1 9 1 1 alert_db refl refl refl refl
      (λ i j. refl)

-- keys are numbers, and a token is its own claim
abbrev number_tokens : Tokens
number_tokens = record {
  PublicKey = ℕ;
  equal_fold = λ a b. a == b;
  decode_string = λ text. some [];
  parse_uncompressed_public_key = λ curve bytes. some 7;
  kid_of = λ token. some "k1";
  verify = λ key team audience token. some token;
}

abbrev jwk : CfJwk
jwk = record { kid = "k1"; kty = "EC"; alg = "ES256"; crv = "P-256"; x = ""; y = "" }

abbrev access : CloudflareAccessProvider number_tokens
access = record { team_domain = "team"; audience = "aud"; key_cache = none; key_cached_at = 0 }

get_key-InFreshCache_example :
    InFreshCache number_tokens 100 "k1" 7
      (get_key number_tokens (some (jwk ∷ [])) 100 "k1" access).0
unfolding get_key collect_keys insert lookup parse_ec_public_key
get_key-InFreshCache_example =
    get_key-InFreshCache number_tokens (some (jwk ∷ [])) 100 "k1" access 7 refl

abbrev signed : Request
signed = record {
  method = "GET";
  path = "/";
  header = λ name. if name == "Cf-Access-Jwt-Assertion" then "ann" else "";
  user = none;
  body_limit = none;
}

cloudflare_authenticate-Verified_example :
    Verified number_tokens 100
      (jwt_header signed)
      (record { external_id = "ann"; email = "ann" })
      (cloudflare_authenticate number_tokens (some (jwk ∷ [])) 100 signed access).0
unfolding cloudflare_authenticate collect_keys insert lookup parse_ec_public_key
cloudflare_authenticate-Verified_example =
    cloudflare_authenticate-Verified number_tokens (some (jwk ∷ [])) 100 signed access
      (record { external_id = "ann"; email = "ann" }) refl

resolve_provider_choice-is_built_example :
    is_built (
      build_auth_provider (record {
        provider = resolve_provider_choice (λ a b. a == b) "3";
        proxy = none;
        cloudflare = none;
      }))
    ≡ not (
        resolve_provider_choice (λ a b. a == b) "3" == "cloudflare"
        && (cloudflare_settings none).team_domain == "")
resolve_provider_choice-is_built_example =
    resolve_provider_choice-is_built (λ a b. a == b) "3" none none
