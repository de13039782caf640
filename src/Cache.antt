-- ===== src/Cache.antt =====
-- app/services/cache.py: a cache of JSON values over Redis whose operations fail open. Redis is the
-- strings that it holds; whether it answers a call is an argument, since it may do so or not each
-- time. The time to live is not modelled: an entry that has expired is one that is not there.
pub mod Coherent
use text.Mathlib.Text.{◌==◌ as str_eq}
use fiqhmind_ai_backend.Prelude.{
  ℕ, Bool, true, false, not, String, Option, none, some, List, [], ◌∷◌, map, if◌then◌else◌, select,
  take, length, is_some,
}
use fiqhmind_ai_backend.Text.{Text}
use fiqhmind_ai_backend.Retrieval.Dict.{get, put}

-- what `json.loads` and `json.dumps` do
pub record Json (V : Type 0) : Type 0 where
  pub dumps : V → Text
  pub loads : Text → Option V

abbrev pub Redis : Type 0
Redis = List (String × Text)

abbrev pub decode : {V : Type 0} → Json V → Option Text → Option V
decode json none = none
decode json (some raw) = json.loads raw

-- `CacheService.get`
unfoldable pub cache_get : {V : Type 0} → Json V → Bool → String → Redis → Option V
cache_get json answers key redis = if answers then decode json (get key redis) else none

-- `set_raw`
unfoldable pub cache_set_raw : Bool → String → Text → Redis → Redis
cache_set_raw answers key raw redis = if answers then put key raw redis else redis

-- `set`
unfoldable pub cache_set : {V : Type 0} → Json V → Bool → String → V → Redis → Redis
unfolding cache_set_raw
cache_set json answers key value redis = cache_set_raw answers key (json.dumps value) redis

-- without a key
abbrev pub remove : String → Redis → Redis
remove key redis = select (λ entry. not (str_eq entry.0 key)) redis

-- `delete`
unfoldable pub cache_delete : Bool → String → Redis → Redis
cache_delete answers key redis = if answers then remove key redis else redis

-- `exists`
unfoldable pub cache_exists : Bool → String → Redis → Bool
cache_exists answers key redis = if answers then is_some (get key redis) else false

abbrev pub remove_all : List String → Redis → Redis
remove_all [] redis = redis
remove_all (key ∷ keys) redis = remove_all keys (remove key redis)

abbrev pub key_of_entry : String × Text → String
key_of_entry entry = entry.0

-- `delete_pattern`, where Redis answers a number of the calls of `delete`: what it returns, and what
-- is left
unfoldable pub delete_pattern : (String → Bool) → ℕ → Redis → ℕ × Redis
delete_pattern matches answered redis =
    let keys = take answered (select matches (map key_of_entry redis)) in
    (length keys, remove_all keys redis)

-- the end of `get_or_set`, with what the cache has
unfoldable pub load_and_set :
    {V : Type 0} → Json V → Bool → String → Option V → Option V → Redis → Option V × Redis
unfolding cache_set
load_and_set json answers key (some cached) loaded redis = (some cached, redis)
load_and_set json answers key none none redis = (none, redis)
load_and_set json answers key none (some value) redis =
    (some value, cache_set json answers key value redis)

-- `get_or_set`, with what its loader would return, and whether Redis answers each of the two calls
unfoldable pub get_or_set :
    {V : Type 0} → Json V → Bool → Bool → String → Option V → Redis → Option V × Redis
unfolding cache_get load_and_set
get_or_set json answers_get answers_set key loaded redis =
    load_and_set json answers_set key (cache_get json answers_get key redis) loaded redis

-- a call of `get_or_set`: the key, and whether Redis answers
pub record Lookup : Type 0 where
  pub key : String
  pub answers_get : Bool
  pub answers_set : Bool

-- what a run of calls returns, with one loader
unfoldable pub lookups :
    {V : Type 0} → Json V → (String → Option V) → List Lookup → Redis → List (Option V)
unfolding get_or_set
lookups json loader [] redis = []
lookups json loader (l ∷ ls) redis =
    let step = get_or_set json l.answers_get l.answers_set l.key (loader l.key) redis in
    step.0 ∷ lookups json loader ls step.1
