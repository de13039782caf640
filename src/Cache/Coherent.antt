-- ===== src/Cache/Coherent.antt =====
-- With a cache a client sees what it would see without one.
use text.Mathlib.Text.{◌==◌ as str_eq}
use text.Mathlib.TextEquality.{eq_iff}
use fiqhmind_ai_backend.Prelude.{
  ◌≡◌, ◌∙◌, refl, ap, sym, subst, inl, inr, Bool, true, false, String, Option, none, some, List, [],
  ◌∷◌, map, if◌then◌else◌, Bool-cases,
}
use fiqhmind_ai_backend.Retrieval.Dict.{get, put, get-put}
use fiqhmind_ai_backend.Cache.{
  Json, Redis, decode, cache_get, cache_set, cache_set_raw, load_and_set, get_or_set, Lookup,
  lookups,
}

module _ {V : Type 0} (json : Json V) (loader : String → Option V) where
  -- what is cached is what the loader returns, or cannot be read
  abbrev Same : Option V → Option V → Type 0
  Same none loaded = Unit
  Same (some cached) loaded = loaded ≡ some cached

  -- Each entry of the cache is what the loader returns for its key, or is no JSON.
  pub record IsCoherent (redis : Redis) : Type 0 where
    pub cached : (key : String) → Same (decode json (get key redis)) (loader key)

  cache_get-Same :
      (answers : Bool) (key : String) (redis : Redis)
      → IsCoherent redis
      → Same (cache_get json answers key redis) (loader key)
  unfolding cache_get
  cache_get-Same true key redis c = c.cached key
  cache_get-Same false key redis c = tt

  put-IsCoherent :
      (key : String) (value : V) (redis : Redis)
      → json.loads (json.dumps value) ≡ some value
      → loader key ≡ some value
      → IsCoherent redis
      → IsCoherent (put key (json.dumps value) redis)
  put-IsCoherent key value redis reads loads c = record {
    cached = λ k.
        subst (λ o. Same (decode json o) (loader k)) (sym (get-put key k (json.dumps value) redis))
          (elim (Bool-cases (str_eq key k)) [
            | inl same ↦ rw same (rw reads (ap loader (sym ((eq_iff key k).0 same)) ∙ loads))
            | inr other ↦ rw other (c.cached k)
          ]);
  }

  cache_set-IsCoherent :
      (answers : Bool) (key : String) (value : V) (redis : Redis)
      → json.loads (json.dumps value) ≡ some value
      → loader key ≡ some value
      → IsCoherent redis
      → IsCoherent (cache_set json answers key value redis)
  unfolding cache_set cache_set_raw
  cache_set-IsCoherent true key value redis reads loads c =
      put-IsCoherent key value redis reads loads c
  cache_set-IsCoherent false key value redis reads loads c = c

  load_and_set-Same :
      (answers : Bool) (key : String) (cached loaded : Option V) (redis : Redis)
      → ((v : V) → json.loads (json.dumps v) ≡ some v)
      → loader key ≡ loaded
      → Same cached loaded
      → IsCoherent redis
      → ((load_and_set json answers key cached loaded redis).0 ≡ loaded)
        × IsCoherent (load_and_set json answers key cached loaded redis).1
  unfolding load_and_set
  load_and_set-Same answers key (some v) loaded redis reads loads same c = (sym same, c)
  load_and_set-Same answers key none none redis reads loads same c = (refl, c)
  load_and_set-Same answers key none (some v) redis reads loads same c =
      (refl, cache_set-IsCoherent answers key v redis (reads v) loads c)

  -- A run of `get_or_set` returns to its client, call by call, what the loader alone would: the cache
  -- refines the loader. It does so whether or not Redis answers at any of the calls, from any cache
  -- whose entries are what the loader returns or are no JSON, where a value that is dumped can be
  -- loaded again.
  pub lookups-loader :
      (calls : List Lookup) (redis : Redis)
      → ((v : V) → json.loads (json.dumps v) ≡ some v)
      → IsCoherent redis
      → lookups json loader calls redis ≡ map (λ l. loader l.key) calls
  unfolding lookups get_or_set
  lookups-loader [] redis reads c = refl
  lookups-loader (l ∷ calls) redis reads c =
      let step =
        load_and_set-Same l.answers_set l.key (cache_get json l.answers_get l.key redis)
          (loader l.key) redis reads refl (cache_get-Same l.answers_get l.key redis c) c in
      let here = step.0 in let later = lookups-loader calls _ reads step.1 in λ i. here i ∷ later i

  -- What is set can be read again under its key, and other keys keep what they have, where Redis
  -- answers both calls and a value that is dumped can be loaded again.
  pub cache_get-cache_set :
      (key other : String) (value : V) (redis : Redis)
      → json.loads (json.dumps value) ≡ some value
      → cache_get json true other (cache_set json true key value redis)
        ≡ (if str_eq key other then some value else cache_get json true other redis)
  unfolding cache_get cache_set cache_set_raw
  cache_get-cache_set key other value redis reads = elim (Bool-cases (str_eq key other)) [
    | inl same ↦ rw (get-put key other (json.dumps value) redis, same) reads
    | inr differ ↦ rw (get-put key other (json.dumps value) redis, differ) refl
  ]
