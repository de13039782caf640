-- ===== src/Tests/CacheRuns.antt =====
-- A cache of numbers, which are dumped as one character.
use text.Mathlib.Text.{◌==◌ as str_eq}
use fiqhmind_ai_backend.Prelude.{
  ℕ, ◌≡◌, refl, true, false, String, Option, none, some, List, [], ◌∷◌, map, if◌then◌else◌,
}
use fiqhmind_ai_backend.Text.{Text}
use fiqhmind_ai_backend.Cache.{Json, Lookup, lookups, cache_get, cache_set}
use fiqhmind_ai_backend.Cache.Coherent.{IsCoherent, lookups-loader, cache_get-cache_set}

abbrev head : Text → Option ℕ
head [] = none
head (n ∷ t) = some n

abbrev json : Json ℕ
json = record { dumps = λ n. n ∷ []; loads = head }

-- no value for one key
abbrev loader : String → Option ℕ
loader key = if str_eq key "missing" then none else some 7

empty-IsCoherent : IsCoherent json loader []
empty-IsCoherent = record { cached = λ key. tt }

-- Redis is away when the second call is made, and when the third one sets
abbrev calls : List Lookup
calls =
    record { key = "q"; answers_get = true; answers_set = true }
    ∷ record { key = "q"; answers_get = false; answers_set = true }
    ∷ record { key = "missing"; answers_get = true; answers_set = false }
    ∷ record { key = "q"; answers_get = true; answers_set = true }
    ∷ []

lookups-loader_example : lookups json loader calls [] ≡ map (λ l. loader l.key) calls
lookups-loader_example = lookups-loader json loader calls [] (λ v. refl) empty-IsCoherent

cache_get-cache_set_example :
    cache_get json true "q" (cache_set json true "q" 5 [])
    ≡ (if str_eq "q" "q" then some 5 else cache_get json true "q" [])
cache_get-cache_set_example = cache_get-cache_set json loader "q" "q" 5 [] refl
