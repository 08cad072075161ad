-- ===== src/Policy/PromptCache.antt =====
-- src/v2/application/policy/prompt_cache.ts. Events for listeners are left out; `invalidateByTag`
-- hands the number of removed entries to its caller.
pub mod View
mod Tests
use local_first_se_platform.Base.{
  ℕ, ◌+◌, String, Option, none, some, List, [], ◌∷◌, if◌then◌else◌, length, contains, Dict, lookup,
  insert,
}

pub record Entry : Type 0 where
  pub response : String
  pub timestamp : ℕ
  pub prompt_hash : String
  pub tags : List String

abbrev pub Cache : Type 0
Cache = Dict Entry

abbrev pub response_of : Option Entry → Option String
response_of none = none
response_of (some e) = some e.response

-- `get`
unfoldable pub get : String → Cache → Option String
get prompt_hash cache = response_of (lookup prompt_hash cache)

-- `set`
unfoldable pub set : String → String → List String → ℕ → Cache → Cache
set prompt_hash response tags now cache =
    insert prompt_hash
      (record { response = response; timestamp = now; prompt_hash = prompt_hash; tags = tags })
      cache

-- `invalidate`
unfoldable pub invalidate : Cache → Cache
invalidate cache = []

-- The loop of `invalidateByTag` over the entries, each of which it deletes or leaves.
unfoldable pub invalidate_by_tag : String → Cache → Cache × ℕ
invalidate_by_tag tag [] = ([], 0)
invalidate_by_tag tag ((key, entry) ∷ rest) =
    let (kept, removed) = invalidate_by_tag tag rest in
    if contains tag entry.tags then (kept, removed + 1) else ((key, entry) ∷ kept, removed)

-- `size`
unfoldable pub size : Cache → ℕ
size cache = length cache

pub data Operation : Type 0 where
  sets : (prompt_hash response : String) → List String → ℕ → Operation
  invalidates : Operation
  invalidates_tag : String → Operation

unfoldable pub perform : Operation → Cache → Cache
unfolding set invalidate invalidate_by_tag
perform (sets prompt_hash response tags now) cache = set prompt_hash response tags now cache
perform invalidates cache = invalidate cache
perform (invalidates_tag tag) cache = (invalidate_by_tag tag cache).0

unfoldable pub perform_all : List Operation → Cache → Cache
unfolding perform
perform_all [] cache = cache
perform_all (o ∷ os) cache = perform_all os (perform o cache)
