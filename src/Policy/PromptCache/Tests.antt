-- ===== src/Policy/PromptCache/Tests.antt =====
-- Two prompts of which one depends on a file.
use local_first_se_platform.Base.{
  ◌≡◌, refl, none, some, List, [], ◌∷◌, lookup, insert, same_id, ◌+◌,
}
use local_first_se_platform.Policy.PromptCache.{
  Operation, sets, invalidates_tag, get, set, invalidate_by_tag, size, perform, perform_all,
}
use local_first_se_platform.Policy.PromptCache.View.{
  answer_after_all, text_of, cache_serves_last_answer,
}

abbrev operations : List Operation
operations =
    sets "p" "old" [] 1
    ∷ sets "q" "text" ("a.ts" ∷ []) 2
    ∷ sets "p" "new" ("b.ts" ∷ []) 3
    ∷ invalidates_tag "a.ts"
    ∷ []

keeps_other : get "p" (perform_all operations []) ≡ some "new"
unfolding get lookup insert same_id perform_all perform set invalidate_by_tag
keeps_other = refl

drops_tagged : get "q" (perform_all operations []) ≡ none
unfolding get lookup insert same_id perform_all perform set invalidate_by_tag
drops_tagged = refl

cache_serves_last_answer_example :
    let cache = perform_all operations [] in
    (get "p" cache ≡ text_of (answer_after_all "p" operations none))
    × ((invalidate_by_tag "b.ts" cache).1 + size (invalidate_by_tag "b.ts" cache).0 ≡ size cache)
cache_serves_last_answer_example = cache_serves_last_answer operations "p" "b.ts"
