-- ===== src/Policy/PromptCache/View.antt =====
-- What a reader of the cache sees: for each prompt, the answer that was kept for it last.
use local_first_se_platform.Base.{
  ◌+◌, String, ◌≡◌, refl, ◌∙◌, ap, inl, inr, false, Option, none, some, List, [], ◌∷◌, arith,
  if◌then◌else◌, Bool-cases, ◌==◌, contains, lookup, insert, has, lookup-insert, has-insert,
  has-lookup,
}
use local_first_se_platform.Policy.PromptCache.{
  Entry, Cache, response_of, get, set, invalidate, invalidate_by_tag, size, Operation, sets,
  invalidates, invalidates_tag, perform, perform_all,
}

-- An answer with its tags, as a reader of one prompt knows it.
pub record Answer : Type 0 where
  pub text : String
  pub tags : List String

abbrev pub without_tag : String → Option Answer → Option Answer
without_tag tag none = none
without_tag tag (some a) = if contains tag a.tags then none else some a

-- The abstract cache: what one operation does to the answer of one prompt.
abbrev pub answer_after : String → Operation → Option Answer → Option Answer
answer_after k (sets prompt_hash response tags now) a =
    if prompt_hash == k then some (record { text = response; tags = tags }) else a
answer_after k invalidates a = none
answer_after k (invalidates_tag tag) a = without_tag tag a

unfoldable pub answer_after_all : String → List Operation → Option Answer → Option Answer
answer_after_all k [] a = a
answer_after_all k (o ∷ os) a = answer_after_all k os (answer_after k o a)

abbrev pub answer_of : Option Entry → Option Answer
answer_of none = none
answer_of (some e) = some (record { text = e.response; tags = e.tags })

abbrev pub text_of : Option Answer → Option String
text_of none = none
text_of (some a) = some a.text

-- No key twice.
abbrev IsMap : Cache → Type 0
IsMap [] = Unit
IsMap ((k, e) ∷ m) = (has k m ≡ false) × IsMap m

insert-has :
    (j k : String) (e : Entry) (m : Cache)
    → (k == j) ≡ false
    → has j m ≡ false
    → has j (insert k e m) ≡ false
insert-has j k e m apart fresh = ground (arith, has-insert k j e m)

insert-IsMap : (k : String) (e : Entry) (m : Cache) → IsMap m → IsMap (insert k e m)
unfolding insert has
insert-IsMap k e [] h = (refl, tt)
insert-IsMap k e ((j, f) ∷ m) h = elim (Bool-cases (j == k)) [
  | inl here ↦ rw here h
  | inr other ↦ rw other (insert-has j k e m (ground arith) h.0, insert-IsMap k e m h.1)
]

dropped-has :
    (tag j : String) (m : Cache) → has j m ≡ false → has j (invalidate_by_tag tag m).0 ≡ false
unfolding has invalidate_by_tag
dropped-has tag j [] h = refl
dropped-has tag j ((k, e) ∷ m) h = ground (arith, dropped-has tag j m)

dropped-IsMap : (tag : String) (m : Cache) → IsMap m → IsMap (invalidate_by_tag tag m).0
unfolding invalidate_by_tag
dropped-IsMap tag [] h = tt
dropped-IsMap tag ((k, e) ∷ m) h = elim (Bool-cases (contains tag e.tags)) [
  | inl tagged ↦ rw (tagged, invalidate_by_tag) (dropped-IsMap tag m h.1)
  | inr spared ↦ rw (spared, invalidate_by_tag) (dropped-has tag k m h.0, dropped-IsMap tag m h.1)
]

lookup-dropped :
    (tag k : String) (m : Cache)
    → IsMap m
    → answer_of (lookup k (invalidate_by_tag tag m).0) ≡ without_tag tag (answer_of (lookup k m))
unfolding lookup invalidate_by_tag
lookup-dropped tag k [] h = refl
lookup-dropped tag k ((j, e) ∷ m) h = ground (arith, lookup-dropped tag k m h.1, has-lookup k m)

-- One operation on the cache is one step of the abstract cache.
perform-answer_after :
    (k : String) (o : Operation) (m : Cache)
    → IsMap m
    → IsMap (perform o m)
      × (answer_of (lookup k (perform o m)) ≡ answer_after k o (answer_of (lookup k m)))
unfolding perform set invalidate lookup
perform-answer_after k (sets prompt_hash response tags now) m h =
    let entry : Entry = record {
      response = response;
      timestamp = now;
      prompt_hash = prompt_hash;
      tags = tags;
    } in
    (insert-IsMap prompt_hash entry m h, ground (arith, lookup-insert prompt_hash k entry m))
perform-answer_after k invalidates m h = (tt, refl)
perform-answer_after k (invalidates_tag tag) m h = (dropped-IsMap tag m h, lookup-dropped tag k m h)

perform_all-answer_after :
    (k : String) (os : List Operation) (m : Cache)
    → IsMap m
    → answer_of (lookup k (perform_all os m)) ≡ answer_after_all k os (answer_of (lookup k m))
unfolding perform_all answer_after_all
perform_all-answer_after k [] m h = refl
perform_all-answer_after k (o ∷ os) m h =
    let (next, e) = perform-answer_after k o m h in
    perform_all-answer_after k os (perform o m) next ∙ ap (answer_after_all k os) e

response_text : (o : Option Entry) → response_of o ≡ text_of (answer_of o)
response_text none = refl
response_text (some e) = refl

removed-size :
    (tag : String) (m : Cache)
    → (invalidate_by_tag tag m).1 + size (invalidate_by_tag tag m).0 ≡ size m
unfolding invalidate_by_tag size
removed-size tag [] = refl
removed-size tag ((k, e) ∷ m) = ground (arith, removed-size tag m)

-- Whatever operations an empty cache has seen, `get` answers what was set last for the prompt, if
-- neither the cache nor one of the answer's tags has been invalidated since, and `invalidateByTag`
-- then reports by how many entries the cache shrinks.
pub cache_serves_last_answer :
    (os : List Operation) (k tag : String)
    → let cache = perform_all os [] in
      (get k cache ≡ text_of (answer_after_all k os none))
      × ((invalidate_by_tag tag cache).1 + size (invalidate_by_tag tag cache).0 ≡ size cache)
unfolding get lookup
cache_serves_last_answer os k tag =
    let cache = perform_all os [] in
    (
      response_text (lookup k cache) ∙ ap text_of (perform_all-answer_after k os [] tt),
      removed-size tag cache,
    )
