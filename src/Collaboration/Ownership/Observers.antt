-- ===== src/Collaboration/Ownership/Observers.antt =====
-- What the ownership map keeps over any series of its operations.
use local_first_se_platform.Base.{
  ◌≤◌, String, ◌≡◌, refl, sym, ◌∙◌, subst, ◌⊎◌, inl, inr, Bool, true, false, Option, none, some,
  List, [], ◌∷◌, arith, if◌then◌else◌, ◌==◌, contains, one_if, count, count-append, Dict, lookup,
  insert, lookup-insert,
}
use local_first_se_platform.Collaboration.Ownership.{
  TaskOwnership, assign_owner, change_found, assign_reviewer, transfer_ownership, add_observer,
  with_observer,
}

pub data Operation : Type 0 where
  assigns_owner : String → String → Option String → Operation
  assigns_reviewer transfers adds_observer : String → String → Operation

unfoldable pub perform : Operation → Dict TaskOwnership → Dict TaskOwnership
unfolding assign_owner assign_reviewer transfer_ownership add_observer
perform (assigns_owner task owner reviewer) m = assign_owner task owner reviewer m
perform (assigns_reviewer task reviewer) m = (assign_reviewer task reviewer m).0
perform (transfers task owner) m = (transfer_ownership task owner m).0
perform (adds_observer task observer) m = (add_observer task observer m).0

unfoldable pub perform_all : List Operation → Dict TaskOwnership → Dict TaskOwnership
unfolding perform
perform_all [] m = m
perform_all (o ∷ os) m = perform_all os (perform o m)

abbrev IsFair : TaskOwnership → Type 0
IsFair o = (v : String) → count v o.observer_ids ≤ 1

IsFairMap : Dict TaskOwnership → Type 0
IsFairMap m = (task : String) (o : TaskOwnership) → lookup task m ≡ some o → IsFair o

count-none : (v : String) (xs : List String) → contains v xs ≡ false → count v xs ≡ 0
unfolding count one_if
count-none v [] h = refl
count-none v (x ∷ xs) h = ground (arith, count-none v xs)

with_observer-IsFair : (w : String) (o : TaskOwnership) → IsFair o → IsFair (with_observer w o)
unfolding count one_if
with_observer-IsFair w o h v =
    ground (arith, h v, count-append v o.observer_ids (w ∷ []), count-none w o.observer_ids)

either_entry :
    (same : Bool) (x : Option TaskOwnership) (a o : TaskOwnership)
    → (if same then some a else x) ≡ some o
    → (a ≡ o) ⊎ (x ≡ some o)
either_entry true x a o h = inl cc
either_entry false x a o h = inr h

no_observers : (v : String) → count v [] ≤ 1
unfolding count
no_observers v = omega arith

nothing : IsFairMap []
unfolding IsFairMap lookup
nothing task o found = cc

insert-IsFairMap :
    (task : String) (a : TaskOwnership) (m : Dict TaskOwnership)
    → IsFair a
    → IsFairMap m
    → IsFairMap (insert task a m)
unfolding IsFairMap
insert-IsFairMap task a m fair h other o found =
    elim (either_entry (task == other) (lookup other m) a o
      (sym (lookup-insert task other a m) ∙ found)) [
        | inl e ↦ subst IsFair e fair
        | inr e ↦ h other o e
      ]

change_found-IsFairMap :
    (change : TaskOwnership → TaskOwnership) (task : String) (found : Option TaskOwnership)
    (m : Dict TaskOwnership)
    → ((o : TaskOwnership) → IsFair o → IsFair (change o))
    → lookup task m ≡ found
    → IsFairMap m
    → IsFairMap (change_found change task found m).0
unfolding change_found IsFairMap
change_found-IsFairMap change task none m keeps e h = h
change_found-IsFairMap change task (some o) m keeps e h =
    insert-IsFairMap task (change o) m (keeps o (h task o e)) h

perform-IsFairMap : (o : Operation) (m : Dict TaskOwnership) → IsFairMap m → IsFairMap (perform o m)
unfolding perform assign_owner assign_reviewer transfer_ownership add_observer
perform-IsFairMap (assigns_owner task owner reviewer) m h = insert-IsFairMap task _ m no_observers h
perform-IsFairMap (assigns_reviewer task reviewer) m h =
    change_found-IsFairMap _ task (lookup task m) m (λ o fair. fair) refl h
perform-IsFairMap (transfers task owner) m h =
    change_found-IsFairMap _ task (lookup task m) m (λ o fair. fair) refl h
perform-IsFairMap (adds_observer task observer) m h =
    change_found-IsFairMap (with_observer observer) task (lookup task m) m
      (with_observer-IsFair observer) refl h

perform_all-IsFairMap :
    (os : List Operation) (m : Dict TaskOwnership) → IsFairMap m → IsFairMap (perform_all os m)
unfolding perform_all
perform_all-IsFairMap [] m h = h
perform_all-IsFairMap (o ∷ os) m h =
    perform_all-IsFairMap os (perform o m) (perform-IsFairMap o m h)

-- Whatever operations have been performed, nobody observes a task twice.
pub observers_are_distinct :
    (os : List Operation) (task : String) (o : TaskOwnership) (v : String)
    → lookup task (perform_all os []) ≡ some o
    → count v o.observer_ids ≤ 1
unfolding IsFairMap
observers_are_distinct os task o v found = perform_all-IsFairMap os [] nothing task o found v
