-- ===== src/Workers/Workspace/Containment.antt =====
-- Files of a worker stay in its workspace.
use local_first_se_platform.Base.{
  String, ◌≡◌, refl, sym, ap, ◌∙◌, ◌≢◌, inl, inr, true, false, ◌||◌, some, List, [], ◌∷◌, ◌++◌,
  arith, nat_eq, Bool-cases, same_id, ◌==◌, length, length-append, contains,
}
use mathlib.Core.List.{append_assoc}
use Prim.Native.Char.{Char, code}
use Prim.Native.String.{◌++◌ as join}
use Prim.Native.String.append.{nil as append_nil, cons as append_cons}
use local_first_se_platform.Base.Text.{is_empty_text}
use local_first_se_platform.Workers.Workspace.{
  starts_with, includes_text, split_path, Place, enter, walk, segments_of, resolve, path_text,
  passes_check, sanitize_path,
}

starts_with_self : (s : String) → starts_with s s ≡ true
unfolding starts_with
starts_with_self String.[] = refl
starts_with_self (String.◌∷◌ c s) = ground (arith, starts_with_self s)

starts_with-join : (s t : String) → starts_with (join s t) s ≡ true
unfolding starts_with
starts_with-join String.[] t = refl
starts_with-join (String.◌∷◌ c s) t =
    let e : join (String.◌∷◌ c s) t ≡ String.◌∷◌ c (join s t) = λ i. append_cons c s t i in
    rw (e, starts_with) (ground (arith, starts_with-join s t))

split_path-prefix : (s : String) → starts_with s (split_path s).0 ≡ true
unfolding split_path starts_with
split_path-prefix String.[] = refl
split_path-prefix (String.◌∷◌ c s) = elim (Bool-cases (nat_eq (code c) 47)) [
  | inl slash ↦ rw (slash, split_path) refl
  | inr other ↦ rw (other, split_path) (ground (arith, split_path-prefix s))
]

cons-prefix :
    (c : Char) (s t : String)
    → starts_with s t ≡ true
    → starts_with (String.◌∷◌ c s) (String.◌∷◌ c t) ≡ true
unfolding starts_with
cons-prefix c s t h = ground arith

-- A segment of a path stands somewhere in its text.
split_path-infix :
    (s t : String)
    → is_empty_text t ≡ false
    → contains t (segments_of s) ≡ true
    → includes_text s t ≡ true
unfolding split_path includes_text is_empty_text
split_path-infix String.[] t some_text h = elim (same_id t "") [
  | yes e ↦ absurd (let empty : is_empty_text t ≡ true = rw e refl in cc)
  | no other ↦ absurd (ground arith)
]
split_path-infix (String.◌∷◌ c s) t some_text h = elim (Bool-cases (nat_eq (code c) 47)) [
  | inl slash ↦
      let k : contains t ("" ∷ segments_of s) ≡ true = rw (slash, split_path) at h in
      elim (same_id t "") [
        | yes e ↦ absurd (let empty : is_empty_text t ≡ true = rw e refl in cc)
        | no apart ↦ ground (arith, split_path-infix s t some_text)
      ]
  | inr other ↦
      let (first, rest) = split_path s in
      let k : contains t (String.◌∷◌ c first ∷ rest) ≡ true = rw (other, split_path) at h in
      elim (same_id t (String.◌∷◌ c first)) [
        | yes e ↦
            let prefix : starts_with (String.◌∷◌ c s) t ≡ true =
              rw e (cons-prefix c s first (split_path-prefix s)) in
            ground arith
        | no apart ↦ ground (arith, split_path-infix s t some_text)
      ]
]

-- Without a segment `..` a walk only goes down.
walk-down :
    (segments : List String) (place : Place)
    → contains ".." segments ≡ false
    → (inner : Place) × (walk segments place ≡ inner ++ place)
unfolding walk enter
walk-down [] place h = ([], refl)
walk-down (segment ∷ segments) place h = elim (Bool-cases (segment == "" || segment == ".")) [
  | inl stays ↦ rw (stays, walk, enter) (walk-down segments place (ground arith))
  | inr goes ↦
      let down : (segment == "..") ≡ false = ground arith in
      let (inner, e) = walk-down segments (segment ∷ place) (ground arith) in
      rw (goes, down, walk, enter)
        (inner ++ segment ∷ [], e ∙ sym (append_assoc inner (segment ∷ []) place))
]

starts_with-append : (s u t : String) → starts_with s t ≡ true → starts_with (join s u) t ≡ true
unfolding starts_with
starts_with-append s u String.[] h = refl
starts_with-append String.[] u (String.◌∷◌ d t) h = cc
starts_with-append (String.◌∷◌ c s) u (String.◌∷◌ d t) h =
    let e : join (String.◌∷◌ c s) u ≡ String.◌∷◌ c (join s u) = λ i. append_cons c s u i in
    rw (e, starts_with) (ground (arith, starts_with-append s u t))

inside-passes : (inner workspace : Place) → passes_check workspace (inner ++ workspace) ≡ true
unfolding passes_check path_text
inside-passes [] workspace = starts_with_self (path_text workspace)
inside-passes (segment ∷ inner) workspace =
    starts_with-append (path_text (inner ++ workspace)) (join "/" segment) (path_text workspace)
      (inside-passes inner workspace)

sanitized :
    (raw p : String)
    → sanitize_path raw ≡ some p
    → (starts_with p "/" ≡ false) × (includes_text p ".." ≡ false)
unfolding sanitize_path
sanitized raw p h = ground arith

not_contained : (s : String) → includes_text s ".." ≡ false → contains ".." (segments_of s) ≡ false
unfolding is_empty_text
not_contained s h = elim (Bool-cases (contains ".." (segments_of s))) [
  | inl there ↦ absurd (let k = split_path-infix s ".." refl there in cc)
  | inr absent ↦ absent
]

starts_with-same :
    (a s t : String) → starts_with s t ≡ true → starts_with (join a s) (join a t) ≡ true
unfolding starts_with
starts_with-same String.[] s t h =
    let e : join "" s ≡ s = λ i. append_nil s i in
    let f : join "" t ≡ t = λ i. append_nil t i in rw (e, f) h
starts_with-same (String.◌∷◌ c a) s t h =
    let e : join (String.◌∷◌ c a) s ≡ String.◌∷◌ c (join a s) = λ i. append_cons c a s i in
    let f : join (String.◌∷◌ c a) t ≡ String.◌∷◌ c (join a t) = λ i. append_cons c a t i in
    rw (e, f) (cons-prefix c (join a s) (join a t) (starts_with-same a s t h))

sibling_prefix :
    (name suffix base : String)
    → starts_with (join base (join "/" (join name suffix))) (join base (join "/" name)) ≡ true
sibling_prefix name suffix base =
    starts_with-same base (join "/" (join name suffix)) (join "/" name)
      (starts_with-same "/" (join name suffix) name (starts_with-join name suffix))

join-longer : (name suffix : String) → is_empty_text suffix ≡ false → join name suffix ≢ name
unfolding is_empty_text
join-longer String.[] suffix h e =
    let f : join "" suffix ≡ suffix = λ i. append_nil suffix i in
    let empty : suffix ≡ "" = sym f ∙ e in
    let bad : is_empty_text suffix ≡ true = rw empty refl in cc
join-longer (String.◌∷◌ c name) suffix h e =
    let f : join (String.◌∷◌ c name) suffix ≡ String.◌∷◌ c (join name suffix) =
      λ i. append_cons c name suffix i in
    join-longer name suffix h (cc (sym f ∙ e))

-- A path that the response parser lets through is resolved to a place inside the workspace,
-- whatever the text that the provider wrote, and it passes the check of the execution service.
pub parsed_path_stays_inside :
    (raw p : String) (workspace : Place)
    → sanitize_path raw ≡ some p
    → ((inner : Place) × (resolve workspace p ≡ inner ++ workspace))
      × (passes_check workspace (resolve workspace p) ≡ true)
unfolding resolve
parsed_path_stays_inside raw p workspace h =
    let (relative, no_dots) = sanitized raw p h in
    let no_up : contains ".." (segments_of p) ≡ false = not_contained p no_dots in
    let (inner, e) = walk-down (segments_of p) workspace no_up in
    rw relative ((inner, e), rw e (inside-passes inner workspace))

outside :
    (name other file : String) (above inner : Place)
    → other ≢ name
    → file ∷ other ∷ above ≢ inner ++ name ∷ above
outside name other file above [] apart e = omega (arith, ap length e)
outside name other file above (x ∷ []) apart e = apart (cc e)
outside name other file above (x ∷ y ∷ inner) apart e =
    omega (arith, ap length e, length-append inner (name ∷ above))

-- The check of the execution service compares texts, not segments: it also lets through every place
-- in a directory beside the workspace whose name begins with the name of the workspace, although
-- that place is not inside the workspace.
pub prefix_check_admits_sibling :
    (name suffix file : String) (above : Place)
    → is_empty_text suffix ≡ false
    → (passes_check (name ∷ above) (file ∷ join name suffix ∷ above) ≡ true)
      × ((inner : Place) → file ∷ join name suffix ∷ above ≢ inner ++ name ∷ above)
unfolding passes_check path_text
prefix_check_admits_sibling name suffix file above some_suffix = (
  starts_with-append (path_text (join name suffix ∷ above)) (join "/" file)
      (path_text (name ∷ above)) (sibling_prefix name suffix (path_text above)),
  λ inner. outside name (join name suffix) file above inner (join-longer name suffix some_suffix),
)
