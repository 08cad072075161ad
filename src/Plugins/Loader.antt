-- ===== src/Plugins/Loader.antt =====
-- src/v2/application/plugins/runtime_plugin_loader.ts.
use local_first_se_platform.Base.{
  ℕ, zero, suc, ◌+◌, ◌-◌, ◌*◌, String, ◌≡◌, refl, Bool, true, false, not, ◌&&◌, ◌||◌, Option, none,
  some, List, [], ◌∷◌, ◌++◌, ltb, leb, nat_eq, if◌then◌else◌,
}
use Prim.Native.Char.{code}
use local_first_se_platform.Base.{ℤ, pos, negsuc}
use local_first_se_platform.Base.Text.{is_space, is_blank, is_empty_text}

pub record Manifest : Type 0 where
  pub id : String
  pub name : String
  pub version : String
  pub capabilities : List String
  pub min_kernel_version : String
  pub max_kernel_version : String

pub data ManifestError : Type 0 where
  no_id no_name no_version no_min_kernel_version : ManifestError

-- `validateManifest`. An absent text is the empty one. The warnings are left out.
unfoldable pub validate_manifest : Manifest → List ManifestError
validate_manifest m =
    (if is_blank m.id then no_id ∷ [] else [])
    ++ (if is_blank m.name then no_name ∷ [] else [])
    ++ (if is_blank m.version then no_version ∷ [] else [])
    ++ (if is_empty_text m.min_kernel_version then no_min_kernel_version ∷ [] else [])

-- `parseInt(s, 10)`; `none` is NaN. What stands after the digits is not read, so that cutting the
-- text at its first dot changes nothing.
abbrev pub is_digit : ℕ → Bool
is_digit c = leb 48 c && leb c 57

unfoldable pub digits : String → Option ℕ → Option ℕ
digits String.[] seen = seen
digits (String.◌∷◌ c s) seen =
    let value : ℕ = elim seen [ none ↦ 0 | some n ↦ n ] in
    let rest = digits s (some (10 * value + (code c - 48))) in
    if is_digit (code c) then rest else seen

abbrev pub negated : Option ℕ → Option ℤ
negated none = none
negated (some zero) = some (pos 0)
negated (some (suc n)) = some (negsuc n)

abbrev pub positive : Option ℕ → Option ℤ
positive none = none
positive (some n) = some (pos n)

unfoldable pub parse_int : String → Option ℤ
unfolding digits is_space
parse_int String.[] = none
parse_int (String.◌∷◌ c s) =
    if is_space (code c)
    then parse_int s
    else if nat_eq (code c) 45
    then negated (digits s none)
    else if nat_eq (code c) 43
    then positive (digits s none)
    else positive (digits (String.◌∷◌ c s) none)

abbrev pub kernel_major : ℕ
kernel_major = 2

-- `kernelMajor < v` and `kernelMajor > v`; a comparison with NaN is false.
abbrev pub kernel_below : Option ℤ → Bool
kernel_below none = false
kernel_below (some (pos n)) = ltb kernel_major n
kernel_below (some (negsuc n)) = false

abbrev pub kernel_above : Option ℤ → Bool
kernel_above none = false
kernel_above (some (pos n)) = ltb n kernel_major
kernel_above (some (negsuc n)) = true

-- `isCompatible`
unfoldable pub is_compatible : Manifest → Bool
unfolding parse_int
is_compatible m =
    not (is_empty_text m.min_kernel_version)
    && not (kernel_below (parse_int m.min_kernel_version))
    && (is_empty_text m.max_kernel_version || not (kernel_above (parse_int m.max_kernel_version)))

abbrev pub none_wrong : List ManifestError → Bool
none_wrong [] = true
none_wrong (e ∷ es) = false

-- `loadPlugin`: `own` is what the plugin's own `validate` answers. Only validity is kept.
unfoldable pub load_plugin : Manifest → Bool → Bool
unfolding validate_manifest is_compatible
load_plugin m own = none_wrong (validate_manifest m) && is_compatible m && own

parse_int_runs :
    (parse_int "2.0.0" ≡ some (pos 2))
    × (parse_int " -13x" ≡ some (negsuc 12))
    × (parse_int "x" ≡ none)
unfolding parse_int digits is_space
parse_int_runs = (refl, refl, refl)
