-- ===== src/Accounts/Validate.antt =====
-- `CheckID`, `ExpandHome` and `Validate` of internal/provider/validate.go, and `ValidatePool` of
-- internal/provider/pool.go. The wording of an error is a constructor.
use claudeq.Prelude.{
  ℕ, Bool, true, not, ◌&&◌, ◌||◌, Option, none, some, List, [], ◌∷◌, Text, codes, ◌==◌, is_empty,
  any, leb, eqb, is_some, if◌then◌else◌,
}
use claudeq.Prelude.Floats.{Floats, of_ℕ}
use claudeq.Prelude.Strings.{has_prefix, drop}
use claudeq.Prelude.Ladder.{refuse, attempt}
use claudeq.Provider.Model.{Instance, Pool, PoolMember}
use claudeq.Provider.Set.{Set, lookup}

pub data InstanceProblem : Type 0 where
  missing_id missing_kind : InstanceProblem
  bad_id : Text → InstanceProblem
  kind_not_registered : Text → InstanceProblem
  binary_not_absolute config_not_absolute : Text → InstanceProblem

abbrev is_alnum : ℕ → Bool
is_alnum c = (leb b'a' c && leb c b'z') || (leb b'A' c && leb c b'Z') || (leb b'0' c && leb c b'9')

abbrev is_joint : ℕ → Bool
is_joint c = eqb c b'.' || eqb c b'-' || eqb c b'_'

unfoldable pub all_id_runes : Text → Bool
all_id_runes [] = true
all_id_runes (c ∷ cs) = (is_alnum c || is_joint c) && all_id_runes cs

-- `CheckID`: a joint may not stand first.
unfoldable pub check_instance_id : Text → Option InstanceProblem
unfolding all_id_runes
check_instance_id [] = some missing_id
check_instance_id (c ∷ cs) = if is_alnum c && all_id_runes cs then none else some (bad_id (c ∷ cs))

-- `filepath.IsAbs`
abbrev pub is_abs : Text → Bool
is_abs p = has_prefix p (codes "/")

abbrev under_home : (Text → Text → Text) → Option Text → Text → Text
under_home join none p = p
under_home join (some home) p =
    if is_empty home then p else if p == codes "~" then home else join home (drop 2 p)

-- `ExpandHome`, with the home directory and how `filepath.Join` joins.
unfoldable pub expand_home : (Text → Text → Text) → Option Text → Text → Text
unfolding has_prefix
expand_home join home p =
    if not (p == codes "~") && not (has_prefix p (codes "~/")) then p else under_home join home p

-- `Validate`, with which kinds the registry knows.
unfoldable pub validate_instance : (Text → Bool) → Instance → Option InstanceProblem
unfolding check_instance_id has_prefix
validate_instance is_registered inst =
    attempt (check_instance_id inst.id) (λ e. e)
      (refuse (is_empty inst.kind) missing_kind (
        refuse (not (is_registered inst.kind)) (kind_not_registered inst.kind) (
          refuse (not (is_empty inst.binary_path) && not (is_abs inst.binary_path))
            (binary_not_absolute inst.binary_path)
            (refuse (not (is_empty inst.config_dir) && not (is_abs inst.config_dir))
              (config_not_absolute inst.config_dir) none))))

pub data PoolProblem : Type 0 where
  bad_pool_id : InstanceProblem → PoolProblem
  id_of_provider : Text → PoolProblem
  no_members : Text → PoolProblem
  unknown_member repeated_member foreign_kind bad_weight : Text → PoolProblem

module _ (fl : Floats) where
  -- Negative, not a number, or infinite.
  abbrev pub weight_bad : (fl.F → Bool) → fl.F → Bool
  weight_bad is_finite w = fl.lt w (of_ℕ fl 0) || not (is_finite w)

  abbrev pub kind_or : Text → Text → Text
  kind_or kind other = if is_empty kind then other else kind

  abbrev pub check_found :
      Option Instance
      → PoolMember fl
      → List Text
      → Text
      → Bool
      → (Instance → Option PoolProblem)
      → Option PoolProblem
  check_found none m seen kind heavy rest = some (unknown_member m.provider_id)
  check_found (some inst) m seen kind heavy rest =
      refuse (any (λ id. id == m.provider_id) seen) (repeated_member m.provider_id) (
        refuse (not (is_empty kind) && not (inst.kind == kind)) (foreign_kind m.provider_id)
          (refuse heavy (bad_weight m.provider_id) (rest inst)))

  -- The loop over the members, with those seen so far and the kind that they share.
  unfoldable pub check_members :
      (fl.F → Bool) → Set fl → List Text → Text → List (PoolMember fl) → Option PoolProblem
  unfolding lookup any
  check_members is_finite set seen kind [] = none
  check_members is_finite set seen kind (m ∷ ms) =
      check_found (lookup fl set m.provider_id) m seen kind (weight_bad is_finite m.weight)
        (λ inst. check_members is_finite set (m.provider_id ∷ seen) (kind_or kind inst.kind) ms)

  -- `ValidatePool`
  unfoldable pub validate_pool : (fl.F → Bool) → Set fl → Pool fl → Option PoolProblem
  unfolding check_instance_id lookup check_members
  validate_pool is_finite set p = attempt (check_instance_id p.id) bad_pool_id (
      refuse (is_some (lookup fl set p.id)) (id_of_provider p.id) (
        refuse (is_empty p.members) (no_members p.id)
          (check_members is_finite set [] [] p.members)))
