-- ===== src/Apply/Failures.antt =====
-- fabric/services/apply.py, `Failed`: which units a create can no longer run.
use ovn_fabric.Prelude.{
  String, ◌<>◌, Bool, ◌||◌, Option, none, some, List, [], ◌∷◌, Dict, lookup, set_default, is_some,
  contains, str_eq, if◌then◌else◌,
}
use ovn_fabric.Units.Steps.{Step}

-- `Unit`: a unit of work (its kind and key play no part here).
pub record WorkUnit : Type 0 where
  pub name : String
  pub scope : Option String
  pub steps : List Step

-- `FOUNDATION`: the scopes that every other one needs.
abbrev pub foundation_scopes : List String
foundation_scopes = "configure" ∷ "cluster" ∷ []

pub record Failed : Type 0 where
  pub foundation : Option String
  pub scopes : Dict String

abbrev pub no_failure : Failed
no_failure = record { foundation = none; scopes = [] }

-- `unit.scope or ""`
abbrev pub scope_of : WorkUnit → String
scope_of u = elim u.scope [ none ↦ "" | some s ↦ s ]

-- `self._foundation or unit.name`
or_name : Option String → String → Option String
or_name none name = some name
or_name (some f) name = if str_eq f "" then some name else some f

unfoldable pub is_foundation : String → Bool
is_foundation scope = contains foundation_scopes scope || str_eq scope ""

unfoldable pub add : Failed → WorkUnit → Failed
unfolding or_name
add f u =
    if is_foundation (scope_of u)
    then record f { foundation = or_name f.foundation u.name }
    else record f { scopes = set_default (scope_of u) u.name f.scopes }

unfoldable pub blocks : Failed → WorkUnit → Bool
blocks f u = is_some f.foundation || is_some (lookup (scope_of u) f.scopes)

shown : Option String → String
shown none = "None"
shown (some s) = s

-- `foundation or scopes.get(scope)`, in a text
or_lookup : Option String → Option String → String
unfolding shown
or_lookup none g = shown g
or_lookup (some f) g = if str_eq f "" then shown g else f

unfoldable pub why : Failed → WorkUnit → String
unfolding or_lookup
why f u = "needs " <> or_lookup f.foundation (lookup (scope_of u) f.scopes) <> ", which failed"
