-- ===== src/Sysdeps/Names.antt =====
-- The names of packages that a request may hold (fabric/services/sysdeps.py, `_PACKAGE`), and a
-- list without repetitions.
use Prim.Native.Char.{code}
use ovn_fabric.Prelude.{
  ℕ, String, Bool, true, false, ◌&&◌, ◌||◌, not, List, [], ◌∷◌, filter, contains, leb, ◌==◌,
  if◌then◌else◌,
}

unfoldable pub is_lower : ℕ → Bool
is_lower c = leb b'a' c && leb c b'z'

unfoldable pub is_digit : ℕ → Bool
is_digit c = leb b'0' c && leb c b'9'

-- `[A-Za-z0-9]`
unfoldable pub is_alnum : ℕ → Bool
unfolding is_lower is_digit
is_alnum c = is_lower c || (leb b'A' c && leb c b'Z') || is_digit c

-- `[A-Za-z0-9_+.-]`
unfoldable pub is_name_char : ℕ → Bool
unfolding is_alnum
is_name_char c = is_alnum c || c == b'_' || c == b'+' || c == b'.' || c == b'-'

-- `[a-z0-9-]`
is_arch_char : ℕ → Bool
unfolding is_lower is_digit
is_arch_char c = is_lower c || is_digit c || c == b'-'

-- `$` also stands before a line end that is last.
ends : ℕ → String → Bool
ends c String.[] = c == 10
ends c _ = false

-- `[a-z0-9-]+$`, where `seen` says that a character has gone before.
arch : (seen : Bool) → String → Bool
unfolding is_arch_char ends
arch seen String.[] = seen
arch seen (String.◌∷◌ c s) =
    let rest = arch true s in if is_arch_char (code c) then rest else seen && ends (code c) s

-- `[A-Za-z0-9_+.-]+(:[a-z0-9-]+)?$`
unfoldable pub name : (seen : Bool) → String → Bool
unfolding is_name_char ends arch
name seen String.[] = seen
name seen (String.◌∷◌ c s) =
    let rest = name true s in
    if is_name_char (code c)
    then rest
    else if code c == b':'
    then seen && arch false s
    else seen && ends (code c) s

-- `_PACKAGE.match(dep)`
unfoldable pub is_package : String → Bool
unfolding name
is_package String.[] = false
is_package (String.◌∷◌ c s) = is_alnum (code c) && name false s

-- `list(dict.fromkeys(deps))`, where `seen` are the ones before.
unfoldable pub dedupe_from : List String → List String → List String
dedupe_from seen [] = []
dedupe_from seen (d ∷ ds) =
    if contains seen d then dedupe_from seen ds else d ∷ dedupe_from (d ∷ seen) ds

unfoldable pub dedupe : List String → List String
unfolding dedupe_from
dedupe ds = dedupe_from [] ds

-- `[dep for dep in deps if not _PACKAGE.match(dep)]`
unfoldable pub refused : List String → List String
refused ds = filter (λ d. not (is_package d)) ds
