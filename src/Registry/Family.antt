-- ===== src/Registry/Family.antt =====
-- The identity of a metric family (`MetricFamilyKey` of src/airi/registry/versioning.py): a window
-- suffix such as `_30d` at the end of a name is not identity. Names are identifiers in ASCII.
use Prim.Native.Char.{Char, code}
use Prim.Native.String.{String, [], ◌∷◌, ◌++◌}
use airi.Prelude.{Bool, false, ◌&&◌, ◌==◌, leb, if◌then◌else◌, str_eq, truthy, some}

abbrev pub is_digit : Char → Bool
is_digit c = leb 48 (code c) && leb (code c) 57

-- the rest of a match of `\d+d$` after its first digit
unfoldable pub ends_window : String → Bool
ends_window [] = false
ends_window (c ∷ s) =
    let rest = ends_window s in if is_digit c then rest else code c == 100 && str_eq s ""

-- `\d+d$` at the beginning of a text
unfoldable pub is_window : String → Bool
unfolding ends_window
is_window [] = false
is_window (c ∷ s) = is_digit c && ends_window s

-- `re.sub(r"_\d+d$", "", s)`: the leftmost match reaches the end, so there is one
unfoldable pub strip_window : String → String
unfolding is_window
strip_window [] = []
strip_window (c ∷ s) =
    let rest = strip_window s in if code c == 95 && is_window s then [] else c ∷ rest

-- `MetricFamilyKey.derive`
unfoldable pub derive : String → String
unfolding strip_window
derive name = let key = strip_window name in if truthy (some key) then key else name

-- `metric_key.replace("_", " ")`
unfoldable pub display_name : String → String
display_name [] = []
display_name (c ∷ s) = let rest = display_name s in if code c == 95 then " " ++ rest else c ∷ rest

-- A text without its last spaces: `NonEmptyText` strips, and a name begins with a letter.
unfoldable pub stripped : String → String
stripped [] = []
stripped (c ∷ s) = let rest = stripped s in if code c == 32 && str_eq rest "" then [] else c ∷ rest
