-- ===== src/MetricIr/Models/Texts.antt =====
-- The text types of the schemas (src/airi/core/schemas.py).
use Prim.Native.String.{String}
use Prim.Native.Char.{Char, code}
use airi.Prelude.{ℕ, suc, Bool, true, false, not, ◌&&◌, ◌||◌, Option, none, some, leb, ◌==◌}

unfoldable pub text_length : String → ℕ
text_length String.[] = 0
text_length (String.◌∷◌ c s) = suc (text_length s)

-- the characters that `strip` removes
abbrev is_space : Char → Bool
is_space c =
    leb 9 (code c) && leb (code c) 13
    || code c == 32
    || code c == 133
    || code c == 160
    || code c == 5760
    || leb 8192 (code c) && leb (code c) 8202
    || code c == 8232
    || code c == 8233
    || code c == 8239
    || code c == 8287
    || code c == 12288

-- whether a text ends in such a character, after one that is such a character or is not
unfoldable pub ends_spaced : Bool → String → Bool
ends_spaced b String.[] = b
ends_spaced b (String.◌∷◌ c s) = ends_spaced (is_space c) s

unfoldable pub is_stripped : String → Bool
unfolding ends_spaced
is_stripped String.[] = true
is_stripped (String.◌∷◌ c s) = not (is_space c) && not (ends_spaced false s)

-- a text that `NonEmptyText` keeps as it is: stripped, and of 1 to 2000 characters
unfoldable pub is_text : String → Bool
unfolding text_length is_stripped
is_text s = leb 1 (text_length s) && leb (text_length s) 2000 && is_stripped s

-- `NonEmptyText | None`
abbrev pub is_label : Option String → Bool
is_label none = true
is_label (some s) = is_text s

abbrev is_lower : Char → Bool
is_lower c = leb 97 (code c) && leb (code c) 122

abbrev is_word : Char → Bool
is_word c = is_lower c || leb 48 (code c) && leb (code c) 57 || code c == 95

unfoldable pub all_word : String → Bool
all_word String.[] = true
all_word (String.◌∷◌ c s) = is_word c && all_word s

-- `Identifier`: the pattern `^[a-z][a-z0-9_]{0,63}$`
unfoldable pub is_identifier : String → Bool
unfolding all_word text_length
is_identifier String.[] = false
is_identifier (String.◌∷◌ c s) = is_lower c && all_word s && leb (text_length s) 63
