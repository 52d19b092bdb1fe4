-- ===== src/Core.antt =====
-- The shared schema types (src/airi/core/schemas.py). The pattern of `Version` admits exactly the
-- texts `a.b.c` of three decimals without leading zeros, so a version is kept as its three numbers.
use airi.Prelude.{ℕ, String, Bool, ◌&&◌, ◌||◌, ltb, ◌==◌}

pub record Version : Type 0 where
  pub major : ℕ
  pub minor : ℕ
  pub patch : ℕ

-- `VersionedReference`
pub record VersionedReference : Type 0 where
  pub name : String
  pub version : Version

-- `a == b` of two versions
unfoldable pub same_version : Version → Version → Bool
same_version a b = a.major == b.major && a.minor == b.minor && a.patch == b.patch

-- `version_key(a) < version_key(b)` of src/airi/registry/service.py: tuples in lexicographic order.
unfoldable pub version_lt : Version → Version → Bool
version_lt a b =
    ltb a.major b.major
    || a.major == b.major && (ltb a.minor b.minor || a.minor == b.minor && ltb a.patch b.patch)
