-- ===== src/Prelude/Strip.antt =====
-- Python's `str.strip`, and the whitespace that it strips.
use Prim.Native.Nat.{ℕ}
use mathlib.Core.Bool.{Bool, true, false, ◌||◌}
use mathlib.Core.List.{[], ◌∷◌}
use tuzka_as_a_service.Prelude.Tests.{if◌then◌else◌}
use tuzka_as_a_service.Prelude.Sets.{member}
use tuzka_as_a_service.Prelude.Texts.{Text}

-- `str.isspace` of a character.
abbrev pub is_space : ℕ → Bool
is_space c =
    member c (9 ∷ 10 ∷ 11 ∷ 12 ∷ 13 ∷ 28 ∷ 29 ∷ 30 ∷ 31 ∷ 32 ∷ 133 ∷ 160 ∷ 5760 ∷ [])
    || member c (8192 ∷ 8193 ∷ 8194 ∷ 8195 ∷ 8196 ∷ 8197 ∷ 8198 ∷ 8199 ∷ 8200 ∷ 8201 ∷ 8202 ∷ [])
    || member c (8232 ∷ 8233 ∷ 8239 ∷ 8287 ∷ 12288 ∷ [])

unfoldable pub lstrip : Text → Text
lstrip [] = []
lstrip (c ∷ t) = let rest = lstrip t in if is_space c then rest else c ∷ t

abbrev cons_unless_blank : ℕ → Text → Text
cons_unless_blank c [] = if is_space c then [] else c ∷ []
cons_unless_blank c (d ∷ t) = c ∷ d ∷ t

unfoldable pub rstrip : Text → Text
rstrip [] = []
rstrip (c ∷ t) = cons_unless_blank c (rstrip t)

-- `str.strip`.
abbrev pub strip : Text → Text
strip t = rstrip (lstrip t)

abbrev pub is_blank : Text → Bool
is_blank [] = true
is_blank (c ∷ t) = false
