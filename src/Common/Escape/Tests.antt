-- ===== src/Common/Escape/Tests.antt =====
-- Texts escaped and unescaped.
use vegafusion.Common.Escape.{escape_field, unescape_field}
use vegafusion.Common.Escape.Inverse.{unescape_field-escape_field}
use vegafusion.Prelude.{ℕ, List, [], ◌∷◌, ◌≡◌, refl}

-- `a\.'`, with a backslash of its own
abbrev field : List ℕ
field = b'a' ∷ b'\\' ∷ b'.' ∷ b'\'' ∷ []

escaped : escape_field field ≡ b'a' ∷ b'\\' ∷ b'\\' ∷ b'.' ∷ b'\\' ∷ b'\'' ∷ []
unfolding escape_field
escaped = refl

unescape_field-escape_field_example : unescape_field (escape_field field) ≡ field
unescape_field-escape_field_example = unescape_field-escape_field field
