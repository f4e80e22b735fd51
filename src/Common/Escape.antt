-- ===== src/Common/Escape.antt =====
-- vegafusion-common/src/escape.rs. A text is the list of its characters' code points.
use vegafusion.Prelude.{ℕ, Bool, true, false, ◌&&◌, List, [], ◌∷◌, if◌then◌else◌, nat_beq}
pub mod Inverse
mod Tests

abbrev pub backslash : ℕ
backslash = b'\\'

-- `replace(c, "\c")`
unfoldable pub add_backslash : ℕ → List ℕ → List ℕ
add_backslash c [] = []
add_backslash c (x ∷ xs) =
    let rest = add_backslash c xs in if nat_beq x c then backslash ∷ c ∷ rest else x ∷ rest

-- `replace("\c", "c")`: the matches from the left, none of which overlap.
unfoldable pub drop_backslash : ℕ → List ℕ → List ℕ
drop_backslash c [] = []
drop_backslash c (x ∷ []) = x ∷ []
drop_backslash c (x ∷ y ∷ rest) =
    let behind = drop_backslash c rest in
    let next = drop_backslash c (y ∷ rest) in
    if nat_beq x backslash && nat_beq y c then c ∷ behind else x ∷ next

unfoldable pub escape_field : List ℕ → List ℕ
unfolding add_backslash
escape_field col =
    add_backslash b']'
      (add_backslash b'[' (add_backslash b'.' (add_backslash b'"' (add_backslash b'\'' col))))

unfoldable pub unescape_field : List ℕ → List ℕ
unfolding drop_backslash
unescape_field col =
    drop_backslash b']'
      (drop_backslash b'[' (drop_backslash b'.' (drop_backslash b'"' (drop_backslash b'\'' col))))
