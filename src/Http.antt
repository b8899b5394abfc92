-- ===== src/Http.antt =====
-- http/: actions, content types, the URL encoding and the field table. A `std::string` is the list of
-- its bytes, except where the code only compares whole texts.
pub mod Action
pub mod ContentType
pub mod Url
pub mod Names
pub mod Headers
pub mod Fields
use Prim.Native.Char.{code}
use Prim.Native.String.{String}
use medici.Prelude.{ℕ, Bool, true, false, ◌&&◌, ◌==◌, List, [], ◌∷◌}

-- The bytes of an ASCII text.
abbrev pub codes : String → List ℕ
codes String.[] = []
codes (String.◌∷◌ c s) = code c ∷ codes s

-- `==` on `std::string`.
unfoldable pub same_text : List ℕ → List ℕ → Bool
same_text [] [] = true
same_text (c ∷ s) (d ∷ t) = c == d && same_text s t
same_text _ _ = false
