-- ===== src/Base/Texts.antt =====
-- Texts put together from their parts, as Python's f-strings do.
use Prim.Native.String.{String, ◌++◌ as text_append}
use mathlib.Core.List.{List, [], ◌∷◌}

abbrev pub concat : List String → String
concat [] = ""
concat (s ∷ ss) = text_append s (concat ss)

-- separator.join(parts)
abbrev pub join : String → List String → String
join separator [] = ""
join separator (s ∷ []) = s
join separator (s ∷ t ∷ ss) = text_append s (text_append separator (join separator (t ∷ ss)))
