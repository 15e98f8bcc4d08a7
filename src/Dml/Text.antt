-- ===== src/Dml/Text.antt =====
-- Text as the bytes of a std::string: literals, joining with a separator, and lengths.
use mssql_extension.Prelude.{List, [], ℕ, ◌++◌, ◌∷◌}
use Prim.Native.Char.{code}
use Prim.Native.String.{String}

abbrev pub Text : Type 0
Text = List ℕ

-- The bytes of a literal, all of them ASCII.
abbrev pub codes : String → Text
codes String.[] = []
codes (String.◌∷◌ c s) = code c ∷ codes s

-- `for (i …) { if (i > 0) { out += separator; } out += parts[i]; }`, from the second part on.
abbrev pub join_rest : Text → List Text → Text
join_rest separator [] = []
join_rest separator (part ∷ parts) = separator ++ part ++ join_rest separator parts

abbrev pub join : Text → List Text → Text
join separator [] = []
join separator (part ∷ parts) = part ++ join_rest separator parts
