-- ===== src/Base/Bytes.antt =====
-- String literals as the bytes of a `std::string`: the encoding in UTF-8.
use Prim.Native.Char.{code}
use Prim.Native.String.{String}
use xjblg.Base.{ℕ, ◌+◌, ◌/◌, ◌%◌, [], ◌∷◌, ltb, if◌then◌else◌}
use xjblg.Base.Text.{Text}

-- The bytes of one character, in front of others.
unfoldable pub encode_char : ℕ → Text → Text
encode_char c rest =
    if ltb c 128
    then c ∷ rest
    else if ltb c 2048
    then (192 + c / 64) ∷ (128 + c % 64) ∷ rest
    else if ltb c 65536
    then (224 + c / 4096) ∷ (128 + (c / 64) % 64) ∷ (128 + c % 64) ∷ rest
    else (240 + c / 262144)
      ∷ (128 + (c / 4096) % 64)
      ∷ (128 + (c / 64) % 64)
      ∷ (128 + c % 64)
      ∷ rest

unfoldable pub bytes : String → Text
unfolding encode_char
bytes String.[] = []
bytes (String.◌∷◌ c s) = encode_char (code c) (bytes s)
