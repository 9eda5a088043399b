-- ===== src/Cli/Png/Chunks/Name.antt =====
-- The names of the chunks that packages/cli/src/png.js reads, as character codes.
use ash_ml.Base.{ℕ, List, [], ◌∷◌}

abbrev pub ihdr : List ℕ
ihdr = 73 ∷ 72 ∷ 68 ∷ 82 ∷ []

abbrev pub plte : List ℕ
plte = 80 ∷ 76 ∷ 84 ∷ 69 ∷ []

abbrev pub trns : List ℕ
trns = 116 ∷ 82 ∷ 78 ∷ 83 ∷ []

abbrev pub idat : List ℕ
idat = 73 ∷ 68 ∷ 65 ∷ 84 ∷ []

abbrev pub iend : List ℕ
iend = 73 ∷ 69 ∷ 78 ∷ 68 ∷ []
