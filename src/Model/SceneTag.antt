-- ===== src/Model/SceneTag.antt =====
-- internal/model/scene_tag.go
use cooking_platform.Prelude.{ℕ, Bool, ◌&&◌, [], ◌∷◌, leb, ◌==◌, if◌then◌else◌}
use cooking_platform.Prelude.Text.{Bytes}

-- `IsValid` of an int8 that is not negative
unfoldable pub is_valid : ℕ → Bool
is_valid s = leb 1 s && leb s 8

-- `Name`: the display names in UTF-8, and the empty text for other values
abbrev rental : Bytes
rental = 229 ∷ 135 ∷ 186 ∷ 231 ∷ 167 ∷ 159 ∷ 229 ∷ 177 ∷ 139 ∷ []

abbrev solo : Bytes
solo = 228 ∷ 184 ∷ 128 ∷ 228 ∷ 184 ∷ 170 ∷ 228 ∷ 186 ∷ 186 ∷ 231 ∷ 154 ∷ 132 ∷ 233 ∷ 165 ∷ 173 ∷ []

abbrev camping : Bytes
camping = 233 ∷ 156 ∷ 178 ∷ 232 ∷ 144 ∷ 165 ∷ 233 ∷ 135 ∷ 142 ∷ 231 ∷ 130 ∷ 138 ∷ []

abbrev family : Bytes
family = 229 ∷ 174 ∷ 182 ∷ 229 ∷ 186 ∷ 173 ∷ 229 ∷ 142 ∷ 168 ∷ 230 ∷ 136 ∷ 191 ∷ []

abbrev quick : Bytes
quick = 229 ∷ 191 ∷ 171 ∷ 230 ∷ 137 ∷ 139 ∷ 230 ∷ 151 ∷ 165 ∷ 229 ∷ 184 ∷ 184 ∷ []

abbrev bento : Bytes
bento = 230 ∷ 137 ∷ 147 ∷ 229 ∷ 140 ∷ 133 ∷ 228 ∷ 190 ∷ 191 ∷ 229 ∷ 189 ∷ 147 ∷ []

abbrev diet : Bytes
diet = 229 ∷ 135 ∷ 143 ∷ 232 ∷ 132 ∷ 130 ∷ 233 ∷ 164 ∷ 144 ∷ []

abbrev seasonal : Bytes
seasonal = 232 ∷ 138 ∷ 130 ∷ 230 ∷ 176 ∷ 148 ∷ 232 ∷ 138 ∷ 130 ∷ 230 ∷ 151 ∷ 165 ∷ []

unfoldable pub name : ℕ → Bytes
name s =
    if s == 1
    then rental
    else if s == 2
    then solo
    else if s == 3
    then camping
    else if s == 4
    then family
    else if s == 5
    then quick
    else if s == 6
    then bento
    else if s == 7
    then diet
    else if s == 8
    then seasonal
    else []
