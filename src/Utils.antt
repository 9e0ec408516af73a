-- ===== src/Utils.antt =====
-- internal/utils/utils.go: making an identifier.
use cel_service.Base.Replace.{replace_from, replace_all}
use cel_service.Base.Text.{Str, text, has_prefix}
use cel_service.Base.{◌≡◌, ◌==◌, refl, arith, [], ◌∷◌, if◌then◌else◌}

-- `uuid_str` is what `uuid.NewString` has made.
unfoldable generate_id : Str → Str
generate_id uuid_str = replace_all uuid_str (text "-") []

unfoldable without_dashes : Str → Str
without_dashes [] = []
without_dashes (c ∷ s) = if c == b'-' then without_dashes s else c ∷ without_dashes s

replace_from-dashes : (s : Str) → replace_from 0 s (text "-") [] ≡ without_dashes s
unfolding replace_from without_dashes has_prefix text
replace_from-dashes [] = refl
replace_from-dashes (c ∷ s) = ground (arith, replace_from-dashes s)

-- An identifier is made of the characters of the text that are no dashes, in their order.
generate_id-without_dashes : (s : Str) → generate_id s ≡ without_dashes s
unfolding generate_id replace_all
generate_id-without_dashes s = replace_from-dashes s
