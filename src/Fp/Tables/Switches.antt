-- ===== src/Fp/Tables/Switches.antt =====
-- On and off, booleans, and the file header's values (fp/src/data.c): the tables in source order, without the closing NULL row.
use libfuji.Common.{List, [], ◌∷◌}
use libfuji.Fp.Lookup.{FujiLookup, row}

unfoldable pub fp_struct_ver : List FujiLookup
fp_struct_ver = row "65536" 65536 ∷ []

unfoldable pub fp_on_off : List FujiLookup
fp_on_off = row "ON" 1 ∷ row "OFF" 0 ∷ []

unfoldable pub fp_shooting_condition : List FujiLookup
fp_shooting_condition = row "ON" 1 ∷ row "OFF" 2 ∷ []

unfoldable pub fp_bool : List FujiLookup
fp_bool = row "TRUE" 1 ∷ row "FALSE" 0 ∷ []

unfoldable pub fp_lens_modulation : List FujiLookup
fp_lens_modulation = row "ON" 1 ∷ row "OFF" 2 ∷ []

unfoldable pub fp_color_space : List FujiLookup
fp_color_space = row "sRGB" 1 ∷ row "Adobe sRGB" 2 ∷ row "AdobeRGB" 3 ∷ []

unfoldable pub fp_hdr : List FujiLookup
fp_hdr = row "200" 200 ∷ row "400" 400 ∷ row "800" 800 ∷ row "800PLUS" 801 ∷ row "" 0 ∷ []
