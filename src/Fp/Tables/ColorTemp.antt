-- ===== src/Fp/Tables/ColorTemp.antt =====
-- `fp_color_temp` (fp/src/data.c), put together from its parts.
mod Warm
mod Mild
mod Cool
mod Cold
use Warm.{color_temp_below_3000, color_temp_from_3000}
use Mild.{color_temp_from_4000, color_temp_from_5000}
use Cool.{color_temp_from_6000, color_temp_from_7000}
use Cold.{color_temp_from_8000, color_temp_from_9000}
use libfuji.Common.{List, ◌++◌}
use libfuji.Fp.Lookup.{FujiLookup}

unfoldable pub fp_color_temp : List FujiLookup
unfolding color_temp_below_3000 color_temp_from_3000 color_temp_from_4000 color_temp_from_5000
    color_temp_from_6000 color_temp_from_7000 color_temp_from_8000 color_temp_from_9000
fp_color_temp =
    color_temp_below_3000
    ++ (color_temp_from_3000
        ++ (color_temp_from_4000
            ++ (color_temp_from_5000
                ++ (color_temp_from_6000
                    ++ (color_temp_from_7000
                        ++ (color_temp_from_8000 ++ (color_temp_from_9000)))))))
