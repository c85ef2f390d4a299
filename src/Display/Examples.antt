-- ===== src/Display/Examples.antt =====
-- The theorems on src/graphics.rs at a small screen.
use rignite.Common.{List, [], ◌∷◌, replicate, arith}
use rignite.Display.{Mode, Pixel, pos, negsuc, rgb, draw_iter, clear, Rgb888}
use rignite.Display.Bounds.{IsDrawn, IsPixel, draw_iter_lem, clear_lem}
use rignite.Display.Resolution.{choose_mode, IsBest, choose_mode_lem}

abbrev two_by_one : Mode
two_by_one = record { width = 2; height = 1; stride = 2; pixel_format = rgb }

-- One pixel on the screen, and one to its left.
abbrev two_pixels : List Pixel
two_pixels =
    record { x = pos 1; y = pos 0; color = record { r = 1; g = 2; b = 3 } }
    ∷ record { x = negsuc 0; y = pos 0; color = record { r = 4; g = 5; b = 6 } }
    ∷ []

draw_iter_lem_example : IsDrawn (replicate 8 0) (draw_iter two_by_one two_pixels (replicate 8 0))
draw_iter_lem_example = draw_iter_lem two_by_one two_pixels (replicate 8 0)

abbrev red : Rgb888
red = record { r = 255; g = 0; b = 0 }

clear_lem_example : IsPixel two_by_one red (replicate 8 7) (clear two_by_one red (replicate 8 7)) 4
clear_lem_example = clear_lem two_by_one red 1 (replicate 8 7) (omega arith)

-- The largest mode is too wide.
abbrev three_modes : List Mode
three_modes =
    record two_by_one { width = 800; height = 600 }
    ∷ record two_by_one { width = 3840; height = 2160 }
    ∷ record two_by_one { width = 1920; height = 1080 }
    ∷ []

choose_mode_lem_example : IsBest three_modes (choose_mode three_modes)
choose_mode_lem_example = choose_mode_lem three_modes
