-- ===== src/PixelConv/Tests.antt =====
-- Conversions of two pixels.
use fcom.Prelude.{◌≡◌, refl, some, [], ◌∷◌, arith}
use fcom.Prelude.Memory.{Bytes}
use fcom.PixelConv.{rgb, rgba, abgr, bgr, pic_convert}
use fcom.PixelConv.Channels.{pixels_of, line_of, AllBytes, pic_convert-line_of}
use fcom.PixelConv.Chains.{pic_convert-pic_convert}

-- An opaque pixel, and one that is half transparent.
abbrev line : Bytes
line = 10 ∷ 20 ∷ 30 ∷ 255 ∷ 200 ∷ 100 ∷ 50 ∷ 128 ∷ []

line-AllBytes : AllBytes line
line-AllBytes = (
  omega arith,
  (
    omega arith,
    (omega arith, (omega arith, (omega arith, (omega arith, (omega arith, (omega arith, tt)))))),
  ),
)

pic_convert-line_of_example :
    pic_convert rgba bgr 2 line ≡ some (line_of bgr (pixels_of rgba 2 line))
pic_convert-line_of_example = pic_convert-line_of rgba bgr 2 line line-AllBytes

bgr_bytes : pic_convert rgba bgr 2 line ≡ some (30 ∷ 20 ∷ 10 ∷ 25 ∷ 50 ∷ 100 ∷ [])
unfolding pic_convert
bgr_bytes = refl

abgr_bytes : pic_convert rgba abgr 2 line ≡ some (255 ∷ 30 ∷ 20 ∷ 10 ∷ 128 ∷ 50 ∷ 100 ∷ 200 ∷ [])
unfolding pic_convert
abgr_bytes = refl

pic_convert-pic_convert_example :
    pic_convert abgr rgb 2 (255 ∷ 30 ∷ 20 ∷ 10 ∷ 128 ∷ 50 ∷ 100 ∷ 200 ∷ [])
    ≡ pic_convert rgba rgb 2 line
pic_convert-pic_convert_example =
    pic_convert-pic_convert rgba abgr rgb 2 line line-AllBytes refl refl refl refl abgr_bytes
