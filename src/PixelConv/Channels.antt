-- ===== src/PixelConv/Channels.antt =====
-- The conversions of pixel lines against what the formats mean.
use fcom.Prelude.{
  ℕ, zero, suc, ◌*◌, ◌/◌, ◌≤◌, ◌<◌, ◌≡◌, refl, ap, Bool, true, false, if◌then◌else◌, some, none,
  List, [], ◌∷◌, ◌++◌, drop, arith,
}
use native.Mathlib.Nat.{mul-le-mul}
use fcom.Prelude.Memory.{Bytes}
use fcom.PixelConv.{
  Format, rgb, rgba, abgr, bgr, bgra, byte, shade, each_pixel, pic_convert, swap3, bswap, swap_ends,
  alpha_first, shade3,
}

-- The channels of a pixel.
pub record Pixel : Type 0 where
  pub red : ℕ
  pub green : ℕ
  pub blue : ℕ
  pub alpha : ℕ

abbrev pub size : Format → ℕ
size rgb = 3
size bgr = 3
size rgba = 4
size abgr = 4
size bgra = 4

-- The pixel at the start of a line; one without alpha is opaque.
abbrev pub pixel : Format → Bytes → Pixel
pixel rgb s = record { red = byte s 0; green = byte s 1; blue = byte s 2; alpha = 255 }
pixel bgr s = record { red = byte s 2; green = byte s 1; blue = byte s 0; alpha = 255 }
pixel rgba s = record { red = byte s 0; green = byte s 1; blue = byte s 2; alpha = byte s 3 }
pixel abgr s = record { red = byte s 3; green = byte s 2; blue = byte s 1; alpha = byte s 0 }
pixel bgra s = record { red = byte s 2; green = byte s 1; blue = byte s 0; alpha = byte s 3 }

unfoldable pub pixels_of : Format → ℕ → Bytes → List Pixel
pixels_of f zero s = []
pixels_of f (suc n) s = pixel f s ∷ pixels_of f n (drop (size f) s)

-- A channel over black.
abbrev pub over_black : ℕ → ℕ → ℕ
over_black c a = c * a / 255

-- The bytes of a pixel; where the format has no alpha the pixel is put on black.
abbrev pub bytes_of : Format → Pixel → Bytes
bytes_of rgb p =
    over_black p.red p.alpha ∷ over_black p.green p.alpha ∷ over_black p.blue p.alpha ∷ []
bytes_of bgr p =
    over_black p.blue p.alpha ∷ over_black p.green p.alpha ∷ over_black p.red p.alpha ∷ []
bytes_of rgba p = p.red ∷ p.green ∷ p.blue ∷ p.alpha ∷ []
bytes_of abgr p = p.alpha ∷ p.blue ∷ p.green ∷ p.red ∷ []
bytes_of bgra p = p.blue ∷ p.green ∷ p.red ∷ p.alpha ∷ []

unfoldable pub line_of : Format → List Pixel → Bytes
line_of f [] = []
line_of f (p ∷ ps) = bytes_of f p ++ line_of f ps

abbrev pub AllBytes : Bytes → Type 0
AllBytes [] = Unit
AllBytes (x ∷ s) = (x < 256) × AllBytes s

pub AllBytes-drop : (k : ℕ) (s : Bytes) → AllBytes s → AllBytes (drop k s)
AllBytes-drop zero s h = h
AllBytes-drop (suc k) [] h = h
AllBytes-drop (suc k) (x ∷ s) h = AllBytes-drop k s h.1

pub byte-lt : (s : Bytes) (i : ℕ) → AllBytes s → byte s i < 256
byte-lt [] i h = omega arith
byte-lt (x ∷ s) zero h = h.0
byte-lt (x ∷ s) (suc i) h = byte-lt s i h.1

opaque_lem : (c : ℕ) → c * 255 / 255 ≡ c
opaque_lem c = omega arith

product-le : (c a : ℕ) → c < 256 → a < 256 → c * a ≤ 255 * 255
product-le c a h k =
    let p : c ≤ 255 = omega arith in let q : a ≤ 255 = omega arith in mul-le-mul p q

shade_lem : (c a : ℕ) → c < 256 → a < 256 → shade c a ≡ over_black c a
unfolding shade
shade_lem c a h k = omega (arith, product-le c a h k)

-- A loop whose body is right for one pixel is right for a line.
each_pixel_lem :
    (i o : Format) (body : Bytes → Bytes)
    → ((s : Bytes) → AllBytes s → body s ≡ bytes_of o (pixel i s))
    → (n : ℕ) (s : Bytes) → AllBytes s
    → each_pixel body (size i) n s ≡ line_of o (pixels_of i n s)
unfolding each_pixel line_of pixels_of
each_pixel_lem i o body right zero s h = refl
each_pixel_lem i o body right (suc n) s h = ground (
  arith,
  right s h,
  each_pixel_lem i o body right n (drop (size i) s) (AllBytes-drop (size i) s h),
)

abbrev pub has_alpha : Format → Bool
has_alpha rgb = false
has_alpha bgr = false
has_alpha rgba = true
has_alpha abgr = true
has_alpha bgra = true

-- Which formats are converted: a format without alpha to the other, one with alpha to each other
-- format, but ABGR not to BGRA.
abbrev pub converts : Format → Format → Bool
converts rgb o = elim o [ bgr ↦ true | rgb ↦ false | rgba ↦ false | abgr ↦ false | bgra ↦ false ]
converts bgr o = elim o [ rgb ↦ true | bgr ↦ false | rgba ↦ false | abgr ↦ false | bgra ↦ false ]
converts rgba o = elim o [ rgba ↦ false | rgb ↦ true | bgr ↦ true | abgr ↦ true | bgra ↦ true ]
converts abgr o = elim o [ abgr ↦ false | bgra ↦ false | rgb ↦ true | bgr ↦ true | rgba ↦ true ]
converts bgra o = elim o [ bgra ↦ false | rgb ↦ true | bgr ↦ true | rgba ↦ true | abgr ↦ true ]

swap3_lem :
    (a b c : ℕ) → (a ∷ b ∷ c ∷ []) ≡ over_black a 255 ∷ over_black b 255 ∷ over_black c 255 ∷ []
swap3_lem a b c = ground (arith, opaque_lem a, opaque_lem b, opaque_lem c)

shade3_lem :
    (s : Bytes) (i j k a : ℕ)
    → AllBytes s
    → shade3 s i j k a
      ≡ over_black (byte s i) (byte s a)
        ∷ over_black (byte s j) (byte s a)
        ∷ over_black (byte s k) (byte s a)
        ∷ []
shade3_lem s i j k a h = ground (
  arith,
  shade_lem (byte s i) (byte s a) (byte-lt s i h) (byte-lt s a h),
  shade_lem (byte s j) (byte s a) (byte-lt s j h) (byte-lt s a h),
  shade_lem (byte s k) (byte s a) (byte-lt s k h) (byte-lt s a h),
)

-- `pic_convert` converts the pairs of formats of the table and no others, and what it stores for a
-- line of bytes is, pixel by pixel, the channels that the one format reads, in the order of the
-- other, put on black where that has no alpha.
pub pic_convert-line_of :
    (i o : Format) (n : ℕ) (s : Bytes)
    → AllBytes s
    → pic_convert i o n s ≡ (if converts i o then some (line_of o (pixels_of i n s)) else none)
unfolding pic_convert
pic_convert-line_of rgb rgb n s h = refl
pic_convert-line_of rgb rgba n s h = refl
pic_convert-line_of rgb abgr n s h = refl
pic_convert-line_of rgb bgr n s h =
    ap some (each_pixel_lem rgb bgr swap3 (λ s h. swap3_lem (byte s 2) (byte s 1) (byte s 0)) n s h)
pic_convert-line_of rgb bgra n s h = refl
pic_convert-line_of rgba rgb n s h =
    ap some (each_pixel_lem rgba rgb _ (λ s. shade3_lem s 0 1 2 3) n s h)
pic_convert-line_of rgba rgba n s h = refl
pic_convert-line_of rgba abgr n s h = ap some (each_pixel_lem rgba abgr bswap (λ s h. refl) n s h)
pic_convert-line_of rgba bgr n s h =
    ap some (each_pixel_lem rgba bgr _ (λ s. shade3_lem s 2 1 0 3) n s h)
pic_convert-line_of rgba bgra n s h =
    ap some (each_pixel_lem rgba bgra swap_ends (λ s h. refl) n s h)
pic_convert-line_of abgr rgb n s h =
    ap some (each_pixel_lem abgr rgb _ (λ s. shade3_lem s 3 2 1 0) n s h)
pic_convert-line_of abgr rgba n s h = ap some (each_pixel_lem abgr rgba bswap (λ s h. refl) n s h)
pic_convert-line_of abgr abgr n s h = refl
pic_convert-line_of abgr bgr n s h =
    ap some (each_pixel_lem abgr bgr _ (λ s. shade3_lem s 1 2 3 0) n s h)
pic_convert-line_of abgr bgra n s h = refl
pic_convert-line_of bgr rgb n s h =
    ap some (each_pixel_lem bgr rgb swap3 (λ s h. swap3_lem (byte s 2) (byte s 1) (byte s 0)) n s h)
pic_convert-line_of bgr rgba n s h = refl
pic_convert-line_of bgr abgr n s h = refl
pic_convert-line_of bgr bgr n s h = refl
pic_convert-line_of bgr bgra n s h = refl
pic_convert-line_of bgra rgb n s h =
    ap some (each_pixel_lem bgra rgb _ (λ s. shade3_lem s 2 1 0 3) n s h)
pic_convert-line_of bgra rgba n s h =
    ap some (each_pixel_lem bgra rgba swap_ends (λ s h. refl) n s h)
pic_convert-line_of bgra abgr n s h =
    ap some (each_pixel_lem bgra abgr alpha_first (λ s h. refl) n s h)
pic_convert-line_of bgra bgr n s h =
    ap some (each_pixel_lem bgra bgr _ (λ s. shade3_lem s 0 1 2 3) n s h)
pic_convert-line_of bgra bgra n s h = refl
