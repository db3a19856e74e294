-- ===== src/PixelConv/Chains.antt =====
-- Conversions of pixel lines one after another.
use fcom.Prelude.{
  ℕ, zero, suc, ◌<◌, ◌≡◌, refl, ap, sym, subst, true, some, List, [], ◌∷◌, arith, length,
}
use fcom.Prelude.Memory.{Bytes}
use fcom.PixelConv.{Format, rgb, rgba, abgr, bgr, bgra, pic_convert}
use fcom.PixelConv.Channels.{
  Pixel, pixel, pixels_of, line_of, AllBytes, AllBytes-drop, byte-lt, size, has_alpha, converts,
  pic_convert-line_of,
}

length-pixels_of : (f : Format) (n : ℕ) (s : Bytes) → length (pixels_of f n s) ≡ n
unfolding pixels_of
length-pixels_of f zero s = refl
length-pixels_of f (suc n) s = ap suc (length-pixels_of f n _)

-- A format with alpha keeps all of a pixel.
pixels_of-line_of :
    (m : Format)
    → has_alpha m ≡ true
    → (ps : List Pixel) → pixels_of m (length ps) (line_of m ps) ≡ ps
unfolding pixels_of line_of
pixels_of-line_of rgb e ps = cc
pixels_of-line_of bgr e ps = cc
pixels_of-line_of rgba e [] = refl
pixels_of-line_of rgba e (p ∷ ps) = ap (λ qs. p ∷ qs) (pixels_of-line_of rgba e ps)
pixels_of-line_of abgr e [] = refl
pixels_of-line_of abgr e (p ∷ ps) = ap (λ qs. p ∷ qs) (pixels_of-line_of abgr e ps)
pixels_of-line_of bgra e [] = refl
pixels_of-line_of bgra e (p ∷ ps) = ap (λ qs. p ∷ qs) (pixels_of-line_of bgra e ps)

record InBytes (p : Pixel) : Type 0 where
  red : p.red < 256
  green : p.green < 256
  blue : p.blue < 256
  alpha : p.alpha < 256

pixel-InBytes : (i : Format) (s : Bytes) → AllBytes s → InBytes (pixel i s)
pixel-InBytes rgb s h = record {
  red = byte-lt s 0 h;
  green = byte-lt s 1 h;
  blue = byte-lt s 2 h;
  alpha = omega arith;
}
pixel-InBytes bgr s h = record {
  red = byte-lt s 2 h;
  green = byte-lt s 1 h;
  blue = byte-lt s 0 h;
  alpha = omega arith;
}
pixel-InBytes rgba s h = record {
  red = byte-lt s 0 h;
  green = byte-lt s 1 h;
  blue = byte-lt s 2 h;
  alpha = byte-lt s 3 h;
}
pixel-InBytes abgr s h = record {
  red = byte-lt s 3 h;
  green = byte-lt s 2 h;
  blue = byte-lt s 1 h;
  alpha = byte-lt s 0 h;
}
pixel-InBytes bgra s h = record {
  red = byte-lt s 2 h;
  green = byte-lt s 1 h;
  blue = byte-lt s 0 h;
  alpha = byte-lt s 3 h;
}

AllBytes-line_of :
    (i m : Format)
    → has_alpha m ≡ true
    → (n : ℕ) (s : Bytes) → AllBytes s
    → AllBytes (line_of m (pixels_of i n s))
unfolding pixels_of line_of
AllBytes-line_of i m e zero s h = tt
AllBytes-line_of i rgb e (suc n) s h = cc
AllBytes-line_of i bgr e (suc n) s h = cc
AllBytes-line_of i rgba e (suc n) s h =
    let p = pixel-InBytes i s h in
    let rest = AllBytes-line_of i rgba e n _ (AllBytes-drop (size i) s h) in
    (p.red, (p.green, (p.blue, (p.alpha, rest))))
AllBytes-line_of i abgr e (suc n) s h =
    let p = pixel-InBytes i s h in
    let rest = AllBytes-line_of i abgr e n _ (AllBytes-drop (size i) s h) in
    (p.alpha, (p.blue, (p.green, (p.red, rest))))
AllBytes-line_of i bgra e (suc n) s h =
    let p = pixel-InBytes i s h in
    let rest = AllBytes-line_of i bgra e n _ (AllBytes-drop (size i) s h) in
    (p.blue, (p.green, (p.red, (p.alpha, rest))))

-- What a conversion to a format with alpha leaves is read back as the same pixels.
pixels_of-converted :
    (i m : Format)
    → has_alpha m ≡ true
    → (n : ℕ) (s : Bytes) → pixels_of m n (line_of m (pixels_of i n s)) ≡ pixels_of i n s
pixels_of-converted i m e n s =
    subst (λ k. pixels_of m k (line_of m (pixels_of i n s)) ≡ pixels_of i n s)
      (length-pixels_of i n s) (pixels_of-line_of m e (pixels_of i n s))

-- To convert a line of bytes by way of a third format that has alpha is to convert it directly,
-- where `pic_convert` has all three conversions.
pub pic_convert-pic_convert :
    (i m o : Format) (n : ℕ) (s : Bytes) {t : Bytes}
    → AllBytes s
    → has_alpha m ≡ true
    → converts i m ≡ true
    → converts m o ≡ true
    → converts i o ≡ true
    → pic_convert i m n s ≡ some t
    → pic_convert m o n t ≡ pic_convert i o n s
pic_convert-pic_convert i m o n s {t} h e c1 c2 c3 r =
    let q : t ≡ line_of m (pixels_of i n s) = ground (arith, pic_convert-line_of i m n s h) in
    let h' : AllBytes t = subst AllBytes (sym q) (AllBytes-line_of i m e n s h) in
    ground (
      arith,
      pic_convert-line_of m o n t h',
      pic_convert-line_of i o n s h,
      pixels_of-converted i m e n s,
    )
