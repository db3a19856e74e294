-- ===== src/PixelConv.antt =====
-- The conversion of pixel lines, `pic_convert` of src/util/pixel-conv.h.
pub mod Channels
pub mod Chains
mod Tests
use fcom.Prelude.{
  ℕ, zero, suc, ◌*◌, ◌/◌, ◌%◌, Option, some, none, List, [], ◌∷◌, ◌++◌, drop, get_or,
}
use fcom.Prelude.Memory.{Bytes}

-- `enum PIC_FMT`
pub data Format : Type 0 where
  rgb rgba abgr bgr bgra : Format

-- A byte `in[i]` of the source. Callers give a source of at least the pixels they ask for.
abbrev pub byte : Bytes → ℕ → ℕ
byte input i = get_or input i 0

-- `c * alpha / 255`, stored in a byte
unfoldable pub shade : ℕ → ℕ → ℕ
shade c alpha = c * alpha / 255 % 256

-- The bodies of the loops: what they store for the pixel at `input`.
abbrev pub swap3 : Bytes → Bytes
swap3 input = byte input 2 ∷ byte input 1 ∷ byte input 0 ∷ []

-- `ffint_bswap32`
abbrev pub bswap : Bytes → Bytes
bswap input = byte input 3 ∷ byte input 2 ∷ byte input 1 ∷ byte input 0 ∷ []

abbrev pub swap_ends : Bytes → Bytes
swap_ends input = byte input 2 ∷ byte input 1 ∷ byte input 0 ∷ byte input 3 ∷ []

abbrev pub alpha_first : Bytes → Bytes
alpha_first input = byte input 3 ∷ byte input 0 ∷ byte input 1 ∷ byte input 2 ∷ []

-- Three channels over a black background.
abbrev pub shade3 : Bytes → ℕ → ℕ → ℕ → ℕ → Bytes
shade3 input i j k a =
    let alpha = byte input a in
    shade (byte input i) alpha ∷ shade (byte input j) alpha ∷ shade (byte input k) alpha ∷ []

-- A loop over pixels of `size` bytes.
unfoldable pub each_pixel : (Bytes → Bytes) → ℕ → ℕ → Bytes → Bytes
each_pixel body size zero src = []
each_pixel body size (suc pixels) src = body src ++ each_pixel body size pixels (drop size src)

-- `pic_convert`: the destination's bytes, or `none` for -1.
unfoldable pub pic_convert : Format → Format → ℕ → Bytes → Option Bytes
unfolding each_pixel shade
pic_convert rgb rgb pixels src = none
pic_convert rgb rgba pixels src = none
pic_convert rgb abgr pixels src = none
pic_convert rgb bgr pixels src = some (each_pixel swap3 3 pixels src)
pic_convert rgb bgra pixels src = none
pic_convert rgba rgb pixels src = some (each_pixel (λ s. shade3 s 0 1 2 3) 4 pixels src)
pic_convert rgba rgba pixels src = none
pic_convert rgba abgr pixels src = some (each_pixel bswap 4 pixels src)
pic_convert rgba bgr pixels src = some (each_pixel (λ s. shade3 s 2 1 0 3) 4 pixels src)
pic_convert rgba bgra pixels src = some (each_pixel swap_ends 4 pixels src)
pic_convert abgr rgb pixels src = some (each_pixel (λ s. shade3 s 3 2 1 0) 4 pixels src)
pic_convert abgr rgba pixels src = some (each_pixel bswap 4 pixels src)
pic_convert abgr abgr pixels src = none
pic_convert abgr bgr pixels src = some (each_pixel (λ s. shade3 s 1 2 3 0) 4 pixels src)
pic_convert abgr bgra pixels src = none
pic_convert bgr rgb pixels src = some (each_pixel swap3 3 pixels src)
pic_convert bgr rgba pixels src = none
pic_convert bgr abgr pixels src = none
pic_convert bgr bgr pixels src = none
pic_convert bgr bgra pixels src = none
pic_convert bgra rgb pixels src = some (each_pixel (λ s. shade3 s 2 1 0 3) 4 pixels src)
pic_convert bgra rgba pixels src = some (each_pixel swap_ends 4 pixels src)
pic_convert bgra abgr pixels src = some (each_pixel alpha_first 4 pixels src)
pic_convert bgra bgr pixels src = some (each_pixel (λ s. shade3 s 0 1 2 3) 4 pixels src)
pic_convert bgra bgra pixels src = none
