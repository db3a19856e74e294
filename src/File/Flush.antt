-- ===== src/File/Flush.antt =====
-- `file_flush`: the loop ends, and puts the buffered bytes into the file however short its writes.
use fcom.Prelude.{
  ℕ, zero, suc, ◌+◌, ◌<◌, ◌≡◌, ◌≢◌, refl, inl, inr, some, none, [], ◌∷◌, arith, length, drop,
  length-drop,
}
use fcom.Prelude.Memory.{Bytes, copy, slice, copy-nil, copy-take-drop, length-slice}
use fcom.FileBuf.Write.{overlay}
use fcom.Os.{Platform, Io-cases, Posix, WritesAll}
use fcom.File.{File, ok, f_write, flush_loop, file_flush}
use fcom.File.Kernel.{IsPlain, f_write-plain}

module _ (p : Platform) (posix : Posix p) where
  open posix use {content, count_le, count_pos, content_done}

  flush_loop_lem :
      (fuel : ℕ) (f : File) (s : p.State) (d : Bytes) (off : ℕ)
      → IsPlain f.flags
      → length d < fuel
      → let (f', s', r) = flush_loop p fuel f s d off in
        (r ≢ none) × (r ≡ some ok → (content s' ≡ copy (content s) off d) × (f'.wbuf.len ≡ 0))
  unfolding flush_loop
  flush_loop_lem zero f s d off g h = elim h [ ]
  flush_loop_lem (suc fuel) f s [] off g h = ground (arith, copy-nil (content s) off)
  flush_loop_lem (suc fuel) f s (x ∷ d) off g h =
      let w = p.write_at s (x ∷ d) off in
      let fw = f_write p f s (x ∷ d) off in
      elim (Io-cases w.1) [
        | inl e ↦ ground (arith, f_write-plain p f s (x ∷ d) off g)
        | inr (inl e) ↦ ground (arith, f_write-plain p f s (x ∷ d) off g)
        | inr (inr (n, e)) ↦ ground (
          arith,
          f_write-plain p f s (x ∷ d) off g,
          count_le s (x ∷ d) off n e,
          count_pos s (x ∷ d) off n e,
          content_done s (x ∷ d) off n e,
          flush_loop_lem fuel fw.0 w.0 (drop n (x ∷ d)) (off + n),
          length-drop n (x ∷ d),
          copy-take-drop (content s) off n (x ∷ d),
        )
      ]

  -- On a plain file `file_flush` ends, for every sequence of short writes and errors that the
  -- platform gives, and where it returns FCOM_FILE_OK the file holds the buffered bytes and the
  -- buffer is empty.
  pub file_flush_lem :
      (f : File) (s : p.State)
      → IsPlain f.flags
      → let (f', s', r) = file_flush p f s in
        (r ≢ none) × (r ≡ some ok → (content s' ≡ overlay (content s) f.wbuf) × (f'.wbuf.len ≡ 0))
  unfolding file_flush
  file_flush_lem f s g =
      let d = slice f.wbuf.mem 0 f.wbuf.len in
      flush_loop_lem (suc f.wbuf.len) f s d f.wbuf.off g
        (omega (arith, length-slice f.wbuf.mem 0 f.wbuf.len))

  -- Where each write takes all its data, one round does it.
  flush_loop-ok :
      WritesAll p
      → (fuel : ℕ) (f : File) (s : p.State) (d : Bytes) (off : ℕ) → IsPlain f.flags
      → length d < fuel
      → (flush_loop p fuel f s d off).2 ≡ some ok
  unfolding flush_loop
  flush_loop-ok all zero f s d off g h = elim h [ ]
  flush_loop-ok all (suc fuel) f s [] off g h = refl
  flush_loop-ok all (suc fuel) f s (x ∷ d) off g h =
      let fw = f_write p f s (x ∷ d) off in
      let n = length (x ∷ d) in
      ground (
        arith,
        f_write-plain p f s (x ∷ d) off g,
        all.write_all s (x ∷ d) off,
        length-drop n (x ∷ d),
        flush_loop-ok all fuel fw.0 fw.1 (drop n (x ∷ d)) (off + n),
      )

  pub file_flush-ok :
      WritesAll p → (f : File) (s : p.State) → IsPlain f.flags → (file_flush p f s).2 ≡ some ok
  unfolding file_flush
  file_flush-ok all f s g =
      let d = slice f.wbuf.mem 0 f.wbuf.len in
      flush_loop-ok all (suc f.wbuf.len) f s d f.wbuf.off g
        (omega (arith, length-slice f.wbuf.mem 0 f.wbuf.len))
