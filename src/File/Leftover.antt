-- ===== src/File/Leftover.antt =====
-- What a failed flush leaves behind when a file is closed.
use fcom.Prelude.{
  ℕ, zero, suc, ◌+◌, ◌≡◌, refl, sym, ◌∙◌, ap, subst, false, some, [], ◌∷◌, arith, inl, inr, drop,
}
use fcom.Prelude.Memory.{Bytes, slice}
use fcom.Os.{Platform, Io-cases, Posix}
use fcom.File.{
  File, Flags, ok, err, f_write, flush_loop, file_flush, prealloc_trunc, flush_and_trunc,
  file_close, file_open,
}
use fcom.File.Kernel.{IsPlain}
use fcom.FileBuf.Write.{overlay}
use fcom.File.Flush.{file_flush_lem}

module _ (p : Platform) (posix : Posix p) where
  open posix use {content}

  f_write-wbuf :
      (f : File) (s : p.State) (d : Bytes) (off : ℕ) → (f_write p f s d off).0.wbuf ≡ f.wbuf
  unfolding f_write
  f_write-wbuf f s d off = ground arith

  flush_loop-wbuf :
      (fuel : ℕ) (f : File) (s : p.State) (d : Bytes) (off : ℕ)
      → (flush_loop p fuel f s d off).2 ≡ some err
      → (flush_loop p fuel f s d off).0.wbuf ≡ f.wbuf
  unfolding flush_loop
  flush_loop-wbuf zero f s d off e = refl
  flush_loop-wbuf (suc fuel) f s [] off e = cc
  flush_loop-wbuf (suc fuel) f s (x ∷ d) off e =
      let w = f_write p f s (x ∷ d) off in
      elim (Io-cases w.2) [
        | inl h ↦ ground (arith, f_write-wbuf f s (x ∷ d) off)
        | inr (inl h) ↦ ground (arith, f_write-wbuf f s (x ∷ d) off)
        | inr (inr (n, h)) ↦ ground (
          arith,
          f_write-wbuf f s (x ∷ d) off,
          flush_loop-wbuf fuel w.0 w.1 (drop n (x ∷ d)) (off + n),
        )
      ]

  file_close-wbuf :
      (f : File) (s : p.State)
      → (file_flush p f s).2 ≡ some err
      → (file_close p f s).0.wbuf ≡ f.wbuf
  unfolding file_close flush_and_trunc file_flush prealloc_trunc
  file_close-wbuf f s e =
      let d = slice f.wbuf.mem 0 f.wbuf.len in
      ground (arith, flush_loop-wbuf (suc f.wbuf.len) f s d f.wbuf.off e)

  -- Where the flush of a file fails when it is closed, what was not written stays in the object:
  -- opened for the next file, a plain one, its first flush that succeeds puts those bytes into
  -- that file, at their offset in the first.
  pub file_flush-file_open :
      (f : File) (s : p.State) (how : Flags) (g : File) (t : p.State)
      → (file_flush p f s).2 ≡ some err
      → IsPlain how
      → how.stdin ≡ false
      → g ≡ file_open how (file_close p f s).0
      → (file_flush p g t).2 ≡ some ok
      → content (file_flush p g t).1 ≡ overlay (content t) f.wbuf
  unfolding file_open
  file_flush-file_open f s how g t e plain h q k =
      let flags : g.flags ≡ how = ground (arith, plain.not_stdout) in
      let kept : g.wbuf ≡ f.wbuf = ap (λ x. x.wbuf) q ∙ file_close-wbuf f s e in
      ((file_flush_lem p posix g t (subst IsPlain (sym flags) plain)).1 k).0
      ∙ ap (overlay (content t)) kept
