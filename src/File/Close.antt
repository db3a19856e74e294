-- ===== src/File/Close.antt =====
-- The end of a file: what is written at last, and the space that was allocated ahead.
use fcom.Prelude.{
  ℕ, zero, suc, ◌+◌, ◌≡◌, sym, ◌∙◌, ap, subst, max, true, false, Option, none, some, [], ◌∷◌, arith,
  length, leb, if◌then◌else◌, Bool-cases, Option-cases, inl, inr, drop,
}
use fcom.Prelude.Memory.{Bytes, at, slice}
use fcom.Os.{Platform, Posix, WritesAll}
use fcom.File.{
  File, Ret, ok, f_write, fw_write, fw_cache, flush_loop, file_flush, write_loop, file_write,
  preallocate, at_offset, prealloc_trunc, flush_and_trunc, file_close,
}
use fcom.File.Kernel.{
  IsPlain, ZeroFrom, trunc-ZeroFrom, f_write_lem, fw_write_lem, copy-ZeroFrom, preallocate_lem,
}
use fcom.File.Write.{logical, IsIdle}
use fcom.File.History.{Session, opened, wrote, replay, Log, flush-Session}

module _ (p : Platform) (posix : Posix p) (all : WritesAll p) where
  open posix use {content, content_trunc}

  -- The size of the object covers all that was written.
  record Covers (f : File) (s : p.State) : Type 0 where
    plain : IsPlain f.flags
    not_async : f.w_async ≡ false
    zero : ZeroFrom p posix s f.prealloc
    covered : ZeroFrom p posix s f.size

  Covers-f_write :
      (f : File) (s : p.State) (d : Bytes) (off : ℕ)
      → IsPlain f.flags
      → ZeroFrom p posix s f.size
      → let (f', s', r) = f_write p f s d off in ZeroFrom p posix s' f'.size
  Covers-f_write f s d off g z i lo =
      let (r, put, e) = f_write_lem p posix all f s d off g in
      ground (
        arith,
        copy-ZeroFrom p posix (content s) f.size (max f.size (off + length d)) off d z (omega arith)
            (omega arith) i,
      )

  -- `fw_write` records how far it wrote.
  Covers-fw_write :
      (f : File) (s : p.State) (d : Bytes) (off : ℕ)
      → Covers f s
      → let (f', s', r) = fw_write p f s d off in Covers f' s'
  unfolding fw_write
  Covers-fw_write f s d off c =
      let f0 = record f { w_async = false; w_buf = if f.w_async then [] else f.w_buf } in
      let pre = preallocate p f0 s (off + length d) in
      let (same, grows, plain, kept) = preallocate_lem p posix f0 s (off + length d) c.zero in
      let w = f_write p pre.0 pre.1 d off in
      let (full, put, upd) = f_write_lem p posix all pre.0 pre.1 d off (plain c.plain) in
      let (r, put', zero', plain', kept') =
        fw_write_lem p posix all f s d off c.plain c.not_async c.zero in
      record {
        plain = plain';
        not_async = ap (λ x. x.w_async) kept' ∙ c.not_async;
        zero = zero';
        covered = λ i lo.
            let size : (fw_write p f s d off).0.size ≡ max f.size (off + length d) = ground arith in
            ap (λ m. at m i) put'
            ∙ copy-ZeroFrom p posix (content s) f.size (max f.size (off + length d)) off d c.covered
                (omega arith) (omega arith) i (omega (arith, lo, size));
      }

  -- The cache does not touch what is accounted for.
  fw_cache_lem :
      (f : File) (d : Bytes) (u : Option ℕ)
      → let f' = (fw_cache f d u).0 in
        (f'.flags ≡ f.flags)
        × (f'.w_async ≡ f.w_async)
        × (f'.prealloc ≡ f.prealloc)
        × (f'.size ≡ f.size)
  unfolding fw_cache
  fw_cache_lem f d u = ground arith

  abbrev Covered : File × p.State × Option Ret → Type 0
  Covered (f, s, r) = Covers f s

  Covers-fw_cache :
      (f : File) (s : p.State) (d : Bytes) (u : Option ℕ) → Covers f s → Covers (fw_cache f d u).0 s
  Covers-fw_cache f s d u c =
      let (flags, sync, ahead, size) = fw_cache_lem f d u in
      record {
        plain = subst IsPlain (sym flags) c.plain;
        not_async = sync ∙ c.not_async;
        zero = subst (ZeroFrom p posix s) (sym ahead) c.zero;
        covered = subst (ZeroFrom p posix s) (sym size) c.covered;
      }

  Covers-write_loop :
      (fuel : ℕ) (f : File) (s : p.State) (d : Bytes) (u : Option ℕ)
      → Covers f s
      → let (f', s', r) = write_loop p fuel f s d u in Covers f' s'
  unfolding write_loop
  Covers-write_loop zero f s d u c = c
  Covers-write_loop (suc fuel) f s d u c = elim (Bool-cases f.w_write) [
    | inl e ↦
        let off = at_offset u f.cur_off in
        let w = fw_write p f s d off in
        let k = Covers-fw_write f s d off c in
        let r : w.2 ≡ none = (fw_write_lem p posix all f s d off c.plain c.not_async c.zero).0 in
        let q : write_loop p (suc fuel) f s d u
            ≡ write_loop p fuel (record w.0 { w_write = false }) w.1 [] u =
          ground arith in
        subst Covered (sym q) (
          Covers-write_loop fuel (record w.0 { w_write = false }) w.1 [] u
            (record {
              plain = k.plain;
              not_async = k.not_async;
              zero = k.zero;
              covered = k.covered;
            }))
    | inr e ↦ elim (Option-cases (fw_cache f d u).1) [
      | inl o ↦
          let q : write_loop p (suc fuel) f s d u ≡ ((fw_cache f d u).0, s, some ok) =
            ground arith in
          subst Covered (sym q) (Covers-fw_cache f s d u c)
      | inr ((out, woff), o) ↦
          let g = record (fw_cache f d u).0 { w_write = true } in
          let k = Covers-fw_cache f s d u c in
          let q : write_loop p (suc fuel) f s d u ≡ write_loop p fuel g s out (some woff) =
            ground arith in
          subst Covered (sym q) (
            Covers-write_loop fuel g s out (some woff) (record {
              plain = k.plain;
              not_async = k.not_async;
              zero = k.zero;
              covered = k.covered;
            }))
    ]
  ]

  Covers-file_write :
      (f : File) (s : p.State) (d : Bytes) (u : Option ℕ)
      → Covers f s
      → let (f', s', r) = file_write p f s d u in Covers f' s'
  unfolding file_write
  Covers-file_write f s d u c =
      let q : file_write p f s d u ≡ write_loop p 6 f s d u =
        simp (c.plain.not_fakewrite, c.plain.not_nocache) in
      subst Covered (sym q) (Covers-write_loop 6 f s d u c)

  abbrev Within : File × p.State × Option Ret → Type 0
  Within (f, s, r) = ZeroFrom p posix s f.size

  flush_loop-Within :
      (fuel : ℕ) (f : File) (s : p.State) (d : Bytes) (off : ℕ)
      → IsPlain f.flags
      → ZeroFrom p posix s f.size
      → Within (flush_loop p fuel f s d off)
  unfolding flush_loop
  flush_loop-Within zero f s d off g z = z
  flush_loop-Within (suc fuel) f s [] off g z = z
  flush_loop-Within (suc fuel) f s (x ∷ d) off g z =
      let w = f_write p f s (x ∷ d) off in
      let n = length (x ∷ d) in
      let (full, put, upd) = f_write_lem p posix all f s (x ∷ d) off g in
      let q : flush_loop p (suc fuel) f s (x ∷ d) off
          ≡ flush_loop p fuel w.0 w.1 (drop n (x ∷ d)) (off + n) =
        ground arith in
      subst Within (sym q) (
        flush_loop-Within fuel w.0 w.1 (drop n (x ∷ d)) (off + n)
          (subst IsPlain (sym (ap (λ y. y.flags) upd)) g) (Covers-f_write f s (x ∷ d) off g z))

  prealloc_trunc_lem :
      (f : File) (s : p.State)
      → ZeroFrom p posix s f.size
      → content (prealloc_trunc p f s).1 ≡ content s
  unfolding prealloc_trunc
  prealloc_trunc_lem f s z = elim (Bool-cases (leb f.prealloc f.size)) [
    | inl e ↦ ground arith
    | inr e ↦
        let q : (prealloc_trunc p f s).1 ≡ (p.trunc s f.size).0 = ground arith in
        ap content q ∙ trunc-ZeroFrom p posix s f.size f.size z (omega arith)
  ]

  Covers-Session :
      {f : File} {s : p.State} {f' : File} {s' : p.State} {log : Log}
      → Covers f s
      → Session p posix f s f' s' log
      → Covers f' s'
  Covers-Session c opened = c
  Covers-Session c (wrote {f' = g} {f'' = f''} {s' = r} {s'' = s''} d u before gap room e ef es) =
      let k = Covers-file_write g r d u (Covers-Session c before) in
      subst (λ x. Covers x s'') (sym ef) (subst (λ x. Covers (file_write p g r d u).0 x) (sym es) k)

  -- After any number of writes to an idle plain file, none of FCOM_FILE_STDOUT, DIRECTIO,
  -- FAKEWRITE and NOCACHE, that has only zero bytes from its size and from its allocated size on,
  -- as a new one has, and is open for writing, none of which leaves a hole in the buffer, with
  -- offsets below 2^63, on a platform where each write to the kernel takes all its data,
  -- file_close leaves the file with what the writes make of it in their order: to cut the space
  -- that was allocated ahead takes no byte of them away.
  pub file_close-Session :
      {f : File} {s : p.State} {f' : File} {s' : p.State} {log : Log}
      → IsIdle p posix f s
      → ZeroFrom p posix s f.size
      → Session p posix f s f' s' log
      → f'.flags.write ≡ true
      → content (file_close p f' s').1 ≡ replay (logical p posix f s) log
  unfolding file_close flush_and_trunc file_flush
  file_close-Session {f = f} {s = s} {f' = f'} {s' = s'} i z run writes =
      let c =
        Covers-Session
          (record { plain = i.plain; not_async = i.not_async; zero = i.zero; covered = z }) run in
      let (ended, put) = flush-Session p posix all i run in
      let w = file_flush p f' s' in
      let q : (file_close p f' s').1 ≡ (prealloc_trunc p w.0 w.1).1 =
        ap (λ b. (if b then flush_and_trunc p f' s' else (f', s')).1) writes in
      ap content q
      ∙ prealloc_trunc_lem w.0 w.1 (
          flush_loop-Within (suc f'.wbuf.len) f' s' (slice f'.wbuf.mem 0 f'.wbuf.len) f'.wbuf.off
            c.plain c.covered)
      ∙ put
