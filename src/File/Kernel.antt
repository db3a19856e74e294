-- ===== src/File/Kernel.antt =====
-- `f_write` and the preallocation, on a regular file that is not opened for direct I/O.
use fcom.Prelude.{
  ℕ, ◌+◌, ◌-◌, ◌≤◌, ◌≡◌, max, false, [], ◌++◌, append-nil, take-length, none, arith, ltb,
  if◌then◌else◌, length, replicate, Bool-cases, inl, inr, not, ◌&&◌,
}
use fcom.Prelude.Memory.{Bytes, Memory, at, copy, copy_lem, memory_ext}
use fcom.Os.{Platform, done, Posix, WritesAll}
use fcom.File.{File, Flags, finish_write, f_write, fw_write, preallocate}

-- A regular file, written through its descriptor and its buffer.
pub record IsPlain (g : Flags) : Type 0 where
  pub not_stdout : g.stdout ≡ false
  pub not_directio : g.directio ≡ false
  pub not_fakewrite : g.fakewrite ≡ false
  pub not_nocache : g.nocache ≡ false

no_padding : (d : Bytes) → d ++ replicate (length d - length d) 0 ≡ d
no_padding d = let e : length d - length d ≡ 0 = omega arith in rw e (append-nil d)

module _ (p : Platform) where
  pub f_write-plain :
      (f : File) (s : p.State) (d : Bytes) (off : ℕ)
      → IsPlain f.flags
      → f_write p f s d off ≡ finish_write p f (p.write_at s d off) off (length d) (length d)
  unfolding f_write
  f_write-plain f s d off g = simp (g.not_stdout, g.not_directio, no_padding)

module _ (p : Platform) (posix : Posix p) where
  open posix use {content, content_done, content_trunc, le-align_power2}

  -- No byte of the file stands at or past `n`.
  abbrev pub ZeroFrom : p.State → ℕ → Type 0
  ZeroFrom s n = (i : ℕ) → n ≤ i → at (content s) i ≡ 0

  -- To grow such a file changes no byte of it.
  pub trunc-ZeroFrom :
      (s : p.State) (m n : ℕ) → ZeroFrom s m → m ≤ n → content (p.trunc s n).0 ≡ content s
  trunc-ZeroFrom s m n z h = memory_ext λ i. elim (Bool-cases (ltb i n)) [
    | inl e ↦ ground (arith, content_trunc s n i)
    | inr e ↦ ground (arith, content_trunc s n i, z i)
  ]

  -- The preallocation only grows the file, and records it.
  pub preallocate_lem :
      (f : File) (s : p.State) (end : ℕ)
      → ZeroFrom s f.prealloc
      → let (f', s') = preallocate p f s end in
        (content s' ≡ content s)
        × (f.prealloc ≤ f'.prealloc)
        × (IsPlain f.flags → IsPlain f'.flags)
        × (record f' { prealloc = 0; flags = f.flags } ≡ record f { prealloc = 0 })
  unfolding preallocate
  preallocate_lem f s end z = elim (Bool-cases (not f.flags.no_prealloc && ltb f.prealloc end)) [
    | inl e ↦
        ground (arith, trunc-ZeroFrom s f.prealloc (p.align_power2 end) z, le-align_power2 end)
    | inr e ↦ ground arith
  ]

  -- A plain write of all its data puts them into the file, and records how far it reaches.
  pub f_write_lem :
      WritesAll p
      → (f : File) (s : p.State) (d : Bytes) (off : ℕ) → IsPlain f.flags
      → let (f', s', r) = f_write p f s d off in
        (r ≡ done (length d))
        × (content s' ≡ copy (content s) off d)
        × (f' ≡ record f {
          size = max f.size (off + length d);
          prealloc = max f.prealloc (off + length d);
        })
  f_write_lem all f s d off g = ground (
    arith,
    f_write-plain p f s d off g,
    all.write_all s d off,
    content_done s d off (length d) (all.write_all s d off),
    take-length d,
  )

  pub copy-ZeroFrom :
      (m : Memory) (n k off : ℕ) (d : Bytes)
      → ((i : ℕ) → n ≤ i → at m i ≡ 0)
      → n ≤ k
      → off + length d ≤ k
      → (i : ℕ) → k ≤ i
      → at (copy m off d) i ≡ 0
  copy-ZeroFrom m n k off d z h e i lo = ground (arith, copy_lem m off d i, z i)

  -- `fw_write` of a chunk that waits for nothing: the chunk is in the file, and of the state only
  -- what accounts for it changes.
  pub fw_write_lem :
      WritesAll p
      → (f : File) (s : p.State) (d : Bytes) (off : ℕ) → IsPlain f.flags
      → f.w_async ≡ false
      → ZeroFrom s f.prealloc
      → let (f', s', r) = fw_write p f s d off in
        (r ≡ none)
        × (content s' ≡ copy (content s) off d)
        × ZeroFrom s' f'.prealloc
        × IsPlain f'.flags
        × (record f' { prealloc = 0; flags = f.flags; size = 0; w_off = 0 }
            ≡ record f { prealloc = 0; size = 0; w_off = 0 })
  unfolding fw_write
  fw_write_lem all f s d off g sync z =
      let f0 = record f { w_async = false; w_buf = if f.w_async then [] else f.w_buf } in
      let pre = preallocate p f0 s (off + length d) in
      let (same, grows, plain, kept) = preallocate_lem f0 s (off + length d) z in
      let w = f_write p pre.0 pre.1 d off in
      let (full, put, upd) = f_write_lem all pre.0 pre.1 d off (plain g) in
      (
        ground arith,
        ground arith,
        λ i lo. ground (
          arith,
          copy-ZeroFrom (content s) f.prealloc w.0.prealloc off d z (ground arith) (ground arith) i,
        ),
        ground (arith, plain g),
        ground arith,
      )
