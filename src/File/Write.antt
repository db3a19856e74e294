-- ===== src/File/Write.antt =====
-- `file_write`: the loop of the cache and the writer, on a platform that writes all it is given.
use fcom.Prelude.{
  ℕ, suc, ◌+◌, ◌-◌, ◌^◌, ◌≤◌, ◌<◌, ◌≡◌, ◌⊎◌, inl, inr, ◌∙◌, true, false, Option, some, none, [],
  arith, length, if◌then◌else◌, Option-cases, nil_of_length,
}
use fcom.Prelude.Memory.{Bytes, Memory, copy, copy-nil, slice-zero}
use fcom.FileBuf
use fcom.FileBuf.{FileBuf}
use fcom.FileBuf.Write.{
  overlay, NoGap, write-content, write-len, write-off, write-none, write-nil, write-some,
}
use fcom.Os.{Platform, Posix, WritesAll}
use fcom.File.{File, ok, at_offset, fw_cache, fw_write, write_loop, file_write}
use fcom.File.Kernel.{IsPlain, ZeroFrom, fw_write_lem}

-- The data and the offset that `fw_cache` goes on with.
abbrev pub next_data : File → Bytes → Bytes
next_data f d = if f.continued then f.user_data else d

abbrev pub next_off : File → Option ℕ → ℕ
next_off f u = if f.continued then f.cur_off else at_offset u f.cur_off

module _ (p : Platform) (posix : Posix p) where
  open posix use {content}

  -- What holds between two steps of the loop.
  pub record Common (f : File) (s : p.State) (end : ℕ) : Type 0 where
    pub plain : IsPlain f.flags
    pub not_async : f.w_async ≡ false
    pub fits : f.wbuf.len ≤ f.buffer_size
    pub small : f.wbuf.off + f.buffer_size < 2 ^ 63
    pub space : end + f.buffer_size < 2 ^ 63
    pub zero : ZeroFrom p posix s f.prealloc

  -- The file that a reader should see, with the bytes that are still in the buffer.
  abbrev pub logical : File → p.State → Memory
  logical f s = overlay (content s) f.wbuf

  -- Before a turn of the cache: what is left to write makes the file `t`, and ends at `end`.
  pub record IsReady (t : Memory) (end : ℕ) (f : File) (s : p.State) (d : Bytes) (off : ℕ)
      : Type 0 where
    pub common : Common f s end
    pub caching : f.w_write ≡ false
    pub gap : NoGap f.wbuf f.buffer_size off
    pub target : copy (logical f s) off d ≡ t
    pub reaches : off + length d ≡ end

  pub record IsDone (t : Memory) (end : ℕ) (f : File) (s : p.State) : Type 0 where
    pub common : Common f s end
    pub caching : f.w_write ≡ false
    pub ended : f.continued ≡ false
    pub target : logical f s ≡ t
    pub reaches : f.cur_off ≡ end

  -- Before a turn of the writer, with a chunk for it.
  pub record IsFlushing (t : Memory) (end : ℕ) (f : File) (s : p.State) (out : Bytes) (woff : ℕ)
      : Type 0 where
    pub common : Common f s end
    pub more : f.continued ≡ true
    pub empty : f.wbuf.len ≡ 0
    pub target : copy (copy (content s) woff out) f.cur_off f.user_data ≡ t
    pub reaches : f.cur_off + length f.user_data ≡ end

  module _ (t : Memory) (end : ℕ) (f : File) (s : p.State) (d : Bytes) (u : Option ℕ) where
    fw_cache-none :
        IsReady t end f s (next_data f d) (next_off f u)
        → (fw_cache f d u).1 ≡ none
        → IsDone t end (fw_cache f d u).0 s
    unfolding fw_cache
    fw_cache-none h e =
        let d' = next_data f d in
        let off = next_off f u in
        let w = FileBuf.write f.wbuf f.buffer_size d' off in
        ground (
          arith,
          write-content (content s) f.wbuf f.buffer_size d' off h.common.fits h.common.small
              (omega (arith, h.reaches, h.common.space)) h.gap,
          write-len f.wbuf f.buffer_size d' off h.common.fits,
          write-off f.wbuf f.buffer_size d' off,
          write-none f.wbuf f.buffer_size d' off h.common.small,
          nil_of_length w.rest,
          copy-nil (overlay (content s) w.buf) (off + (length d' - length w.rest)),
        )

    fw_cache-some :
        (out : Bytes) (woff : ℕ)
        → IsReady t end f s (next_data f d) (next_off f u)
        → (fw_cache f d u).1 ≡ some (out, woff)
        → IsFlushing t end (fw_cache f d u).0 s out woff
          × ((fw_cache f d u).0.w_write ≡ false)
          × (0 < length (next_data f d))
          × (f.wbuf.len ≡ 0 → length (fw_cache f d u).0.user_data ≡ 0)
    unfolding fw_cache
    fw_cache-some out woff h e =
        let d' = next_data f d in
        let off = next_off f u in
        ground (
          arith,
          write-content (content s) f.wbuf f.buffer_size d' off h.common.fits h.common.small
              (omega (arith, h.reaches, h.common.space)) h.gap,
          write-len f.wbuf f.buffer_size d' off h.common.fits,
          write-off f.wbuf f.buffer_size d' off,
          write-some f.wbuf f.buffer_size d' off {out = out} {woff = woff},
          write-nil f.wbuf f.buffer_size d' off {chunk = (out, woff)},
        )

  -- A file between two calls, that has nothing past the size that is allocated for it: a larger file
  -- that is opened without FCOM_FILE_CREATE_TRUNC is cut by the allocation.
  pub record IsIdle (f : File) (s : p.State) : Type 0 where
    pub plain : IsPlain f.flags
    pub not_async : f.w_async ≡ false
    pub caching : f.w_write ≡ false
    pub ended : f.continued ≡ false
    pub fits : f.wbuf.len ≤ f.buffer_size
    pub small : f.wbuf.off + f.buffer_size < 2 ^ 63
    pub zero : ZeroFrom p posix s f.prealloc

  module _ (all : WritesAll p) where
    fw_write-flushing :
        (t : Memory) (end : ℕ) (f : File) (s : p.State) (out : Bytes) (woff : ℕ)
        → IsFlushing t end f s out woff
        → let (f', s', r) = fw_write p f s out woff in
          (r ≡ none)
          × IsReady t end (record f' { w_write = false }) s' f'.user_data f'.cur_off
          × (f'.wbuf.len ≡ 0)
          × (f'.continued ≡ true)
          × (f'.user_data ≡ f.user_data)
    fw_write-flushing t end f s out woff h =
        let (none_left, put, zero', plain', kept) =
          fw_write_lem p posix all f s out woff h.common.plain h.common.not_async h.common.zero in
        let f' = (fw_write p f s out woff).0 in
        let s' = (fw_write p f s out woff).1 in
        ground (arith, slice-zero f.wbuf.mem 0, copy-nil (content s') f.wbuf.off)

    -- One turn of the cache and one of the writer.
    module _ (fuel : ℕ) (t : Memory) (end : ℕ) (f : File) (s : p.State) (d : Bytes)
        (u : Option ℕ) where
      abbrev Turn : Type 0
      Turn =
          let f1 = (fw_cache f d u).0 in
          ((write_loop p (suc (suc fuel)) f s d u ≡ (f1, s, some ok)) × IsDone t end f1 s)
          ⊎ ((f' : File) × (s' : p.State) × (u' : Option ℕ) × (write_loop p (suc (suc fuel)) f s d u
                ≡ write_loop p fuel f' s' [] u')
              × IsReady t end f' s' (next_data f' []) (next_off f' u')
              × (f'.wbuf.len ≡ 0)
              × (0 < length (next_data f d))
              × (f.wbuf.len ≡ 0 → length (next_data f' []) ≡ 0))

      turn : IsReady t end f s (next_data f d) (next_off f u) → Turn
      unfolding write_loop
      turn h = elim (Option-cases (fw_cache f d u).1) [
        | inl e ↦ inl (ground arith, fw_cache-none t end f s d u h e)
        | inr ((out, woff), e) ↦
            let f1 = (fw_cache f d u).0 in
            let (flushing, w, some_data, short) = fw_cache-some t end f s d u out woff h e in
            let f2 = record f1 { w_write = true } in
            let (r, ready, empty, more, user) =
              fw_write-flushing t end f2 s out woff (ground arith) in
            inr (
              record (fw_write p f2 s out woff).0 { w_write = false },
              (fw_write p f2 s out woff).1,
              some woff,
              ground arith,
              ground arith,
              ground arith,
              some_data,
              ground arith,
            )
      ]

    -- Where nothing is buffered and nothing is left, one turn of the cache ends the loop.
    loop_end :
        (t : Memory) (end : ℕ) (f : File) (s : p.State) (d : Bytes) (u : Option ℕ)
        → IsReady t end f s (next_data f d) (next_off f u)
        → length (next_data f d) ≡ 0
        → (f' : File) × (s' : p.State) × (write_loop p 2 f s d u ≡ (f', s', some ok))
          × IsDone t end f' s'
    loop_end t end f s d u h e = elim (turn 0 t end f s d u h) [
      | inl (q, dn) ↦ ((fw_cache f d u).0, s, q, dn)
      | inr (f', s', u', q, r, l, pos, z) ↦ absurd (omega arith)
    ]

    loop_empty :
        (t : Memory) (end : ℕ) (f : File) (s : p.State) (d : Bytes) (u : Option ℕ)
        → IsReady t end f s (next_data f d) (next_off f u)
        → f.wbuf.len ≡ 0
        → (f' : File) × (s' : p.State) × (write_loop p 4 f s d u ≡ (f', s', some ok))
          × IsDone t end f' s'
    loop_empty t end f s d u h e = elim (turn 2 t end f s d u h) [
      | inl (q, dn) ↦ ((fw_cache f d u).0, s, q, dn)
      | inr (f', s', u', q, r, l, pos, z) ↦
          let (f'', s'', q', dn) = loop_end t end f' s' [] u' r (z e) in (f'', s'', q ∙ q', dn)
    ]

    loop_any :
        (t : Memory) (end : ℕ) (f : File) (s : p.State) (d : Bytes) (u : Option ℕ)
        → IsReady t end f s (next_data f d) (next_off f u)
        → (f' : File) × (s' : p.State) × (write_loop p 6 f s d u ≡ (f', s', some ok))
          × IsDone t end f' s'
    loop_any t end f s d u h = elim (turn 4 t end f s d u h) [
      | inl (q, dn) ↦ ((fw_cache f d u).0, s, q, dn)
      | inr (f', s', u', q, r, l, pos, z) ↦
          let (f'', s'', q', dn) = loop_empty t end f' s' [] u' r l in (f'', s'', q ∙ q', dn)
    ]

    -- file_write on an idle plain file, none of FCOM_FILE_STDOUT, DIRECTIO, FAKEWRITE and
    -- NOCACHE, that has only zero bytes from its allocated size on, as a new one has, where the
    -- platform writes all it is given, the write leaves no hole in the buffer and offsets stay
    -- below 2^63: it ends and returns FCOM_FILE_OK, the file as it should be read, buffer
    -- included, is what it was with the data written at their offset, the current offset is their
    -- end, and the file is idle again.
    pub file_write_lem :
        (f : File) (s : p.State) (d : Bytes) (u : Option ℕ)
        → IsIdle f s
        → NoGap f.wbuf f.buffer_size (at_offset u f.cur_off)
        → at_offset u f.cur_off + length d + f.buffer_size < 2 ^ 63
        → let (f', s', r) = file_write p f s d u in
          (r ≡ some ok)
          × (logical f' s' ≡ copy (logical f s) (at_offset u f.cur_off) d)
          × (f'.cur_off ≡ at_offset u f.cur_off + length d)
          × IsIdle f' s'
    unfolding file_write
    file_write_lem f s d u i g h =
        let off = at_offset u f.cur_off in
        let (f', s', q, dn) =
          loop_any (copy (logical f s) off d) (off + length d) f s d u (ground arith) in
        ground arith
