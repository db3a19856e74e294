-- ===== src/File/Read.antt =====
-- `file_read`: what it returns, from the cache or from the platform, are the bytes of the file.
use fcom.Prelude.{
  ℕ, ◌+◌, ◌-◌, ◌^◌, ◌≤◌, ◌<◌, ◌≡◌, inl, inr, false, Option, none, arith, length, get_or,
  Option-cases, subst, sym, refl, ◌%◌,
}
use fcom.Prelude.Memory.{Bytes, Memory, at, length-slice, get_or-slice, copy, copy_lem}
use fcom.FileBuf
use fcom.FileBuf.{FileBuf, BufSet}
use fcom.FileBuf.Cache.{Reflects, AllReflect, AllReflect-set, find_lem, find_keeps, nextbuf_keeps}
use fcom.Os.{Platform, Io, Io-cases, done, PosixRead}
use fcom.File.{File, ok, at_offset, align, no_buf, Ret, finish_read, fill_buf, file_read}

module _ (p : Platform) (posix : PosixRead p) where
  open posix use {content, data_le, data_at, content_read, align_floor2-le}

  -- What the reader got: the bytes of `m` from `off` on, one at least, and the next offset.
  pub record IsRead (m : Memory) (off : ℕ) (d : Bytes) (cur : ℕ) : Type 0 where
    pub some_data : 0 < length d
    pub bytes : (i : ℕ) → i < length d → get_or d i 0 ≡ at m (off + i)
    pub next : cur ≡ off + length d

  -- The length that is left from an offset within the buffer.
  length_left :
      (off len n : ℕ)
      → off ≤ n
      → n ≤ off + len
      → len < 2 ^ 64
      → (len + 2 ^ 64 - (n - off)) % 2 ^ 64 ≡ off + len - n
  length_left off len n lo hi small = omega arith

  finish_read_lem :
      (m : Memory) (f : File) (s : p.State) (b : FileBuf) (off : ℕ)
      → Reflects m b
      → b.off ≤ off
      → off ≤ b.off + b.len
      → let (f', s', d, r) = finish_read p f s b off in r ≡ ok → IsRead m off d f'.cur_off
  finish_read_lem m f s b off h le within e =
      let n = (b.len + 2 ^ 64 - (off - b.off)) % 2 ^ 64 in
      let left : n ≡ b.off + b.len - off =
        length_left b.off b.len off le within (omega (arith, h.no_wrap)) in
      record {
        some_data = ground (arith, length-slice b.mem (off - b.off) n);
        bytes = λ i lt. ground (
          arith,
          left,
          get_or-slice b.mem (off - b.off) n i,
          h.same (off - b.off + i),
          length-slice b.mem (off - b.off) n,
        );
        next = ground (arith, left, length-slice b.mem (off - b.off) n);
      }

  -- A buffer that was filled from the platform reflects the file.
  filled-Reflects :
      (s : p.State) (b : FileBuf) (n offset : ℕ) (d : Bytes)
      → (p.read_at s n offset).1 ≡ done d
      → offset + n < 2 ^ 64
      → Reflects (content s) (record b { off = offset; len = length d; mem = copy b.mem 0 d })
  filled-Reflects s b n offset d e room = record {
    no_wrap = omega (arith, data_le s n offset d e);
    same = λ i lt. ground (arith, copy_lem b.mem 0 d i, data_at s n offset d i e lt);
  }

  -- What is right of the outcome of a read at `off`, in the state `s`.
  pub record ReadsRight (s : p.State) (off : ℕ) (o : File × p.State × Bytes × Ret) : Type 0 where
    pub result : o.3 ≡ ok → IsRead (content s) off o.2 o.0.cur_off
    pub same_file : content o.1 ≡ content s
    pub same_cache : AllReflect (content s) o.0.bufset.bufs

  fill_buf-right :
      (f : File) (s : p.State) (b : FileBuf) (i offset off : ℕ)
      → AllReflect (content s) f.bufset.bufs
      → offset ≤ off
      → offset + f.buffer_size < 2 ^ 64
      → ((d : Bytes) → (p.read_at s f.buffer_size offset).1 ≡ done d → off ≤ offset + length d)
      → ReadsRight s off (fill_buf p f (p.read_at s f.buffer_size offset) b i offset off)
  fill_buf-right f s b i offset off h le room reaches =
      let w = p.read_at s f.buffer_size offset in
      elim (Io-cases w.1) [
        | inl e ↦ by e (record { result = λ q. cc; same_file = kept; same_cache = h })
        | inr (inl e) ↦ by e (record { result = λ q. cc; same_file = kept; same_cache = h })
        | inr (inr (d, e)) ↦
            let t = filled-Reflects s b f.buffer_size offset d e room in
            by e (record {
              result = λ q. finish_read_lem (content s) f w.0 _ off t le (reaches d e) q;
              same_file = kept;
              same_cache = AllReflect-set (content s) f.bufset.bufs i _ h t;
            })
      ]
    where
      kept : content (p.read_at s f.buffer_size offset).0 ≡ content s
      kept = content_read s f.buffer_size offset

      by :
          {r : Io Bytes}
          → (p.read_at s f.buffer_size offset).1 ≡ r
          → ReadsRight s off (fill_buf p f ((p.read_at s f.buffer_size offset).0, r) b i offset off)
          → ReadsRight s off (fill_buf p f (p.read_at s f.buffer_size offset) b i offset off)
      by e t =
          subst
            (λ (x : Io Bytes).
              ReadsRight s off
                (fill_buf p f ((p.read_at s f.buffer_size offset).0, x) b i offset off))
            (sym e) t

  -- What the platform reads at the aligned offset is not short of the offset.
  abbrev pub Reaches : File → p.State → ℕ → Type 0
  Reaches f s off =
      (d : Bytes)
      → (p.read_at s f.buffer_size (p.align_floor2 off align)).1 ≡ done d
      → off ≤ p.align_floor2 off align + length d

  -- On a file that is no pipe, with read buffers that reflect it, at an offset below 2^64, with
  -- the buffer after it, that the platform's read of the aligned offset reaches: whatever
  -- `file_read` returns with FCOM_FILE_OK, from the cache or read now, are bytes of the file from
  -- the requested offset on, one at least, and the current offset is their end; on every outcome
  -- the file's bytes stay, and the buffers reflect them.
  pub file_read_lem :
      (f : File) (s : p.State) (u : Option ℕ)
      → f.flags.stdin ≡ false
      → AllReflect (content s) f.bufset.bufs
      → at_offset u f.cur_off + f.buffer_size < 2 ^ 64
      → Reaches f s (at_offset u f.cur_off)
      → ReadsRight s (at_offset u f.cur_off) (file_read p f s u)
  unfolding file_read
  file_read_lem f s u g h room reaches =
      let off = at_offset u f.cur_off in
      let hit = FileBuf.find f.bufset off in
      let (kept, idx) = find_keeps f.bufset off in
      let reflects = subst (λ x. AllReflect (content s) x) (sym kept) h in
      let f1 = record f { bufset = hit.1 } in
      elim (Option-cases hit.0) [
        | inl e ↦
            let (i, set') = FileBuf.nextbuf hit.1 in
            let b = get_or hit.1.bufs i no_buf in
            let f2 = record f { bufset = set' } in
            let offset = p.align_floor2 off align in
            let q : file_read p f s u
                ≡ fill_buf p f2 (p.read_at s f.buffer_size offset) b i offset off =
              ground arith in
            subst (λ x. ReadsRight s off x) (sym q)
              (fill_buf-right f2 s b i offset off
                (subst (λ x. AllReflect (content s) x) (sym (nextbuf_keeps hit.1)) reflects)
                (align_floor2-le off align) (omega (arith, align_floor2-le off align)) reaches)
        | inr (b, e) ↦
            let (t, le, lt) = find_lem (content s) f.bufset off h e in
            let q : file_read p f s u ≡ finish_read p f1 s b off = ground arith in
            subst (λ x. ReadsRight s off x) (sym q)
              (record {
                result = finish_read_lem (content s) f1 s b off t le (omega (arith, lt));
                same_file = refl;
                same_cache = reflects;
              })
      ]

module _ (p : Platform) where
  -- Where no buffer has the offset, below 2^64, and the platform reads fewer bytes at the aligned
  -- offset than there are up to it, as it does well past the end of the file: file_read returns
  -- FCOM_FILE_OK, and as many bytes as the negative length is in 64 bits.
  pub file_read-past_end :
      (f : File) (s : p.State) (u : Option ℕ) (d : Bytes)
      → f.flags.stdin ≡ false
      → (FileBuf.find f.bufset (at_offset u f.cur_off)).0 ≡ none
      → let off = at_offset u f.cur_off in
        let offset = p.align_floor2 off align in
        (p.read_at s f.buffer_size offset).1 ≡ done d
        → p.align_floor2 (at_offset u f.cur_off) align + length d < at_offset u f.cur_off
        → at_offset u f.cur_off < 2 ^ 64
        → let (f', s', got, r) = file_read p f s u in
          (r ≡ ok)
          × (length got
              ≡ 2 ^ 64
                - (at_offset u f.cur_off
                    - (p.align_floor2 (at_offset u f.cur_off) align + length d)))
  unfolding file_read
  file_read-past_end f s u d g miss e short below =
      let off = at_offset u f.cur_off in
      let offset = p.align_floor2 off align in
      let n = (length d + 2 ^ 64 - (off - offset)) % 2 ^ 64 in
      let wraps : n ≡ 2 ^ 64 - (off - (offset + length d)) = omega (arith, short, below) in
      let hit = FileBuf.find f.bufset off in
      let (i, set') = FileBuf.nextbuf hit.1 in
      let b = get_or hit.1.bufs i no_buf in
      let mem' = copy b.mem 0 d in
      (ground (arith, wraps), ground (arith, wraps, length-slice mem' (off - offset) n))
