-- ===== src/Copy/Run.antt =====
-- The loop of the operation, `copy_run` of src/fs/copy.c.
use fcom.Prelude.{
  ℕ, zero, suc, ◌+◌, ◌%◌, ◌^◌, Bool, true, false, ◌&&◌, Option, none, some, [], ◌∷◌, ◌++◌,
  if◌then◌else◌, length, ◌==◌,
}
use fcom.Prelude.Memory.{Bytes}
use fcom.Services.{
  Services, Info, OpenFlags, for_read, input, output, Chunk, chunk, at_end, failed, no_chunk, seq,
  trunc_prealloc,
}
use fcom.Copy.{
  Copy, Settings, Stage, i_src, i_open_out, i_read, i_crypt, i_write, i_rd_done, i_verify, i_done,
  add64, args_parse,
}
use fcom.Copy.Crypt.{crypt_init, crypt_open, crypt_reset, crypt_process}
use fcom.Copy.Verify.{
  verify_init, verify_open, verify_reset, verify_process, verify_read_fin, verify_result,
}
use fcom.Copy.Output.{
  output_open, output_write, output_fin, output_reset, output_close, Opened, Fin,
}

-- ".deleted"
abbrev pub deleted_suffix : Bytes
deleted_suffix = 0x2E ∷ 0x64 ∷ 0x65 ∷ 0x6C ∷ 0x65 ∷ 0x74 ∷ 0x65 ∷ 0x64 ∷ []

-- What `copy_input_next` returns: 'next', 'done', 'erro' or 0.
pub data Next : Type 0 where
  skipped no_more error found : Next

-- The flags of the input, with `fcom_file_cominfo_flags_i` of src/fcom.h
abbrev pub flags_i : Settings → OpenFlags
flags_i a = record {
  access = for_read;
  createnew = false;
  create_trunc = false;
  stdin = a.stdin;
  stdout = false;
  directio = a.directio;
  fakewrite = false;
  no_prealloc = false;
  nofollow = true;
  readahead = true;
}

-- `copy_create`: the settings of an operation that can start.
abbrev pub copy_create : Settings → Option Settings
copy_create a = elim (args_parse a) [
  | none ↦ none
  | some a' ↦ if crypt_init a' && verify_init a' then some a' else none
]

-- Where a round of the loop leads: to the next one, to a return that waits for another operation,
-- or to `end`, with `k`.
pub data Round (s : Services) : Type 0 where
  goes : s.State → Copy s → Round s
  waits : s.State → Copy s → Round s
  ends : s.State → Copy s → Bool → Round s

-- What a call of `copy_run` comes to: the operation is completed with a code, or it waits; or the
-- fuel has run out.
pub data Outcome (s : Services) : Type 0 where
  completed : s.State → ℕ → Outcome s
  waiting : s.State → Copy s → Outcome s
  unfinished : Outcome s

module _ (s : Services) (a : Settings) where
  open s use {
    State, is_stopped, input_next, input_allowed, input_dir, open_file, info, read, behaviour,
    mtime_set, destroy, rename,
  }

  -- `copy_input_next`, with the information on the input
  abbrev pub known_input : Copy s → State → Option Info → State × Copy s × Next
  known_input c w none = (w, c, error)
  known_input c w (some i) =
      let c' : Copy s = record c { fi = i } in
      if input_allowed w c.name i.is_dir
      then (if i.is_dir && a.recursive then input_dir w else w, c', found)
      else (w, c', skipped)

  -- with the name of the input
  abbrev pub named_input : Copy s → State → Option (Bytes × Bytes) → State × Copy s × Next
  named_input c w none = (w, c, if c.nfiles == 0 then error else no_more)
  named_input c w (some (name, base)) =
      let c' : Copy s = record c {
        name = name;
        basename = base;
        iname = name;
        nfiles = (c.nfiles + 1) % 2 ^ 32;
      } in
      let (w0, success) = open_file w input name (flags_i a) in
      if success then (let (w1, i) = info w0 input in known_input c' w1 i) else (w0, c', error)

  unfoldable pub copy_input_next : Copy s → State → State × Copy s × Next
  copy_input_next c w = let (w', r) = input_next w in named_input c w' r

  -- `copy_complete`
  abbrev pub copy_complete : Copy s → State → State
  copy_complete c w =
      if a.rename_source then (rename w c.iname (c.iname ++ deleted_suffix)).0 else w

  -- `copy_reset`
  unfoldable pub copy_reset : Copy s → Copy s
  copy_reset c =
      output_reset s (verify_reset s (crypt_reset s (record c { in_off = 0; iname = [] })))

  -- `copy_close`
  unfoldable pub copy_close : Copy s → State → State
  copy_close c w = destroy (output_close s a (verify_reset s (crypt_reset s c)) w) input

  -- I_SRC
  abbrev pub after_next : State × Copy s × Next → Round s
  after_next (w, c, skipped) = goes w (record c { st = i_src })
  after_next (w, c, no_more) = ends w c true
  after_next (w, c, error) = ends w c false
  after_next (w, c, found) = goes w (record c { st = i_open_out })

  -- I_WRITE
  abbrev pub next_read : Option s.Cipher → Stage
  next_read none = i_read
  next_read (some k) = i_crypt

  unfoldable pub at_write : Copy s → State → Round s
  at_write c w =
      let (w', c', success) = output_write s c w c.data_buf in
      if success then goes w' (record c' { st = next_read c'.aes_obj }) else ends w' c' false

  -- I_READ, with what was read: at FCOM_FILE_ASYNC the data are those of the call before.
  abbrev pub to_crypt : Copy s → Bytes → State → Option s.Cipher → Round s
  to_crypt c d w none = goes w (record (verify_process s c d) { st = i_write })
  to_crypt c d w (some k) = goes w (record c { aes_in = d; st = i_crypt })

  abbrev pub after_read : Copy s → State × Chunk → Round s
  after_read c (w, failed) = ends w c false
  after_read c (w, at_end) = goes w (record c { st = i_rd_done })
  after_read c (w, no_chunk) =
      to_crypt (record c { in_off = add64 c.in_off (length c.data_buf) }) c.data_buf w c.aes_obj
  after_read c (w, chunk d) =
      to_crypt (record c { data_buf = d; in_off = add64 c.in_off (length d) }) d w c.aes_obj

  unfoldable pub at_read : Copy s → State → Round s
  at_read c w = after_read c (read w input c.in_off)

  -- I_OPEN_OUT, which falls through to I_READ.
  abbrev pub with_crypt : State × Copy s × Bool → Round s
  with_crypt (w, c, false) = ends w c false
  with_crypt (w, c, true) = at_read (record (verify_open s a c) { st = i_read }) w

  abbrev pub after_open : State × Copy s × Opened → Round s
  after_open (w, c, Opened.bad) = ends w c false
  after_open (w, c, Opened.skip) = goes w (record c { st = i_src })
  after_open (w, c, Opened.ready) = with_crypt (crypt_open s a c (behaviour w input seq))

  -- I_CRYPT, which falls through to I_WRITE.
  abbrev pub after_crypt : Copy s → State → Option (Copy s) → Round s
  after_crypt c w none = ends w c false
  after_crypt c w (some c') = at_write (record (verify_process s c' c'.data_buf) { st = i_write }) w

  abbrev pub with_input : Copy s → State → Bytes → Option s.Cipher → Round s
  with_input c w [] k = goes w (record c { st = i_read })
  with_input c w (x ∷ d) none = ends w c false
  with_input c w (x ∷ d) (some k) = after_crypt c w (crypt_process s c k)

  unfoldable pub at_crypt : Copy s → State → Round s
  at_crypt c w = with_input c w c.aes_in c.aes_obj

  -- I_RD_DONE
  unfoldable pub at_rd_done : Copy s → State → Round s
  at_rd_done c w =
      let w0 = behaviour w output trunc_prealloc in
      let w1 = if a.preserve_date then mtime_set w0 output c.fi.mtime else w0 in
      let (c', checks) = verify_read_fin s a c in
      goes w1 (record c' { st = if checks then i_verify else i_done })

  -- I_VERIFY
  abbrev pub after_verify : Copy s → State × Chunk → Round s
  after_verify c (w, failed) = ends w c false
  after_verify c (w, at_end) =
      if verify_result s c.md5_result_r c.md5_obj
      then goes w (record c { st = i_done })
      else ends w c false
  after_verify c (w, no_chunk) =
      goes w (record (verify_process s c c.data_buf) { o_off = add64 c.o_off (length c.data_buf) })
  after_verify c (w, chunk d) =
      goes w (record (verify_process s (record c { data_buf = d }) d) {
        o_off = add64 c.o_off (length d);
      })

  unfoldable pub at_verify : Copy s → State → Round s
  at_verify c w = after_verify c (read w output c.o_off)

  -- I_DONE
  abbrev pub after_fin : State × Copy s × Fin → Round s
  after_fin (w, c, Fin.fin_bad) = ends w c false
  after_fin (w, c, Fin.fin_async) = waits w c
  after_fin (w, c, Fin.fin_ok) = goes (copy_complete c w) (record c { st = i_src })

  -- The switch.
  abbrev pub by_stage : Stage → Copy s → State → Round s
  by_stage i_src c w = after_next (copy_input_next (copy_reset c) w)
  by_stage i_open_out c w = after_open (output_open s a c w)
  by_stage i_read c w = at_read c w
  by_stage i_crypt c w = at_crypt c w
  by_stage i_write c w = at_write c w
  by_stage i_rd_done c w = at_rd_done c w
  by_stage i_verify c w = at_verify c w
  by_stage i_done c w = after_fin (output_fin s a c w)

  -- A round of the loop, its test of the flag included.
  unfoldable pub round : Copy s → State → Round s
  round c w = if is_stopped w then ends w c false else by_stage c.st c w

  -- The label `end`
  abbrev pub complete : Copy s → State → Bool → Outcome s
  complete c w k = completed (copy_close c w) (if k then 0 else 1)

  -- `copy_run`, on fuel.
  unfoldable pub run_rounds : ℕ → Round s → Outcome s
  run_rounds zero r = unfinished
  run_rounds (suc n) (goes w c) = run_rounds n (round c w)
  run_rounds (suc n) (waits w c) = waiting w c
  run_rounds (suc n) (ends w c k) = complete c w k

  unfoldable pub copy_run : ℕ → Copy s → State → Outcome s
  copy_run n c w = run_rounds n (goes w c)
