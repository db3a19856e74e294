-- ===== src/Copy/Output.antt =====
-- The output file, src/fs/copy-output.h.
use fcom.Prelude.{
  ◌-◌, Bool, true, false, not, ◌&&◌, ◌||◌, Option, none, some, [], ◌∷◌, ◌++◌, ◌==◌, leb,
  if◌then◌else◌, length, drop,
}
use fcom.Prelude.Memory.{Bytes}
use fcom.Services.{Services, Info, OpenFlags, for_write, for_readwrite, output, succeeds}
use fcom.Copy.{Copy, Settings, is_empty, flags_o, add64}

-- FFPATH_SLASH
abbrev pub slash : Bytes
slash = 0x2F ∷ []

-- ".fcomtmp"
abbrev pub tmp_suffix : Bytes
tmp_suffix = 0x2E ∷ 0x66 ∷ 0x63 ∷ 0x6F ∷ 0x6D ∷ 0x74 ∷ 0x6D ∷ 0x70 ∷ []

-- What `output_open` returns: 0xbad, 'skip' or 0.
pub data Opened : Type 0 where
  bad skip ready : Opened

-- What `output_fin` returns: 0xbad, 'asyn' or 0.
pub data Fin : Type 0 where
  fin_bad fin_async fin_ok : Fin

-- The flags of the output
abbrev pub open_flags : Settings → OpenFlags
open_flags a = record (flags_o a) {
  access = if a.verify then for_readwrite else for_write;
  directio = a.verify || a.directio;
  no_prealloc = true;
}

module _ (s : Services) where
  open s use {
    State, open_file, info, write, trunc, attr_set, close, destroy, del, dir_create, slink,
    readlink, info_path, set_mtime_path, rename, split_name, normalize, run_trash,
  }

  -- The rest of the input's name, from the last part of its base on.
  abbrev pub below_base : Bytes → Bytes → Bytes
  below_base name base =
      let b = if is_empty base then name else base in
      let part = split_name b in if is_empty part then name else drop (length b - length part) name

  -- `out_name`; there is an output name or a directory, as `args_parse` sees to.
  unfoldable pub out_name : Settings → Bytes → Bytes → Bytes
  out_name a name base = normalize (
      if is_empty a.chdir
      then a.output
      else if is_empty a.output
      then a.chdir ++ (slash ++ below_base name base)
      else a.chdir ++ (slash ++ a.output))

  -- The names of the output, at the start of `output_open`
  abbrev pub named : Settings → Copy s → Copy s
  named a c =
      if a.stdout
      then c
      else (let name = out_name a c.name c.basename in
          record c { o_name = name; o_name_tmp = if a.write_into then [] else name ++ tmp_suffix })

  -- A symbolic link, with the result of readlink(), of which an error and a truncation are `none`.
  abbrev pub copy_link : Settings → Copy s → State → Option Bytes → State × Copy s × Opened
  copy_link a c w none = (w, c, bad)
  copy_link a c w (some target) =
      let (w', success) = slink w target c.o_name (flags_o a) in
      (w', c, if success then skip else bad)

  -- `--update`, with what is known of the target; `none` goes on with the copy.
  abbrev pub check_target : Settings → Copy s → State → Info → State × Option Opened
  check_target a c w target =
      if target.is_dir
      then (w, some bad)
      else if a.replace_date
      then (let (w', success) = set_mtime_path w c.o_name c.fi.mtime in
          (w', some (if success then skip else bad)))
      else if leb c.fi.mtime target.mtime
      then (w, some skip)
      else (w, none)

  abbrev pub update_target :
      Settings → Copy s → State → Option Info → State × Copy s × Option Opened
  update_target a c w none = (w, c, none)
  update_target a c w (some target) =
      let (w', r) = check_target a c w target in (w', record c { o_fi = target }, r)

  -- The end of `output_open`: the size is set and the removal on failure agreed on.
  abbrev pub set_size : Settings → Copy s → State → State × Copy s × Opened
  set_size a c w =
      let (w', success) = trunc w output c.fi.size in
      if success
      then (
        w',
        record c { del_on_close = not a.test && (not a.write_into || c.o_fi.size == 0) },
        ready,
      )
      else (w', c, bad)

  -- The temporary file, by the information on it
  abbrev pub check_temp : Settings → Copy s → State → Option Info → State × Copy s × Opened
  check_temp a c w none = (w, c, bad)
  check_temp a c w (some i) = if i.size == 0 then set_size a c w else (w, c, bad)

  abbrev pub open_temp : Settings → Copy s → State → State × Copy s × Opened
  open_temp a c w =
      let (w0, success) = open_file (close w output) output c.o_name_tmp (open_flags a) in
      if success then (let (w1, i) = info w0 output in check_temp a c w1 i) else (w0, c, bad)

  -- The information on the target, which is open
  abbrev pub known_target : Settings → Copy s → State → Option Info → State × Copy s × Opened
  known_target a c w none = (w, c, bad)
  known_target a c w (some i) =
      let c' : Copy s = record c { o_fi = i } in
      if a.write_into then set_size a c' w else open_temp a c' w

  abbrev pub open_target : Settings → Copy s → State → State × Copy s × Opened
  open_target a c w =
      let (w0, success) = open_file w output c.o_name (open_flags a) in
      if success
      then (if a.stdout
          then (w0, record c { del_on_close = false }, ready)
          else (let (w1, i) = info w0 output in known_target a c w1 i))
      else (w0, c, bad)

  abbrev pub update_or_open : Settings → State × Copy s × Option Opened → State × Copy s × Opened
  update_or_open a (w, c, some r) = (w, c, r)
  update_or_open a (w, c, none) = open_target a c w

  -- `output_open`
  unfoldable pub output_open : Settings → Copy s → State → State × Copy s × Opened
  output_open a c0 w =
      let c = named a c0 in
      if c.fi.is_dir
      then (let (w', success) = dir_create w c.o_name in (w', c, if success then skip else bad))
      else if c.fi.is_link
      then copy_link a c w (readlink w c.iname)
      else update_or_open a (update_target a c w (if a.update then info_path w c.o_name else none))

  -- `output_write`: false is an error; FCOM_FILE_ASYNC is none.
  abbrev pub output_write : Copy s → State → Bytes → State × Copy s × Bool
  output_write c w d =
      let (w', r) = write w output d c.o_off in
      let success = succeeds r in
      (
        w',
        if success
            then record c { o_off = add64 c.o_off (length d); o_total = add64 c.o_total (length d) }
            else c,
        success,
      )

  -- The case 1 of `output_fin`: the temporary file becomes the output.
  abbrev pub replace_output : Settings → Copy s → State → State × Copy s × Fin
  replace_output a c w =
      if a.stdout || a.write_into
      then (w, c, fin_ok)
      else (let (w', success) = rename w c.o_name_tmp c.o_name in
          (w', c, if success then fin_ok else fin_bad))

  -- `output_fin`
  unfoldable pub output_fin : Settings → Copy s → State → State × Copy s × Fin
  output_fin a c w =
      if c.o_state == 0
      then (let w' = close (attr_set w output c.fi.attr) output in
          let c' : Copy s = record c { del_on_close = false } in
          if not a.stdout && (not a.write_into && not (c.o_fi.size == 0))
          then (run_trash w' c.o_name, record c' { o_state = 1 }, fin_async)
          else replace_output a c' w')
      else replace_output a c w

  -- `output_reset`
  abbrev pub output_reset : Copy s → Copy s
  output_reset c = record c { o_state = 0; o_total = 0; o_off = 0; o_name = []; o_name_tmp = [] }

  -- `output_close`
  unfoldable pub output_close : Settings → Copy s → State → State
  output_close a c w =
      let w' = destroy w output in
      if c.del_on_close then del (if a.write_into then w' else del w' c.o_name_tmp) c.o_name else w'
