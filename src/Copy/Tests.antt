-- ===== src/Copy/Tests.antt =====
-- A store of one source and one output, which reads a byte at a time.
use fcom.Prelude.{
  ℕ, zero, suc, ◌+◌, ◌-◌, ◌%◌, ◌^◌, ◌≤◌, ◌<◌, max, ◌≡◌, ◌≢◌, ◌⊎◌, inl, inr, refl, sym, ap, ◌∙◌,
  Bool, true, false, Option, none, some, [], ◌∷◌, ◌++◌, arith, length, ltb, if◌then◌else◌,
}
use fcom.Prelude.Memory.{Bytes, Memory, memory, slice, copy, length-slice}
use fcom.Services.{
  Stored, stored, Services, Handle, input, output, Info, Chunk, chunk, at_end, failed, ReadsWrites,
  Hashes, Truncates,
}
use fcom.Copy.{Copy, Settings, args_parse, i_src, i_read, i_verify}
use fcom.Copy.Output.{output_open, output_fin, Fin}
use fcom.Copy.Run.{copy_create}
use fcom.Copy.Overwrite.{output_fin-output_open}

record World : Type 0 where
  src : Memory
  src_size : ℕ
  out : Memory
  out_size : ℕ
  left : ℕ  -- the names that are left

abbrev content_of : World → Handle → Memory
content_of w input = w.src
content_of w output = w.out

abbrev size_of : World → Handle → ℕ
size_of w input = w.src_size % 2 ^ 64
size_of w output = w.out_size % 2 ^ 64

abbrev read_byte : World → Handle → ℕ → World × Chunk
read_byte w h off =
    (w, if ltb off (size_of w h) then chunk (slice (content_of w h) off 1) else at_end)

abbrev written : World → Handle → Bytes → ℕ → World × Stored
written w h d off =
    (record w { out = copy w.out off d; out_size = max w.out_size (off + length d) }, stored)

abbrev no_info : Info
no_info = record { is_dir = false; is_link = false; attr = 0; size = 0; mtime = 0 }

abbrev next_name : ℕ → Option (Bytes × Bytes)
next_name zero = none
next_name (suc n) = some (7 ∷ [], [])

abbrev store : Services
store = record {
  State = World;
  Hash = Bytes;
  Cipher = Unit;
  is_stopped = λ w. false;
  input_next = λ w. (record w { left = w.left - 1 }, next_name w.left);
  input_allowed = λ w n d. true;
  input_dir = λ w. w;
  run_trash = λ w n. w;
  open_file = λ w h n f. (w, true);
  info = λ w h. (w, some no_info);
  read = read_byte;
  write = written;
  trunc = λ w h n. (w, true);
  behaviour = λ w h b. w;
  attr_set = λ w h n. w;
  mtime_set = λ w h n. w;
  close = λ w h. w;
  destroy = λ w h. w;
  del = λ w n. w;
  dir_create = λ w n. (w, true);
  slink = λ w t n f. (w, true);
  readlink = λ w n. none;
  info_path = λ w n. none;
  set_mtime_path = λ w n t. (w, true);
  rename = λ w n m. (w, true);
  split_name = λ n. n;
  normalize = λ n. n;
  md5_create = [];
  md5_update = λ h d. h ++ d;
  md5_fin = λ h. h;
  sha256 = λ d. d;
  random = λ w. (w, 4 ∷ 4 ∷ 4 ∷ 4 ∷ []);
  aes_create = λ k. some tt;
  aes_process = λ k d iv. some (k, d, iv);
}

read_lem :
    (w : World) (h : Handle) (off : ℕ) (d : Bytes)
    → (read_byte w h off).1 ≡ chunk d
    → (d ≡ slice (content_of w h) off 1) × (off < size_of w h)
read_lem w h off d e = (ground arith, ground arith)

read_now_lem :
    (w : World) (h : Handle) (off : ℕ) (b : Bool)
    → ltb off (size_of w h) ≡ b
    → ((d : Bytes) × ((read_byte w h off).1 ≡ chunk d))
      ⊎ ((read_byte w h off).1 ≡ at_end)
      ⊎ ((read_byte w h off).1 ≡ failed)
read_now_lem w h off true e = inl (
  slice (content_of w h) off 1,
  ap (λ x. if x then chunk (slice (content_of w h) off 1) else at_end) e,
)
read_now_lem w h off false e =
    inr (inl (ap (λ x. if x then chunk (slice (content_of w h) off 1) else at_end) e))

read_end_lem :
    (w : World) (h : Handle) (off : ℕ) → (read_byte w h off).1 ≡ at_end → size_of w h ≤ off
read_end_lem w h off e = ground arith

abbrev store-ReadsWrites : ReadsWrites store
store-ReadsWrites = record {
  size = size_of;
  content = content_of;
  read_now = λ w h off. read_now_lem w h off (ltb off (size_of w h)) refl;
  write_now = λ w d off. inl refl;
  read_within = λ w h off d e.
      let q = read_lem w h off d e in
      let n : length d ≡ 1 = ap length (q.0) ∙ length-slice (content_of w h) off 1 in
      (omega arith, omega (arith, q.1));
  read_slice = λ w h off d e.
      let q = read_lem w h off d e in
      let n : length d ≡ 1 = ap length (q.0) ∙ length-slice (content_of w h) off 1 in
      q.0 ∙ ap (λ k. slice (content_of w h) off k) (sym n);
  read_end = read_end_lem;
  content_read = λ w h g off. refl;
  size_read = λ w h g off. refl;
  content_write = λ w d off e. refl;
  source_write = λ w d off. refl;
  source_size_write = λ w d off. refl;
}

abbrev store-Hashes : Hashes store
store-Hashes = record {
  fed = λ h. h;
  digest = λ d. d;
  fed_create = refl;
  fed_update = λ h d. refl;
  fin_digest = λ h. refl;
}

store-Truncates : Truncates store
store-Truncates = record { size_opened = λ w n f i c t o e. ground arith }

abbrev plain_settings : Settings
plain_settings = record {
  encrypt = [];
  decrypt = [];
  verify = true;
  print_md5 = false;
  preserve_date = true;
  rename_source = false;
  replace_date = false;
  update = false;
  write_into = false;
  stdin = false;
  stdout = false;
  test = false;
  overwrite = true;
  directio = false;
  recursive = true;
  chdir = 8 ∷ [];
  output = [];
}

-- A source of the bytes 5, 6 and 7, and its only name.
abbrev three_bytes : World
three_bytes = record {
  src = memory (λ i. i + 5);
  src_size = 3;
  out = memory (λ i. 0);
  out_size = 0;
  left = 1;
}

abbrev created : Copy store
created = record {
  st = i_src;
  data_buf = [];
  name = [];
  basename = [];
  iname = [];
  fi = no_info;
  in_off = 0;
  nfiles = 0;
  aes_obj = none;
  aes_iv = [];
  aes_in = [];
  aes_iv_out = false;
  aes_iv_in = false;
  o_state = 0;
  o_total = 0;
  o_off = 0;
  o_name = [];
  o_name_tmp = [];
  o_fi = no_info;
  del_on_close = false;
  md5_obj = none;
  md5_result_r = [];
}

abbrev opened : Copy store
opened = record created { st = i_read; md5_obj = some [] }

created_settings : copy_create plain_settings ≡ some plain_settings
unfolding args_parse
created_settings = refl

abbrev verifying : Copy store
verifying = record created { st = i_verify; md5_obj = some [] }

-- A run to its end.
abbrev final : World
final = record three_bytes {
  out = copy (copy (copy (memory (λ i. 0)) 0 (5 ∷ [])) 1 (6 ∷ [])) 2 (7 ∷ []);
  out_size = 3;
  left = 0;
}

output_fin-output_open_example :
    (output_fin store plain_settings
      (output_open store plain_settings created three_bytes).1
      final).2
    ≢ Fin.fin_async
output_fin-output_open_example =
    output_fin-output_open store plain_settings store-Truncates refl refl refl created three_bytes
      (unfold output_open in refl) final

-- The input 1 2 3 under the base 1 2, of which the library says that 2 is the name.
abbrev named_store : Services
named_store = record store { split_name = λ n. 2 ∷ [] }
