-- ===== src/Copy/Rounds.antt =====
-- The rounds of I_READ and I_WRITE, by what the file objects return.
use fcom.Prelude.{◌≡◌, refl, ◌∙◌, ap, Bool, false, none, length, if◌then◌else◌}
use fcom.Prelude.Memory.{Bytes}
use fcom.Services.{Services, input, output, chunk, at_end, failed, succeeds}
use fcom.Copy.{Copy, Settings, i_read, i_write, i_rd_done, add64}
use fcom.Copy.Verify.{updated}
use fcom.Copy.Run.{Round, goes, ends, round, after_read, at_read, at_write, to_crypt, next_read}
use fcom.Copy.Reach.{round-stage}

module _ (s : Services) (a : Settings) where
  -- The operation with a chunk that was read, and that it wrote.
  abbrev pub taken : Copy s → Bytes → Copy s
  taken c d = record c {
    st = i_write;
    data_buf = d;
    in_off = add64 c.in_off (length d);
    md5_obj = updated s c.md5_obj d;
  }

  abbrev pub wrote : Copy s → Bytes → Copy s
  wrote c d = record (taken c d) {
    st = next_read s a c.aes_obj;
    o_off = add64 c.o_off (length d);
    o_total = add64 c.o_total (length d);
  }

  pub read_round :
      (c : Copy s) (w : s.State) (d : Bytes)
      → s.is_stopped w ≡ false
      → c.st ≡ i_read
      → c.aes_obj ≡ none
      → (s.read w input c.in_off).1 ≡ chunk d
      → round s a c w ≡ goes (s.read w input c.in_off).0 (taken c d)
  unfolding at_read
  read_round c w d h t n e =
      let w1 = (s.read w input c.in_off).0 in
      let c1 : Copy s = record c { data_buf = d; in_off = add64 c.in_off (length d) } in
      round-stage s a c w i_read h t
      ∙ ap (λ x. after_read s a c (w1, x)) e
      ∙ ap (λ o. to_crypt s a c1 d w1 o) n

  pub end_round :
      (c : Copy s) (w : s.State)
      → s.is_stopped w ≡ false
      → c.st ≡ i_read
      → (s.read w input c.in_off).1 ≡ at_end
      → round s a c w ≡ goes (s.read w input c.in_off).0 (record c { st = i_rd_done })
  unfolding at_read
  end_round c w h t e =
      round-stage s a c w i_read h t ∙ ap (λ x. after_read s a c ((s.read w input c.in_off).0, x)) e

  pub failed_round :
      (c : Copy s) (w : s.State)
      → s.is_stopped w ≡ false
      → c.st ≡ i_read
      → (s.read w input c.in_off).1 ≡ failed
      → round s a c w ≡ ends (s.read w input c.in_off).0 c false
  unfolding at_read
  failed_round c w h t e =
      round-stage s a c w i_read h t ∙ ap (λ x. after_read s a c ((s.read w input c.in_off).0, x)) e

  abbrev pub after_write : Copy s → Bytes → s.State → Bool → Round s
  after_write c d w success =
      let c' : Copy s =
        if success
        then record (taken c d) {
          o_off = add64 c.o_off (length d);
          o_total = add64 c.o_total (length d);
        }
        else taken c d in
      if success then goes w (record c' { st = next_read s a c'.aes_obj }) else ends w c' false

  pub write_round :
      (c : Copy s) (w : s.State) (d : Bytes) (b : Bool)
      → s.is_stopped w ≡ false
      → succeeds (s.write w output d c.o_off).1 ≡ b
      → round s a (taken c d) w ≡ after_write c d (s.write w output d c.o_off).0 b
  unfolding at_write
  write_round c w d b h e =
      round-stage s a (taken c d) w i_write h refl
      ∙ ap (λ x. after_write c d (s.write w output d c.o_off).0 x) e
