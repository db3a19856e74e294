-- ===== src/Copy/Check.antt =====
-- The check of the output: the rounds of I_VERIFY.
use fcom.Prelude.{
  ℕ, zero, suc, ◌+◌, ◌^◌, ◌≤◌, ◌<◌, ◌≡◌, ◌⊎◌, inl, inr, refl, sym, ◌∙◌, ap, true, false, some, [],
  ◌++◌, arith, length, if◌then◌else◌, Bool-cases,
}
use fcom.Prelude.Memory.{Bytes, slice, slice-zero}
use fcom.Prelude.Slices.{slice_grown}
use fcom.Services.{Services, ReadsWrites, Hashes, output, Chunk, chunk, at_end, failed}
use fcom.Copy.{Copy, Settings, i_verify, i_done, add64}
use fcom.Copy.Verify.{updated, same_digest, verify_result}
use fcom.Copy.Run.{Round, goes, waits, ends, round, after_verify, at_verify}
use fcom.Copy.Progress.{Cause, Kept}
use fcom.Copy.Reach.{Comes, Comes-round, Comes-once, round-stop, round-stage}

-- So many bytes of the output, as it was at first, are hashed.
record Hashed (s : Services) (l : ReadsWrites s) (g : Hashes s) (c0 : Copy s) (w0 : s.State)
    (c : Copy s) (w : s.State) : Type 0 where
  stage : c.st ≡ i_verify
  off_le : c.o_off ≤ l.size w0 output
  content : l.content w output ≡ l.content w0 output
  size : l.size w output ≡ l.size w0 output
  hash : s.Hash
  is_hash : c.md5_obj ≡ some hash
  is_fed : g.fed hash ≡ slice (l.content w0 output) 0 c.o_off
  result : c.md5_result_r ≡ c0.md5_result_r
  kept : Kept s c0 c

module _ (s : Services) (a : Settings) (l : ReadsWrites s) (g : Hashes s) (c0 : Copy s)
    (w0 : s.State) (fits : l.size w0 output < 2 ^ 64) where
  -- The digest of the whole output is the one of the data that was copied, or the run fails.
  abbrev pub AllChecked : Round s → Type 0
  AllChecked (goes w c) =
      (c.st ≡ i_done)
      × (same_digest c0.md5_result_r (g.digest (slice (l.content w output) 0 (l.size w output)))
          ≡ true)
      × Kept s c0 c
  AllChecked (waits w c) = ⊥
  AllChecked (ends w c k) =
      (k ≡ false)
      × Kept s c0 c
      × (Cause s
          ⊎ (same_digest c0.md5_result_r (g.digest (slice (l.content w output) 0 (l.size w output)))
              ≡ false))

  -- The operation with a chunk that was read back.
  abbrev hashed : Copy s → Bytes → Copy s
  hashed c d = record c {
    data_buf = d;
    o_off = add64 c.o_off (length d);
    md5_obj = updated s c.md5_obj d;
  }

  verify_round :
      (c : Copy s) (w : s.State) (x : Chunk)
      → s.is_stopped w ≡ false
      → c.st ≡ i_verify
      → (s.read w output c.o_off).1 ≡ x
      → round s a c w ≡ after_verify s a c ((s.read w output c.o_off).0, x)
  unfolding at_verify
  verify_round c w x h t e =
      round-stage s a c w i_verify h t
      ∙ ap (λ y. after_verify s a c ((s.read w output c.o_off).0, y)) e

  Hashed-hashed :
      (c : Copy s) (w : s.State) (d : Bytes)
      → Hashed s l g c0 w0 c w
      → (s.read w output c.o_off).1 ≡ chunk d
      → (0 < length d)
        × (add64 c.o_off (length d) ≡ c.o_off + length d)
        × Hashed s l g c0 w0 (hashed c d) (s.read w output c.o_off).0
  Hashed-hashed c w d p e =
      let q = l.read_within w output c.o_off d e in
      let le : c.o_off + length d ≤ l.size w0 output = omega (arith, q.1, p.size) in
      let moved : add64 c.o_off (length d) ≡ c.o_off + length d = omega (arith, fits) in
      let old = l.content w0 output in
      let is_slice : d ≡ slice old c.o_off (length d) =
        l.read_slice w output c.o_off d e ∙ ap (λ m. slice m c.o_off (length d)) p.content in
      (
        q.0,
        moved,
        record {
          stage = p.stage;
          off_le = omega (arith, le, moved);
          content = l.content_read w output output c.o_off ∙ p.content;
          size = l.size_read w output output c.o_off ∙ p.size;
          hash = s.md5_update p.hash d;
          is_hash = ap (λ o. updated s o d) p.is_hash;
          is_fed =
              g.fed_update p.hash d
              ∙ ap (λ x. x ++ d) p.is_fed
              ∙ slice_grown old c.o_off d is_slice
              ∙ ap (λ n. slice old 0 n) (sym moved);
          result = p.result;
          kept = record {
            del_on_close = p.kept.del_on_close;
            o_name = p.kept.o_name;
            o_name_tmp = p.kept.o_name_tmp;
            o_state = p.kept.o_state;
          };
        },
      )

  -- At the end of the output, the digest of what was hashed is that of all of it.
  whole_digest :
      (c : Copy s) (w : s.State)
      → Hashed s l g c0 w0 c w
      → (s.read w output c.o_off).1 ≡ at_end
      → verify_result s c.md5_result_r c.md5_obj
        ≡ same_digest c0.md5_result_r (
            g.digest (
              slice
                (l.content (s.read w output c.o_off).0 output)
                0
                (l.size (s.read w output c.o_off).0 output)))
  whole_digest c w p e =
      let w1 = (s.read w output c.o_off).0 in
      let all : c.o_off ≡ l.size w1 output = omega (
        arith,
        l.read_end w output c.o_off e,
        p.size,
        p.off_le,
        l.size_read w output output c.o_off,
      ) in
      ap (verify_result s c.md5_result_r) p.is_hash
      ∙ ap (λ r. same_digest r (s.md5_fin p.hash)) p.result
      ∙ ap (same_digest c0.md5_result_r) (
          g.fin_digest p.hash
          ∙ ap g.digest (
              p.is_fed
              ∙ ap (λ m. slice m 0 c.o_off)
                  (sym (l.content_read w output output c.o_off ∙ p.content))
              ∙ ap (λ n. slice (l.content w1 output) 0 n) all))

  one_round :
      (m : ℕ) (c : Copy s) (w : s.State)
      → Hashed s l g c0 w0 c w
      → ((d : Bytes)
          → s.is_stopped w ≡ false
          → (s.read w output c.o_off).1 ≡ chunk d
          → Comes s a AllChecked (suc m) (goes w c))
      → Comes s a AllChecked (suc m) (goes w c)
  one_round m c w p with_data = elim (Bool-cases (s.is_stopped w)) [
    | inl h ↦
        Comes-once s a AllChecked (suc m) c w (ends w c false) (omega arith) (round-stop s a c w h)
          (refl, p.kept, inl (inl (w, h)))
    | inr h ↦ elim (l.read_now w output c.o_off) [
      | inl (d, e) ↦ with_data d h e
      | inr (inl e) ↦ elim (Bool-cases (verify_result s c.md5_result_r c.md5_obj)) [
        | inl v ↦
            Comes-once s a AllChecked (suc m) c w
              (goes (s.read w output c.o_off).0 (record c { st = i_done })) (omega arith)
              (verify_round c w at_end h p.stage e
                ∙ ap
                    (λ b.
                      if b
                      then goes (s.read w output c.o_off).0 (record c { st = i_done })
                      else ends (s.read w output c.o_off).0 c false)
                    v)
              (
                refl,
                sym (whole_digest c w p e) ∙ v,
                record {
                  del_on_close = p.kept.del_on_close;
                  o_name = p.kept.o_name;
                  o_name_tmp = p.kept.o_name_tmp;
                  o_state = p.kept.o_state;
                },
              )
        | inr v ↦
            Comes-once s a AllChecked (suc m) c w (ends (s.read w output c.o_off).0 c false)
              (omega arith)
              (verify_round c w at_end h p.stage e
                ∙ ap
                    (λ b.
                      if b
                      then goes (s.read w output c.o_off).0 (record c { st = i_done })
                      else ends (s.read w output c.o_off).0 c false)
                    v)
              (refl, p.kept, inr (sym (whole_digest c w p e) ∙ v))
      ]
      | inr (inr e) ↦
          Comes-once s a AllChecked (suc m) c w (ends (s.read w output c.o_off).0 c false)
            (omega arith) (verify_round c w failed h p.stage e)
            (refl, p.kept, inl (inr (inl (w, output, c.o_off, e))))
    ]
  ]

  verify_loop :
      (k : ℕ) (c : Copy s) (w : s.State)
      → Hashed s l g c0 w0 c w
      → l.size w0 output ≤ c.o_off + k
      → Comes s a AllChecked (suc k) (goes w c)
  verify_loop zero c w p le =
      one_round 0 c w p (λ d h e. absurd (no_room d (Hashed-hashed c w d p e)))
    where
      no_room :
          (d : Bytes)
          → (0 < length d)
            × (add64 c.o_off (length d) ≡ c.o_off + length d)
            × Hashed s l g c0 w0 (hashed c d) (s.read w output c.o_off).0
          → ⊥
      no_room d q =
          let bound : add64 c.o_off (length d) ≤ l.size w0 output = q.2.off_le in
          omega (arith, q.0, q.1, bound, le)
  verify_loop (suc k) c w p le = one_round (suc k) c w p λ d h e.
      let q = Hashed-hashed c w d p e in
      Comes-round s a AllChecked (suc k) c w (goes (s.read w output c.o_off).0 (hashed c d))
        (verify_round c w (chunk d) h p.stage e)
        (verify_loop k (hashed c d) (s.read w output c.o_off).0 q.2 (omega (arith, q.0, q.1, le)))

  -- From the start of I_VERIFY, with a new hash, the loop comes within a round for each byte of the
  -- output and one more to I_DONE, where the stored digest is that of the output; or it
  -- ends with an error, and only where a signal can come, a read or a write can fail, or the digest
  -- is another.
  pub run_rounds-AllChecked :
      (h : s.Hash)
      → c0.st ≡ i_verify
      → c0.o_off ≡ 0
      → c0.md5_obj ≡ some h
      → g.fed h ≡ []
      → Comes s a AllChecked (suc (l.size w0 output)) (goes w0 c0)
  run_rounds-AllChecked h t o e f =
      verify_loop (l.size w0 output) c0 w0
        (record {
          stage = t;
          off_le = omega (arith, o);
          content = refl;
          size = refl;
          hash = h;
          is_hash = e;
          is_fed =
              f
              ∙ sym (
                  ap (λ k. slice (l.content w0 output) 0 k) o ∙ slice-zero (l.content w0 output) 0);
          result = refl;
          kept = record { del_on_close = refl; o_name = refl; o_name_tmp = refl; o_state = refl };
        })
        (omega arith)
