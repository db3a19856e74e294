-- ===== src/Copy/Overwrite.antt =====
-- What `--overwrite` does to a target that is there.
use fcom.Prelude.{◌≡◌, ◌≢◌, refl, Bool, true, false, Option, none, some, arith, ◌==◌, if◌then◌else◌}
use fcom.Prelude.Memory.{Bytes}
use fcom.Services.{Services, Info, Truncates, output}
use fcom.Copy.{Copy, Settings, flags_o}
use fcom.Copy.Output.{
  output_open, output_fin, Opened, Fin, named, copy_link, update_target, check_target, open_flags,
  set_size, check_temp, open_temp, known_target, open_target, update_or_open,
}

module _ (s : Services) (a : Settings) (l : Truncates s) (overwrites : a.overwrite ≡ true)
    (no_test : a.test ≡ false) (to_file : a.stdout ≡ false) where
  -- The target was found empty.
  abbrev Emptied : s.State × Copy s × Opened → Type 0
  Emptied (w, c, Opened.bad) = Unit
  Emptied (w, c, Opened.skip) = Unit
  Emptied (w, c, Opened.ready) = c.o_fi.size ≡ 0

  Emptied-if :
      (b : Bool) (x y : s.State × Copy s × Opened)
      → (b ≡ true → Emptied x)
      → (b ≡ false → Emptied y)
      → Emptied (if b then x else y)
  Emptied-if true x y p q = p refl
  Emptied-if false x y p q = q refl

  Emptied-set_size : (c : Copy s) (w : s.State) → c.o_fi.size ≡ 0 → Emptied (set_size s a c w)
  Emptied-set_size c w e = Emptied-if ((s.trunc w output c.fi.size).1) _ _ (λ t. e) (λ t. tt)

  Emptied-check_temp :
      (c : Copy s) (w : s.State) (o : Option Info)
      → c.o_fi.size ≡ 0
      → Emptied (check_temp s a c w o)
  Emptied-check_temp c w none e = tt
  Emptied-check_temp c w (some i) e =
      Emptied-if (i.size == 0) _ _ (λ t. Emptied-set_size c w e) (λ t. tt)

  Emptied-open_temp : (c : Copy s) (w : s.State) → c.o_fi.size ≡ 0 → Emptied (open_temp s a c w)
  Emptied-open_temp c w e =
      Emptied-if ((s.open_file (s.close w output) output c.o_name_tmp (open_flags a)).1) _ _
        (λ t.
          let v = (s.open_file (s.close w output) output c.o_name_tmp (open_flags a)).0 in
          Emptied-check_temp c (s.info v output).0 (s.info v output).1 e)
        (λ t. tt)

  Emptied-known_target :
      (c : Copy s) (w : s.State) (o : Option Info)
      → ((i : Info) → o ≡ some i → i.size ≡ 0)
      → Emptied (known_target s a c w o)
  Emptied-known_target c w none e = tt
  Emptied-known_target c w (some i) e =
      Emptied-if a.write_into _ _ (λ t. Emptied-set_size _ w (e i refl))
        (λ t. Emptied-open_temp _ w (e i refl))

  Emptied-open_target : (c : Copy s) (w : s.State) → Emptied (open_target s a c w)
  Emptied-open_target c w =
      Emptied-if ((s.open_file w output c.o_name (open_flags a)).1) _ _
        (λ t.
          Emptied-if a.stdout _ _ (λ u. absurd (ground (arith, to_file)))
            (λ u.
              Emptied-known_target c
                (s.info (s.open_file w output c.o_name (open_flags a)).0 output).0
                (s.info (s.open_file w output c.o_name (open_flags a)).0 output).1
                (λ i e. l.size_opened w c.o_name (open_flags a) i overwrites no_test t e)))
        (λ t. tt)

  Emptied-update_or_open :
      (p : s.State × Copy s × Option Opened)
      → (p.2 ≢ some Opened.ready)
      → Emptied (update_or_open s a p)
  Emptied-update_or_open (w, c, some Opened.bad) n = tt
  Emptied-update_or_open (w, c, some Opened.skip) n = tt
  Emptied-update_or_open (w, c, some Opened.ready) n = absurd (n refl)
  Emptied-update_or_open (w, c, none) n = Emptied-open_target c w

  check_target_lem :
      (c : Copy s) (w : s.State) (i : Info) → (check_target s a c w i).1 ≢ some Opened.ready
  check_target_lem c w i e = ground arith

  update_target_lem :
      (c : Copy s) (w : s.State) (o : Option Info) → (update_target s a c w o).2 ≢ some Opened.ready
  update_target_lem c w none e = cc
  update_target_lem c w (some i) e = check_target_lem c w i e

  Emptied-copy_link : (c : Copy s) (w : s.State) (o : Option Bytes) → Emptied (copy_link s a c w o)
  Emptied-copy_link c w none = tt
  Emptied-copy_link c w (some t) =
      if_done ((s.slink w t c.o_name (flags_o a)).1) (s.slink w t c.o_name (flags_o a)).0
    where
      if_done : (b : Bool) (w : s.State) → Emptied (w, c, if b then Opened.skip else Opened.bad)
      if_done true w = tt
      if_done false w = tt

  output_open-Emptied : (c : Copy s) (w : s.State) → Emptied (output_open s a c w)
  unfolding output_open
  output_open-Emptied c w =
      let d = named s a c in
      Emptied-if d.fi.is_dir _ _
        (λ t. if_done ((s.dir_create w d.o_name).1) (s.dir_create w d.o_name).0)
        (λ t.
          Emptied-if d.fi.is_link _ _ (λ u. Emptied-copy_link d w _)
            (λ u. Emptied-update_or_open _ (update_target_lem d w _)))
    where
      if_done :
          (b : Bool) (w : s.State) → Emptied (w, named s a c, if b then Opened.skip else Opened.bad)
      if_done true w = tt
      if_done false w = tt

  -- With `--overwrite`, without `--test` and to a file: where output_open is ready to copy,
  -- output_fin never waits for a target that is moved to the trash, since the target was emptied
  -- when it was opened.
  pub output_fin-output_open :
      (c : Copy s) (w : s.State)
      → (output_open s a c w).2 ≡ Opened.ready
      → (v : s.State) → (output_fin s a (output_open s a c w).1 v).2 ≢ Fin.fin_async
  unfolding output_fin
  output_fin-output_open c w e v = fin_lem (output_open s a c w) (output_open-Emptied c w) e
    where
      fin_lem :
          (p : s.State × Copy s × Opened)
          → Emptied p
          → p.2 ≡ Opened.ready
          → (output_fin s a p.1 v).2 ≢ Fin.fin_async
      fin_lem (w', c', Opened.bad) x e = cc
      fin_lem (w', c', Opened.skip) x e = cc
      fin_lem (w', c', Opened.ready) x e = λ q. ground (arith, x)
