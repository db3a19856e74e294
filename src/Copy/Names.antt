-- ===== src/Copy/Names.antt =====
-- The names of the output.
use fcom.Prelude.{
  ◌-◌, ◌≡◌, refl, ◌∙◌, ap, true, false, [], ◌∷◌, ◌++◌, arith, length, drop, length-append,
  if◌then◌else◌,
}
use fcom.Prelude.Memory.{Bytes}
use fcom.Services.{Services}
use fcom.Copy.{Settings, is_empty}
use fcom.Copy.Output.{out_name, below_base, slash}

drop_front : (x y rest : Bytes) → drop (length x) ((x ++ y) ++ rest) ≡ y ++ rest
drop_front [] y rest = refl
drop_front (c ∷ x) y rest = drop_front x y rest

length_front : (x y : Bytes) → length (x ++ y) - length y ≡ length x
length_front x y = omega (arith, length-append x y)

module _ (s : Services) (a : Settings) where
  below_base_lem :
      (dir part rest : Bytes)
      → is_empty (dir ++ part) ≡ false
      → is_empty part ≡ false
      → s.split_name (dir ++ part) ≡ part
      → below_base s ((dir ++ part) ++ rest) (dir ++ part) ≡ part ++ rest
  below_base_lem dir part rest b p e =
      let base = dir ++ part in
      let name = base ++ rest in
      let below : Bytes → Bytes → Bytes =
        λ x q. if is_empty q then name else drop (length x - length q) name in
      ap (λ t. let x = if t then name else base in below x (s.split_name x)) b
      ∙ ap (below base) e
      ∙ ap (λ t. if t then name else drop (length base - length part) name) p
      ∙ ap (λ k. drop k name) (length_front dir part)
      ∙ drop_front dir part rest

  -- With an output directory and no output name, a file found below an input directory is named, in
  -- the output directory, by its path from the last part of that directory on.
  out_name_lem :
      (dir part rest : Bytes)
      → is_empty a.chdir ≡ false
      → is_empty a.output ≡ true
      → is_empty (dir ++ part) ≡ false
      → is_empty part ≡ false
      → s.split_name (dir ++ part) ≡ part
      → out_name s a ((dir ++ part) ++ rest) (dir ++ part)
        ≡ s.normalize (a.chdir ++ (slash ++ (part ++ rest)))
  unfolding out_name
  out_name_lem dir part rest c o b p e =
      let base = dir ++ part in
      let name = base ++ rest in
      ap
        (λ t. s.normalize (
          if t
          then a.output
          else if is_empty a.output
          then a.chdir ++ (slash ++ below_base s name base)
          else a.chdir ++ (slash ++ a.output)))
        c
      ∙ ap
          (λ t. s.normalize (
            if t
            then a.chdir ++ (slash ++ below_base s name base)
            else a.chdir ++ (slash ++ a.output)))
          o
      ∙ ap (λ x. s.normalize (a.chdir ++ (slash ++ x))) (below_base_lem dir part rest b p e)
