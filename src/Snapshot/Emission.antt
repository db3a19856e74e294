-- ===== src/Snapshot/Emission.antt =====
-- What a call of `wsnap::process` writes.
use fcom.Prelude.{
  ℕ, suc, ◌≡◌, ◌⊎◌, inl, inr, refl, sym, ◌∙◌, ap, Bool, true, false, Option, none, some, [], ◌++◌,
  append-nil, append_assoc, Bool-cases, if◌then◌else◌,
}
use fcom.Prelude.Memory.{Bytes}
use fcom.Snapshot.{Formats, wsnap_ent_serialize, wsnap_hdr, wsnap_bhdr, wsnap_bftr}
use fcom.Snapshot.Write.{Sink, Writer, process_round, process_loop, written}

-- What src/fcom.h documents of the file: it is empty when it is opened, and a write is put at its end.
pub record Appends (k : Sink) : Type 0 where
  pub text : k.State → Bytes
  pub opened : (w : k.State) → (k.open_file w).1 ≡ true → text (k.open_file w).0 ≡ []
  pub appended :
      (w : k.State) (d : Bytes) → (k.write w d).1 ≡ true → text (k.write w d).0 ≡ text w ++ d

-- There is a state where the file is not opened, or one where a write fails.
abbrev pub Refused : Sink → Type 0
Refused k =
    ((w : k.State) × ((k.open_file w).1 ≡ false))
    ⊎ ((w : k.State) × (d : Bytes) × ((k.write w d).1 ≡ false))

-- The writer with these flags.
abbrev pub flagged : Bool → Bool → Bool → Bool → Writer → Writer
flagged h f b e n = record n { hdr = h; bftr = f; bhdr = b; ent_ready = e }

-- The writer with nothing to write.
abbrev pub idle : Writer → Writer
idle n = flagged true false false false n

module _ (o : Formats) (k : Sink) (l : Appends k) where
  open l use {text, opened, appended}

  abbrev pub footer : Bool → Bytes
  footer f = if f then wsnap_bftr else []

  abbrev pub header : Bool → Bytes → Bytes
  header b path = if b then wsnap_bhdr path else []

  abbrev pub entry_text : Bool → Writer → Bytes
  entry_text e n = if e then wsnap_ent_serialize o n.ent else []

  -- The loop ends and the text is `t`, or a write failed.
  abbrev pub Emits : ℕ → Writer → k.State → Bytes → Type 0
  Emits fuel n w t =
      ((w' : k.State) × (process_loop o k fuel n w ≡ (w', idle n, some true)) × (text w' ≡ t))
      ⊎ ((w' : k.State) × (n' : Writer) × (process_loop o k fuel n w ≡ (w', n', some false))
          × Refused k)

  abbrev resume :
      ℕ → Option (k.State × Writer × Bool) → Writer → k.State → k.State × Writer × Option Bool
  resume fuel x n w = elim x [
    | none ↦ (w, n, some true)
    | some (w', n', true) ↦ process_loop o k fuel n' w'
    | some (w', n', false) ↦ (w', n', some false)
  ]

  Emits-written :
      (fuel : ℕ) (n m : Writer) (w v : k.State) (d t : Bytes)
      → process_loop o k (suc fuel) n w ≡ resume fuel (some (written o k m (k.write v d))) n w
      → idle n ≡ idle m
      → ((k.write v d).1 ≡ true → Emits fuel m (k.write v d).0 t)
      → Emits (suc fuel) n w t
  Emits-written fuel n m w v d t q same f = elim (Bool-cases ((k.write v d).1)) [
    | inl e ↦
        let p = q ∙ ap (λ b. resume fuel (some ((k.write v d).0, m, b)) n w) e in
        elim (f e) [
          | inl (w', r, x) ↦ inl (w', p ∙ r ∙ ap (λ y. (w', y, some true)) (sym same), x)
          | inr (w', n', r, x) ↦ inr (w', n', p ∙ r, x)
        ]
    | inr e ↦ inr (
      (k.write v d).0,
      m,
      q ∙ ap (λ b. resume fuel (some ((k.write v d).0, m, b)) n w) e,
      inr (v, d, e),
    )
  ]

  Emits-text :
      (fuel : ℕ) (n : Writer) (w : k.State) (t u : Bytes)
      → t ≡ u
      → Emits fuel n w t
      → Emits fuel n w u
  Emits-text fuel n w t u e x = elim x [ inl (w', r, y) ↦ inl (w', r, y ∙ e) | inr y ↦ inr y ]

  Emits-idle : (fuel : ℕ) (n : Writer) (w : k.State) → Emits (suc fuel) (idle n) w (text w)
  unfolding process_loop process_round
  Emits-idle fuel n w = inl (w, refl, refl)

  Emits-entry :
      (fuel : ℕ) (e : Bool) (n : Writer) (w : k.State)
      → Emits (suc (suc fuel)) (flagged true false false e n) w (text w ++ entry_text e n)
  unfolding process_loop process_round
  Emits-entry fuel false n w =
      Emits-text (suc (suc fuel)) (idle n) w (text w) (text w ++ []) (sym (append-nil (text w)))
        (Emits-idle (suc fuel) n w)
  Emits-entry fuel true n w =
      let d = wsnap_ent_serialize o n.ent in
      let v = (k.write w d).0 in
      Emits-written (suc fuel) (flagged true false false true n) (idle n) w w d (text w ++ d) refl
        refl
        λ e.
          Emits-text (suc fuel) (idle n) v (text v) (text w ++ d) (appended w d e)
            (Emits-idle fuel n v)

  -- What was written before and after `d`.
  after_text : (t d u : Bytes) (w : k.State) (e : text w ≡ t ++ d) → text w ++ u ≡ t ++ (d ++ u)
  after_text t d u w e = ap (λ x. x ++ u) e ∙ append_assoc t d u

  Emits-header :
      (fuel : ℕ) (b e : Bool) (n : Writer) (w : k.State)
      → Emits
          (suc (suc (suc fuel)))
          (flagged true false b e n)
          w
          (text w ++ (header b n.dir_path ++ entry_text e n))
  unfolding process_loop process_round
  Emits-header fuel false e n w = Emits-entry (suc fuel) e n w
  Emits-header fuel true e n w =
      let d = wsnap_bhdr n.dir_path in
      let v = (k.write w d).0 in
      let m = flagged true false false e n in
      Emits-written (suc (suc fuel)) (flagged true false true e n) m w w d
        (text w ++ (d ++ entry_text e n)) refl refl
        λ q.
          Emits-text (suc (suc fuel)) m v (text v ++ entry_text e n)
            (text w ++ (d ++ entry_text e n))
            (after_text (text w) d (entry_text e n) v (appended w d q)) (Emits-entry fuel e n v)

  pub Emits-footer :
      (fuel : ℕ) (f b e : Bool) (n : Writer) (w : k.State)
      → Emits
          (suc (suc (suc (suc fuel))))
          (flagged true f b e n)
          w
          (text w ++ (footer f ++ (header b n.dir_path ++ entry_text e n)))
  unfolding process_loop process_round
  Emits-footer fuel false b e n w = Emits-header (suc fuel) b e n w
  Emits-footer fuel true b e n w =
      let rest = header b n.dir_path ++ entry_text e n in
      let d = wsnap_bftr in
      let v = (k.write w d).0 in
      let m = flagged true false b e n in
      Emits-written (suc (suc (suc fuel))) (flagged true true b e n) m w w d (text w ++ (d ++ rest))
        refl refl
        λ q.
          Emits-text (suc (suc (suc fuel))) m v (text v ++ rest) (text w ++ (d ++ rest))
            (after_text (text w) d rest v (appended w d q)) (Emits-header fuel b e n v)

  -- The first call, which opens the file.
  pub Emits-first :
      (fuel : ℕ) (f b e : Bool) (n : Writer) (w : k.State)
      → Emits
          (suc (suc (suc (suc (suc fuel)))))
          (flagged false f b e n)
          w
          (wsnap_hdr ++ (footer f ++ (header b n.dir_path ++ entry_text e n)))
  unfolding process_loop process_round
  Emits-first fuel f b e n w =
      let n0 = flagged false f b e n in
      let m = flagged true f b e n in
      let rest = footer f ++ (header b n.dir_path ++ entry_text e n) in
      let more = suc (suc (suc (suc fuel))) in
      let w1 = (k.open_file w).0 in
      let v = (k.write w1 wsnap_hdr).0 in
      let first : Bool → Option (k.State × Writer × Bool) =
        λ b. some (if b then written o k m (k.write w1 wsnap_hdr) else (w1, m, false)) in
      elim (Bool-cases ((k.open_file w).1)) [
        | inl h ↦
            Emits-written more n0 m w w1 wsnap_hdr (wsnap_hdr ++ rest)
              (ap (λ b. resume more (first b) n0 w) h) refl
              λ q.
                Emits-text more m v (text v ++ rest) (wsnap_hdr ++ rest)
                  (ap (λ x. x ++ rest)
                    (appended w1 wsnap_hdr q ∙ ap (λ x. x ++ wsnap_hdr) (opened w h)))
                  (Emits-footer fuel f b e n v)
        | inr h ↦ inr (w1, m, ap (λ b. resume more (first b) n0 w) h, inl (w, h))
      ]
