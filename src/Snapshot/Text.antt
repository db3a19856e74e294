-- ===== src/Snapshot/Text.antt =====
-- The writer of snapshots writes the text of the walk's branches.
use fcom.Prelude.{
  ℕ, ◌≡◌, ◌⊎◌, inl, inr, refl, sym, ◌∙◌, ap, subst, Bool, true, false, Option, none, some, List, [],
  ◌∷◌, ◌++◌, append_assoc, Bool-cases, if◌then◌else◌, ◌==◌,
}
use fcom.Prelude.Memory.{Bytes}
use fcom.Snapshot.{Formats, wsnap_ent_serialize, wsnap_hdr, wsnap_bhdr, wsnap_bftr}
use fcom.Snapshot.Write.{
  Sink, Writer, Visit, Found, unknown, file, dir, Scanned, new_block, same_block, error, scan_next,
  in_block, ready, take_entry, process, write_snapshot, started, process_loop, process_round,
}
use fcom.Snapshot.Emission.{Appends, Refused, idle, Emits, Emits-footer, Emits-first}
use fcom.Snapshot.Branches.{opens, listed, rest_text}

module _ (o : Formats) (k : Sink) (l : Appends k) where
  open l use {text}

  -- The last write, of the end of the last branch, fails, and all before it is written.
  abbrev pub CutShort : k.State → Bytes → Type 0
  CutShort w' t =
      (w : k.State) × (text w ++ wsnap_bftr ≡ t)
      × ((k.write w wsnap_bftr).1 ≡ false)
      × (w' ≡ (k.write w wsnap_bftr).0)

  -- The operation ends with code 0 and the text is `t`; or with 1, where a call can fail; or with 0
  -- though the last write has failed.
  abbrev pub Writes : k.State × ℕ → Bytes → Type 0
  Writes r t = ((r.1 ≡ 0) × (text r.0 ≡ t)) ⊎ ((r.1 ≡ 1) × Refused k) ⊎ ((r.1 ≡ 0) × CutShort r.0 t)

  -- What `scan_next` returns of a visit.
  scan-opens :
      (p : Option ℕ) (v : Visit)
      → opens v.found ≡ true
      → scan_next p v ≡ (if in_block p v.block then same_block else new_block)
  unfolding scan_next
  scan-opens p v e = scan_found v.found e
    where
      scan_found :
          (f : Found)
          → opens f ≡ true
          → scan_next p (record v { found = f })
            ≡ (if in_block p v.block then same_block else new_block)
      scan_found unknown e = refl
      scan_found (file d) e = refl
      scan_found (dir d true) e = refl
      scan_found (dir d false) e = cc

  scan-fails : (p : Option ℕ) (v : Visit) → opens v.found ≡ false → scan_next p v ≡ error
  unfolding scan_next
  scan-fails p v e = scan_found v.found e
    where
      scan_found : (f : Found) → opens f ≡ false → scan_next p (record v { found = f }) ≡ error
      scan_found unknown e = cc
      scan_found (file d) e = cc
      scan_found (dir d true) e = cc
      scan_found (dir d false) e = refl

  -- A visit that gives an entry, after the call of `process`.
  abbrev resume : List Visit → k.State × Writer × Option Bool → k.State × ℕ
  resume vs (w, n, some true) = write_snapshot o k vs n w
  resume vs (w, n, some false) = (w, 1)
  resume vs (w, n, none) = (w, 1)

  abbrev by_scan : Visit → List Visit → Writer → k.State → Scanned → k.State × ℕ
  by_scan v vs n w r =
      let (m, is_ready) = take_entry n v r in
      if is_ready then resume vs (process o k m w) else write_snapshot o k vs m w

  write-visit :
      (v : Visit) (vs : List Visit) (n : Writer) (w : k.State)
      → write_snapshot o k (v ∷ vs) n w ≡ by_scan v vs n w (scan_next n.parent_blk v)
  unfolding write_snapshot
  write-visit v vs n w = refl

  -- A visit that gives an entry.
  Writes-entry :
      (v : Visit) (vs : List Visit) (n m : Writer) (w : k.State) (r : Scanned) (t u : Bytes)
      → scan_next n.parent_blk v ≡ r
      → take_entry n v r ≡ (m, true)
      → Emits o k l 5 m w t
      → ((w' : k.State) → text w' ≡ t → Writes (write_snapshot o k vs (idle m) w') u)
      → Writes (write_snapshot o k (v ∷ vs) n w) u
  Writes-entry v vs n m w r t u e q x rest =
      let p =
        write-visit v vs n w
        ∙ ap (by_scan v vs n w) e
        ∙ ap (λ y. if y.1 then resume vs (process o k y.0 w) else write_snapshot o k vs y.0 w) q in
      elim x [
        | inl (w', y, h) ↦ subst (λ z. Writes z u) (sym (p ∙ ap (resume vs) y)) (rest w' h)
        | inr (w', n', y, h) ↦
            subst (λ z. Writes z u) (sym (p ∙ ap (resume vs) y)) (inr (inl (refl, h)))
      ]

  -- The writer after an entry of a block.
  abbrev within : ℕ → Writer → Writer
  within b n = record (idle n) { parent_blk = some b }

  abbrev by_tests : ℕ → Visit → List Visit → Bool → Bool → Bytes
  by_tests b v vs t u =
      let rest = wsnap_ent_serialize o (listed v) ++ rest_text o v.block vs in
      if t
      then (if u then rest else wsnap_bftr ++ (wsnap_bhdr v.path ++ rest))
      else rest_text o v.block vs

  pub rest_text-tests :
      (b : ℕ) (v : Visit) (vs : List Visit) (t u : Bool)
      → opens v.found ≡ t
      → (b == v.block) ≡ u
      → rest_text o b (v ∷ vs) ≡ by_tests b v vs t u
  unfolding rest_text
  rest_text-tests b v vs t u e h =
      ap (λ x. by_tests b v vs x (b == v.block)) e ∙ ap (λ x. by_tests b v vs t x) h

  pub Writes-text : (p : k.State × ℕ) (t u : Bytes) → t ≡ u → Writes p t → Writes p u
  Writes-text p t u e x = subst (Writes p) e x

  -- The text before an entry, the entry, and what follows it.
  joined_text : (t d e u : Bytes) → (t ++ (d ++ e)) ++ u ≡ t ++ (d ++ (e ++ u))
  joined_text t d e u = append_assoc t (d ++ e) u ∙ ap (λ x. t ++ x) (append_assoc d e u)

  -- A round of the last call of `process`, by whether its write succeeds.
  abbrev after_round :
      Writer → k.State → Option (k.State × Writer × Bool) → k.State × Writer × Option Bool
  after_round n w x = elim x [
    | none ↦ (w, n, some true)
    | some (w', n', true) ↦ process_loop o k 4 n' w'
    | some (w', n', false) ↦ (w', n', some false)
  ]

  end_state :
      (n : Writer) (w : k.State) (b : Bool)
      → (k.write w wsnap_bftr).1 ≡ b
      → (write_snapshot o k [] (idle n) w).0 ≡ (k.write w wsnap_bftr).0
  unfolding write_snapshot process_loop process_round
  end_state n w true e =
      ap (λ b. (after_round n w (some ((k.write w wsnap_bftr).0, idle n, b))).0) e
  end_state n w false e =
      ap (λ b. (after_round n w (some ((k.write w wsnap_bftr).0, idle n, b))).0) e

  Writes-end :
      (n : Writer) (w : k.State) → Writes (write_snapshot o k [] (idle n) w) (text w ++ wsnap_bftr)
  unfolding write_snapshot
  Writes-end n w = elim (Bool-cases ((k.write w wsnap_bftr).1)) [
    | inr f ↦ inr (inr (refl, (w, refl, f, end_state n w false f)))
    | inl t ↦ inl (refl, ap text (end_state n w true t) ∙ l.appended w wsnap_bftr t)
  ]

  -- A visit that fails: the writer is in its block.
  write-failed :
      (b : ℕ) (v : Visit) (vs : List Visit) (n : Writer) (w : k.State)
      → opens v.found ≡ false
      → write_snapshot o k (v ∷ vs) (within b n) w ≡ write_snapshot o k vs (within v.block n) w
  write-failed b v vs n w e =
      write-visit v vs (within b n) w ∙ ap (by_scan v vs (within b n) w) (scan-fails (some b) v e)

  Writes-visits :
      (b : ℕ) (vs : List Visit) (n : Writer) (w : k.State)
      → Writes (write_snapshot o k vs (within b n) w) (text w ++ rest_text o b vs)
  unfolding rest_text
  Writes-visits b [] n w = Writes-end (within b n) w
  Writes-visits b (v ∷ vs) n w =
      let ser = wsnap_ent_serialize o (listed v) in
      let rest = rest_text o v.block vs in
      let whole = text w ++ rest_text o b (v ∷ vs) in
      elim (Bool-cases (opens v.found)) [
        | inr e ↦
            subst (λ z. Writes z whole) (sym (write-failed b v vs n w e))
              (Writes-text _ (text w ++ rest) whole
                (ap (λ x. text w ++ x) (sym (rest_text-tests b v vs false (b == v.block) e refl)))
                (Writes-visits v.block vs n w))
        | inl e ↦ elim (Bool-cases (b == v.block)) [
          | inl h ↦
              let m = ready (within b n) v in
              Writes-entry v vs (within b n) m w same_block (text w ++ ser) whole
                (scan-opens (some b) v e ∙ ap (λ x. if x then same_block else new_block) h) refl
                (Emits-footer o k l 1 false false true m w)
                λ w' q.
                  Writes-text _ (text w' ++ rest) whole
                    (ap (λ x. x ++ rest) q
                      ∙ append_assoc (text w) ser rest
                      ∙ ap (λ x. text w ++ x) (sym (rest_text-tests b v vs true true e h)))
                    (Writes-visits v.block vs m w')
          | inr h ↦
              let m = record (ready (within b n) v) { bftr = true; bhdr = true } in
              let top = wsnap_bhdr v.path in
              Writes-entry v vs (within b n) m w new_block (text w ++ (wsnap_bftr ++ (top ++ ser)))
                whole (scan-opens (some b) v e ∙ ap (λ x. if x then same_block else new_block) h)
                refl (Emits-footer o k l 1 true true true m w)
                λ w' q.
                  Writes-text _ (text w' ++ rest) whole
                    (ap (λ x. x ++ rest) q
                      ∙ joined_text (text w) wsnap_bftr (top ++ ser) rest
                      ∙ ap (λ x. text w ++ (wsnap_bftr ++ x)) (append_assoc top ser rest)
                      ∙ ap (λ x. text w ++ x) (sym (rest_text-tests b v vs true false e h)))
                    (Writes-visits v.block vs m w')
        ]
      ]

  -- The text of a walk that starts at the root.
  pub Writes-root :
      (v : Visit) (vs : List Visit) (w : k.State)
      → v.path ≡ []
      → opens v.found ≡ true
      → Writes (write_snapshot o k (v ∷ vs) started w) (
          wsnap_hdr
          ++ (wsnap_bhdr v.path ++ (wsnap_ent_serialize o (listed v) ++ rest_text o v.block vs)))
  Writes-root v vs w p e = subst Root (sym p) at_root
    where
      Root : Bytes → Type 0
      Root path =
          let u : Visit = record v { path = path } in
          Writes (write_snapshot o k (u ∷ vs) started w) (
            wsnap_hdr
            ++ (wsnap_bhdr path ++ (wsnap_ent_serialize o (listed u) ++ rest_text o u.block vs)))

      at_root : Root []
      at_root =
          let u : Visit = record v { path = [] } in
          let m = record (ready started u) { bhdr = true } in
          let ser = wsnap_ent_serialize o (listed u) in
          let rest = rest_text o u.block vs in
          Writes-entry u vs started m w new_block (wsnap_hdr ++ (wsnap_bhdr [] ++ ser))
            (wsnap_hdr ++ (wsnap_bhdr [] ++ (ser ++ rest))) (scan-opens none u e) refl
            (Emits-first o k l 0 false true true m w)
            λ w' q.
              Writes-text _ (text w' ++ rest) (wsnap_hdr ++ (wsnap_bhdr [] ++ (ser ++ rest)))
                (ap (λ x. x ++ rest) q ∙ joined_text wsnap_hdr (wsnap_bhdr []) ser rest)
                (Writes-visits u.block vs m w')
