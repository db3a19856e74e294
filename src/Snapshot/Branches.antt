-- ===== src/Snapshot/Branches.antt =====
-- The text of a snapshot: its branches, each with its entries.
use fcom.Prelude.{
  ℕ, ◌≡◌, refl, sym, ◌∙◌, ap, Bool, true, false, List, [], ◌∷◌, ◌++◌, append-nil, append_assoc,
  if◌then◌else◌, ◌==◌,
}
use fcom.Prelude.Memory.{Bytes}
use fcom.Snapshot.{Ent, Formats, wsnap_ent_serialize, wsnap_hdr, wsnap_bhdr, wsnap_bftr}
use fcom.Snapshot.Write.{Visit, Found, unknown, file, dir, entry}

-- Whether the directory of a visit opens, if it is one.
abbrev pub opens : Found → Bool
opens unknown = true
opens (file d) = true
opens (dir d b) = b

pub data AllOpen : List Visit → Type 0 where
  nil : AllOpen []
  cons : {v : Visit} {vs : List Visit} → opens v.found ≡ true → AllOpen vs → AllOpen (v ∷ vs)

-- A branch: a directory and its entries.
record Branch : Type 0 where
  block : ℕ
  path : Bytes
  entries : List Ent

-- The entry of a visit, in its branch.
abbrev pub listed : Visit → Ent
listed v = entry v.found v.segment

-- A visit before a branch of the same block or of another.
abbrev joined : Visit → Branch → List Branch → Bool → List Branch
joined v b bs true = record { block = v.block; path = v.path; entries = listed v ∷ b.entries } ∷ bs
joined v b bs false = record { block = v.block; path = v.path; entries = listed v ∷ [] } ∷ b ∷ bs

-- A visit before those of other branches: it joins the first if it is of the same block.
join : Visit → List Branch → List Branch
join v [] = record { block = v.block; path = v.path; entries = listed v ∷ [] } ∷ []
join v (b ∷ bs) = joined v b bs (v.block == b.block)

-- The branches of a walk: its runs of visits of one block.
branches : List Visit → List Branch
branches [] = []
branches (v ∷ vs) = join v (branches vs)

module _ (o : Formats) where
  entries_text : List Ent → Bytes
  entries_text [] = []
  entries_text (e ∷ es) = wsnap_ent_serialize o e ++ entries_text es

  branch_texts : List Branch → Bytes
  branch_texts [] = []
  branch_texts (b ∷ bs) =
      wsnap_bhdr b.path ++ (entries_text b.entries ++ (wsnap_bftr ++ branch_texts bs))

  -- A header, and the branches in turn.
  unfoldable pub snapshot_text : List Visit → Bytes
  unfolding branches join entries_text branch_texts
  snapshot_text vs = wsnap_hdr ++ branch_texts (branches vs)

  -- The branches without the header of the first.
  abbrev body : List Branch → Bytes
  body [] = []
  body (b ∷ bs) = entries_text b.entries ++ (wsnap_bftr ++ branch_texts bs)

  -- What is written after an entry of a block.
  unfoldable pub rest_text : ℕ → List Visit → Bytes
  rest_text b [] = wsnap_bftr
  rest_text b (v ∷ vs) =
      let rest = wsnap_ent_serialize o (listed v) ++ rest_text v.block vs in
      let failed = rest_text v.block vs in
      if opens v.found
      then (if b == v.block then rest else wsnap_bftr ++ (wsnap_bhdr v.path ++ rest))
      else failed

  -- The rest of the text after an entry of a block, before these branches.
  abbrev tail_text : ℕ → List Branch → Bytes
  tail_text x [] = wsnap_bftr
  tail_text x (b ∷ bs) = if x == b.block then body (b ∷ bs) else wsnap_bftr ++ branch_texts (b ∷ bs)

  branch_texts-joined :
      (v : Visit) (b : Branch) (bs : List Branch) (t : Bool)
      → branch_texts (joined v b bs t) ≡ wsnap_bhdr v.path ++ body (joined v b bs t)
  unfolding branch_texts
  branch_texts-joined v b bs true = refl
  branch_texts-joined v b bs false = refl

  branch_texts-join :
      (v : Visit) (bs : List Branch)
      → branch_texts (join v bs) ≡ wsnap_bhdr v.path ++ body (join v bs)
  unfolding join branch_texts
  branch_texts-join v [] = refl
  branch_texts-join v (b ∷ bs) = branch_texts-joined v b bs (v.block == b.block)

  body-joined :
      (v : Visit) (b : Branch) (bs : List Branch) (t : Bool)
      → body (joined v b bs t)
        ≡ wsnap_ent_serialize o (listed v)
          ++ (if t then body (b ∷ bs) else wsnap_bftr ++ branch_texts (b ∷ bs))
  unfolding branch_texts entries_text
  body-joined v b bs true =
      append_assoc (wsnap_ent_serialize o (listed v)) (entries_text b.entries)
        (wsnap_bftr ++ branch_texts bs)
  body-joined v b bs false =
      ap (λ x. x ++ (wsnap_bftr ++ branch_texts (b ∷ bs)))
        (append-nil (wsnap_ent_serialize o (listed v)))

  body-join :
      (v : Visit) (bs : List Branch)
      → body (join v bs) ≡ wsnap_ent_serialize o (listed v) ++ tail_text v.block bs
  unfolding join branch_texts entries_text
  body-join v [] = ap (λ x. x ++ wsnap_bftr) (append-nil (wsnap_ent_serialize o (listed v)))
  body-join v (b ∷ bs) = body-joined v b bs (v.block == b.block)

  tail_text-joined :
      (x : ℕ) (v : Visit) (b : Branch) (bs : List Branch) (t : Bool)
      → tail_text x (joined v b bs t) ≡ (
          if x == v.block
          then body (joined v b bs t)
          else wsnap_bftr ++ branch_texts (joined v b bs t))
  tail_text-joined x v b bs true = refl
  tail_text-joined x v b bs false = refl

  tail_text-join :
      (x : ℕ) (v : Visit) (bs : List Branch)
      → tail_text x (join v bs)
        ≡ (if x == v.block then body (join v bs) else wsnap_bftr ++ branch_texts (join v bs))
  unfolding join
  tail_text-join x v [] = refl
  tail_text-join x v (b ∷ bs) = tail_text-joined x v b bs (v.block == b.block)

  tail_text-branches :
      (x : ℕ) (vs : List Visit) → AllOpen vs → tail_text x (branches vs) ≡ rest_text x vs
  unfolding branches rest_text
  tail_text-branches x [] nil = refl
  tail_text-branches x (u ∷ us) (cons e k) =
      let bs = branches us in
      let same : body (join u bs) ≡ wsnap_ent_serialize o (listed u) ++ rest_text u.block us =
        body-join u bs
        ∙ ap (λ t. wsnap_ent_serialize o (listed u) ++ t) (tail_text-branches u.block us k) in
      tail_text-join x u bs
      ∙ ap (λ t. if x == u.block then body (join u bs) else wsnap_bftr ++ t)
          (branch_texts-join u bs)
      ∙ ap (λ t. if x == u.block then t else wsnap_bftr ++ (wsnap_bhdr u.path ++ t)) same
      ∙ ap
          (λ b.
            if b
            then (if x == u.block
                then wsnap_ent_serialize o (listed u) ++ rest_text u.block us
                else wsnap_bftr
                  ++ (wsnap_bhdr u.path
                      ++ (wsnap_ent_serialize o (listed u) ++ rest_text u.block us)))
            else rest_text u.block us)
          (sym e)

  -- The text of a walk, by its first visit.
  pub snapshot_text_lem :
      (v : Visit) (vs : List Visit)
      → AllOpen vs
      → snapshot_text (v ∷ vs)
        ≡ wsnap_hdr
          ++ (wsnap_bhdr v.path ++ (wsnap_ent_serialize o (listed v) ++ rest_text v.block vs))
  unfolding snapshot_text branches
  snapshot_text_lem v vs k =
      ap (λ t. wsnap_hdr ++ t) (branch_texts-join v (branches vs))
      ∙ ap (λ t. wsnap_hdr ++ (wsnap_bhdr v.path ++ t))
          (body-join v (branches vs)
            ∙ ap (λ t. wsnap_ent_serialize o (listed v) ++ t) (tail_text-branches v.block vs k))
