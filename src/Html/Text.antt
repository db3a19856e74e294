-- ===== src/Html/Text.antt =====
-- The text between tags.
use fcom.Prelude.{
  ℕ, suc, ◌≡◌, refl, ap, ◌∙◌, if◌then◌else◌, Bool, true, false, not, ◌||◌, none, some, [], ◌∷◌,
  ◌++◌, arith, ◌==◌,
}
use fcom.Prelude.Memory.{Bytes}
use fcom.Html.{
  State, Reader, Ret, next_line, is_alnum, find, at_tag, dispatch, process_loop, result, again,
  returned,
}

-- A search that finds nothing in `t` finds what follows it.
pub find-append :
    (fits : ℕ → Bool) (t : Bytes) (c : ℕ) (rest : Bytes)
    → find fits t ≡ none
    → fits c ≡ true
    → find fits (t ++ (c ∷ rest)) ≡ some (t, c, rest)
unfolding find
find-append fits [] c rest e f = ground arith
find-append fits (d ∷ t) c rest e f = ground (arith, find-append fits t c rest)

pub process_loop-again :
    (fuel : ℕ) (h : Reader) (input kept : Bytes) {h' : Reader} {input' kept' : Bytes}
    → dispatch h.state h input kept ≡ again h' input' kept'
    → process_loop (suc fuel) h input kept ≡ process_loop fuel h' input' kept'
unfolding process_loop
process_loop-again fuel h input kept e = ground (arith, e)

pub process_loop-returned :
    (fuel : ℕ) (h : Reader) (input kept : Bytes) {h' : Reader} {rest out : Bytes} {ret : Ret}
    → dispatch h.state h input kept ≡ returned h' rest ret out
    → process_loop (suc fuel) h input kept ≡ some (result h' rest ret out)
unfolding process_loop
process_loop-returned fuel h input kept e = ground (arith, e)

abbrev pub ends_text : ℕ → Bool
ends_text c = c == 0x3C || c == 0x0A

alnum_head :
    (b : ℕ) (bs : Bytes) → find (λ d. not (is_alnum d)) (b ∷ bs) ≡ none → (b == 0x2F) ≡ false
unfolding find
alnum_head b bs e = ground arith

module _ (h : Reader) where
  line_end :
      h.state ≡ State.text
      → (t rest kept : Bytes) → find ends_text t ≡ none
      → dispatch h.state h (t ++ (0x0A ∷ rest)) kept
        ≡ again
            (record h { line = next_line h.line; out_preserve = true })
            rest
            ((if h.out_preserve then kept else []) ++ (t ++ (0x0A ∷ [])))
  unfolding dispatch
  line_end at_start t rest kept e = ground (arith, find-append ends_text t 0x0A rest e refl)

  tag_start :
      h.state ≡ State.text
      → (rest kept : Bytes) → h.out_preserve ≡ true
      → dispatch h.state h (0x3C ∷ rest) kept
        ≡ again (record h { state = State.tag_1; out_preserve = false }) rest kept
  unfolding dispatch find
  tag_start at_start rest kept p = ground arith

  no_slash :
      h.state ≡ State.tag_1
      → (b : ℕ) (rest kept : Bytes) → (b == 0x2F) ≡ false
      → dispatch h.state h (b ∷ rest) kept ≡ again (record h { state = State.tag }) (b ∷ rest) kept
  unfolding dispatch
  no_slash at_tag b rest kept e = ground arith

  tag_name :
      h.state ≡ State.tag
      → (b : ℕ) (bs : Bytes) (c : ℕ) (rest kept : Bytes) → h.tag_lslash ≡ false
      → find (λ d. not (is_alnum d)) (b ∷ bs) ≡ none
      → is_alnum c ≡ false
      → dispatch h.state h ((b ∷ bs) ++ (c ∷ rest)) kept
        ≡ returned
            (record h { state = State.wspace; nextstate = State.attr })
            (c ∷ rest)
            Ret.tag
            (b ∷ bs)
  unfolding dispatch
  tag_name at_tag b bs c rest kept p e f =
      ground (arith, find-append (λ d. not (is_alnum d)) (b ∷ bs) c rest e (ap not f))

module _ (h : Reader) (at_start : h.state ≡ State.text) where
  -- Text of one line before a tag is returned as it is, and the tag is left in the input.
  process_loop-text :
      (fuel b : ℕ) (bs rest kept : Bytes)
      → h.out_preserve ≡ false
      → find ends_text (b ∷ bs) ≡ none
      → process_loop (suc fuel) h ((b ∷ bs) ++ (0x3C ∷ rest)) kept
        ≡ some (result (record h { out_preserve = false }) (0x3C ∷ rest) Ret.text (b ∷ bs))
  unfolding process_loop dispatch
  process_loop-text fuel b bs rest kept p e =
      ground (arith, find-append ends_text (b ∷ bs) 0x3C rest e refl)

  -- A line of text that ends in a line feed just before a tag is not returned: the reader counts
  -- the line and returns the name of the tag.
  pub process_loop-text_dropped :
      (fuel : ℕ) (t : Bytes) (b c : ℕ) (bs rest kept : Bytes)
      → h.tag_lslash ≡ false
      → find ends_text t ≡ none
      → find (λ d. not (is_alnum d)) (b ∷ bs) ≡ none
      → is_alnum c ≡ false
      → process_loop
          (suc (suc (suc (suc fuel))))
          h
          (t ++ (0x0A ∷ 0x3C ∷ ((b ∷ bs) ++ (c ∷ rest))))
          kept
        ≡ some (
            result
              (record h {
                state = State.wspace;
                nextstate = State.attr;
                line = next_line h.line;
                out_preserve = false;
              })
              (c ∷ rest)
              Ret.tag
              (b ∷ bs))
  process_loop-text_dropped fuel t b c bs rest kept p e e' f =
      let name = (b ∷ bs) ++ (c ∷ rest) in
      let k : Bytes = (if h.out_preserve then kept else []) ++ (t ++ (0x0A ∷ [])) in
      let h1 = record h { line = next_line h.line; out_preserve = true } in
      let h2 = record h { state = State.tag_1; line = next_line h.line; out_preserve = false } in
      let h3 = record h { state = State.tag; line = next_line h.line; out_preserve = false } in
      process_loop-again (suc (suc (suc fuel))) h (t ++ (0x0A ∷ 0x3C ∷ name)) kept
        (line_end h at_start t (0x3C ∷ name) kept e)
      ∙ process_loop-again (suc (suc fuel)) h1 (0x3C ∷ name) k (tag_start h1 at_start name k refl)
      ∙ process_loop-again (suc fuel) h2 name k
          (no_slash h2 refl b (bs ++ (c ∷ rest)) k (alnum_head b bs e'))
      ∙ process_loop-returned fuel h3 name k (tag_name h3 refl b bs c rest k p e' f)
