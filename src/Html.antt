-- ===== src/Html.antt =====
-- The reader of HTML, `htmlread_process` of src/util/html.h. What ffbase's searches give is the
-- split of the input at the first byte that fits.
pub mod Text
pub mod Values
pub mod Ends
mod Tests
use fcom.Prelude.{
  ℕ, zero, suc, ◌+◌, ◌%◌, ◌^◌, Bool, true, false, not, ◌&&◌, ◌||◌, Option, none, some, List, [],
  ◌∷◌, ◌++◌, leb, ◌==◌, if◌then◌else◌,
}
use fcom.Prelude.Memory.{Bytes}

-- `enum I`
pub data State : Type 0 where
  text tag_1 tag wspace attr attr_eq attr_val angl_r : State

-- `struct htmlread`
pub record Reader : Type 0 where
  pub state : State
  pub nextstate : State
  pub line : ℕ
  pub out_preserve : Bool
  pub tag_lslash : Bool

-- `htmlread_open`, of a zeroed reader.
abbrev pub opened : Reader
opened = record {
  state = text;
  nextstate = text;
  line = 1;
  out_preserve = false;
  tag_lslash = false;
}

-- `enum HTML_R`
pub data Ret : Type 0 where
  more text tag tag_close tag_close_self attr attr_val : Ret

-- A round of the loop: to continue with the input and the bytes from `out->ptr` up to it, to
-- return with the rest of the input and `*out`, or to read past the input's end.
pub data Outcome : Type 0 where
  again : Reader → Bytes → Bytes → Outcome
  returned : Reader → Bytes → Ret → Bytes → Outcome
  past_end : Outcome

-- The bytes before the first one that fits, that byte, and those after it.
unfoldable pub find : (ℕ → Bool) → Bytes → Option (Bytes × ℕ × Bytes)
find fits [] = none
find fits (c ∷ s) =
    if fits c
    then some ([], c, s)
    else elim (find fits s) [ none ↦ none | some (before, d, after) ↦ some (c ∷ before, d, after) ]

-- "09AZaz"
abbrev pub is_alnum : ℕ → Bool
is_alnum c = leb 0x30 c && leb c 0x39 || (leb 0x41 c && leb c 0x5A || leb 0x61 c && leb c 0x7A)

-- "\x00\x09\x0b\x20"
abbrev pub is_white : ℕ → Bool
is_white c = leb c 0x09 || leb 0x0B c && leb c 0x20

abbrev pub next_line : ℕ → ℕ
next_line n = (n + 1) % 2 ^ 64

-- The case I_TEXT, for what the search for '<' and '\n' gave; `kept` starts at `out->ptr`.
unfoldable pub at_text : Reader → Bytes → Bytes → Option (Bytes × ℕ × Bytes) → Outcome
at_text h input kept none = elim (kept ++ input) [
  | [] ↦ returned h input more []
  | c ∷ s ↦ returned h [] text (c ∷ s)
]
at_text h input kept (some (before, c, after)) =
    if c == 0x0A
    then again (record h { line = next_line h.line; out_preserve = true }) after
        (kept ++ (before ++ (c ∷ [])))
    else elim before [
      | [] ↦ again (record h { state = tag_1 }) after kept
      | b ∷ bs ↦ returned h (c ∷ after) text (kept ++ (b ∷ bs))
    ]

-- I_TAG_1
abbrev pub at_tag_1 : Reader → Bytes → Bytes → Outcome
at_tag_1 h [] kept = again (record h { state = tag }) [] kept
at_tag_1 h (c ∷ s) kept =
    if c == 0x2F
    then again (record h { state = tag; tag_lslash = true }) s kept
    else again (record h { state = tag }) (c ∷ s) kept

-- I_TAG
unfoldable pub at_tag : Reader → Bytes → Bytes → Option (Bytes × ℕ × Bytes) → Outcome
at_tag h input kept none = returned h input more kept
at_tag h input kept (some ([], c, after)) = again (record h { state = angl_r }) input kept
at_tag h input kept (some (b ∷ bs, c, after)) =
    if h.tag_lslash
    then returned (record h { tag_lslash = false; state = angl_r }) (c ∷ after) tag_close (b ∷ bs)
    else returned (record h { state = wspace; nextstate = attr }) (c ∷ after) tag (b ∷ bs)

-- I_WSPACE
unfoldable pub at_wspace : Reader → Bytes → Option (Bytes × ℕ × Bytes) → Outcome
at_wspace h kept none = returned h [] more kept
at_wspace h kept (some (before, c, after)) =
    if c == 0x0A
    then again (record h { line = next_line h.line }) after kept
    else again (record h { state = h.nextstate }) (c ∷ after) kept

-- I_ATTR
unfoldable pub at_attr : Reader → Bytes → Bytes → Option (Bytes × ℕ × Bytes) → Outcome
at_attr h input kept none = returned h input more kept
at_attr h input kept (some ([], c, after)) =
    if c == 0x3E
    then again (record h { state = text }) after kept
    else if c == 0x2F
    then returned (record h { state = angl_r }) after tag_close_self []
    else again (record h { state = angl_r }) input kept
at_attr h input kept (some (b ∷ bs, c, after)) =
    returned (record h { state = wspace; nextstate = attr_eq }) (c ∷ after) attr (b ∷ bs)

-- I_ATTRVAL, after the quote
unfoldable pub quoted : Reader → Bytes → Bytes → Option (Bytes × ℕ × Bytes) → Outcome
quoted h input kept none = returned h input more kept
quoted h input kept (some (before, c, after)) =
    returned (record h { state = wspace; nextstate = attr }) after attr_val before

-- I_ATTRVAL
unfoldable pub at_attr_val : Reader → Bytes → Bytes → Outcome
unfolding quoted
at_attr_val h [] kept = past_end
at_attr_val h (c ∷ s) kept =
    if c == 0x22 || c == 0x27
    then quoted h (c ∷ s) kept (find (λ d. d == 0x22 || d == 0x0A) s)
    else again h (c ∷ s) kept

-- I_ATTR_EQ, which falls through to I_ATTRVAL.
unfoldable pub at_attr_eq : Reader → Bytes → Bytes → Outcome
unfolding at_attr_val
at_attr_eq h [] kept = past_end
at_attr_eq h (c ∷ s) kept =
    if c == 0x3D
    then at_attr_val (record h { state = wspace; nextstate = attr_val }) s kept
    else again (record h { state = wspace; nextstate = attr }) (c ∷ s) kept

-- I_ANGL_R
unfoldable pub at_angl_r : Reader → Bytes → Option (Bytes × ℕ × Bytes) → Outcome
at_angl_r h kept none = returned h [] more kept
at_angl_r h kept (some (before, c, after)) =
    if c == 0x0A
    then again (record h { line = next_line h.line }) after kept
    else again (record h { state = text }) after kept

-- A round, by the state.
unfoldable pub dispatch : State → Reader → Bytes → Bytes → Outcome
unfolding at_text at_tag at_wspace at_attr at_attr_eq at_angl_r
dispatch text h input kept =
    at_text (record h { out_preserve = false }) input (if h.out_preserve then kept else [])
      (find (λ c. c == 0x3C || c == 0x0A) input)
dispatch tag_1 h input kept = at_tag_1 h input kept
dispatch tag h input kept = at_tag h input kept (find (λ c. not (is_alnum c)) input)
dispatch wspace h input kept = at_wspace h kept (find (λ c. not (is_white c)) input)
dispatch attr h input kept = at_attr h input kept (find (λ c. not (is_alnum c)) input)
dispatch attr_eq h input kept = at_attr_eq h input kept
dispatch attr_val h input kept = at_attr_val h input kept
dispatch angl_r h input kept = at_angl_r h kept (find (λ c. c == 0x3E || c == 0x0A) input)

-- What a call leaves, or a read past the end.
pub data Called : Type 0 where
  result : Reader → Bytes → Ret → Bytes → Called
  past_end : Called

-- The loop of `htmlread_process`, on fuel.
unfoldable pub process_loop : ℕ → Reader → Bytes → Bytes → Option Called
process_loop zero h input kept = none
process_loop (suc fuel) h input kept = elim (dispatch h.state h input kept) [
  | again h' input' kept' ↦ process_loop fuel h' input' kept'
  | returned h' rest ret out ↦ some (result h' rest ret out)
  | past_end ↦ some past_end
]
