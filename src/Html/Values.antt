-- ===== src/Html/Values.antt =====
-- The values of attributes.
use fcom.Prelude.{
  ℕ, zero, suc, ◌≡◌, refl, ◌∙◌, Bool, true, not, ◌&&◌, ◌||◌, none, some, ◌∷◌, ◌++◌, arith, ◌==◌,
}
use fcom.Prelude.Memory.{Bytes}
use fcom.Html.{State, Reader, Ret, is_white, find, dispatch, process_loop, result, again, returned}
use fcom.Html.Text.{find-append, process_loop-again, process_loop-returned}

abbrev pub ends_value : ℕ → Bool
ends_value c = c == 0x22 || c == 0x0A

-- A byte that neither opens a value nor is skipped before one.
abbrev pub is_plain : ℕ → Bool
is_plain c = not (is_white c) && not (c == 0x22 || (c == 0x27 || c == 0x0A))

waits_forever :
    (fuel : ℕ) (h : Reader) (c : ℕ) (s kept : Bytes)
    → h.state ≡ State.attr_val
    → is_plain c ≡ true
    → process_loop fuel h (c ∷ s) kept ≡ none
unfolding process_loop dispatch
waits_forever zero h c s kept e p = refl
waits_forever (suc fuel) h c s kept e p = ground (arith, waits_forever fuel h c s kept e p)

value_ends :
    (h : Reader) (v rest kept : Bytes)
    → find ends_value v ≡ none
    → dispatch State.attr_eq
        (record h { state = State.attr_eq })
        (0x3D ∷ 0x22 ∷ (v ++ (0x22 ∷ rest)))
        kept
      ≡ returned (record h { state = State.wspace; nextstate = State.attr }) rest Ret.attr_val v
unfolding dispatch
value_ends h v rest kept e = ground (arith, find-append ends_value v 0x22 rest e refl)

module _ (h : Reader) (after_name : h.state ≡ State.wspace)
    (next : h.nextstate ≡ State.attr_eq) where
  at_equals :
      (s kept : Bytes)
      → dispatch h.state h (0x3D ∷ s) kept
        ≡ again (record h { state = State.attr_eq }) (0x3D ∷ s) kept
  unfolding dispatch find
  at_equals s kept = ground (arith, after_name, next)

  at_plain :
      (c : ℕ) (s kept : Bytes)
      → is_plain c ≡ true
      → dispatch State.attr_eq (record h { state = State.attr_eq }) (0x3D ∷ c ∷ s) kept
        ≡ again (record h { state = State.wspace; nextstate = State.attr_val }) (c ∷ s) kept
  unfolding dispatch
  at_plain c s kept p = ground arith

  past_space :
      (c : ℕ) (s kept : Bytes)
      → is_plain c ≡ true
      → dispatch State.wspace
          (record h { state = State.wspace; nextstate = State.attr_val })
          (c ∷ s)
          kept
        ≡ again (record h { state = State.attr_val; nextstate = State.attr_val }) (c ∷ s) kept
  unfolding dispatch find
  past_space c s kept p = ground arith

  -- After the name of an attribute, a value that does not start with a quote is never passed:
  -- however many rounds the loop is given, it does not return.
  pub process_loop-unquoted :
      (fuel c : ℕ) (s kept : Bytes)
      → is_plain c ≡ true
      → process_loop fuel h (0x3D ∷ c ∷ s) kept ≡ none
  process_loop-unquoted zero c s kept p = unfold process_loop in refl
  process_loop-unquoted (suc zero) c s kept p =
      process_loop-again zero h _ kept (at_equals (c ∷ s) kept) ∙ (unfold process_loop in refl)
  process_loop-unquoted (suc (suc zero)) c s kept p =
      process_loop-again (suc zero) h _ kept (at_equals (c ∷ s) kept)
      ∙ process_loop-again zero (record h { state = State.attr_eq }) (0x3D ∷ c ∷ s) kept
          (at_plain c s kept p)
      ∙ (unfold process_loop in refl)
  process_loop-unquoted (suc (suc (suc fuel))) c s kept p =
      process_loop-again (suc (suc fuel)) h _ kept (at_equals (c ∷ s) kept)
      ∙ process_loop-again (suc fuel) (record h { state = State.attr_eq }) (0x3D ∷ c ∷ s) kept
          (at_plain c s kept p)
      ∙ process_loop-again fuel (record h { state = State.wspace; nextstate = State.attr_val })
          (c ∷ s) kept (past_space c s kept p)
      ∙ waits_forever fuel (record h { state = State.attr_val; nextstate = State.attr_val }) c s
          kept refl p

  -- After the name of an attribute, a value between double quotes on one line is returned without
  -- its quotes, and what follows it is left in the input.
  process_loop-quoted :
      (fuel : ℕ) (v rest kept : Bytes)
      → find ends_value v ≡ none
      → process_loop (suc (suc fuel)) h (0x3D ∷ 0x22 ∷ (v ++ (0x22 ∷ rest))) kept
        ≡ some
            (result (record h { state = State.wspace; nextstate = State.attr }) rest Ret.attr_val v)
  process_loop-quoted fuel v rest kept e =
      let h1 = record h { state = State.attr_eq } in
      process_loop-again (suc fuel) h _ kept (at_equals (0x22 ∷ (v ++ (0x22 ∷ rest))) kept)
      ∙ process_loop-returned fuel h1 (0x3D ∷ 0x22 ∷ (v ++ (0x22 ∷ rest))) kept
          (value_ends h v rest kept e)
