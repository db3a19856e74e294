-- ===== src/Html/Ends.antt =====
-- Where the reader ends: an input without '='.
use fcom.Prelude.{
  ℕ, zero, suc, ◌+◌, ◌*◌, ◌≤◌, ◌<◌, ◌≡◌, ◌⊎◌, inl, inr, refl, Bool, true, false, Option, none, some,
  [], ◌∷◌, ◌++◌, arith, ◌==◌, if◌then◌else◌, length, Bool-cases, Option-cases, subst, sym,
}
use fcom.Prelude.Memory.{Bytes}
use fcom.Html.{
  State, Reader, Ret, find, at_text, at_tag_1, at_tag, at_wspace, at_attr, at_attr_eq, at_angl_r,
  dispatch, process_loop, Outcome, Called, opened, result, again, returned,
}

abbrev pub NoEquals : Bytes → Type 0
NoEquals s = find (λ c. c == 0x3D) s ≡ none

-- What a search finds, where the bytes have no '='.
record Found (fits : ℕ → Bool) (s before : Bytes) (c : ℕ) (after : Bytes) : Type 0 where
  size : length s ≡ length before + suc (length after)
  does_fit : fits c ≡ true
  rest : NoEquals (c ∷ after)

NoEquals-eq : (s t : Bytes) → NoEquals s → s ≡ t → NoEquals t
NoEquals-eq s t n e = subst NoEquals e n

find_lem :
    (fits : ℕ → Bool) (s : Bytes) {before : Bytes} {c : ℕ} {after : Bytes}
    → NoEquals s
    → find fits s ≡ some (before, c, after)
    → Found fits s before c after
unfolding find
find_lem fits [] n e = cc
find_lem fits (d ∷ s) {before} {c} {after} n e = elim (Bool-cases (fits d)) [
  | inl f ↦ record {
    size = ground arith;
    does_fit = ground arith;
    rest = NoEquals-eq (d ∷ s) (c ∷ after) n (ground arith);
  }
  | inr f ↦ elim (Option-cases (find fits s)) [
    | inl g ↦ absurd (ground arith)
    | inr ((b', d', a'), g) ↦
        let ih = find_lem fits s {before = b'} {c = d'} {after = a'} (ground arith) g in
        record {
          size = ground (arith, ih.size);
          does_fit = ground (arith, ih.does_fit);
          rest = NoEquals-eq (d' ∷ a') (c ∷ after) ih.rest (ground arith);
        }
  ]
]

-- The states that the reader is in between two rounds, on such an input.
abbrev IsSound : State → State → Bytes → Type 0
IsSound State.text follows s = Unit
IsSound State.tag_1 follows s = Unit
IsSound State.tag follows s = Unit
IsSound State.wspace follows s = (follows ≡ State.attr) ⊎ (follows ≡ State.attr_eq)
IsSound State.attr follows s = Unit
IsSound State.attr_eq follows s = 0 < length s
IsSound State.attr_val follows s = ⊥
IsSound State.angl_r follows s = Unit

-- The rounds that a state may take without reading.
abbrev rank : State → State → ℕ
rank State.text follows = 0
rank State.tag_1 follows = 3
rank State.tag follows = 2
rank State.wspace follows = elim follows [
  | State.text ↦ 2
  | State.tag_1 ↦ 2
  | State.tag ↦ 2
  | State.wspace ↦ 2
  | State.attr ↦ 2
  | State.attr_eq ↦ 4
  | State.attr_val ↦ 2
  | State.angl_r ↦ 2
]
rank State.attr follows = 1
rank State.attr_eq follows = 3
rank State.attr_val follows = 0
rank State.angl_r follows = 0

abbrev measure : Reader → Bytes → ℕ
measure h s = 4 * length s + rank h.state h.nextstate

-- What a round leaves.
abbrev Ends : ℕ → ℕ → Outcome → Type 0
Ends n m (again h s kept) =
    IsSound h.state h.nextstate s × NoEquals s × (measure h s < m) × (length s ≤ n)
Ends n m (returned h rest ret out) = length rest ≤ n
Ends n m Outcome.past_end = ⊥

NoEquals-tail : (c : ℕ) (s : Bytes) → NoEquals (c ∷ s) → NoEquals s
unfolding find
NoEquals-tail c s n = elim (Option-cases (find (λ c. c == 0x3D) s)) [
  | inl e ↦ e
  | inr (x, e) ↦ absurd (ground arith)
]

-- What is known of the split that a search gave.
abbrev Splits : Bytes → Option (Bytes × ℕ × Bytes) → Type 0
Splits s none = Unit
Splits s (some (before, c, after)) =
    (length s ≡ length before + suc (length after)) × NoEquals (c ∷ after) × NoEquals after

find-Splits : (fits : ℕ → Bool) (s : Bytes) → NoEquals s → Splits s (find fits s)
find-Splits fits s n = elim (Option-cases (find fits s)) [
  | inl e ↦ subst (Splits s) (sym e) tt
  | inr ((before, c, after), e) ↦
      let f = find_lem fits s n e in
      subst (Splits s) (sym e) (f.size, f.rest, NoEquals-tail c after f.rest)
]

Ends-if :
    (n m : ℕ) (b : Bool) (x y : Outcome)
    → (b ≡ true → Ends n m x)
    → (b ≡ false → Ends n m y)
    → Ends n m (if b then x else y)
Ends-if n m true x y p q = p refl
Ends-if n m false x y p q = q refl

head_equals : (c : ℕ) (s : Bytes) → NoEquals (c ∷ s) → (c == 0x3D) ≡ true → ⊥
unfolding find
head_equals c s n t = ground arith

at_text-Ends :
    (h : Reader) (s k : Bytes) (o : Option (Bytes × ℕ × Bytes))
    → h.state ≡ State.text
    → Splits s o
    → Ends (length s) (measure h s) (at_text h s k o)
unfolding at_text
at_text-Ends h s k none e w =
    elim (k ++ s)
      as (λ x.
        Ends (length s) (measure h s)
          (elim x [ [] ↦ returned h s Ret.more [] | c ∷ t ↦ returned h [] Ret.text (c ∷ t) ])) [
            | [] ↦ omega arith
            | c ∷ t ↦ omega arith
          ]
at_text-Ends h s k (some (before, c, after)) e w =
    Ends-if (length s) (measure h s) (c == 0x0A) _ _
      (λ t. (
        subst (λ x. IsSound x h.nextstate after) (sym e) tt,
        w.2,
        omega (arith, w.0),
        omega (arith, w.0),
      ))
      (λ t. start before (w.0))
  where
    start :
        (before : Bytes)
        → length s ≡ length before + suc (length after)
        → Ends (length s) (measure h s) (elim before [
          | [] ↦ again (record h { state = State.tag_1 }) after k
          | b ∷ bs ↦ returned h (c ∷ after) Ret.text (k ++ (b ∷ bs))
        ])
    start [] q = (tt, w.2, omega arith, omega arith)
    start (b ∷ bs) q = omega arith

at_tag_1-Ends :
    (h : Reader) (s k : Bytes)
    → NoEquals s
    → h.state ≡ State.tag_1
    → Ends (length s) (measure h s) (at_tag_1 h s k)
at_tag_1-Ends h [] k n e = (tt, n, ground arith, omega arith)
at_tag_1-Ends h (c ∷ s) k n e =
    Ends-if (length (c ∷ s)) (measure h (c ∷ s)) (c == 0x2F) _ _
      (λ t. (tt, NoEquals-tail c s n, ground arith, omega arith))
      (λ t. (tt, n, ground arith, omega arith))

at_tag-Ends :
    (h : Reader) (s k : Bytes) (o : Option (Bytes × ℕ × Bytes))
    → NoEquals s
    → h.state ≡ State.tag
    → Splits s o
    → Ends (length s) (measure h s) (at_tag h s k o)
unfolding at_tag
at_tag-Ends h s k none n e w = omega arith
at_tag-Ends h s k (some ([], c, after)) n e w = (tt, n, ground arith, omega arith)
at_tag-Ends h s k (some (b ∷ bs, c, after)) n e w =
    Ends-if (length s) (measure h s) h.tag_lslash _ _ (λ t. omega (arith, w.0))
      (λ t. omega (arith, w.0))

at_attr-Ends :
    (h : Reader) (s k : Bytes) (o : Option (Bytes × ℕ × Bytes))
    → NoEquals s
    → h.state ≡ State.attr
    → Splits s o
    → Ends (length s) (measure h s) (at_attr h s k o)
unfolding at_attr
at_attr-Ends h s k none n e w = omega arith
at_attr-Ends h s k (some ([], c, after)) n e w =
    Ends-if (length s) (measure h s) (c == 0x3E) _ _
      (λ t. (tt, w.2, omega (arith, w.0), omega (arith, w.0)))
      (λ t.
        Ends-if (length s) (measure h s) (c == 0x2F) _ _ (λ u. omega (arith, w.0))
          (λ u. (tt, n, ground arith, omega arith)))
at_attr-Ends h s k (some (b ∷ bs, c, after)) n e w = omega (arith, w.0)

at_wspace-Ends :
    (h : Reader) (s k : Bytes) (o : Option (Bytes × ℕ × Bytes))
    → h.state ≡ State.wspace
    → (h.nextstate ≡ State.attr) ⊎ (h.nextstate ≡ State.attr_eq)
    → Splits s o
    → Ends (length s) (measure h s) (at_wspace h k o)
unfolding at_wspace
at_wspace-Ends h s k none e f w = omega arith
at_wspace-Ends h s k (some (before, c, after)) e f w =
    Ends-if (length s) (measure h s) (c == 0x0A) _ _
      (λ t. (
        subst (λ x. IsSound x h.nextstate after) (sym e) f,
        w.2,
        omega (arith, w.0),
        omega (arith, w.0),
      ))
      (λ t. to_next f)
  where
    to_next :
        (h.nextstate ≡ State.attr) ⊎ (h.nextstate ≡ State.attr_eq)
        → Ends (length s) (measure h s) (again (record h { state = h.nextstate }) (c ∷ after) k)
    to_next (inl q) = (
      subst (λ x. IsSound x h.nextstate (c ∷ after)) (sym q) tt,
      w.1,
      ground (arith, w.0),
      omega (arith, w.0),
    )
    to_next (inr q) = (
      subst (λ x. IsSound x h.nextstate (c ∷ after)) (sym q) (omega arith),
      w.1,
      ground (arith, w.0),
      omega (arith, w.0),
    )

at_angl_r-Ends :
    (h : Reader) (s k : Bytes) (o : Option (Bytes × ℕ × Bytes))
    → h.state ≡ State.angl_r
    → Splits s o
    → Ends (length s) (measure h s) (at_angl_r h k o)
unfolding at_angl_r
at_angl_r-Ends h s k none e w = omega arith
at_angl_r-Ends h s k (some (before, c, after)) e w =
    Ends-if (length s) (measure h s) (c == 0x0A) _ _
      (λ t. (
        subst (λ x. IsSound x h.nextstate after) (sym e) tt,
        w.2,
        omega (arith, w.0),
        omega (arith, w.0),
      ))
      (λ t. (tt, w.2, omega (arith, w.0), omega (arith, w.0)))

at_attr_eq-Ends :
    (h : Reader) (s k : Bytes)
    → NoEquals s
    → h.state ≡ State.attr_eq
    → 0 < length s
    → Ends (length s) (measure h s) (at_attr_eq h s k)
unfolding at_attr_eq
at_attr_eq-Ends h [] k n e p = absurd (omega arith)
at_attr_eq-Ends h (c ∷ s) k n e p =
    Ends-if (length (c ∷ s)) (measure h (c ∷ s)) (c == 0x3D) _ _ (λ t. absurd (head_equals c s n t))
      (λ t. (inl refl, n, ground arith, omega arith))

dispatch-Ends :
    (z : State) (h : Reader) (s k : Bytes)
    → NoEquals s
    → h.state ≡ z
    → IsSound z h.nextstate s
    → Ends (length s) (measure h s) (dispatch z h s k)
unfolding dispatch
dispatch-Ends State.text h s k n e g =
    at_text-Ends (record h { out_preserve = false }) s _ _ e (find-Splits _ s n)
dispatch-Ends State.tag_1 h s k n e g = at_tag_1-Ends h s k n e
dispatch-Ends State.tag h s k n e g = at_tag-Ends h s k _ n e (find-Splits _ s n)
dispatch-Ends State.wspace h s k n e g = at_wspace-Ends h s k _ e g (find-Splits _ s n)
dispatch-Ends State.attr h s k n e g = at_attr-Ends h s k _ n e (find-Splits _ s n)
dispatch-Ends State.attr_eq h s k n e g = at_attr_eq-Ends h s k n e g
dispatch-Ends State.attr_val h s k n e g = absurd g
dispatch-Ends State.angl_r h s k n e g = at_angl_r-Ends h s k _ e (find-Splits _ s n)

-- A call ends with a result.
abbrev pub Returns : ℕ → Option Called → Type 0
Returns n none = ⊥
Returns n (some (result h rest ret out)) = length rest ≤ n
Returns n (some Called.past_end) = ⊥

Returns-le : (n m : ℕ) (o : Option Called) → n ≤ m → Returns n o → Returns m o
Returns-le n m none le r = r
Returns-le n m (some (result h rest ret out)) le r = omega arith
Returns-le n m (some Called.past_end) le r = r

loop_ends :
    (fuel : ℕ) (h : Reader) (s k : Bytes)
    → NoEquals s
    → IsSound h.state h.nextstate s
    → measure h s < fuel
    → Returns (length s) (process_loop fuel h s k)
unfolding process_loop
loop_ends zero h s k n g lt = absurd (omega arith)
loop_ends (suc fuel) h s k n g lt =
    go (dispatch h.state h s k) (dispatch-Ends h.state h s k n refl g) (loop_ends fuel)
  where
    go :
        (x : Outcome)
        → Ends (length s) (measure h s) x
        → ((h' : Reader) (s' k' : Bytes)
            → NoEquals s'
            → IsSound h'.state h'.nextstate s'
            → measure h' s' < fuel
            → Returns (length s') (process_loop fuel h' s' k'))
        → Returns (length s) (elim x [
          | again h' s' k' ↦ process_loop fuel h' s' k'
          | returned h' rest ret out ↦ some (result h' rest ret out)
          | Outcome.past_end ↦ some Called.past_end
        ])
    go (again h' s' k') w ih =
        Returns-le (length s') (length s) (process_loop fuel h' s' k') w.3
          (ih h' s' k' w.1 w.0 (omega (arith, w.2)))
    go (returned h' rest ret out) w ih = w
    go Outcome.past_end w ih = w

-- A call of the reader as it is after `htmlread_open`, on an input without '=', returns in at most
-- four rounds for each byte and one more, without a read past the end, and leaves no more input
-- than it was given.
pub process_loop-ends :
    (s k : Bytes) → NoEquals s → Returns (length s) (process_loop (suc (4 * length s)) opened s k)
process_loop-ends s k n = loop_ends (suc (4 * length s)) opened s k n tt (omega arith)
