-- ===== src/Html/Tests.antt =====
-- The reader on short pages.
use fcom.Prelude.{◌*◌, ◌≡◌, refl, some, none, [], ◌∷◌, suc, length}
use fcom.Prelude.Memory.{Bytes}
use fcom.Html.{State, Reader, Ret, opened, process_loop, find, result}
use fcom.Html.Text.{process_loop-text_dropped}
use fcom.Html.Values.{process_loop-unquoted}
use fcom.Html.Ends.{Returns, process_loop-ends}

-- "ok", a line feed, "<b>"
process_loop-text_dropped_example :
    process_loop 4 opened (0x6F ∷ 0x6B ∷ 0x0A ∷ 0x3C ∷ 0x62 ∷ 0x3E ∷ []) []
    ≡ some (
        result
          (record opened { state = State.wspace; nextstate = State.attr; line = 2 })
          (0x3E ∷ [])
          Ret.tag
          (0x62 ∷ []))
process_loop-text_dropped_example =
    process_loop-text_dropped opened refl 0 (0x6F ∷ 0x6B ∷ []) 0x62 0x3E [] [] [] refl
      (unfold find in refl) (unfold find in refl) refl

abbrev after_name : Reader
after_name = record opened { state = State.wspace; nextstate = State.attr_eq }

-- "=7>"
process_loop-unquoted_example : process_loop 100 after_name (0x3D ∷ 0x37 ∷ 0x3E ∷ []) [] ≡ none
process_loop-unquoted_example =
    process_loop-unquoted after_name refl refl 100 0x37 (0x3E ∷ []) [] refl

abbrev page : Bytes
page = 0x6F ∷ 0x0A ∷ 0x3C ∷ 0x62 ∷ 0x20 ∷ 0x2F ∷ 0x3E ∷ []

process_loop-ends_example :
    Returns (length page) (process_loop (suc (4 * length page)) opened page [])
process_loop-ends_example = process_loop-ends page [] (unfold find in refl)
