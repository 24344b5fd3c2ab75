-- ===== src/Opendht/BodyLines.antt =====
-- cpp/opendht/http.cpp: the callback on a piece of the body. The JSON reader is a parameter.
pub mod Streams
use smoll.Base.{List, [], ◌∷◌, Bytes, get_lines}

-- What the reader makes of a line: a value, `false`, or an exception.
pub data Parse (J : Type 0) : Type 0 where
  parsed : J → Parse J
  unparsable throws : Parse J

-- How the callback ends: the loop is over, "parsing failed", or "body parsing error".
pub data Ending : Type 0 where
  whole parse_failed body_error : Ending

pub record Report (J : Type 0) : Type 0 where
  pub printed : List J
  pub ending : Ending

module _ {J : Type 0} (parse : Bytes → Parse J) where
  -- The body of the `while` loop, on one line after the other.
  unfoldable pub on_lines : List Bytes → Report J
  on_lines [] = record { printed = []; ending = Ending.whole }
  on_lines (line ∷ lines) = elim (parse line) [
    | parsed json ↦
        let rest = on_lines lines in record { printed = json ∷ rest.printed; ending = rest.ending }
    | unparsable ↦ record { printed = []; ending = Ending.parse_failed }
    | throws ↦ record { printed = []; ending = Ending.body_error }
  ]

  unfoldable pub on_body : Bytes → Report J
  unfolding on_lines
  on_body body = on_lines (get_lines b'\n' body)
