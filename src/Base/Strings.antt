-- ===== src/Base/Strings.antt =====
-- What the programs use of the C++ strings and streams: `c_str`, and `std::getline`.
use Prim.Native.Nat.{ℕ}
use mathlib.Core.Path.{◌≡◌, refl}
use mathlib.Core.List.{List, [], ◌∷◌, ◌++◌, append_assoc, append-nil}
use native.Mathlib.Omega.{arith}
use smoll.Base.Tests.{◌==◌, if◌then◌else◌}
use smoll.Base.Text.{Bytes, Lacks}

-- A string made of `c_str()`.
unfoldable pub c_str : Bytes → Bytes
c_str [] = []
c_str (b ∷ bs) = let rest = c_str bs in if b == 0 then [] else b ∷ rest

pub c_str-append : (s t : Bytes) → Lacks 0 s → c_str (s ++ 0 ∷ t) ≡ s
unfolding c_str
c_str-append [] t h = refl
c_str-append (c ∷ s) t h = ground (arith, c_str-append s t h.1, h.0)

pub c_str-Lacks : (s : Bytes) → Lacks 0 s → c_str s ≡ s
unfolding c_str
c_str-Lacks [] h = refl
c_str-Lacks (c ∷ s) h = ground (arith, c_str-Lacks s h.1, h.0)

-- The pieces that `getline` reads behind `line`, up to each delimiter; an empty rest is no piece.
unfoldable pub get_lines_from : ℕ → Bytes → Bytes → List Bytes
get_lines_from delimiter [] [] = []
get_lines_from delimiter [] (c ∷ line) = (c ∷ line) ∷ []
get_lines_from delimiter (b ∷ bs) line =
    let longer = get_lines_from delimiter bs (line ++ b ∷ []) in
    let fresh = get_lines_from delimiter bs [] in if b == delimiter then line ∷ fresh else longer

-- `while (std::getline(stream, line, delimiter))`.
unfoldable pub get_lines : ℕ → Bytes → List Bytes
unfolding get_lines_from
get_lines delimiter s = get_lines_from delimiter s []

get_lines_from-append :
    (d : ℕ) (s t line : Bytes)
    → Lacks d s
    → get_lines_from d (s ++ d ∷ t) line ≡ (line ++ s) ∷ get_lines_from d t []
unfolding get_lines_from
get_lines_from-append d [] t line h = ground (arith, append-nil line)
get_lines_from-append d (b ∷ bs) t line h =
    let later = get_lines_from-append d bs t (line ++ b ∷ []) h.1 in
    ground (arith, later, append_assoc line (b ∷ []) bs, h.0)

-- A piece without the delimiter is read first.
pub get_lines-append :
    (d : ℕ) (s t : Bytes) → Lacks d s → get_lines d (s ++ d ∷ t) ≡ s ∷ get_lines d t
unfolding get_lines
get_lines-append d s t h = get_lines_from-append d s t [] h
