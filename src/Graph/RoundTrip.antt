-- ===== src/Graph/RoundTrip.antt =====
-- The graph is read back from its printed text.
use smoll.Base.{
  ℕ, ◌+◌, ◌-◌, ◌*◌, ◌≡◌, ◌≢◌, refl, sym, ap, subst, ◌∙◌, List, [], ◌∷◌, ◌++◌, map, Bool, true,
  false, ◌&&◌, Option, none, some, Bytes, codes, decimal, decimal-IsDigit, IsDigit, value_from,
  value_from-decimal, leb, arith, All, Lacks, Lacks-IsDigit, Lacks-append, drop, append_assoc,
  get_lines, get_lines-append,
}
use smoll.Graph.{Boost, edges_text, print_vertices, gprint, built, main}

abbrev pub is_digit : ℕ → Bool
is_digit c = leb b'0' c && leb c b'9'

-- The numbers in a text, by the runs of its digits; the run so far has the value `run`.
unfoldable pub numbers : Option ℕ → Bytes → List ℕ
numbers none [] = []
numbers (some run) [] = run ∷ []
numbers none (c ∷ s) = elim (is_digit c) [
  | true ↦ numbers (some (c - b'0')) s
  | false ↦ numbers none s
]
numbers (some run) (c ∷ s) = elim (is_digit c) [
  | true ↦ numbers (some (run * 10 + (c - b'0'))) s
  | false ↦ run ∷ numbers none s
]

-- A vertex and its neighbours: the first number, and each second one of the pairs behind it.
abbrev pub seconds : List ℕ → List ℕ
seconds [] = []
seconds (v ∷ []) = []
seconds (v ∷ n ∷ ns) = n ∷ seconds ns

unfoldable pub read_line : Bytes → Option (ℕ × List ℕ)
unfolding numbers
read_line line = elim (numbers none line) [ [] ↦ none | v ∷ ns ↦ some (v, seconds ns) ]

-- A text under a heading, read line by line.
unfoldable pub read_graph : Bytes → List (Option (ℕ × List ℕ))
unfolding get_lines read_line
read_graph text = map read_line (drop 1 (get_lines b'\n' text))

numbers-run :
    (ds : Bytes) (run c : ℕ) (s : Bytes)
    → All IsDigit ds
    → is_digit c ≡ false
    → numbers (some run) (ds ++ c ∷ s) ≡ value_from run ds ∷ numbers none s
unfolding numbers
numbers-run [] run c s digits other = ground arith
numbers-run (d ∷ ds) run c s digits other =
    let later = numbers-run ds (run * 10 + (d - b'0')) c s digits.1 other in
    ground (arith, later, digits.0)

decimal-nonempty : (n : ℕ) → decimal n ≢ []
unfolding decimal
decimal-nonempty n e =
    let zero_only : n ≡ 0 = sym (value_from-decimal n) ∙ ap (value_from 0) e in
    subst (λ k. decimal k ≢ []) (sym zero_only) (λ h. cc) e

numbers-digits :
    (ds : Bytes) (c : ℕ) (s : Bytes)
    → All IsDigit ds
    → ds ≢ []
    → is_digit c ≡ false
    → numbers none (ds ++ c ∷ s) ≡ value_from 0 ds ∷ numbers none s
unfolding numbers
numbers-digits [] c s digits some_digit other = absurd (some_digit refl)
numbers-digits (d ∷ ds) c s digits some_digit other =
    let later = numbers-run ds (d - b'0') c s digits.1 other in
    let first : 0 + (d - b'0') ≡ d - b'0' = omega arith in ground (arith, later, first, digits.0)

-- A number, and the byte behind it that is no digit.
numbers-decimal :
    (n c : ℕ) (s : Bytes)
    → is_digit c ≡ false
    → numbers none (decimal n ++ c ∷ s) ≡ n ∷ numbers none s
numbers-decimal n c s other =
    numbers-digits (decimal n) c s (decimal-IsDigit n) (decimal-nonempty n) other
    ∙ ap (λ k. k ∷ numbers none s) (value_from-decimal n)

-- What edges_text writes before the end of the line.
pairs_text : ℕ → List ℕ → Bytes
pairs_text v [] = []
pairs_text v (n ∷ ns) =
    codes "{" ++ (decimal v ++ (codes "," ++ (decimal n ++ (codes "} " ++ pairs_text v ns))))

line_text : ℕ → List ℕ → Bytes
unfolding pairs_text
line_text v ns = codes "V=" ++ (decimal v ++ (codes " EDGES=" ++ pairs_text v ns))

seconds-pairs : (v : ℕ) (ns : List ℕ) → seconds (numbers none (pairs_text v ns)) ≡ ns
unfolding pairs_text numbers
seconds-pairs v [] = refl
seconds-pairs v (n ∷ ns) =
    ap seconds (
      numbers-decimal v b',' (decimal n ++ (codes "} " ++ pairs_text v ns)) refl
      ∙ ap (λ l. v ∷ l) (numbers-decimal n b'}' (codes " " ++ pairs_text v ns) refl))
    ∙ ap (λ l. n ∷ l) (seconds-pairs v ns)

read_line-line_text : (v : ℕ) (ns : List ℕ) → read_line (line_text v ns) ≡ some (v, ns)
unfolding read_line line_text numbers
read_line-line_text v ns =
    ap (λ l. elim l [ [] ↦ none | w ∷ ms ↦ some (w, seconds ms) ])
      (numbers-decimal v b' ' (codes "EDGES=" ++ pairs_text v ns) refl)
    ∙ ap (λ l. some (v, l)) (seconds-pairs v ns)

newline-Lacks : (n : ℕ) → Lacks b'\n' (decimal n)
newline-Lacks n = Lacks-IsDigit b'\n' (decimal n) (omega arith) (decimal-IsDigit n)

pairs_text-Lacks : (v : ℕ) (ns : List ℕ) → Lacks b'\n' (pairs_text v ns)
unfolding pairs_text
pairs_text-Lacks v [] = tt
pairs_text-Lacks v (n ∷ ns) = (
  omega arith,
  Lacks-append b'\n' (decimal v) _ (newline-Lacks v) (
    omega arith,
    Lacks-append b'\n' (decimal n) _ (newline-Lacks n)
        (omega arith, (omega arith, pairs_text-Lacks v ns)),
  ),
)

line_text-Lacks : (v : ℕ) (ns : List ℕ) → Lacks b'\n' (line_text v ns)
unfolding line_text
line_text-Lacks v ns = (
  omega arith,
  (
    omega arith,
    Lacks-append b'\n' (decimal v) _ (newline-Lacks v) (
        Lacks-append b'\n' (codes " EDGES=") (pairs_text v ns) (omega arith)
          (pairs_text-Lacks v ns)),
  ),
)

edges_text-pairs : (v : ℕ) (ns : List ℕ) → edges_text v ns ≡ pairs_text v ns ++ b'\n' ∷ []
unfolding edges_text pairs_text
edges_text-pairs v [] = refl
edges_text-pairs v (n ∷ ns) = rw (edges_text-pairs v ns) (simp (append_assoc))

module _ {W G : Type 0} (boost : Boost W G) where
  shown : G → W → List ℕ → List (Option (ℕ × List ℕ))
  shown g w vs = map (λ v. some (v, boost.adjacent_vertices v g w)) vs

  print_vertices-line :
      (g : G) (w : W) (v : ℕ) (vs : List ℕ)
      → print_vertices boost g w (v ∷ vs)
        ≡ line_text v (boost.adjacent_vertices v g w) ++ b'\n' ∷ print_vertices boost g w vs
  unfolding print_vertices line_text
  print_vertices-line g w v vs =
      rw (edges_text-pairs v (boost.adjacent_vertices v g w)) (simp (append_assoc))

  read_print_vertices :
      (g : G) (w : W) (vs : List ℕ)
      → map read_line (get_lines b'\n' (print_vertices boost g w vs)) ≡ shown g w vs
  unfolding print_vertices shown get_lines
  read_print_vertices g w [] = refl
  read_print_vertices g w (v ∷ vs) =
      let ns = boost.adjacent_vertices v g w in
      ap (λ t. map read_line (get_lines b'\n' t)) (print_vertices-line g w v vs)
      ∙ ap (map read_line) (
          get_lines-append b'\n' (line_text v ns) (print_vertices boost g w vs)
            (line_text-Lacks v ns))
      ∙ ap (λ r. r ∷ map read_line (get_lines b'\n' (print_vertices boost g w vs)))
          (read_line-line_text v ns)
      ∙ ap (λ l. some (v, ns) ∷ l) (read_print_vertices g w vs)

  -- Each vertex of a graph with its neighbours.
  abbrev pub graph_of : G → W → List (Option (ℕ × List ℕ))
  graph_of g w = map (λ v. some (v, boost.adjacent_vertices v g w)) (boost.vertices g w)

  read_titled :
      (title : Bytes) (g : G) (w : W)
      → Lacks b'\n' title
      → read_graph (title ++ b'\n' ∷ gprint boost g w) ≡ graph_of g w
  unfolding read_graph gprint shown
  read_titled title g w h =
      ap (λ l. map read_line (drop 1 l)) (get_lines-append b'\n' title (gprint boost g w) h)
      ∙ read_print_vertices g w (boost.vertices g w)

  -- Whatever boost makes of the calls of `main`: each of the three texts behind the first names the
  -- vertices of its graph, in order, and for each vertex its neighbours in order; all of them can be
  -- read back.
  pub main-read :
      let (w, (g0, (g1, g2))) = built boost in
      map read_graph (drop 1 (main boost)) ≡ graph_of g0 w ∷ graph_of g1 w ∷ graph_of g2 w ∷ []
  unfolding main
  main-read =
      let (w, (g0, (g1, g2))) = built boost in
      rw
        (
          read_titled (codes "G0(world):") g0 w (omega arith),
          read_titled (codes "G1(continent):") g1 w (omega arith),
          read_titled (codes "G2(continent):") g2 w (omega arith),
        )
        refl
