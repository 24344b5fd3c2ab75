-- ===== src/Graph/Tests.antt =====
-- The program on small graphs: a subgraph numbers its vertices anew.
use smoll.Base.{
  ℕ, suc, decimal, ◌≡◌, refl, List, [], ◌∷◌, ◌++◌, map, none, some, codes, ◌==◌, if◌then◌else◌,
  get_elem?, drop,
}
use smoll.Graph.{Boost, main}
use smoll.Graph.RoundTrip.{read_graph, main-read}

-- The edges of the root, the vertices of each subgraph, and the number of graphs. The root is 0.
abbrev World : Type 0
World = List (ℕ × ℕ) × (List (ℕ × ℕ) × ℕ)

abbrev neighbours : ℕ → List (ℕ × ℕ) → List ℕ
neighbours v [] = []
neighbours v ((a, b) ∷ es) =
    let rest = neighbours v es in if a == v then b ∷ rest else if b == v then a ∷ rest else rest

-- The vertices of the subgraph, as the root names them.
abbrev members : ℕ → List (ℕ × ℕ) → List ℕ
members g [] = []
members g ((h, v) ∷ ms) = let rest = members g ms in if h == g then v ∷ rest else rest

-- The places from `i` on of those that the list has.
abbrev places : ℕ → List ℕ → List ℕ
places i [] = []
places i (v ∷ vs) = i ∷ places (suc i) vs

abbrev place_of : ℕ → ℕ → List ℕ → List ℕ
place_of i v [] = []
place_of i v (m ∷ ms) = let rest = place_of (suc i) v ms in if m == v then i ∷ rest else rest

abbrev local : List ℕ → List ℕ → List ℕ
local ms [] = []
local ms (v ∷ vs) = place_of 0 v ms ++ local ms vs

abbrev adjacent : ℕ → ℕ → World → List ℕ
adjacent v g w =
    let ms = members g w.1.0 in
    if g == 0
    then neighbours v w.0
    else elim (get_elem? ms v) [ none ↦ [] | some u ↦ local ms (neighbours u w.0) ]

abbrev boost : Boost World ℕ
boost = record {
  create = λ n. (([], ([], 1)), 0);
  create_subgraph = λ g w. ((w.0, (w.1.0, suc w.1.1)), w.1.1);
  add_vertex = λ v g w. (w.0, (w.1.0 ++ (g, v) ∷ [], w.1.1));
  add_edge = λ a b g w. (w.0 ++ (a, b) ∷ [], w.1);
  vertices = λ g w. if g == 0 then 0 ∷ 1 ∷ 2 ∷ [] else places 0 (members g w.1.0);
  adjacent_vertices = adjacent;
}

second_continent_named_anew :
    get_elem? (main boost) 3 ≡ some (codes "G2(continent):\nV=0 EDGES={0,1} \nV=1 EDGES={1,0} \n")
unfolding main decimal
second_continent_named_anew = refl

main-read_example :
    map read_graph (drop 1 (main boost))
    ≡ (some (0, 1 ∷ []) ∷ some (1, 0 ∷ 2 ∷ []) ∷ some (2, 1 ∷ []) ∷ [])
      ∷ (some (0, []) ∷ [])
      ∷ (some (0, 1 ∷ []) ∷ some (1, 0 ∷ []) ∷ [])
      ∷ []
main-read_example = main-read boost
