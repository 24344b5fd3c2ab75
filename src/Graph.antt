-- ===== src/Graph.antt =====
-- cpp/graph/enum_map.cpp: the printed graphs. boost's graphs are a parameter: a world that holds them
-- all, since a subgraph shows the edges of the graph above it.
pub mod RoundTrip
mod Tests
use smoll.Base.{ℕ, ◌≡◌, List, [], ◌∷◌, ◌++◌, Bytes, codes, decimal}

-- `W` is the world, and `G` names a graph in it. The calls that add return nothing that is used.
pub record Boost (W G : Type 0) : Type 0 where
  pub create : ℕ → W × G
  pub create_subgraph : G → W → W × G
  pub add_vertex : ℕ → G → W → W
  pub add_edge : ℕ → ℕ → G → W → W
  pub vertices : G → W → List ℕ
  pub adjacent_vertices : ℕ → G → W → List ℕ

-- The loop over the neighbours.
unfoldable pub edges_text : ℕ → List ℕ → Bytes
edges_text v [] = codes "\n"
edges_text v (n ∷ ns) =
    codes "{" ++ (decimal v ++ (codes "," ++ (decimal n ++ (codes "} " ++ edges_text v ns))))

-- The enumerators.
abbrev pub canada : ℕ
canada = 0

abbrev pub usa : ℕ
usa = 1

abbrev pub mexico : ℕ
mexico = 2

module _ {W G : Type 0} (boost : Boost W G) where
  unfoldable pub print_vertices : G → W → List ℕ → Bytes
  unfolding edges_text
  print_vertices g w [] = []
  print_vertices g w (v ∷ vs) =
      (codes "V="
        ++ (decimal v ++ (codes " EDGES=" ++ edges_text v (boost.adjacent_vertices v g w))))
      ++ print_vertices g w vs

  unfoldable pub gprint : G → W → Bytes
  unfolding print_vertices
  gprint g w = print_vertices g w (boost.vertices g w)

  -- The graphs that `main` builds: the root, its two subgraphs, and the world at the end.
  abbrev pub built : W × (G × (G × G))
  built =
      let (w0, g0) = boost.create 3 in
      let (w1, g1) = boost.create_subgraph g0 w0 in
      let (w2, g2) = boost.create_subgraph g0 w1 in
      let w3 = boost.add_vertex canada g1 w2 in
      let w4 = boost.add_vertex usa g2 w3 in
      let w5 = boost.add_vertex mexico g2 w4 in
      let w6 = boost.add_edge canada usa g0 w5 in (boost.add_edge usa mexico g0 w6, (g0, (g1, g2)))

  -- The four texts that `main` prints: the enumerators, and each graph under its heading.
  unfoldable pub main : List Bytes
  unfolding gprint
  main =
      let (w, (g0, (g1, g2))) = built in
      (codes "Canada="
        ++ (decimal canada
            ++ (codes " USA="
                ++ (decimal usa ++ (codes " Mexico=" ++ (decimal mexico ++ codes "\n"))))))
      ∷ (codes "G0(world):\n" ++ gprint g0 w)
      ∷ (codes "G1(continent):\n" ++ gprint g1 w)
      ∷ (codes "G2(continent):\n" ++ gprint g2 w)
      ∷ []
