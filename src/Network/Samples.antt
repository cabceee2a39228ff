-- ===== src/Network/Samples.antt =====
-- Sources of cells for tests: the DHT has the cells of the first row, and a node answers with one
-- proof. A proof is the number of the commitment.
use avail_light.Prelude.{ℕ, Bool, true, Option, some, none, List, [], ◌∷◌, ◌==◌, if◌then◌else◌}
use avail_light.Types.Block.{Position}
use avail_light.Types.Samples.{numeric, at}
use avail_light.Network.{Sources}

abbrev accepts : ℕ → List ℕ → Option Bool
accepts commitment [] = none
accepts commitment (x ∷ xs) = some (x == commitment)

abbrev pub sources : Sources numeric
sources = record {
  p2p_available = true;
  dht_parallelization_limit = 1;
  dht_content = λ p. if p.row == 0 then some (11 ∷ []) else none;
  query_proof = λ hash ps. some ((12 ∷ []) ∷ []);
  verify_v2 = λ d commitment c. accepts commitment c.content;
  ratio = λ a b. a;
}

abbrev pub asked : List Position
asked = at 0 3 ∷ at 1 2 ∷ []
