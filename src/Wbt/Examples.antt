-- ===== src/Wbt/Examples.antt =====
-- wbt-translator: a world of three waypoints on a line.
use p7_kode.Base.{
  false, Result, ℕ, zero, suc, ◌+◌, ◌*◌, ◌≤◌, ◌<◌, ◌≡◌, refl, ltb, leb, List, [], ◌∷◌, some, arith,
  if◌then◌else◌, All, ok,
}
use Prim.Native.Nat.{◌-◌}
use p7_kode.Base.Int.{ℤ, pos}
use p7_kode.Base.IntMap.{lookup}
use p7_kode.Base.Double.{Double, Exact}
use p7_kode.Base.Decimal.{to_string}
use p7_kode.Wbt.World.{Waypoint, WaypointType, Ast, euclidean_distance}
use p7_kode.Wbt.Apsp.{ApspResult, all_pairs_shortest_path}
use p7_kode.Wbt.Apsp.Graph.{IsNumbered, IsBelow}
use p7_kode.Base.Text.{Bytes, codes}
use p7_kode.Wbt.Parser.{Input, World, parse_stream, fields_loop, no_fields, parse_waypoint}
use p7_kode.Wbt.Parser.Tokens.{before}
use p7_kode.Wbt.Parser.Words.{IsNumber}
use p7_kode.Wbt.Parser.Waypoints.{
  Item, ignored, identified, connected, translated, IsItem, parse_waypoint-items_text,
}
use p7_kode.Wbt.Adjlist.Numbers.{numbers, of_file, parse_adjlist-numbers}
use p7_kode.Wbt.Parser.Fuel.{Streams, Fills, parse_stream-Streams}
use p7_kode.Wbt.Adjlist.{parse_adjlist}
use p7_kode.Util.Split.{pieces}
use p7_kode.Base.{inl, inr}
use p7_kode.Wbt.DistanceMatrix.{distance_matrix}
use p7_kode.Wbt.DistanceMatrix.Entries.{tabulate, IsDirect, distance_matrix-tabulate}
use p7_kode.Wbt.Apsp.Shortest.{IsShortest, HasShortEdges, all_pairs_shortest_path-IsShortest}

-- The root of a square number up to the square of r.
unfoldable root : ℕ → ℕ → ℕ
root zero m = 0
root (suc r) m = let rest = root r m in if leb (suc r * suc r) m then suc r else rest

root-bound : (r m : ℕ) → root r m ≤ r
unfolding root
root-bound zero m = omega arith
root-bound (suc r) m = let h = root-bound r m in ground arith

-- Natural numbers in place of doubles, with the difference of two numbers for `-`.
abbrev whole : Double
whole = record {
  Carrier = ℕ;
  add = ◌+◌;
  sub = λ a b. (a - b) + (b - a);
  mul = ◌*◌;
  sqrt = root 20;
  lt = ltb;
  literal = λ s. 0;
  of_int = λ z. 0;
  dbl_max = 20;
}

whole-Exact : Exact whole
whole-Exact = record {
  units = λ a. a;
  lt_units = λ a b. refl;
  add_small = λ a b h. refl;
  add_large = λ a b h. omega arith;
  zero_units = refl;
}

-- The waypoint of an id at a place of the line, between others.
abbrev waypoint : ℕ → ℕ → List ℤ → Waypoint whole
waypoint id x ids = record {
  id = pos id;
  adjlist = ids;
  translation = record { x = x; y = 0; z = 0 };
  waypoint_type = WaypointType.via;
}

abbrev line : ℕ → Waypoint whole
line zero = waypoint 0 0 (pos 1 ∷ [])
line (suc zero) = waypoint 1 3 (pos 0 ∷ pos 2 ∷ [])
line (suc (suc i)) = waypoint 2 7 (pos 1 ∷ [])

abbrev world : Ast whole
world = (pos 0, line 0) ∷ (pos 1, line 1) ∷ (pos 2, line 2) ∷ []

line-found : (i : ℕ) → i < 3 → lookup (pos i) world ≡ some (line i)
unfolding lookup
line-found zero h = refl
line-found (suc zero) h = refl
line-found (suc (suc zero)) h = refl
line-found (suc (suc (suc i))) h = absurd (omega arith)

line-id : (i : ℕ) → i < 3 → (line i).id ≡ pos i
line-id zero h = refl
line-id (suc zero) h = refl
line-id (suc (suc zero)) h = refl
line-id (suc (suc (suc i))) h = absurd (omega arith)

line-adjacent : (i : ℕ) → All (IsBelow whole 3) (line i).adjlist
line-adjacent zero = ((1, omega arith, refl), tt)
line-adjacent (suc zero) = ((0, omega arith, refl), ((2, omega arith, refl), tt))
line-adjacent (suc (suc i)) = ((1, omega arith, refl), tt)

world-IsNumbered : IsNumbered whole world
world-IsNumbered = record {
  point = line;
  listed = (
    (0, omega arith, refl, refl),
    ((1, omega arith, refl, refl), ((2, omega arith, refl, refl), tt)),
  );
  found = line-found;
  ids = line-id;
  adjacent = λ i h. line-adjacent i;
}

world-HasShortEdges : HasShortEdges whole whole-Exact world
unfolding euclidean_distance whole-Exact
world-HasShortEdges i j v w e f = root-bound 20 _

all_pairs_shortest_path-IsShortest_example :
    (r : ApspResult whole) × (all_pairs_shortest_path whole world ≡ ok r)
    × IsShortest whole whole-Exact world r 0 2
all_pairs_shortest_path-IsShortest_example =
    all_pairs_shortest_path-IsShortest whole whole-Exact world world-IsNumbered world-HasShortEdges
      0 2 (omega arith) (omega arith)

distance_matrix-tabulate_example :
    (f : ℕ → ℕ → ℕ) × (distance_matrix whole world ≡ ok (tabulate 3 (λ i. tabulate 3 (f i))))
    × ((i k : ℕ) → i < 3 → k < 3 → IsDirect whole world world-IsNumbered i k (f i k))
distance_matrix-tabulate_example = distance_matrix-tabulate whole world world-IsNumbered

-- std::stod where every text is the number 5.
abbrev five : Bytes → Result ℕ
five s = ok 5

five-IsNumber : IsNumber whole five (codes "5") 5
five-IsNumber = record {
  first = b'5';
  others = [];
  is_word = refl;
  graph = (refl, tt);
  read = refl;
}

-- The node of a world file, with its fields in the order of Webots.
abbrev read_station : ℕ → ℕ → ℕ → Waypoint whole
read_station x y z = record {
  id = pos 1;
  adjlist = pos 0 ∷ pos 2 ∷ [];
  translation = record { x = x; y = y; z = z };
  waypoint_type = WaypointType.station;
}

abbrev node_items : List (Item whole five)
node_items =
    ignored (codes " ") (codes "{")
    ∷ identified (codes "\n  ") (pos 1)
    ∷ connected (codes "\n  ") (pos 0) (pos 2 ∷ [])
    ∷ translated (codes "\n  ") (codes "5") (codes "5") (codes "5") (record { x = 5; y = 5; z = 5 })
    ∷ []

node_items-IsItem : All (IsItem whole five) node_items
node_items-IsItem = (
  ((refl, (refl, tt)), (λ e. cc), (refl, tt), (λ e. cc), (λ e. cc), (λ e. cc)),
  (
    ((refl, (refl, (refl, (refl, tt)))), (omega arith)),
    (
      ((refl, (refl, (refl, (refl, tt)))), (omega arith, (omega arith, tt))),
      (((refl, (refl, (refl, (refl, tt)))), five-IsNumber, five-IsNumber, five-IsNumber), tt),
    ),
  ),
)

parse_waypoint-items_text_example :
    parse_waypoint whole five
      (codes "Station")
      (before (codes " {\n  id 1\n  adjList \"0,2\"\n  translation 5 5 5\n  boxColor 0 1 0\n}"))
    ≡ (ok (read_station 5 5 5), before (codes "\n  boxColor 0 1 0\n}"))
unfolding to_string
parse_waypoint-items_text_example =
    parse_waypoint-items_text whole five WaypointType.station node_items
      (codes "\n  boxColor 0 1 0\n}") (read_station 5 5 5) node_items-IsItem refl
      (inl refl, (inl refl, (inr (inl refl), (inr (inr refl), (refl, refl, refl)))))

parse_adjlist-numbers_example :
    parse_adjlist (codes "2,10") ≡ of_file (numbers (pieces b',' (codes "2,10")))
parse_adjlist-numbers_example = parse_adjlist-numbers (codes "2,10")

abbrev two_robots : Input
two_robots = record { unread = codes "Elisa3 { } Elisa3 { }"; eof = false }

abbrev no_nodes : World whole five
no_nodes = record { nodes = []; number_of_robots = 0 }

parse_stream-Streams_example :
    Streams whole five no_nodes two_robots (parse_stream whole five [] two_robots)
    × ((type : WaypointType)
        → Fills whole five type
            (no_fields whole five)
            two_robots
            (fields_loop whole five 22 type (no_fields whole five) two_robots))
parse_stream-Streams_example = parse_stream-Streams whole five [] two_robots
