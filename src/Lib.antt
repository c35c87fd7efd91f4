-- ===== src/Lib.antt =====
-- P7-kode: a distributed fleet management system. Robots run in Webots; a port discovery service tells
-- where each robot's controller listens; schedulers run UPPAAL's verifyta and turn the traces of its
-- simulations into schedules; all parts talk over framed TCP messages.
--
-- Base          what the modules share: bytes, integers, std::to_string and std::stoi (Base.Decimal),
--               std::map (Base.IntMap), exceptions (Base.Errors), code that changes a state and may throw
--               (Base.Exec), the operations of double as a parameter (Base.Double).
-- Util.Split    util/include/util/split.hpp: `split`, a loop over positions.
-- Tcp           tcp/src/connection.cpp (Tcp.Connection: Connection, send, parse_message, receive) and
--               tcp/src/server.cpp (Tcp.Server: Server, accept, close). Proofs: Tcp.Framing (one message
--               in any chunks), Tcp.Stream (many messages), Tcp.Faults, Tcp.Closing.
-- PortDiscovery port_discovery/src/port_service.cpp (PortDiscovery.Service: parse_function, add_robot,
--               get_robot, remove_robot as do_..., call_function, parse_message, start). Proofs:
--               PortDiscovery.Registry (a registry as the specification), PortDiscovery.Errors.
-- Scheduling    scheduling/src/uppaal_simulation_parser.cpp (Scheduling.Traces: find_first_run_as_queue;
--               Scheduling.Parser: parse and parse_value, what the regular expressions find in
--               Parser.Patterns),
--               station_scheduler.cpp and waypoint_scheduler.cpp (convert_result in Scheduling.Station and
--               Scheduling.Waypoint). Proofs: Station.Schedule, Waypoint.Plan, Waypoint.Complete;
--               Parser.Rows, Parser.Report (what verifyta writes), Parser.Lines, Parser.RoundTrip.
-- Wbt           wbt-translator: the waypoints of webots_parser.hpp (Wbt.World) and apsp.cpp (Wbt.Apsp:
--               all_pairs_shortest_path, its loops as initialise, set_edges, set_self, rounds). Proofs:
--               Apsp.Cells (the maps as tables), Apsp.Graph and Apsp.Initial (the first loops),
--               Apsp.Rounds and Apsp.Routes (the three nested loops), Apsp.Shortest. The constructor of
--               distance_matrix.cpp is in Wbt.DistanceMatrix, webots_parser.cpp in Wbt.Adjlist
--               (parse_adjlist) and Wbt.Parser; what std::stod makes of a text is an argument there. Proofs:
--               Parser.Tokens, Words and Waypoints, Parser.Ends and Parser.Fuel (the loops end),
--               Adjlist.Numbers.
-- Order         util/include/util/pick_random.hpp (Order.Random), order/src/random_generator.cpp
--               (Order.Generator) and parse_stations_argument of order/src/order_generation_service.cpp
--               (Order.Arguments); what rand() returns is a sequence. Proofs: Random.Picks,
--               Generator.Orders.
-- Config        config/src/config.cpp (Config.Values) and config/src/config_wrapper.cpp: Config.Store (load
--               and the static variables of the functions), Config.Convert (what they compute),
--               Config.Wrapper (the functions), Config.Calls (sequences of calls). Proofs:
--               Calls.Reference, Calls.Static, Calls.Memory, Calls.Ready, Calls.Same, Calls.Numbers,
--               Calls.Indexed, Calls.Answers,
--               Config.Stations, Stations.Rank, Stations.Bounds. Json::Value is the parameter Json of
--               Base.Json; what the files hold is a function of their names.
-- Robot         robot/src/info.cpp (Robot.Info: Info, to_json, from_json, get_field_as by its types;
--               Robot.InfoMap) and robot/src/orchestrator.cpp (Robot.Orchestrator: world_to_config is
--               load_webots_to_config behind the parser; Orchestrator.Broadcast: the messages). An action
--               is converted in Scheduling.Actions. What these rely on in jsoncpp is the record JsonLaws of
--               Base.JsonLaws, which the trees of Base.Samples satisfy (Base.SampleLaws). Proofs:
--               Info.Written, Info.Plans, Info.RoundTrip, Info.Errors; Orchestrator.Members (what calls of
--               Config::set leave), Rows and Matrices (the distance matrices), Ids, Dump, Filled, Read.
-- Communication communication/src/com-module.cpp (Communication.ComModule: split_message, parse_function,
--               get_robot_info and put_robot_info as do_..., call_function, and a round of the loop of
--               parse_message). Proofs: Communication.Requests.
--
-- Webot         webot/controllers/waypoints_runner: geo/geo.cpp (Webot.Geo), webots_server.cpp (Webot.Server:
--               send_message, get_messages) and robot.cpp (Webot.Controller: Sensors, Drive, Edges for
--               get_discontinuity_points, Phases for motion2goal and boundary_following, Normal; and
--               Webot.Simulation: communicate and the loop of run_simulation). <cmath> is the record Trig of
--               Base.Trig, with `abs` as whichever function the headers give; what C++ does not define is none
--               (Base.Optional). Proofs: Geo.Bounds,
--               Sensors.Mirror, Drive.Commands, Controller.Loops, Least, Ranges and Clear, the phases as a
--               relation in Controller.Transitions, Server.Requests, Simulation.Kept,
--               Undefined (iterations that C++ does not define), Runs and Answers.
--
-- How the parts interact: PortDiscovery splits a message by Util.Split and answers through
-- Connection.send; a message comes from Connection.receive_blocking. The orchestrator runs the parser and
-- the two distance algorithms of Wbt and writes the configuration that the getters of Config read. The
-- communication module keeps an InfoMap, which it fills by Info.from_json, and answers through a Connection.
--
-- Conventions. Text is a list of bytes. An int is an unbounded integer; its range is a hypothesis where
-- it matters, and std::stoi tests it; size_t arithmetic wraps at 2 ^ 64. What the operating system
-- returns is an argument: a list of results of ::recv, functions for ::send and ::close. A loop over a
-- queue or a text has fuel above the length of the queue or text, which each round shortens;
-- Wbt.Parser.Fuel and Wbt.Adjlist.Numbers compare such loops with descriptions that have none. Log output
-- is left out. Threads are sequences of handled messages: each handler of the port discovery service
-- and of the communication module touches the shared map once, under its lock. Its loop of messages runs
-- for a number of rounds.
--
-- Not modelled: the set-up of the Webots devices and what their wrappers only pass on, the printing parts of the world file translator and its
-- query template, the order service of order/src/generation_service.cpp, opening sockets by name
-- (tcp/src/client.cpp), the verifyta process and the schedulers around it, printing and reading the text of
-- a Json::Value, which jsoncpp does, and the main functions.
pub mod Base
pub mod Util
pub mod Tcp
pub mod PortDiscovery
pub mod Scheduling
pub mod Wbt
pub mod Order
pub mod Config
pub mod Robot
pub mod Communication
pub mod Webot
