-- ===== src/Webot/Simulation.antt =====
-- webot/controllers/waypoints_runner/robot.cpp: `communicate` and `run_simulation`.
pub mod Kept
pub mod Undefined
pub mod Runs
pub mod Answers
use p7_kode.Base.{
  ℕ, suc, Bool, true, false, not, Option, none, some, List, [], ◌∷◌, ◌++◌, Exception, Result, ok,
  err, if◌then◌else◌, take, drop,
}
use p7_kode.Base.Optional.{◌>>=◌ as bind}
use p7_kode.Base.Exec.{Exec, lift, ◌>>=◌, ◌>>◌, continue}
use p7_kode.Base.Text.{Bytes, codes, find_char}
use p7_kode.Base.Double.{Double}
use p7_kode.Base.Trig.{Trig}
use p7_kode.Webot.Geo.{GlobalPoint}
use p7_kode.Webot.Controller.{Phase, is_following, Readings, Controller}
use p7_kode.Webot.Controller.Sensors.{update_sensor_values}
use p7_kode.Webot.Controller.Drive.{stop}
use p7_kode.Webot.Controller.Phases.{motion2goal, boundary_following}
use p7_kode.Webot.Server.{
  MessageType, get_state, set_destination, not_understood, Message, Link, send_message,
  get_messages,
}

module _ (d : Double) where
  -- The controller with its server; `destination` is set, but declared in no header.
  pub record Robot : Type 0 where
    pub controller : Controller d
    pub link : Link
    pub destination : Option (GlobalPoint d)

  -- How an iteration ends: robot->step is called again, or an exception leaves main, or C++ does not
  -- define what it does.
  pub data Ending : Type 0 where
    goes_on : Robot → Ending
    throws : Exception → Robot → Ending
    undefined : Ending

-- `stod` is std::stod, `text` is std::to_string of a double, and `os_send` is ::send on the socket.
module _ (d : Double) (stod : Bytes → Result d.Carrier) (text : d.Carrier → Bytes)
    (os_send : Bytes → Option ℕ) where
  abbrev on_link : {A : Type 0} → Exec Link A → Exec (Robot d) A
  on_link m r = ((m r.link).0, record r { link = (m r.link).1 })

  -- The text of the answer to get_state.
  unfoldable pub state_text : Controller d → Bytes
  state_text c =
      text c.position.x
      ++ b',' ∷ text c.position.y
      ++ b',' ∷ (if c.is_stopped then codes "stopped" else codes "running")

  abbrev set_destination_to : d.Carrier → d.Carrier → Exec (Robot d) (Unit {0})
  set_destination_to x y r = (ok tt, record r { destination = some (record { x = x; y = y }) })

  -- The switch.
  unfoldable pub handle : Message → Exec (Robot d) (Unit {0})
  handle message r = elim message.type [
    | get_state ↦
        on_link
          (send_message os_send (record { payload = state_text r.controller; type = get_state })) r
    | set_destination ↦ (elim (find_char b',' message.payload) [
      | none ↦
          on_link
            (send_message os_send (record { payload = message.payload; type = not_understood })) r
      | some split_pos ↦
          (lift (stod (take split_pos message.payload)) >>= λ x.
          lift (stod (drop (suc split_pos) message.payload)) >>= λ y. set_destination_to x y)
            r
    ])
    | not_understood ↦ (ok tt, r)
  ]

  unfoldable pub handle_all : List Message → Exec (Robot d) (Unit {0})
  handle_all [] r = (ok tt, r)
  handle_all (message ∷ messages) r = (handle message >> handle_all messages) r

  unfoldable pub communicate : List Bytes → Exec (Robot d) (Unit {0})
  communicate raw_messages = on_link (get_messages os_send raw_messages) >>= handle_all

module _ (d : Double) (t : Trig d) where
  open d use {Carrier, lt, literal}

  unfoldable pub set_goal : GlobalPoint d → Controller d → Controller d
  set_goal point c = record c { goal = point; has_goal = true }

  abbrev in_phase : Phase × Controller d → Controller d
  in_phase (phase, c) = record c { phase = phase }

  abbrev pub next_phase : Controller d → Option (Phase × Controller d)
  next_phase c = if is_following c.phase then boundary_following d t c else motion2goal d t c

  abbrev pub near_goal : Controller d → Bool
  near_goal c = lt c.cur_dist2goal (literal (codes "0.01"))

  -- Behind update_sensor_values.
  unfoldable pub drive : Controller d → Option (Controller d)
  drive c = if near_goal c then some (stop d c) else bind (next_phase c) (λ r. some (in_phase r))

  -- The body of the loop, behind communicate.
  unfoldable pub move : Controller d → Option (Controller d)
  move c =
      if c.first_iteration
      then some (record c { first_iteration = false })
      else if not c.has_goal
      then some (stop d c)
      else bind (update_sensor_values d t c) drive

  -- geo::GlobalPoint{-0.68, 0.79}
  abbrev pub first_goal : GlobalPoint d
  first_goal = record { x = t.neg (literal (codes "0.68")); y = literal (codes "0.79") }

  unfoldable pub with_goal : Robot d → Robot d
  with_goal r = record r { controller = set_goal first_goal r.controller }

module _ (d : Double) (t : Trig d) (stod : Bytes → Result d.Carrier) (text : d.Carrier → Bytes)
    (os_send : Bytes → Option ℕ) where
  abbrev moved : Robot d → Option (Controller d) → Ending d
  moved r none = undefined
  moved r (some c) = goes_on (record r { controller = c })

  abbrev communicated : Result (Unit {0}) × Robot d → Ending d
  communicated (ok _, r) = moved r (move d t r.controller)
  communicated (err e, r) = throws e r

  abbrev with_readings : Readings d → Robot d → Robot d
  with_readings readings r = record r { controller = record r.controller { readings = readings } }

  -- One iteration: robot->step brings new readings, client->receive() these messages.
  unfoldable pub iteration : Readings d → List Bytes → Robot d → Ending d
  iteration readings raw_messages r =
      communicated (communicate d stod text os_send raw_messages (with_readings readings r))

  abbrev pub next_iteration : (Robot d → Ending d) → Ending d → Ending d
  next_iteration go_on (goes_on r) = go_on r
  next_iteration go_on (throws e r) = throws e r
  next_iteration go_on undefined = undefined

  -- The iterations until robot->step returns -1.
  unfoldable pub iterations : List (Readings d × List Bytes) → Robot d → Ending d
  iterations [] r = goes_on r
  iterations ((readings, raw_messages) ∷ later) r =
      next_iteration (iterations later) (iteration readings raw_messages r)

  unfoldable pub run_simulation : List (Readings d × List Bytes) → Robot d → Ending d
  run_simulation steps r = iterations steps (with_goal d t r)
