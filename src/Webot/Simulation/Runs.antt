-- ===== src/Webot/Simulation/Runs.antt =====
-- webot/controllers/waypoints_runner/robot.cpp: whole runs of `run_simulation`.
use p7_kode.Base.{
  ℕ, ◌≡◌, refl, ◌∙◌, Option, List, [], ◌∷◌, Result, ok, err, Option-cases, inl, inr, suc, take,
  drop,
}
use p7_kode.Base.Exec.{Exec, lift, ◌>>=◌, continue}
use p7_kode.Base.Text.{Bytes, find_char}
use p7_kode.Base.Double.{Double}
use p7_kode.Base.Trig.{Trig}
use p7_kode.Webot.Controller.{Controller}
use p7_kode.Webot.Server.{
  MessageType, get_state, set_destination, not_understood, Message, get_messages,
}
use p7_kode.Webot.Simulation.{
  Robot, Ending, goes_on, throws, undefined, on_link, set_destination_to, handle, handle_all,
  communicate,
}
use p7_kode.Webot.Simulation.Undefined.{IsStuck}

module _ (d : Double) (stod : Bytes → Result d.Carrier) (text : d.Carrier → Bytes)
    (os_send : Bytes → Option ℕ) where
  -- What runs on a robot leaves its controller as it is.
  abbrev LeavesController : {A : Type 0} → Exec (Robot d) A → Type 0
  LeavesController m = (r : Robot d) → (m r).1.controller ≡ r.controller

  continue-controller :
      {A B : Type 0} (f : A → Exec (Robot d) B) (p : Result A × Robot d)
      → ((a : A) → LeavesController (f a))
      → (continue f p.0 p.1).1.controller ≡ p.1.controller
  continue-controller f (ok a, r) h = h a r
  continue-controller f (err e, r) h = refl

  then-LeavesController :
      {A B : Type 0} (m : Exec (Robot d) A) (f : A → Exec (Robot d) B)
      → LeavesController m
      → ((a : A) → LeavesController (f a))
      → LeavesController (m >>= f)
  then-LeavesController m f h k r = continue-controller f (m r) k ∙ h r

  typed-LeavesController :
      (payload : Bytes) (type : MessageType)
      → LeavesController (handle d stod text os_send (record { payload = payload; type = type }))
  unfolding handle
  typed-LeavesController payload get_state r = refl
  typed-LeavesController payload set_destination r = elim (Option-cases (find_char b',' payload)) [
    | inl e ↦ rw (handle, e) refl
    | inr (split_pos, e) ↦
        rw (handle, e)
          (then-LeavesController (lift (stod (take split_pos payload)))
            (λ x. lift (stod (drop (suc split_pos) payload)) >>= λ y.
              set_destination_to d stod text os_send x y)
            (λ r. refl)
            (λ x.
              then-LeavesController (lift (stod (drop (suc split_pos) payload)))
                (λ y. set_destination_to d stod text os_send x y) (λ r. refl) (λ y r. refl))
            r)
  ]
  typed-LeavesController payload not_understood r = refl

  handle-LeavesController :
      (message : Message) → LeavesController (handle d stod text os_send message)
  handle-LeavesController message = typed-LeavesController message.payload message.type

  handle_all-LeavesController :
      (messages : List Message) → LeavesController (handle_all d stod text os_send messages)
  unfolding handle_all
  handle_all-LeavesController [] r = refl
  handle_all-LeavesController (message ∷ messages) r =
      then-LeavesController (handle d stod text os_send message)
        (λ _. handle_all d stod text os_send messages) (handle-LeavesController message)
        (λ _. handle_all-LeavesController messages) r

  pub communicate-LeavesController :
      (raw_messages : List Bytes) → LeavesController (communicate d stod text os_send raw_messages)
  unfolding communicate
  communicate-LeavesController raw_messages =
      then-LeavesController (on_link d stod text os_send (get_messages os_send raw_messages))
        (handle_all d stod text os_send) (λ r. refl) handle_all-LeavesController

module _ (d : Double) (t : Trig d) where
  -- This holds of the robot with which an iteration ends; where C++ does not define the iteration, of one
  -- that IsStuck describes.
  abbrev pub EndsWith : (Controller d → Type 0) → Ending d → Type 0
  EndsWith P (goes_on r) = P r.controller
  EndsWith P (throws e r) = P r.controller
  EndsWith P undefined = (c : Controller d) × P c × IsStuck d t c
