-- ===== src/Webot/Controller/Transitions/Follow.antt =====
-- webot/controllers/waypoints_runner/robot.cpp: its phases take the steps of the relation.
use p7_kode.Base.{
  ℕ, ◌<◌, ◌≡◌, refl, sym, ap, ◌∙◌, Bool, true, false, Option, none, some, ◌⊎◌, inl, inr, Bool-cases,
  length,
}
use p7_kode.Base.Int.{pos}
use p7_kode.Base.Text.{codes}
use p7_kode.Base.Double.{Double}
use p7_kode.Base.Trig.{Trig}
use p7_kode.Config.Convert.{vector_index}
use p7_kode.Webot.Geo.{euclidean_dist}
use p7_kode.Webot.Controller.{
  Phase, to_goal, to_discontinuity, following, is_to_goal, is_following, Controller,
  get_relative_angle_to_goal,
}
use p7_kode.Webot.Controller.Loops.{Gives}
use p7_kode.Webot.Controller.Least.{OrderLaws, best_of-Chosen}
use p7_kode.Webot.Controller.Ranges.{
  IsComplete, range_at-Gives, get_discontinuity_points-Gives, update_dfollowed-IsFollowed,
  dreach-IsNearest,
}
use p7_kode.Webot.Controller.Clear.{IsBlocked, Verdict, clear-Verdict, clear-Gives}
use p7_kode.Webot.Controller.Drive.{go_towards_angle, go_to_discontinuity}
use p7_kode.Webot.Controller.Drive.Commands.{IsDriven, go_to_discontinuity-Obeys}
use p7_kode.Webot.Simulation.{next_phase}
use p7_kode.Webot.Controller.Phases.{
  clear, best_point, heuristic, around_obstacles, nothing_before, motion2goal, boundary_following,
  turn_to,
}
use p7_kode.Webot.Controller.Transitions.{
  started, LooksAt, IsFree, HasNone, Transition, towards_goal, towards_discontinuity,
  meets_obstacle, leaves_obstacle, along_obstacle,
}

IsDriven-IsComplete :
    (d : Double) (c c' : Controller d) → IsDriven d c c' → IsComplete d c → IsComplete d c'
IsDriven-IsComplete d c c' driven complete =
    ap (λ z. length z.lidar_range_values) driven
    ∙ complete
    ∙ sym (ap (λ z. z.lidar_resolution) driven)

module _ (d : Double) (t : Trig d) (laws : OrderLaws d) (c : Controller d)
    (complete : IsComplete d c) where
  -- The step is one of the relation.
  abbrev pub Follows : Phase × Controller d → Type 0
  Follows r = Transition d t c r.0 r.1

  around_obstacles-Transition :
      is_following c.phase ≡ false
      → Gives (around_obstacles d t (started d t c)) Follows
        ⊎ ((around_obstacles d t (started d t c) ≡ none)
            × HasNone d t (started d t c) (heuristic d t (started d t c)))
  unfolding around_obstacles
  around_obstacles-Transition walking =
      let c1 = started d t c in
      let value = heuristic d t c1 in
      let (candidates, e, _) = get_discontinuity_points-Gives d t c1 complete in
      let (c', f, followed) =
        update_dfollowed-IsFollowed d t laws (record c1 { dfollowed = d.dbl_max }) complete in
      elim (best_of-Chosen d laws t value candidates d.dbl_max none) [
        | inl (same, below) ↦
            elim (Bool-cases
              (d.lt c.cur_dist2goal (euclidean_dist d t (best_point d t none) c.goal))) [
                | inl far ↦ inl (
                  (following, c'),
                  (rw (e, same, far, f) refl),
                  meets_obstacle walking (best_point d t none) (inl ((candidates, e, below), refl))
                      far c' followed,
                )
                | inr near ↦ inr ((rw (e, same, near) refl), (candidates, e, below))
              ]
        | inr (best, same, chosen) ↦
            elim (Bool-cases (d.lt c.cur_dist2goal (euclidean_dist d t best.0 c.goal))) [
              | inl far ↦ inl (
                (following, c'),
                (rw (e, same, far, f) refl),
                meets_obstacle walking best.0 (inr (best, (candidates, e, chosen), refl)) far c'
                    followed,
              )
              | inr near ↦ inl (
                (to_discontinuity, go_to_discontinuity d t best.0 best.1 c1),
                (rw (e, same, near) refl),
                towards_discontinuity walking best (candidates, e, chosen) near,
              )
            ]
      ]

  clear-IsFree :
      (i : ℕ) (range : Option d.Carrier)
      → LooksAt d t c i
      → vector_index c.lidar_range_values (pos i) ≡ some range
      → nothing_before d t c.cur_dist2goal range ≡ true
      → clear d t (started d t c) ≡ some true
      → IsFree d t c
  clear-IsFree i range looks e nothing free = (
    (i, range, looks, e, nothing),
    elim (Bool-cases (is_to_goal c.phase)) [
      | inl direct ↦ inl direct
      | inr other ↦
          let (verdict, f, h) = clear-Verdict d t (started d t c) complete other in
          inr (still_free verdict h (sym f ∙ free))
    ],
  )
    where
      still_free :
          (verdict : Bool)
          → Verdict d t (started d t c) c.lidar_resolution verdict
          → some verdict ≡ some true
          → (k : ℕ) → k < c.lidar_resolution
          → ¬ IsBlocked d t (started d t c) k
      still_free true h e = h
      still_free false h e = cc

  motion2goal-Transition :
      (i : ℕ)
      → LooksAt d t c i
      → is_following c.phase ≡ false
      → Gives (motion2goal d t c) Follows
        ⊎ ((motion2goal d t c ≡ none) × HasNone d t (started d t c) (heuristic d t (started d t c)))
  unfolding motion2goal
  motion2goal-Transition i looks walking =
      let c1 = started d t c in
      let (range, e, _) = range_at-Gives d t c1 complete i looks.1 in
      let (free, f, _) = clear-Gives d t c1 complete in
      elim (Bool-cases (nothing_before d t c.cur_dist2goal range)) [
        | inl nothing ↦ elim (Bool-cases free) [
          | inl y ↦ inl (
            (to_goal, go_towards_angle d t (get_relative_angle_to_goal d t c1) c1),
            (rw (looks.0, e, nothing, f, y) refl),
            towards_goal walking (clear-IsFree i range looks e nothing (f ∙ ap some y)),
          )
          | inr n ↦ rw (looks.0, e, nothing, f, n) (around_obstacles-Transition walking)
        ]
        | inr something ↦ rw (looks.0, e, something) (around_obstacles-Transition walking)
      ]

  pub boundary_following-Transition :
      is_following c.phase ≡ true
      → Gives (boundary_following d t c) Follows
        ⊎ ((boundary_following d t c ≡ none) × HasNone d t c (turn_to d t c))
  unfolding boundary_following
  boundary_following-Transition walking =
      let (reach, e, nearest) = dreach-IsNearest d t laws c complete in
      let (candidates, f, _) = get_discontinuity_points-Gives d t c complete in
      elim (Bool-cases (d.lt (d.add reach (d.literal (codes "0.05"))) c.dfollowed)) [
        | inl reached ↦
            inl (
              (to_goal, c),
              (rw (e, reached) refl),
              leaves_obstacle walking reach e nearest reached,
            )
        | inr short ↦ elim (best_of-Chosen d laws t (turn_to d t c) candidates d.dbl_max none) [
          | inl (same, below) ↦ inr ((rw (e, short, f, same) refl), (candidates, f, below))
          | inr (best, same, chosen) ↦
              let c1 = go_to_discontinuity d t best.0 best.1 c in
              let driven = (go_to_discontinuity-Obeys d t best.0 best.1 c).0 in
              let complete' : IsComplete d c1 = IsDriven-IsComplete d c c1 driven complete in
              let (c2, g, followed) = update_dfollowed-IsFollowed d t laws c1 complete' in
              inl (
                (following, c2),
                (rw (e, short, f, same, g) refl),
                along_obstacle walking reach e nearest short best (candidates, f, chosen) c2
                    followed,
              )
        ]
      ]

  -- What an iteration does is a step of the relation; or C++ does not define it, and no discontinuity
  -- has a value below DBL_MAX.
  abbrev pub Proceeds : Option (Phase × Controller d) → Type 0
  Proceeds result =
      Gives result Follows
      ⊎ ((result ≡ none)
          × (((is_following c.phase ≡ false)
                × HasNone d t (started d t c) (heuristic d t (started d t c)))
              ⊎ ((is_following c.phase ≡ true) × HasNone d t c (turn_to d t c))))

  pub next_phase-Proceeds : (i : ℕ) → LooksAt d t c i → Proceeds (next_phase d t c)
  next_phase-Proceeds i looks = elim (Bool-cases (is_following c.phase)) [
    | inl walking ↦ rw walking (elim (boundary_following-Transition walking) [
      | inl gives ↦ inl gives
      | inr (undefined, lacking) ↦ inr (undefined, inr (refl, lacking))
    ])
    | inr walking ↦ rw walking (elim (motion2goal-Transition i looks walking) [
      | inl gives ↦ inl gives
      | inr (undefined, lacking) ↦ inr (undefined, inl (refl, lacking))
    ])
  ]
