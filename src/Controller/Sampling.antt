-- ===== src/Controller/Sampling.antt =====
-- closed_loop_controller_safe.cpp: bsplineCallback samples a trajectory at two intervals at least.
use tron2_navigation_ros.Base.{ℕ, zero, suc, ◌+◌, ◌≤◌, ◌≡◌, [], length, length-append, pos, arith}
use tron2_navigation_ros.Double.{Double}
use tron2_navigation_ros.Vector.{Vector3, Library}
use tron2_navigation_ros.Controller.State.{Controller, Bspline}
use tron2_navigation_ros.Controller.Lookahead.{InRange}
use tron2_navigation_ros.Controller.Events.{
  compute_sample_count, push_sample, sample_loop, sample_trajectory,
}

module _ {W : Type 0} ⦃d : Double W⦄ (lib : Library W) where
  -- A round of the sampling loop adds a sample and an arc length.
  abbrev Sampled : ℕ → Controller W → Controller W → Type 0
  Sampled n s t =
      (length t.trajectory_samples ≡ n + length s.trajectory_samples)
      × (length t.trajectory_arc_lengths ≡ n + length s.trajectory_arc_lengths)
      × (t.nearest_sample_index ≡ s.nearest_sample_index)
      × (t.terminal_status_active ≡ s.terminal_status_active)
      × (t.receive_traj ≡ s.receive_traj)
      × (t.config ≡ s.config)

  push_sample-Sampled : (x : Vector3 W) (s : Controller W) → Sampled 1 s (push_sample lib x s)
  unfolding push_sample
  push_sample-Sampled x s = grind (arith, length-append)

  sample_loop-Sampled :
      (msg : Bspline W) (count n : ℕ) (s : Controller W)
      → Sampled n s (sample_loop lib msg count n s)
  unfolding sample_loop
  sample_loop-Sampled msg count zero s = ground arith
  sample_loop-Sampled msg count (suc n) s =
      let h = sample_loop-Sampled msg count n s in
      let k =
        push_sample-Sampled
          (msg.evaluate (d.div (d.mul msg.time_sum (d.of_int (pos n))) (d.of_int (pos count))))
          (sample_loop lib msg count n s) in
      ground arith

  compute_sample_count-ge : (x : W) → 2 ≤ compute_sample_count lib x
  unfolding compute_sample_count
  compute_sample_count-ge x = ground arith

  pub sample_trajectory-InRange :
      (msg : Bspline W) (s : Controller W)
      → let t = sample_trajectory lib msg s in
        InRange t × (t.terminal_status_active ≡ s.terminal_status_active)
  unfolding sample_trajectory
  sample_trajectory-InRange msg s =
      let h = compute_sample_count-ge msg.time_sum in
      let k =
        sample_loop-Sampled msg (compute_sample_count lib msg.time_sum)
          (suc (compute_sample_count lib msg.time_sum))
          (record s {
            traj_duration = msg.time_sum;
            trajectory_samples = [];
            trajectory_arc_lengths = [];
            nearest_sample_index = 0;
          }) in
      ground arith
