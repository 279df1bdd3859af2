-- ===== src/Lib.antt =====
-- tron2-navigation-ros2: the navigation of a legged robot. A planner (SCAN-Planner-ros2-community)
-- turns goals and reference paths into local B-spline trajectories around the obstacles of an
-- occupancy map, and a controller follows them and commands the chassis. The state machine
-- SCANReplanFSM publishes trajectories (planning/bspline) and the status of the goal; the controller
-- ClosedLoopController takes both, and reports back when the execution is frozen. The occupancy map
-- GridMap inflates the obstacles in a window that moves with the robot, and AStar searches it for a way
-- around them. PoseStampedToOdometry turns the poses of the localization into odometry. The lidar's node
-- (RSLIDAR_SDK_ROS2) filters the near field of the point cloud that the occupancy map is built from.
--
-- The files:
--   Base, Base/*   names and lemmas shared by all: lists, options, signed integers on native numbers.
--   Double         the operations of a `double` as a record. The type is a parameter; IsOrdered has the
--                  laws of its order, which hold of IEEE numbers, and IsExact those of exact
--                  arithmetic, which hold of them up to rounding only.
--   Exact          fixed-point numbers, at which the definitions run and the laws are proved.
--   Vector         points, and what the code takes from Eigen and rclcpp, as a record.
--   Samples        that record at the fixed-point numbers, for the tests.
--   Replan         SCAN-Planner-ros2-community/src/planner/plan_manage/src/scan_replan_fsm.cpp.
--     State        the members of SCANReplanFSM, and World, what a callback meets from outside: the
--                  readings of the clock, the occupancy map and the answers of the planner manager.
--     Plan         changeFSMExecState, publishGoalStatus, callEmergencyStop, stopCurrentNavigation,
--                  updateLocalTrajTimeFreeze, adjustGlobalTargetIfOccupied and small helpers.
--     Target       the goals (rvizGoalCallback, waypointCallback, planGlobalTrajByWaypoints and
--                  others), callReboundReplan and planFromCurrentTraj.
--     Path         pathCallback, its loop over the poses and its limits.
--     Exec         execFSMCallback, a function for each state.
--     Safety       checkCollisionCallback. Its loop runs on fuel; the number of samples to the end of the
--                  trajectory, and one more, is enough.
--     Events       init and the other callbacks; a run is a list of callbacks in the order of the
--                  single-threaded executor.
--     Plan/Laws, Path/Laws, Path/Limit, Safety/Laws, Invariant, Entry, Emergency, Cancel, Failure, Goal, Frame:
--                  the proofs, named for what they are about.
--   Controller     SCAN-Planner-ros2-community/src/planner/plan_manage/src/closed_loop_controller_safe.cpp.
--     State        the members of ClosedLoopController and the constructor's checks.
--     Command      normalizeAngle, clamp, limitRate and the functions that publish a command. The loops
--                  of normalizeAngle have fuel 2: a difference of two angles of atan2 needs one round.
--     Tracking     cmdCallback, with the search for the nearest sample and the lookahead loop, whose
--                  fuel is the number of samples.
--     Events       bsplineCallback and the other callbacks, the constructor and runs.
--     Lookahead, Sampling, Invariant, Stops, Limits: the proofs.
--   PoseOdometry   SCAN-Planner-ros2-community/src/planner/plan_manage/src/pose_stamped_to_odometry.cpp.
--     State        the members of PoseStampedToOdometry and the constructor.
--     Callback     poseCallback: the tests of a pose, the filter of the velocity and the messages.
--     Laws         the proofs.
--   GridMap        SCAN-Planner-ros2-community/src/planner/plan_env, include/plan_env/grid_map.h and
--                  src/grid_map.cpp. A buffer is a function of the address.
--     State        the parameters and the buffers.
--     Address      posToIndex, toAddress, hashIdToGlobalIndex and the bounds; a buffer is a ring in each
--                  direction.
--     Update       updateInflation, applyOccupancyUpdate, the resets and the readings.
--     Region       resetBuffer, setCacheOccupancy and others, with the loops over a box.
--     Ranges       lists of voxels as nested loops make them.
--     Cache        the loop of raycastProcess over the queue of the voxels that rays have met.
--     Slide        updateSlidingMap.
--     Laws         the proofs.
--   AStar          SCAN-Planner-ros2-community/src/planner/path_searching, dyn_a_star.h and dyn_a_star.cpp.
--     State        the nodes and the pool.
--     Grid         indices and positions, checkOccupancy and the estimates.
--     Endpoints    ConvertToIndexAndAdjustStartEndPoints. The two loops have fuel.
--     Search       AstarSearch. The order of the open set and the time limit are parameters, `choose` and
--                  `late`: a cost changes while its node is in the queue. The loop has fuel; one round
--                  for each node of the pool, and one more, is enough.
--     Laws         the proofs.
--   PointFilter    RSLIDAR_SDK_ROS2/src/source/rslidar_point_filter.hpp, the filter of the point cloud.
--     State        the settings, points and clouds.
--     Stage        the tests of one point.
--     Grid         the hash grid as an association list, and the search of the 27 cells, which ends as
--                  soon as there are enough neighbours.
--     Apply        apply. Its parallel loop writes one flag for each point, so it is a map.
--     Configure    configure, over a record of what is read from a YAML node.
--     Laws         the proofs.
--   Vector/Index   indices of voxels.
--   Replan/Tests, Controller/Tests, PoseOdometry/Tests, GridMap/Tests, AStar/Tests, PointFilter/Tests:
--                  the theorems at concrete inputs.
--
-- Messages that a callback publishes are kept in the state, newest first. Not modelled: logging,
-- topics and parameter files, the display markers, getLocalTarget and adjustReferenceGoalIfOccupied
-- (the field get_local_target of World), and the planner manager, the B-splines and the polynomials,
-- which are fields of World and of the messages. The state machine meets the occupancy map as the field
-- inflate_occupancy of World, and the search as a function from heading and position. Of the map, the
-- rays (the rest of raycastProcess), the projection of depth images and the sensor callbacks are not
-- modelled. Of the lidar's nodes only the point filter is modelled, without threads, logging and
-- statistics; the integer casts of its cells are taken to be in range.
mod Base
pub mod Double
pub mod Exact
pub mod Vector
pub mod Samples
pub mod Replan
pub mod Controller
pub mod PointFilter
pub mod GridMap
pub mod AStar
pub mod PoseOdometry
