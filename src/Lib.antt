-- ===== src/Lib.antt =====
-- The control software of the Pulsar Timing subsystem, ska_pst_lmc: what it does, as definitions
-- translated from the Python code, and what holds of it.
--
-- A BEAM device (src/ska_pst_lmc/beam) controls four subordinate devices, SMRB, RECV, DSP and STAT. A
-- command of the BEAM becomes a job, a tree of tasks (src/ska_pst_lmc/job), which the task executor runs
-- on the devices: some commands in turn, some at the same time, each answered at once or by a later
-- event. When the job has succeeded a completion callback changes the BEAM's own state and reports to
-- the caller. Each subordinate device turns its commands into gRPC requests to a process
-- (src/ska_pst_lmc/component/process_api.py) and drives the state machine of its observation state
-- (src/ska_pst_lmc/component/obs_state_model.py).
--
-- Files:
--   Prelude, Prelude/*     shared: library names, tests, lists, dictionaries as association lists
--   Effects                Python code that keeps a state and may raise, as a state and exception monad
--   ObsState               component/obs_state_model.py: the transition table as a list of rows in the
--                          source's order, and the machine; the choice of the row is the `transitions`
--                          library's, an interface (`Dispatch`) with its documented order
--   ObsState/Diagram       the table against the diagram of the states
--   ObsState/Scanning      the milestones on the way to SCANNING, and the callback
--   Job                    job/task.py: tasks and contexts
--   Job/Parallel           job/task_executor.py, _handle_parallel_task and _handle_parallel_subtask: the
--                          workers as a step relation, one step for each critical section
--   Job/Parallel/*         its invariant and how it ends
--   Job/Executor           job/task_executor.py, the handlers of all kinds of task: `Ends` relates a task
--                          to the commands it sent and the outcome it ended with
--   Job/ExecutorSound, Job/ExecutorOrder   what the end of a job says of its commands, and their order
--   Job/Device             job/device_task_executor.py; Job/Device/* its signals, invariant and runs
--   Beam                   beam/beam_component_manager.py: data
--   Beam/Jobs              the job of each command; Beam/Order, Beam/AbortOrder, Beam/Waiting their order
--   Beam/Commands          the completion callbacks, `_RemoteJob` and the configuration request
--   Beam/Reports, Beam/Completions, Beam/Statuses, Beam/Properties   what they report and write
--   Beam/Success           when the BEAM changes its own state
--   Process                component/grpc_lmc_client.py: exceptions and how gRPC errors become them
--   Process/Api, Process/Reactions   component/process_api.py, PstProcessApiGrpc
--   Process/Monitor, Process/Monitor/Ends   monitor and _stop_monitoring as a step relation
--   Process/Simulator, Process/Simulator/*   PstProcessApiSimulator and the simulated APIs of the four
--                          `_process_api.py` modules, against the gRPC client
--   Manager, Manager/Reports   component/component_manager.py and the `_component_manager.py` modules of
--                          the four: the tasks of their commands, over the client
--   Manager/Connection, Manager/Connected, Manager/Failed   start and stop of communication and the
--                          simulation mode
--   Device, Device/Commands, Device/Endings   component/pst_device.py: guards, hooks and changes of the
--                          component's state, with the client and the state machine
--   Monitoring, Monitoring/Handler   component/monitor_data_handler.py
--   Monitoring/Subbands    lists with a place for each subband
--   Monitoring/Smrb, Monitoring/SmrbTotals   smrb/smrb_model.py
--   Monitoring/Dsp, Monitoring/Disk   dsp/dsp_model.py
--   Monitoring/Receive, Monitoring/ReceiveTotals   receive/receive_model.py, stat/stat_model.py
--   DiskMonitor, DiskMonitor/Runs   dsp/disk_monitor_task.py as a step relation
--   Background             util/background_task.py: states, run and the reaping; Background/Reaping
--   Background/Thread, Background/Invariant, Background/Ends   a task's owner and its thread as
--                          steps, what they keep, and a stop that comes too early
--   Resources, Resources/*  smrb/smrb_util.py, receive/receive_util.py, dsp/dsp_util.py, stat/stat_util.py
--                          and band/band_config.py: the resources of a subband, the keys of the ring
--                          buffers as text, and the requests
--   Remote, Remote/Overall, Remote/Immediate   util/remote_task.py
--   Proxy, Proxy/Objects, Proxy/Sound, Proxy/Events   device_proxy.py: the subscriptions to change
--                          events, whose objects stand in a list that proxy and subscribers share
--   Timeouts, Timeouts/*   util/timeout_iterator.py: its consumer and its thread as steps
--   Floats                 floating point numbers, an interface
--   */Examples, Beam/ReportExamples, Beam/Runs   concrete runs
--
-- How state and calls correspond. A Python object is a record; a method is a function on it, or an
-- action of the monad where it calls out and may raise. Threads are step relations, one step for each
-- section between locks, and runs are lists of steps, so that a theorem about runs is about every
-- interleaving of those steps. Contexts that several threads share stand in a store under a number. What a device
-- answers, what gRPC comes to and which call raises are parameters of any value. Calls out are kept in a
-- list, the latest first. Numbers are natural numbers; there is no arithmetic that could overflow.
--
-- Functions recur on lists, and the one loop that waits for others, the parallel handler, is a step
-- relation with a bound on its steps. The loop of `_reap` has fuel, as many turns as there are tasks at
-- its start, which is enough since each turn moves the index on and the list does not grow.
--
-- The digits of a key have fuel, one more than the number, which is enough since each digit divides it.
--
-- Not modelled: the attributes and commands of the Tango devices and proxies, the making of proxies,
-- logging, the constructors that only connect objects, the generated protobuf code, and the threads'
-- start and shutdown. Of the queues only the one worker of the sequential queue is in the model,
-- since a task can wait for it; workers of the parallel queue are taken to be enough. The random
-- data of the simulators has no model. Floating point numbers are an interface (`Floats`); `int`,
-- the names of a status and the text of values that are passed on are parameters. The library's base
-- classes of devices and managers are interfaces (`Device.Library`, the communication state of a
-- manager). A completion callback runs as one piece. `generate_dsp_scan_request` is a parameter of
-- `configure_scan_completion`. The calls of a device proxy and its events come one after the other
-- (`Proxy`), and some lines of a background task are one step (`Background/Thread`): what other
-- threads do between them is not modelled. A nested sequential task has no end in the model
-- (`Job/Executor`).
mod Prelude
mod Effects
mod Floats
pub mod ObsState
pub mod Job
pub mod Beam
pub mod Process
pub mod Monitoring
pub mod DiskMonitor
pub mod Background
pub mod Resources
pub mod Remote
pub mod Manager
pub mod Device
pub mod Proxy
pub mod Timeouts
