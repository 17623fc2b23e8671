-- ===== src/Beam/Order.antt =====
-- In which order the BEAM sends the commands of a job to its devices
-- (src/ska_pst_lmc/beam/beam_component_manager.py).
use ska_pst_lmc.Prelude.{
  String, ◌≡◌, refl, sym, ◌≢◌, ◌⊎◌, inl, inr, Bool, true, false, ◌||◌, List, [], ◌∷◌, All, arith,
}
use ska_pst_lmc.Job.{Tasks, device_command, cons, Outcome, success}
use ska_pst_lmc.Job.Executor.{In, first, later, pairs, commands, Ends}
use ska_pst_lmc.Job.ExecutorSound.{Succeeds}
use ska_pst_lmc.Job.ExecutorOrder.{Reached, now, after, sequential_order}
use ska_pst_lmc.Beam.{Device, smrb, recv, dsp, stat, Action, Lambda, remote_devices}
use ska_pst_lmc.Beam.Jobs.{configure_scan_job, deconfigure_scan_job, stop_scan_job}

abbrev pub is_device : Device → Device → Bool
is_device smrb smrb = true
is_device recv recv = true
is_device dsp dsp = true
is_device stat stat = true
is_device _ _ = false

abbrev pub member : Device → List Device → Bool
member d [] = false
member d (x ∷ xs) = is_device x d || member d xs

pub is_device_self : (d : Device) → is_device d d ≡ true
is_device_self smrb = refl
is_device_self recv = refl
is_device_self dsp = refl
is_device_self stat = refl

pub pairs-In :
    (d : Device) (ds : List Device) (a b : Action)
    → In (d, a) (pairs ds b)
    → (member d ds ≡ true) × (b ≡ a)
pairs-In d [] a b i = elim i [ ]
pairs-In d (x ∷ xs) a b (first e) = let same : x ≡ d = cc in (ground (arith, is_device_self d), cc)
pairs-In d (x ∷ xs) a b (later i) = let (m, e) = pairs-In d xs a b i in (ground arith, e)

not_smrb : (d : Device) (a b : Action) → (d ≢ smrb) ⊎ (b ≢ a) → ¬ In (d, a) (pairs (smrb ∷ []) b)
not_smrb d a b other (first e) = elim other [
  | inl x ↦ let same : d ≡ smrb = cc in x same
  | inr y ↦ let same : b ≡ a = cc in y same
]
not_smrb d a b other (later i) = elim i [ ]

module _ {E : Type 0} {answers : Device → Action → Outcome E → Type 0} where
  -- A command that is not of the first subtask waits for it.
  pub waits :
      {d : Device} {a : Action} {ds : List Device} {b : Action} {name : String}
      {ts : Tasks Device Action Lambda}
      → Reached answers (d, a) (cons (device_command ds b name) ts)
      → ¬ In (d, a) (pairs ds b)
      → All (Succeeds answers) (pairs ds b) × Reached answers (d, a) ts
  unfolding commands
  waits (now i) other = absurd (other i)
  waits (after h r) other = (h, r)

  pub waits_elsewhere :
      {d : Device} {a : Action} {ds : List Device} {b : Action} {name : String}
      {ts : Tasks Device Action Lambda}
      → Reached answers (d, a) (cons (device_command ds b name) ts)
      → member d ds ≡ false
      → All (Succeeds answers) (pairs ds b) × Reached answers (d, a) ts
  waits_elsewhere {d} {a} {ds} {b} r out = waits r (λ i. let (m, e) = pairs-In d ds a b i in cc)

  waits_unlike :
      {d : Device} {a : Action} {ds : List Device} {b : Action} {name : String}
      {ts : Tasks Device Action Lambda}
      → Reached answers (d, a) (cons (device_command ds b name) ts)
      → b ≢ a
      → All (Succeeds answers) (pairs ds b) × Reached answers (d, a) ts
  waits_unlike {d} {a} {ds} {b} r unlike = waits r (λ i. unlike (pairs-In d ds a b i).1)

module _ {E R : Type 0} {answers : Device → Action → Outcome E → Type 0}
    {calls : Lambda → Outcome E → Type 0} where
  -- Of the commands that stop a scan, those of DSP and STAT are sent only after RECV has ended its
  -- scan with success, and that of SMRB only after RECV, DSP and STAT have.
  pub stop_scan_order :
      (busy : Bool) (sent : List (Device × Action)) (o : Outcome E)
      → Ends Device Action Lambda E R answers calls busy stop_scan_job sent o
      → (In (dsp, Action.end_scan) sent → answers recv Action.end_scan success)
        × (In (stat, Action.end_scan) sent → answers recv Action.end_scan success)
        × (In (smrb, Action.end_scan) sent
            → answers recv Action.end_scan success
              × answers dsp Action.end_scan success
              × answers stat Action.end_scan success)
  unfolding stop_scan_job
  stop_scan_order busy sent o run = (
    (λ i. (waits_elsewhere (sequential_order busy _ sent o _ run i) refl).0.0),
    (λ i. (waits_elsewhere (sequential_order busy _ sent o _ run i) refl).0.0),
    (λ i.
        let (first_ok, rest) = waits_elsewhere (sequential_order busy _ sent o _ run i) refl in
        let (second_ok, rest') = waits_elsewhere rest refl in
        (first_ok.0, second_ok.0, second_ok.1.0)),
  )

  -- To configure a scan, `ConfigureBeam` goes to SMRB first: any other command is sent only after
  -- SMRB answered it with success. `ConfigureScan` goes to no device before every `ConfigureBeam` was
  -- answered with success, and to DSP only after SMRB, RECV and STAT were configured.
  pub configure_scan_order :
      (request_str : String) (busy : Bool) (sent : List (Device × Action)) (o : Outcome E)
      (d : Device) (a : Action)
      → Ends Device Action Lambda E R answers calls busy (configure_scan_job request_str) sent o
      → In (d, a) sent
      → ((d ≢ smrb) ⊎ (a ≢ Action.configure_beam request_str)
          → answers smrb (Action.configure_beam request_str) success)
        × (a ≡ Action.configure_scan request_str
            → All (λ x. answers x (Action.configure_beam request_str) success) remote_devices
              × (d ≡ dsp
                  → All
                      (λ x. answers x (Action.configure_scan request_str) success)
                      (smrb ∷ recv ∷ stat ∷ [])))
  unfolding configure_scan_job
  configure_scan_order request_str busy sent o d a run i =
      let r = sequential_order busy _ sent o _ run i in
      (
        (λ other.
            (waits r
              (not_smrb d a _ (elim other [ inl x ↦ inl x | inr y ↦ inr (λ e. y (sym e)) ]))).0.0),
        (λ scan.
            let unlike : Action.configure_beam request_str ≢ a = (λ e. cc (e, scan)) in
            let (h, r') = waits_unlike r unlike in
            let (k, r'') = waits_unlike r' unlike in
            ((h.0, (k.1.0, (k.0, (k.1.1.0, tt)))), λ on_dsp. (waits_elsewhere r'' (rw on_dsp)).0)),
      )

  -- To deconfigure a scan, SMRB releases the beam only after every device has deconfigured the scan
  -- and DSP, RECV and STAT have released the beam, all with success; and no device releases the beam
  -- before every device has deconfigured the scan.
  pub deconfigure_scan_order :
      (busy : Bool) (sent : List (Device × Action)) (o : Outcome E) (d : Device)
      → Ends Device Action Lambda E R answers calls busy deconfigure_scan_job sent o
      → In (d, Action.deconfigure_beam) sent
      → All (λ x. answers x Action.deconfigure_scan success) remote_devices
        × (d ≡ smrb → All (λ x. answers x Action.deconfigure_beam success) (dsp ∷ recv ∷ stat ∷ []))
  unfolding deconfigure_scan_job
  deconfigure_scan_order busy sent o d run i =
      let (h, r) = waits_unlike (sequential_order busy _ sent o _ run i) (λ e. cc) in
      (h, λ on_smrb. (waits_elsewhere r (rw on_smrb)).0)
